-- ===== src/Tile/Loop.antt =====
-- tile/cover.go: the end of the loop of `Cover`, and a rule for what holds there.
use pktc.Common.{
  ℕ, zero, suc, ◌+◌, ◌-◌, ◌<◌, ◌≤◌, ltb, ◌≡◌, refl, true, false, ◌⊎◌, inl, inr, List, [], ◌∷◌,
  length, arith, none, some, Text,
}
use pktc.Diag.{Result, Returns, returns, Returns-bind, Returns-if}
use pktc.Spine.{Spine, slice}
use pktc.Tile.{Tile, fits, match_at, best, is_empty}
use pktc.Tile.Choice.{Among}
use pktc.Tile.Order.{choice, choice_of, choice_sound}
use pktc.Tile.Cover.{State, run_lower, advance, cover_round, cover_loop}

-- Every tile of the set has a pattern.
abbrev pub HasPatterns : List Tile → Type 0
HasPatterns ts = (t : Tile) → Among t ts → is_empty t.pattern ≡ false

pub fits-le :
    (t : Tile) (sp : Spine) (i : ℕ) → fits t sp i ≡ true → i + length t.pattern ≤ length sp
unfolding fits
fits-le t sp i h = ground arith

pub pattern-pos : (p : List Text) → is_empty p ≡ false → 0 < length p
pattern-pos [] h = cc
pattern-pos (w ∷ ws) h = omega arith

-- What ends the loop: nothing is left, or nothing fits.
unfoldable pub Stopped : List Tile → Spine → State → Type 0
Stopped ts sp s = (length sp ≤ s.i) ⊎ (choice ts sp s.i ≡ none)

module _ (ts : List Tile) (sp : Spine) (patterns : HasPatterns ts) (Inv : State → Type 0)
    (keep : (s : State) (t : Tile)
      → Inv s
      → choice ts sp s.i ≡ some t
      → Returns
          (λ r. Inv (advance t s r))
          (run_lower t.lower (slice sp s.i (s.i + length t.pattern)) s.env)) where
  cover_round-Inv :
      (next : State → Result State) (s : State) (ms : List Tile)
      → choice ts sp s.i ≡ choice_of ms
      → Inv s
      → ((t : Tile) (q : State)
          → choice ts sp s.i ≡ some t
          → q.i ≡ s.i + length t.pattern
          → Inv q
          → Returns (λ s'. Inv s' × Stopped ts sp s') (next q))
      → Returns (λ s'. Inv s' × Stopped ts sp s') (cover_round next sp s ms)
  unfolding cover_round Stopped
  cover_round-Inv next s [] e h more = returns (h, inr e)
  cover_round-Inv next s (c ∷ cs) e h more =
      Returns-bind (keep s (best c cs) h e)
        λ r inv. more (best c cs) (advance (best c cs) s r) e refl inv

  -- An invariant of the rounds holds where the loop ends, and the loop ends, by its own test or
  -- where nothing fits, within the layers that are left.
  pub cover_loop-Inv :
      (f : ℕ) (s : State)
      → length sp - s.i < f
      → Inv s
      → Returns (λ s'. Inv s' × Stopped ts sp s') (cover_loop f ts sp s)
  unfolding cover_loop choice
  cover_loop-Inv zero s h inv = absurd (omega arith)
  cover_loop-Inv (suc f) s h inv =
      Returns-if (ltb s.i (length sp))
        (λ inside.
          cover_round-Inv (cover_loop f ts sp) s (match_at ts sp s.i) refl inv λ t q chosen at inv'.
            let ((among, fit), _) = choice_sound ts sp s.i t chosen in
            cover_loop-Inv f q
              (shrinks t q inside (fits-le t sp s.i fit) (pattern-pos t.pattern (patterns t among))
                at)
              inv')
        (λ outside. returns (inv, unfold Stopped in inl (ground arith)))
    where
      shrinks :
          (t : Tile) (q : State)
          → ltb s.i (length sp) ≡ true
          → s.i + length t.pattern ≤ length sp
          → 0 < length t.pattern
          → q.i ≡ s.i + length t.pattern
          → length sp - q.i < f
      shrinks t q inside le pos at = let fuel = h in ground arith
