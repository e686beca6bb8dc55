-- ===== src/Tile/Bids.antt =====
-- tile/explain.go: `bid` against `matchAt`.
use pktc.Common.{
  ℕ, ◌+◌, ltb, ◌≡◌, refl, ap, ◌∙◌, Bool, true, false, not, ◌&&◌, inl, inr, List, [], ◌∷◌, length,
  drop, Bool-cases, Text, text_eq, bytes, if◌then◌else◌,
}
use pktc.Ast.{name_of}
use pktc.Spine.{Spine, slice}
use pktc.Tile.{Tile, pattern_matches, guard_holds, fits, match_at}
use pktc.Tile.Explain.{bid_pattern, bid, attempts}

bid_pattern-empty :
    (p : List Text) (sp : Spine) (k : ℕ) (x : Text)
    → text_eq (bid_pattern p sp k x) [] ≡ (pattern_matches p sp && text_eq x [])
unfolding bid_pattern pattern_matches
bid_pattern-empty [] sp k x = refl
bid_pattern-empty (w ∷ ws) [] k x = unfold bytes text_eq in refl
bid_pattern-empty (w ∷ ws) (n ∷ sp) k x = elim (Bool-cases (text_eq (name_of n) w)) [
  | inl same ↦ rw (same, bid_pattern-empty ws sp (k + 1) x)
  | inr other ↦ rw other (unfold bytes text_eq in refl)
]

guard-empty :
    (g : Bool)
    → text_eq (if not g then bytes "shape matches, but a field value ruled it out" else []) [] ≡ g
unfolding bytes text_eq
guard-empty true = refl
guard-empty false = refl

-- A bid gives no reason exactly when `matchAt` would report the tile.
pub bid-fits : (t : Tile) (sp : Spine) (i : ℕ) → text_eq (bid t sp i) [] ≡ fits t sp i
unfolding bid fits
bid-fits t sp i = elim (Bool-cases (ltb (length sp) (i + length t.pattern))) [
  | inl long ↦ rw long (unfold bytes text_eq in refl)
  | inr short ↦ rw short (
      bid_pattern-empty t.pattern (drop i sp) i _
      ∙ ap (λ g. pattern_matches t.pattern (drop i sp) && g)
          (guard-empty (guard_holds t.guard (slice sp i (i + length t.pattern)))))
]

-- So the tiles that `Explain` lets choose are those that `Cover` lets choose.
pub attempts-match_at :
    (ts : List Tile) (sp : Spine) (i : ℕ) → (attempts ts sp i).1 ≡ match_at ts sp i
unfolding attempts match_at
attempts-match_at [] sp i = refl
attempts-match_at (t ∷ ts) sp i = rw (bid-fits t sp i, attempts-match_at ts sp i)
