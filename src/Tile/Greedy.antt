-- ===== src/Tile/Greedy.antt =====
-- tile/cover.go: longest match against any other tiling.
use pktc.Common.{ℕ, ◌+◌, ◌≤◌, ◌≡◌, subst, true, ◌⊎◌, inl, inr, List, length, drop, arith, some}
use pktc.Spine.{Spine}
use pktc.Tile.{Tile, fits, pattern_matches}
use pktc.Tile.Choice.{Among}
use pktc.Tile.Order.{choice, choice_sound, choice_complete, fits-matches}
use pktc.Tile.Loop.{HasPatterns, fits-le, pattern-pos, Stopped}
use pktc.Tile.Cover.{State}

-- Some run of tiles of the set that fit, each behind the one before, from position `i` to `j`.
pub data Tiling (ts : List Tile) (sp : Spine) : ℕ → ℕ → Type 0 where
  stop : {i : ℕ} → Tiling ts sp i i
  step :
      {i j : ℕ} (t : Tile)
      → Among t ts
      → fits t sp i ≡ true
      → Tiling ts sp (i + length t.pattern) j
      → Tiling ts sp i j

-- The run of the tiles that `Cover` chooses.
pub data Greedy (ts : List Tile) (sp : Spine) (i : ℕ) : ℕ → Type 0 where
  here : Greedy ts sp i i
  more :
      {k : ℕ} (t : Tile)
      → Greedy ts sp i k
      → choice ts sp k ≡ some t
      → Greedy ts sp i (k + length t.pattern)

-- Two patterns of the set that match at one place have one length: none begins another.
abbrev pub PrefixFree : List Tile → Type 0
PrefixFree ts =
    (t u : Tile) (sp : Spine)
    → Among t ts
    → Among u ts
    → pattern_matches t.pattern sp ≡ true
    → pattern_matches u.pattern sp ≡ true
    → length t.pattern ≡ length u.pattern

module _ (ts : List Tile) (sp : Spine) (free : PrefixFree ts) where
  same_step :
      (k : ℕ) (t u : Tile)
      → choice ts sp k ≡ some t
      → Among u ts
      → fits u sp k ≡ true
      → length u.pattern ≡ length t.pattern
  same_step k t u chosen among fit =
      let ((t_among, t_fit), _) = choice_sound ts sp k t chosen in
      free u t (drop k sp) among t_among (fits-matches u sp k fit) (fits-matches t sp k t_fit)

  -- past one choice of `Cover` any tiling that goes on goes on from the same place
  past_choice :
      {k j : ℕ} (t : Tile)
      → choice ts sp k ≡ some t
      → Tiling ts sp k j
      → (j ≤ k + length t.pattern) ⊎ Tiling ts sp (k + length t.pattern) j
  past_choice t chosen stop = inl (omega arith)
  past_choice {k} {j} t chosen (step u among fit rest) =
      inr (subst (λ n. Tiling ts sp (k + n) j) (same_step k t u chosen among fit) rest)

  Greedy-Tiling : {i k j : ℕ} → Greedy ts sp i k → Tiling ts sp i j → (j ≤ k) ⊎ Tiling ts sp k j
  Greedy-Tiling here tiling = inr tiling
  Greedy-Tiling (more t greedy chosen) tiling = elim (Greedy-Tiling greedy tiling) [
    | inl behind ↦ inl (omega arith)
    | inr ahead ↦ past_choice t chosen ahead
  ]

  Stopped-Tiling :
      (patterns : HasPatterns ts) (s : State) {j : ℕ}
      → Stopped ts sp s
      → Tiling ts sp s.i j
      → j ≤ s.i
  Stopped-Tiling patterns s h stop = omega arith
  Stopped-Tiling patterns s h (step u among fit rest) =
      unfold Stopped in
      elim h [
        | inl past ↦
            absurd (omega (arith, fits-le u sp s.i fit, pattern-pos u.pattern (patterns u among)))
        | inr stuck ↦ let (b, chosen) = choice_complete ts sp s.i u among fit in cc
      ]

  -- No tiling reaches further than the choices of `Cover` do.
  pub Greedy-furthest :
      HasPatterns ts
      → (s : State) {i j : ℕ} → Greedy ts sp i s.i
      → Stopped ts sp s
      → Tiling ts sp i j
      → j ≤ s.i
  Greedy-furthest patterns s greedy stopped tiling = elim (Greedy-Tiling greedy tiling) [
    | inl behind ↦ behind
    | inr ahead ↦ Stopped-Tiling patterns s stopped ahead
  ]
