-- ===== src/Tile/Order.antt =====
-- tile/tile.go: choices, and the order in which the tiles of a registry are listed.
use pktc.Common.{
  ℕ, ◌≡◌, ◌↔◌, refl, ap, sym, ◌∙◌, subst, true, List, [], ◌∷◌, length, drop, arith, Text,
  text_eq_iff, Option, none, some,
}
use pktc.Diag.{ok}
use pktc.Ast.{name_of}
use pktc.Spine.{Spine}
use pktc.Tile.{Tile, Registry, new_registry, pattern_matches, fits, match_at, best}
use pktc.Tile.Choice.{Among, NoBetter, best-NoBetter, NoBetter-antisymm, All-Among}
use pktc.Tile.Keys.{new_registry_unique, match_at_iff}

-- the choice that `Cover` and `Explain` make at one position, if any
abbrev pub choice_of : List Tile → Option Tile
choice_of [] = none
choice_of (c ∷ cs) = some (best c cs)

unfoldable pub choice : List Tile → Spine → ℕ → Option Tile
choice ts sp i = choice_of (match_at ts sp i)

-- Two patterns of one length that match at one position are one pattern.
pattern_matches_unique :
    (p q : List Text) (sp : Spine)
    → pattern_matches p sp ≡ true
    → pattern_matches q sp ≡ true
    → length p ≡ length q
    → p ≡ q
unfolding pattern_matches
pattern_matches_unique [] [] sp h k e = refl
pattern_matches_unique [] (b ∷ q) sp h k e = absurd (omega arith)
pattern_matches_unique (a ∷ p) [] sp h k e = absurd (omega arith)
pattern_matches_unique (a ∷ p) (b ∷ q) [] h k e = cc
pattern_matches_unique (a ∷ p) (b ∷ q) (n ∷ sp) h k e =
    ground
      (arith, pattern_matches_unique p q sp, text_eq_iff (name_of n) a, text_eq_iff (name_of n) b)

pub fits-matches :
    (t : Tile) (sp : Spine) (i : ℕ)
    → fits t sp i ≡ true
    → pattern_matches t.pattern (drop i sp) ≡ true
unfolding fits
fits-matches t sp i h = ground arith

-- A choice is a member of the set that fits, and nothing that fits is better.
pub choice_sound :
    (ts : List Tile) (sp : Spine) (i : ℕ) (b : Tile)
    → choice ts sp i ≡ some b
    → (Among b ts × (fits b sp i ≡ true))
      × ((t : Tile) → Among t ts → fits t sp i ≡ true → NoBetter b t)
unfolding choice
choice_sound ts sp i b h = by_matches (match_at ts sp i) refl h
  where
    by_matches :
        (ms : List Tile)
        → match_at ts sp i ≡ ms
        → choice_of ms ≡ some b
        → (Among b ts × (fits b sp i ≡ true))
          × ((t : Tile) → Among t ts → fits t sp i ≡ true → NoBetter b t)
    by_matches [] e h = cc
    by_matches (c ∷ cs) e h =
        let same : best c cs ≡ b = cc h in
        let (among, none_better) = best-NoBetter c cs in
        (
          (match_at_iff b ts sp i).0
              (subst (Among b) (sym e) (subst (λ x. Among x (c ∷ cs)) same among)),
          λ t m f.
              subst (λ x. NoBetter x t) same
                (All-Among (NoBetter (best c cs)) t (c ∷ cs) none_better
                  (subst (Among t) e ((match_at_iff t ts sp i).1 (m, f)))),
        )

-- where something fits there is a choice
pub choice_complete :
    (ts : List Tile) (sp : Spine) (i : ℕ) (t : Tile)
    → Among t ts
    → fits t sp i ≡ true
    → (b : Tile) × (choice ts sp i ≡ some b)
unfolding choice
choice_complete ts sp i t m f = by_matches (match_at ts sp i) refl
  where
    by_matches : (ms : List Tile) → match_at ts sp i ≡ ms → (b : Tile) × (choice_of ms ≡ some b)
    by_matches [] e = absurd (subst (Among t) e ((match_at_iff t ts sp i).1 (m, f)))
    by_matches (c ∷ cs) e = (best c cs, refl)

module _ (target : Text) (ts : List Tile) {r : Registry} (accepted : new_registry target ts ≡ ok r)
    (us : List Tile) (same : (t : Tile) → Among t us ↔ Among t ts) where
  choices-agree :
      (sp : Spine) (i : ℕ) (b c : Tile) → choice us sp i ≡ some b → choice ts sp i ≡ some c → b ≡ c
  choices-agree sp i b c h k =
      let ((b_us, b_fits), b_best) = choice_sound us sp i b h in
      let ((c_ts, c_fits), c_best) = choice_sound ts sp i c k in
      let b_ts = (same b).0 b_us in
      let c_us = (same c).1 c_ts in
      let (size, priority) = NoBetter-antisymm b c (b_best c c_us c_fits) (c_best b b_ts b_fits) in
      new_registry_unique target ts accepted b c b_ts c_ts
        (pattern_matches_unique b.pattern c.pattern (drop i sp) (fits-matches b sp i b_fits)
          (fits-matches c sp i c_fits) size)
        priority

  -- A tile set that `NewRegistry` accepts makes the same choice at every position of every spine,
  -- in whatever order, and however often, its tiles are listed.
  pub choice_order : (sp : Spine) (i : ℕ) → choice us sp i ≡ choice ts sp i
  choice_order sp i = agree (choice us sp i) (choice ts sp i) refl refl
    where
      agree :
          (x y : Option Tile)
          → choice us sp i ≡ x
          → choice ts sp i ≡ y
          → choice us sp i ≡ choice ts sp i
      agree none none e f = e ∙ sym f
      agree (some b) (some c) e f = e ∙ ap some (choices-agree sp i b c e f) ∙ sym f
      agree (some b) none e f =
          let ((m, fit), _) = choice_sound us sp i b e in
          let (c, g) = choice_complete ts sp i b ((same b).0 m) fit in cc
      agree none (some c) e f =
          let ((m, fit), _) = choice_sound ts sp i c f in
          let (b, g) = choice_complete us sp i c ((same c).1 m) fit in cc
