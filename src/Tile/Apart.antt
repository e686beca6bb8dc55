-- ===== src/Tile/Apart.antt =====
-- A test on a tile set, by which no pattern begins another.
use pktc.Common.{
  ◌==◌, ◌||◌, ◌&&◌, not, ◌≡◌, inl, inr, refl, Bool, true, Text, text_eq, text_eq_iff, List, [], ◌∷◌,
  length, all, arith,
}
use pktc.Ast.{name_of}
use pktc.Spine.{Spine}
use pktc.Tile.{Tile, pattern_matches}
use pktc.Tile.Choice.{Among}
use pktc.Tile.Greedy.{PrefixFree}

-- Does one of the patterns begin the other?
abbrev pub begins : List Text → List Text → Bool
begins [] q = true
begins (a ∷ p) [] = true
begins (a ∷ p) (b ∷ q) = text_eq a b && begins p q

abbrev pub apart : Tile → Tile → Bool
apart t u = length t.pattern == length u.pattern || not (begins t.pattern u.pattern)

-- every tile against every tile
abbrev pub all_apart : List Tile → Bool
all_apart ts = all (λ t. all (apart t) ts) ts

matches-begins :
    (p q : List Text) (sp : Spine)
    → pattern_matches p sp ≡ true
    → pattern_matches q sp ≡ true
    → begins p q ≡ true
unfolding pattern_matches
matches-begins [] q sp h k = refl
matches-begins (a ∷ p) [] sp h k = refl
matches-begins (a ∷ p) (b ∷ q) [] h k = cc
matches-begins (a ∷ p) (b ∷ q) (n ∷ sp) h k = ground (
  arith,
  matches-begins p q sp,
  text_eq_iff (name_of n) a,
  text_eq_iff (name_of n) b,
  text_eq_iff a b,
)

all-Among :
    (f : Tile → Bool) (t : Tile) (ts : List Tile) → all f ts ≡ true → Among t ts → f t ≡ true
all-Among f t [] h m = absurd m
all-Among f t (u ∷ us) h (inl here) = rw here (ground arith)
all-Among f t (u ∷ us) h (inr later) = all-Among f t us (ground arith) later

-- A set that passes the test is free of patterns that begin one another.
pub all_apart-PrefixFree : (ts : List Tile) → all_apart ts ≡ true → PrefixFree ts
all_apart-PrefixFree ts h t u sp m k match_t match_u =
    let tested : apart t u ≡ true =
      all-Among (apart t) u ts (all-Among (λ t. all (apart t) ts) t ts h m) k in
    let begun = matches-begins t.pattern u.pattern sp match_t match_u in ground arith
