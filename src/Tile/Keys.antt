-- ===== src/Tile/Keys.antt =====
-- tile/tile.go: the tests of `NewRegistry`, and the tiles that `matchAt` reports.
use pktc.Common.{
  ℕ, ◌≡◌, ◌≢◌, ◌↔◌, refl, ap, sym, ◌∙◌, ◌⊎◌, inl, inr, Bool, true, false, List, [], ◌∷◌, arith,
  Bool-cases, if◌then◌else◌, Text, text_eq, text_eq_iff, Option, none, some,
}
use pktc.Diag.{Result, ok, >>=-eq-ok}
use pktc.Spine.{Spine}
use pktc.Tile.{
  Tile, Registry, tile_key, seen_as, is_empty, is_nil, check_key, check_tiles, new_registry, fits,
  match_at,
}
use pktc.Tile.Choice.{Among}

-- what passed the tests on one tile
record Passed (t : Tile) (ts : List Tile) (seen : List (Text × Text)) : Type 0 where
  full : is_empty t.pattern ≡ false
  lowers : is_nil t.lower ≡ false
  new : seen_as (tile_key t) seen ≡ none
  later : check_tiles ts ((tile_key t, t.name) ∷ seen) ≡ ok tt

check_key-ok :
    (t : Tile) (found : Option Text) (later : Result (Unit {0}))
    → check_key t found later ≡ ok tt
    → (found ≡ none) × (later ≡ ok tt)
unfolding check_key
check_key-ok t none later h = (refl, h)
check_key-ok t (some prev) later h = cc

check_tiles-Passed :
    (t : Tile) (ts : List Tile) (seen : List (Text × Text))
    → check_tiles (t ∷ ts) seen ≡ ok tt
    → Passed t ts seen
unfolding check_tiles
check_tiles-Passed t ts seen h = elim (Bool-cases (is_empty t.pattern)) [
  | inl bare ↦ cc (rw bare at h)
  | inr full ↦ elim (Bool-cases (is_nil t.lower)) [
    | inl missing ↦ cc (rw (full, missing) at h)
    | inr there ↦
        let (new, later) = check_key-ok t (seen_as (tile_key t) seen) _ (rw (full, there) at h) in
        record { full = full; lowers = there; new = new; later = later }
  ]
]

seen_as-head :
    (k j n : Text) (seen : List (Text × Text))
    → seen_as k ((j, n) ∷ seen) ≡ none
    → (text_eq j k ≡ false) × (seen_as k seen ≡ none)
unfolding seen_as
seen_as-head k j n seen h = ground arith

check_tiles-new :
    (t : Tile) (ts : List Tile) (seen : List (Text × Text))
    → check_tiles ts seen ≡ ok tt
    → Among t ts
    → seen_as (tile_key t) seen ≡ none
check_tiles-new t [] seen h m = absurd m
check_tiles-new t (u ∷ us) seen h (inl here) = rw here (check_tiles-Passed u us seen h).new
check_tiles-new t (u ∷ us) seen h (inr later) =
    (seen_as-head (tile_key t) (tile_key u) u.name seen (
      check_tiles-new t us ((tile_key u, u.name) ∷ seen) (check_tiles-Passed u us seen h).later
        later)).1

-- a later tile has another key
check_tiles-ne :
    (t u : Tile) (us : List Tile) (seen : List (Text × Text))
    → check_tiles (u ∷ us) seen ≡ ok tt
    → Among t us
    → tile_key t ≢ tile_key u
check_tiles-ne t u us seen h m e =
    let (other, _) = seen_as-head (tile_key t) (tile_key u) u.name seen (
      check_tiles-new t us ((tile_key u, u.name) ∷ seen) (check_tiles-Passed u us seen h).later
        m) in
    cc ((text_eq_iff (tile_key u) (tile_key t)).1 (sym e), other)

check_tiles_unique :
    (t u : Tile) (ts : List Tile) (seen : List (Text × Text))
    → check_tiles ts seen ≡ ok tt
    → Among t ts
    → Among u ts
    → tile_key t ≡ tile_key u
    → t ≡ u
check_tiles_unique t u [] seen h m k e = absurd m
check_tiles_unique t u (v ∷ vs) seen h (inl a) (inl b) e = a ∙ sym b
check_tiles_unique t u (v ∷ vs) seen h (inl a) (inr k) e =
    absurd (check_tiles-ne u v vs seen h k (sym e ∙ ap tile_key a))
check_tiles_unique t u (v ∷ vs) seen h (inr m) (inl b) e =
    absurd (check_tiles-ne t v vs seen h m (e ∙ ap tile_key b))
check_tiles_unique t u (v ∷ vs) seen h (inr m) (inr k) e =
    check_tiles_unique t u vs ((tile_key v, v.name) ∷ seen) (check_tiles-Passed v vs seen h).later m
      k e

new_registry-check :
    (target : Text) (tiles : List Tile) {r : Registry}
    → new_registry target tiles ≡ ok r
    → check_tiles tiles [] ≡ ok tt
unfolding new_registry
new_registry-check target tiles h = (>>=-eq-ok (check_tiles tiles []) _ h).1

-- `NewRegistry` accepts a tile set only if two of its tiles that share a pattern and a priority
-- are one tile.
pub new_registry_unique :
    (target : Text) (tiles : List Tile) {r : Registry}
    → new_registry target tiles ≡ ok r
    → (t u : Tile) → Among t tiles
    → Among u tiles
    → t.pattern ≡ u.pattern
    → t.priority ≡ u.priority
    → t ≡ u
unfolding tile_key
new_registry_unique target tiles h t u m k pattern priority =
    check_tiles_unique t u tiles [] (new_registry-check target tiles h) m k (cc pattern)

-- every tile of an accepted set has a pattern and a `Lower`
pub new_registry-full :
    (target : Text) (tiles : List Tile) {r : Registry}
    → new_registry target tiles ≡ ok r
    → (t : Tile) → Among t tiles
    → (is_empty t.pattern ≡ false) × (is_nil t.lower ≡ false)
new_registry-full target tiles h t m = full tiles [] (new_registry-check target tiles h) m
  where
    full :
        (ts : List Tile) (seen : List (Text × Text))
        → check_tiles ts seen ≡ ok tt
        → Among t ts
        → (is_empty t.pattern ≡ false) × (is_nil t.lower ≡ false)
    full [] seen h m = absurd m
    full (u ∷ us) seen h (inl here) =
        let p = check_tiles-Passed u us seen h in rw here (p.full, p.lowers)
    full (u ∷ us) seen h (inr later) =
        full us ((tile_key u, u.name) ∷ seen) (check_tiles-Passed u us seen h).later later

Among-if :
    (t u : Tile) (b : Bool) (rest : List Tile)
    → Among t (if b then u ∷ rest else rest)
    → ((t ≡ u) × (b ≡ true)) ⊎ Among t rest
Among-if t u true rest (inl here) = inl (here, refl)
Among-if t u true rest (inr later) = inr later
Among-if t u false rest m = inr m

Among-if_here :
    (t u : Tile) (b : Bool) (rest : List Tile)
    → t ≡ u
    → b ≡ true
    → Among t (if b then u ∷ rest else rest)
Among-if_here t u true rest e h = inl e
Among-if_here t u false rest e h = cc

Among-if_later :
    (t u : Tile) (b : Bool) (rest : List Tile)
    → Among t rest
    → Among t (if b then u ∷ rest else rest)
Among-if_later t u true rest m = inr m
Among-if_later t u false rest m = m

module _ (t : Tile) (sp : Spine) (i : ℕ) where
  match_at-fits : (ts : List Tile) → Among t (match_at ts sp i) → Among t ts × (fits t sp i ≡ true)
  unfolding match_at
  match_at-fits [] m = absurd m
  match_at-fits (u ∷ us) m = elim (Among-if t u (fits u sp i) (match_at us sp i) m) [
    | inl (here, f) ↦ (inl here, rw here f)
    | inr later ↦ let (among, f) = match_at-fits us later in (inr among, f)
  ]

  fits-match_at : (ts : List Tile) → Among t ts → fits t sp i ≡ true → Among t (match_at ts sp i)
  unfolding match_at
  fits-match_at [] m f = absurd m
  fits-match_at (u ∷ us) (inl here) f =
      Among-if_here t u (fits u sp i) (match_at us sp i) here (rw (← here) f)
  fits-match_at (u ∷ us) (inr later) f =
      Among-if_later t u (fits u sp i) (match_at us sp i) (fits-match_at us later f)

pub match_at_iff :
    (t : Tile) (ts : List Tile) (sp : Spine) (i : ℕ)
    → Among t (match_at ts sp i) ↔ (Among t ts × (fits t sp i ≡ true))
match_at_iff t ts sp i = (match_at-fits t sp i ts, λ (m, f). fits-match_at t sp i ts m f)
