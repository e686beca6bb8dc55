-- ===== src/Tile.antt =====
-- tile/tile.go: tiles, the registry of one target, and the matcher.
pub mod Address
pub mod Cover
pub mod Explain
pub mod Choice
pub mod Keys
pub mod Order
pub mod Loop
pub mod Bids
pub mod Agree
pub mod Report
pub mod Greedy
pub mod Apart
use pktc.Common.{
  ℕ, suc, ◌+◌, ltb, ◌==◌, ◌&&◌, ◌||◌, not, Bool, true, false, Text, bytes, text_eq, Option, none,
  some, List, [], ◌∷◌, ◌++◌, map, join, length, drop, if◌then◌else◌,
}
use pktc.Common.Int.{ℤ, pos, negsuc, ◌<ℤ◌}
use pktc.Diag.{plain, empty_pattern, no_lower, shared_pattern, Result, ok, err, ◌>>=◌}
use pktc.Std.Strconv.{format_int}
use pktc.Ast.{Node, name_of}
use pktc.Spine.{Spine, slice}
use pktc.Env.{Env}
use pktc.Command.{Script}

-- what `Lower` is: commands, and the environment as it leaves it
abbrev pub Lowering : Type 0
Lowering = Spine → Env → Result (Script × Env)

-- `Guard` and `Lower` may be nil.
pub record Tile : Type 0 where
  pub name : Text
  pub pattern : List Text
  pub priority : ℤ
  pub guard : Option (Spine → Bool)
  pub lower : Option Lowering

-- `Tile.String`
unfoldable pub tile_string : Tile → Text
tile_string t = join t.pattern (bytes " · ")

pub record Registry : Type 0 where
  pub target : Text
  pub tiles : List Tile

-- the key under which `NewRegistry` remembers a tile
unfoldable pub tile_key : Tile → Text
unfolding format_int
tile_key t = join t.pattern (0 ∷ []) ++ (b'|' ∷ format_int t.priority)

-- `seen[k]`
unfoldable pub seen_as : Text → List (Text × Text) → Option Text
seen_as k [] = none
seen_as k ((j, n) ∷ seen) = if text_eq j k then some n else seen_as k seen

abbrev pub is_nil {ℓ} : {A : Type ℓ} → Option A → Bool
is_nil none = true
is_nil (some a) = false

abbrev pub is_empty : List Text → Bool
is_empty [] = true
is_empty (w ∷ ws) = false

-- The loop of `NewRegistry`; `check_key` is its last test.
unfoldable pub check_key : Tile → Option Text → Result (Unit {0}) → Result (Unit {0})
check_key t none later = later
check_key t (some prev) later = err (plain (shared_pattern prev t.name t.pattern t.priority))

unfoldable pub check_tiles : List Tile → List (Text × Text) → Result (Unit {0})
unfolding check_key tile_key
check_tiles [] seen = ok tt
check_tiles (t ∷ ts) seen =
    let later = check_tiles ts ((tile_key t, t.name) ∷ seen) in
    if is_empty t.pattern
    then err (plain (empty_pattern t.name))
    else if is_nil t.lower
    then err (plain (no_lower t.name))
    else check_key t (seen_as (tile_key t) seen) later

-- `NewRegistry`
unfoldable pub new_registry : Text → List Tile → Result Registry
unfolding check_tiles
new_registry target tiles =
    check_tiles tiles [] >>= λ _. ok (record { target = target; tiles = tiles })

-- `Registry.Names`
unfoldable pub tile_names : List Tile → List Text
tile_names ts = map (λ t. t.name) ts

-- a pattern against the layers from one position on
unfoldable pub pattern_matches : List Text → Spine → Bool
pattern_matches [] sp = true
pattern_matches (want ∷ ws) [] = false
pattern_matches (want ∷ ws) (n ∷ sp) = text_eq (name_of n) want && pattern_matches ws sp

-- `t.Guard == nil || t.Guard(sub)`
abbrev pub guard_holds : Option (Spine → Bool) → Spine → Bool
guard_holds none sub = true
guard_holds (some g) sub = g sub

-- the tests of `matchAt` on one tile
unfoldable pub fits : Tile → Spine → ℕ → Bool
unfolding pattern_matches slice
fits t sp i =
    not (ltb (length sp) (i + length t.pattern))
    && (pattern_matches t.pattern (drop i sp)
        && guard_holds t.guard (slice sp i (i + length t.pattern)))

-- `matchAt`
unfoldable pub match_at : List Tile → Spine → ℕ → List Tile
match_at [] sp i = []
match_at (t ∷ ts) sp i = let rest = match_at ts sp i in if fits t sp i then t ∷ rest else rest

-- the tests of `best`: does `t` displace `pick`?
unfoldable pub displaces : Tile → Tile → Bool
displaces t pick =
    ltb (length pick.pattern) (length t.pattern)
    || (length t.pattern == length pick.pattern && t.priority <ℤ pick.priority)

-- `best`, on the first candidate and the others
unfoldable pub best : Tile → List Tile → Tile
unfolding displaces
best pick [] = pick
best pick (t ∷ ts) = best (if displaces t pick then t else pick) ts
