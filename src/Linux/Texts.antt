-- ===== src/Linux/Texts.antt =====
-- What `Cover` over the tile set of this target makes of names.
use pktc.Common.{
  ℕ, zero, suc, ◌+◌, ◌-◌, ◌<◌, ◌==◌, ◌≡◌, refl, ◌⊎◌, inl, inr, Text, bytes, text_eq, contains_byte,
  some, [], ◌∷◌, length, length-append, take, drop, All, All-append, if_intro, arith,
}
use pktc.Std.Trim.{OneLine}
use pktc.Diag.{Returns, returns, fails, Returns-bind, Returns-if, Returns-map}
use pktc.Ast.{Node}
use pktc.Spine.{Spine, slice, names}
use pktc.Env.{Env}
use pktc.Command.{Script}
use pktc.Tile.{Tile}
use pktc.Tile.Choice.{All-Among}
use pktc.Tile.Order.{choice, choice_sound}
use pktc.Tile.Loop.{fits-le, cover_loop-Inv}
use pktc.Tile.Cover.{Covering, State, run_lower, advance, place, leftover, finish, start, cover}
use pktc.Linux.Tiles.{tiles, linux}
use pktc.Linux.Cover.{TileGrows, tiles-HasPatterns, tiles-Grow, length-slice}
use pktc.Linux.Grown.{address_of-Returning}

-- A tile is applied, and the names of tiles and of what is left over hold no newline.
pub record Texts (c : Covering) : Type 0 where
  pub some_tile : 0 < length c.applied
  pub applied_fit : All OneLine c.applied
  pub payload_fits : All OneLine (names c.payload)

tile_names-OneLine : All (λ t. OneLine t.name) tiles
unfolding bytes contains_byte
tile_names-OneLine = (refl, (refl, (refl, (refl, (refl, (refl, tt))))))

abbrev Named : State → Type 0
Named s = All OneLine s.applied × ((s.i ≡ 0) ⊎ (0 < length s.applied))

keep-Named :
    (sp : Spine) (s : State) (t : Tile)
    → Named s
    → choice tiles sp s.i ≡ some t
    → Returns
        (λ r. Named (advance t s r))
        (run_lower t.lower (slice sp s.i (s.i + length t.pattern)) s.env)
keep-Named sp s t (fit, _) chosen =
    let ((among, fits), _) = choice_sound tiles sp s.i t chosen in
    Returns-map
      (All-Among TileGrows t tiles tiles-Grow among (slice sp s.i (s.i + length t.pattern)) s.env
        (length-slice sp s.i (length t.pattern) (fits-le t sp s.i fits)))
      λ _ _. (
        All-append OneLine s.applied (t.name ∷ []) fit
            (All-Among (λ u. OneLine u.name) t tiles tile_names-OneLine among, tt),
        inr (omega (arith, length-append s.applied (t.name ∷ []))),
      )

names-drop : (k : ℕ) (sp : Spine) → All OneLine (names sp) → All OneLine (names (drop k sp))
unfolding names
names-drop zero sp h = h
names-drop (suc k) [] h = tt
names-drop (suc k) (n ∷ sp) (_, h) = names-drop k sp h

names-take : (k : ℕ) (sp : Spine) → All OneLine (names sp) → All OneLine (names (take k sp))
unfolding names
names-take zero sp h = tt
names-take (suc k) [] h = tt
names-take (suc k) (n ∷ sp) (first, h) = (first, names-take k sp h)

names-slice : (sp : Spine) (i j : ℕ) → All OneLine (names sp) → All OneLine (names (slice sp i j))
unfolding slice
names-slice sp i j h = names-take (j - i) (drop i sp) (names-drop i sp h)

place-Fits :
    (e : Env) (n : Node) (rest : Spine) (addr : Text)
    → All OneLine (names (n ∷ rest))
    → All OneLine (names (place e n rest addr).1)
unfolding place names
place-Fits e n rest addr (first, h) =
    if_intro (λ (p : Script × Spine). All OneLine (names p.1)) (text_eq addr []) (λ _. (first, h))
      (λ _. h)

leftover-Fits :
    (e : Env) (sp : Spine)
    → All OneLine (names sp)
    → Returns (λ (script, payload). All OneLine (names payload)) (leftover e sp)
unfolding leftover
leftover-Fits e [] h = returns h
leftover-Fits e (n ∷ rest) h =
    Returns-bind (address_of-Returning n) λ addr _. returns (place-Fits e n rest addr h)

finish-Texts :
    (n : Node) (sp : Spine) (created : ℕ) (s : State)
    → All OneLine (names (n ∷ sp))
    → Named s
    → Returns (λ (c, e'). Texts c) (finish linux (n ∷ sp) created s)
unfolding finish
finish-Texts n sp created s h (fit, some_applied) =
    Returns-if (s.i == 0) (λ _. fails _)
      λ moved.
        Returns-bind
          (leftover-Fits s.env (slice (n ∷ sp) s.i (length (n ∷ sp)))
            (names-slice (n ∷ sp) s.i (length (n ∷ sp)) h))
          λ (addr, payload) rest. returns (record {
            some_tile = elim some_applied [
              | inl none ↦ absurd (ground arith)
              | inr some_one ↦ some_one
            ];
            applied_fit = fit;
            payload_fits = rest;
          })

-- Where `Cover` succeeds on layers whose names hold no newline, it has applied a tile, and the names of
-- the tiles applied and of the layers left over hold none.
pub cover-Texts :
    (n : Node) (sp : Spine) (e : Env)
    → All OneLine (names (n ∷ sp))
    → Returns (λ (c, e'). Texts c) (cover linux (n ∷ sp) e)
unfolding cover
cover-Texts n sp e h =
    Returns-bind
      (cover_loop-Inv tiles (n ∷ sp) tiles-HasPatterns Named (keep-Named (n ∷ sp))
        (suc (length (n ∷ sp))) (start e) (omega arith) (tt, inl refl))
      λ s (named, stopped). finish-Texts n sp (length e.created) s h named
