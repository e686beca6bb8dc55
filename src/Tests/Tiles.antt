-- ===== src/Tests/Tiles.antt =====
-- The matcher, on a set of two tiles of which one begins the other: package tile.
use pktc.Common.{
  ◌+◌, ◌≤◌, ◌≡◌, ◌↔◌, refl, sym, ◌∙◌, subst, append-nil, inl, inr, true, Text, bytes, text_eq, join,
  none, some, List, [], ◌∷◌, length, arith,
}
use pktc.Common.Int.{pos}
use pktc.Diag.{Pos, ok, Returns, returns}
use pktc.Ast.{Node, node, none_below}
use pktc.Spine.{Spine, slice}
use pktc.Env.{Env, new}
use pktc.Command.{Script}
use pktc.Tile.{Tile, Registry, tile_key, seen_as, new_registry, fits, match_at, best}
use pktc.Tile.Choice.{Among}
use pktc.Tile.Keys.{new_registry_unique}
use pktc.Tile.Order.{choice, choice_sound, choice_order}
use pktc.Tile.Loop.{HasPatterns, Stopped, cover_loop-Inv}
use pktc.Tile.Greedy.{PrefixFree, Greedy, here, more, stop, step, Greedy-furthest}
use pktc.Tile.Apart.{all_apart-PrefixFree}
use pktc.Tile.Address.{address_of}
use pktc.Tile.Cover.{State, run_lower, advance, Covering, cover_loop, leftover, start, cover}
use pktc.Tile.Explain.{Explanation, explain}
use pktc.Tile.Agree.{Records, cover-explain}

abbrev nowhere : Pos
nowhere = record { file = []; line = 1; col = 1 }

abbrev layer : Text → Node
layer name = node name [] none_below nowhere

-- a tile that does nothing
abbrev tile : Text → List Text → Tile
tile name pattern = record {
  name = name;
  pattern = pattern;
  priority = pos 0;
  guard = none;
  lower = some (λ sp e. ok ([], e));
}

abbrev short : Tile
short = tile (bytes "short") (bytes "ipv4" ∷ [])

abbrev long : Tile
long = tile (bytes "long") (bytes "ipv4" ∷ bytes "gre" ∷ [])

abbrev packet : Spine
packet = layer (bytes "ipv4") ∷ layer (bytes "gre") ∷ layer (bytes "ethernet") ∷ []

match_at_packet : match_at (short ∷ long ∷ []) packet 0 ≡ short ∷ long ∷ []
unfolding match_at fits bytes text_eq slice
match_at_packet = refl

accepted :
    new_registry (bytes "none") (short ∷ long ∷ [])
    ≡ ok (record { target = bytes "none"; tiles = short ∷ long ∷ [] })
unfolding new_registry tile_key seen_as bytes text_eq join
accepted = refl

new_registry_unique_example : short ≡ short
new_registry_unique_example =
    new_registry_unique (bytes "none") (short ∷ long ∷ []) accepted short short (inl refl)
      (inl refl) refl refl

-- the same tiles the other way round
same_tiles : (t : Tile) → Among t (long ∷ short ∷ []) ↔ Among t (short ∷ long ∷ [])
same_tiles t = (swap long short, swap short long)
  where
    swap : (a b : Tile) → Among t (a ∷ b ∷ []) → Among t (b ∷ a ∷ [])
    swap a b (inl e) = inr (inl e)
    swap a b (inr (inl e)) = inl e
    swap a b (inr (inr e)) = absurd e

choice_order_example : choice (long ∷ short ∷ []) packet 0 ≡ choice (short ∷ long ∷ []) packet 0
choice_order_example =
    choice_order (bytes "none") (short ∷ long ∷ []) accepted (long ∷ short ∷ []) same_tiles packet 0

patterns : HasPatterns (long ∷ [])
patterns t (inl e) = rw e refl
patterns t (inr m) = absurd m

free : PrefixFree (long ∷ [])
free = all_apart-PrefixFree (long ∷ []) refl

abbrev env : Env
env = new (bytes "eth0")

-- where the loop stands behind `long`
abbrev end : State
end = advance long (start env) ([], env)

end-Stopped : Stopped (long ∷ []) packet end
unfolding Stopped choice match_at fits slice bytes text_eq
end-Stopped = inr refl

end-Greedy : Greedy (long ∷ []) packet 0 end.i
unfolding choice match_at fits slice bytes text_eq best
end-Greedy = more long here refl

long-fits : fits long packet 0 ≡ true
unfolding fits slice bytes text_eq
long-fits = refl

Greedy-furthest_example : 2 ≤ end.i
Greedy-furthest_example =
    Greedy-furthest (long ∷ []) packet free patterns end end-Greedy end-Stopped
      (step long (inl refl) long-fits stop)

-- The commands stay few: here a lowering emits none.
abbrev Quiet : State → Type 0
Quiet s = s.script ≡ []

keep :
    (s : State) (t : Tile)
    → Quiet s
    → choice (long ∷ []) packet s.i ≡ some t
    → Returns
        (λ r. Quiet (advance t s r))
        (run_lower t.lower (slice packet s.i (s.i + length t.pattern)) s.env)
keep s t q chosen =
    let ((among, fit), _) = choice_sound (long ∷ []) packet s.i t chosen in
    elim among [
      | inl e ↦
          subst
            (λ u.
              Returns (λ r. Quiet (advance u s r))
                (run_lower u.lower (slice packet s.i (s.i + length u.pattern)) s.env))
            (sym e) (returns (append-nil s.script ∙ q))
      | inr m ↦ absurd m
    ]

cover_loop-Inv_example :
    Returns
      (λ s. Quiet s × Stopped (long ∷ []) packet s)
      (cover_loop 4 (long ∷ []) packet (start env))
cover_loop-Inv_example =
    cover_loop-Inv (long ∷ []) packet patterns Quiet keep 4 (start env) (omega arith) refl

abbrev one_tile : Registry
one_tile = record { target = bytes "none"; tiles = long ∷ [] }

abbrev covering : Covering
covering = record {
  script = [];
  applied = bytes "long" ∷ [];
  payload = layer (bytes "ethernet") ∷ [];
}

covered : cover one_tile packet env ≡ ok (covering, env)
unfolding cover match_at fits slice bytes text_eq best address_of new
covered = refl

cover-explain_example :
    (x : Explanation) × (explain one_tile packet ≡ ok x)
    × Records x.steps covering.applied
    × ((script : Script) × leftover env x.leftover ≡ ok (script, covering.payload))
cover-explain_example = cover-explain one_tile packet env env covering covered
