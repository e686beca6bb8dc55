-- ===== src/Tile/Cover.antt =====
-- tile/cover.go: `Cover`.
use pktc.Common.{
  ℕ, zero, suc, ◌+◌, ltb, ◌==◌, Text, bytes, Option, none, some, List, [], ◌∷◌, ◌++◌, length, drop,
  text_eq, if◌then◌else◌,
}
use pktc.Diag.{errorf, no_lowering, Result, ok, err, fault, panic, out_of_fuel, ◌>>=◌}
use pktc.Ast.{Node, node_pos}
use pktc.Spine.{Spine, slice, names}
use pktc.Env.{Env}
use pktc.Command.{Script, command}
use pktc.Tile.{Tile, Registry, Lowering, match_at, best, tile_names}
use pktc.Tile.Address.{address_of}

-- `Result`
pub record Covering : Type 0 where
  pub script : Script
  pub applied : List Text
  pub payload : Spine

-- the variables of the loop
pub record State : Type 0 where
  pub i : ℕ
  pub env : Env
  pub script : Script
  pub applied : List Text

-- `t.Lower(sub, e)`; a nil function panics
abbrev pub run_lower : Option Lowering → Lowering
run_lower none sub e = fault panic
run_lower (some f) sub e = f sub e

-- the state behind a round that chose `t`
abbrev pub advance : Tile → State → Script × Env → State
advance t s (cmds, e) = record {
  i = s.i + length t.pattern;
  env = e;
  script = s.script ++ cmds;
  applied = s.applied ++ t.name ∷ [];
}

-- One round: stop where nothing matches, or lower the best match and go on by `next`.
unfoldable pub cover_round : (State → Result State) → Spine → State → List Tile → Result State
cover_round next sp s [] = ok s
cover_round next sp s (c ∷ cs) =
    let t = best c cs in
    run_lower t.lower (slice sp s.i (s.i + length t.pattern)) s.env >>= λ r. next (advance t s r)

-- The loop, with the rounds that are left.
unfoldable pub cover_loop : ℕ → List Tile → Spine → State → Result State
unfolding cover_round
cover_loop zero tiles sp s = fault out_of_fuel
cover_loop (suc f) tiles sp s =
    let round = cover_round (cover_loop f tiles sp) sp s (match_at tiles sp s.i) in
    if ltb s.i (length sp) then round else ok s

-- `ip addr add ADDR dev DEV`
abbrev pub add_address : Text → Text → Script
add_address addr dev =
    command (bytes "address on the tunnel")
      (bytes "ip" ∷ bytes "addr" ∷ bytes "add" ∷ addr ∷ bytes "dev" ∷ dev ∷ [])
    ∷ []

-- `ip link set DEV up`
abbrev pub bring_up : Text → Script
bring_up dev =
    command (bytes "bring " ++ (dev ++ bytes " up"))
      (bytes "ip" ∷ bytes "link" ∷ bytes "set" ∷ dev ∷ bytes "up" ∷ [])
    ∷ []

unfoldable pub bring_all_up : List Text → Script
bring_all_up [] = []
bring_all_up (dev ∷ devs) = bring_up dev ++ bring_all_up devs

-- What is left over: an address goes onto the innermost device, the rest is payload.
unfoldable pub place : Env → Node → Spine → Text → Script × Spine
place e n rest addr = if text_eq addr [] then ([], n ∷ rest) else (add_address addr e.dev, rest)

unfoldable pub leftover : Env → Spine → Result (Script × Spine)
unfolding place
leftover e [] = ok ([], [])
leftover e (n ∷ rest) = address_of n >>= λ addr. ok (place e n rest addr)

-- what follows the loop, `created` devices having been there before it
unfoldable pub finish : Registry → Spine → ℕ → State → Result (Covering × Env)
unfolding leftover bring_all_up
finish r [] created s = fault panic
finish r (n ∷ sp) created s =
    let more =
      (leftover s.env (slice (n ∷ sp) s.i (length (n ∷ sp))) >>= λ (addr, payload). ok (
        record {
          script = s.script ++ (addr ++ bring_all_up (drop created s.env.created));
          applied = s.applied;
          payload = payload;
        },
        s.env,
      )) in
    if s.i == 0
    then err (errorf (node_pos n) (no_lowering (names (n ∷ sp)) r.target (tile_names r.tiles)))
    else more

abbrev pub start : Env → State
start e = record { i = 0; env = e; script = []; applied = [] }

-- `Cover`. A round takes a layer at least, so the loop makes at most `len(spine) + 1` rounds.
unfoldable pub cover : Registry → Spine → Env → Result (Covering × Env)
unfolding cover_loop finish
cover r sp e =
    cover_loop (suc (length sp)) r.tiles sp (start e) >>= λ s. finish r sp (length e.created) s
