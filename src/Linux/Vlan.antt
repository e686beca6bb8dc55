-- ===== src/Linux/Vlan.antt =====
-- tiles/linux/vlan.go: a tagged interface.
use pktc.Common.{ℕ, Text, bytes, none, some, [], ◌∷◌, ◌++◌}
use pktc.Common.Int.{pos}
use pktc.Diag.{Pos, errorf, wrapped, dynamic_vlan, Result, ok, err, fault, ◌>>=◌, ◌>>◌}
use pktc.Ast.{node_pos}
use pktc.Ast.Reading.{state, reading_pos, require, get}
use pktc.Ast.Props.{vlan_id}
use pktc.Env.{claim, enter}
use pktc.Command.{command}
use pktc.Tile.{Tile, Lowering}
use pktc.Linux.{layer, refuse, u16, is_dynamic_state}

-- `fmt.Sprintf("%s.%d", e.Dev, n)`
unfoldable pub vlan_name : Text → ℕ → Text
vlan_name dev n = dev ++ (b'.' ∷ u16 n)

-- `sexp.Errorf(pos, "%v", err)`
unfoldable pub at_pos {ℓ} : {A : Type ℓ} → Pos → Result A → Result A
at_pos p (ok a) = ok a
at_pos p (err e) = err (errorf p (wrapped e))
at_pos p (fault x) = fault x

-- `VLAN.Lower`
unfoldable pub lower_vlan : Lowering
unfolding at_pos vlan_name
lower_vlan sp e = do
  tag ← layer sp 1
  id ← get tag vlan_id
  refuse (is_dynamic_state (state id)) (errorf (reading_pos id) dynamic_vlan)
  n ← require (bytes "vlan") id
  (dev, e') ← at_pos (node_pos tag) (claim (vlan_name e.dev n) e)
  ok (
    command (bytes "an 802.1Q tag inside Ethernet is a tagged interface on its parent") (
          bytes "ip"
          ∷ bytes "link"
          ∷ bytes "add"
          ∷ bytes "link"
          ∷ e.dev
          ∷ bytes "name"
          ∷ dev
          ∷ bytes "type"
          ∷ bytes "vlan"
          ∷ bytes "id"
          ∷ u16 n
          ∷ [])
        ∷ [],
    enter dev e',
  )

abbrev pub vlan : Tile
vlan = record {
  name = bytes "VLAN";
  pattern = bytes "ethernet" ∷ bytes "vlan" ∷ [];
  priority = pos 0;
  guard = none;
  lower = some lower_vlan;
}
