-- ===== src/Linux.antt =====
-- tiles/linux/linux.go and tiles/linux/util.go: what the tiles of this target share.
pub mod Endpoint
pub mod Tunnel
pub mod Vxlan
pub mod Vlan
pub mod Wireguard
pub mod Tiles
pub mod Creates
pub mod Grown
pub mod Devices
pub mod Sound
pub mod Cover
pub mod Furthest
pub mod Texts
pub mod Naming
use pktc.Common.{
  ℕ, Bool, true, false, zero, suc, Text, bytes, text_eq, Option, none, some, List, [], ◌∷◌, ◌++◌,
  if◌then◌else◌,
}
use pktc.Diag.{Error, errorf, dynamic_remote, Result, ok, err, fault, panic, ◌>>=◌}
use pktc.Std.Strconv.{format_uint}
use pktc.Std.Netip.{addr_string}
use pktc.Ast.{Node, name_of}
use pktc.Ast.Reading.{Reading, State, absent, dynamic, concrete, state, reading_pos, require, get}
use pktc.Ast.Props.{src, dst}
use pktc.Spine.{Spine}
use pktc.Command.{Script, command}
use pktc.Tile.Address.{address_of}

abbrev pub target : Text
target = bytes "linux-iproute2"

abbrev pub u32 : ℕ → Text
u32 v = format_uint v

abbrev pub u16 : ℕ → Text
u16 v = format_uint v

-- `sp.At(i)`
unfoldable pub layer : Spine → ℕ → Result Node
layer [] i = fault panic
layer (n ∷ sp) zero = ok n
layer (n ∷ sp) (suc i) = layer sp i

abbrev pub is_dynamic_state : State → Bool
is_dynamic_state dynamic = true
is_dynamic_state _ = false

abbrev pub is_absent_state : State → Bool
is_absent_state absent = true
is_absent_state _ = false

-- an early return of an error
unfoldable pub refuse : Bool → Error → Result (Unit {0})
refuse bad e = if bad then err e else ok tt

-- `endpoints`
unfoldable pub endpoints : Node → Result (Text × Text)
endpoints outer = do
  s ← get outer src
  l ← require (name_of outer) s
  d ← get outer dst
  if is_dynamic_state (state d)
      then err (errorf (reading_pos d) (dynamic_remote (name_of outer)))
      else require (name_of outer) d >>= λ r. ok (addr_string l, addr_string r)

abbrev pub address_script : Text → Text → Script
address_script addr dev =
    if text_eq addr []
    then []
    else command (bytes "address on the tunnel")
        (bytes "ip" ∷ bytes "addr" ∷ bytes "add" ∷ addr ∷ bytes "dev" ∷ dev ∷ [])
      ∷ []

-- `addrOn`
unfoldable pub addr_on : Node → Text → Result Script
addr_on n dev = address_of n >>= λ addr. ok (address_script addr dev)
