-- ===== src/Tests/Devices.antt =====
-- Names and devices: package env, and the tile set of tiles/linux.
use pktc.Common.{
  ◌≡◌, refl, Text, bytes, text_eq, has_prefix, contains_text, contains_byte, join, some, List, [],
  ◌∷◌, ◌++◌, map, arith, if◌then◌else◌,
}
use pktc.Diag.{Pos, plain, name_taken, Result, ok, err, Returns, ◌>>=◌}
use pktc.Std.Strconv.{format_uint, digit_value, parse_uint}
use pktc.Std.Netip
use pktc.Sexp.Kind.{k_symbol, k_number}
use pktc.Sexp.Value.{Value, atom}
use pktc.Ast.{Prop, Node, node, none_below, find_prop, lookup}
use pktc.Ast.Reading.{get, require}
use pktc.Spine.{Spine, slice}
use pktc.Env.{Env, new, is_used, numbered, valid_name, claim}
use pktc.Env.Names.{IsName}
use pktc.Command.{Script, safe, quote, command_string}
use pktc.Tile.{match_at, fits, best}
use pktc.Tile.Cover.{cover}
use pktc.Linux.{layer}
use pktc.Linux.Tiles.{linux}
use pktc.Linux.Vxlan.{name_device, lower_vxlan}
use pktc.Linux.Endpoint.{read_endpoint}
use pktc.Linux.Vlan.{vlan_name}
use pktc.Linux.Sound.{new-Sound}
use pktc.Linux.Cover.{Covered, cover-Covered}
use pktc.Linux.Furthest.{Furthest}
use pktc.Linux.Naming.{name_device_taken, vlan_name-IsName}

abbrev eth0 : Env
eth0 = new (bytes "eth0")

name_device_taken_example : name_device (some 100) eth0 ≡ (
    if is_used (bytes "vxlan" ++ format_uint 100) eth0.used
    then err (plain (name_taken (bytes "vxlan" ++ format_uint 100)))
    else ok (
      bytes "vxlan" ++ format_uint 100,
      record eth0 { used = (bytes "vxlan" ++ format_uint 100) ∷ eth0.used },
    ))
name_device_taken_example = name_device_taken 100 eth0 (omega arith)

eth0-IsName : IsName (bytes "eth0")
unfolding bytes
eth0-IsName = record { nonempty = cc; fits = omega arith; legal = refl }

vlan_name-IsName_example : IsName (vlan_name (bytes "eth0") 4094)
vlan_name-IsName_example =
    vlan_name-IsName (bytes "eth0") 4094 eth0-IsName (unfold bytes in omega arith) (omega arith)

abbrev here : Pos
here = record { file = bytes "t.lisp"; line = 1; col = 1 }

abbrev prop : Text → Value → Prop
prop k v = record { key = k; val = v; pos = here }

-- `(ipv4 :src 10.0.0.1 :dst 10.0.0.2 (udp :dst-port 4789 (vxlan :vni 100 (ethernet ...))))`
abbrev outer : Node
outer =
    node (bytes "ipv4")
      (prop (bytes "src") (atom k_symbol (bytes "10.0.0.1") here)
        ∷ prop (bytes "dst") (atom k_symbol (bytes "10.0.0.2") here)
        ∷ [])
      none_below here

abbrev below : Spine
below =
    node (bytes "udp") (prop (bytes "dst-port") (atom k_number (bytes "4789") here) ∷ []) none_below
      here
    ∷ node (bytes "vxlan") (prop (bytes "vni") (atom k_number (bytes "100") here) ∷ []) none_below
        here
    ∷ node (bytes "ethernet") [] none_below here
    ∷ []

cover-Covered_example : Returns (λ (c, e'). Covered eth0 c e') (cover linux (outer ∷ below) eth0)
cover-Covered_example = cover-Covered outer below eth0 (new-Sound (bytes "eth0"))

lines : Result (List Text)
lines = cover linux (outer ∷ below) eth0 >>= λ (c, e'). ok (map command_string c.script)

vxlan-lines :
    lines
    ≡ ok (
        bytes
          "ip link add name vxlan100 type vxlan id 100 local 10.0.0.1 remote 10.0.0.2 dstport 4789 dev eth0"
        ∷ bytes "ip link set vxlan100 up"
        ∷ [])
unfolding lines cover match_at fits slice bytes text_eq best lower_vxlan new read_endpoint claim
    valid_name format_uint digit_value parse_uint has_prefix contains_text contains_byte join
    command_string quote safe get lookup layer name_device pktc.Ast.Props.parse_vni
    pktc.Ast.Props.parse_unsigned pktc.Linux.refuse pktc.Ast.Props.parse_u16
    pktc.Ast.Props.parse_addr Netip.parse_addr Netip.addr_string Netip.is_multicast
    pktc.Linux.Vlan.at_pos pktc.Linux.Endpoint.underlay_address pktc.Command.is_safe_byte
    pktc.Env.enter pktc.Linux.Endpoint.is_multicast pktc.Tile.Address.address_of
    pktc.Tile.Cover.leftover pktc.Ast.Reading.read_prop
vxlan-lines = refl
