-- ===== src/Tests/Ends.antt =====
-- The other two readings of a tree, packages wire and mirror, and the explanation of a cover.
use pktc.Common.{
  ℕ, ◌≡◌, ◌↔◌, refl, false, Text, bytes, text_eq, contains_text, contains_byte, has_prefix, join,
  some, List, [], ◌∷◌, ◌++◌, map,
}
use pktc.Diag.{Pos, Result, ok, Returns, ◌>>=◌}
use pktc.Std.Strconv.{format_uint, digit_value, parse_uint}
use pktc.Std.Netip
use pktc.Std.Netip.{Addr, v4}
use pktc.Sexp.Kind.{k_number, k_string}
use pktc.Sexp.Value.{Value, atom}
use pktc.Ast.{Prop, Node, node, none_below, child, find_prop, lookup, props_of}
use pktc.Ast.Distinct.{Distinct}
use pktc.Ast.Reading.{Reading, is_concrete, get, read_prop}
use pktc.Ast.Props.{src, dst, parse_addr, parse_prefix, parse_vni, parse_u16, parse_unsigned}
use pktc.Env.{Env, new, claim, valid_name, enter}
use pktc.Command.{Script, command}
use pktc.Linux.{layer, refuse}
use pktc.Linux.Endpoint.{read_endpoint, is_multicast, underlay_address}
use pktc.Linux.Vlan.{at_pos}
use pktc.Linux.Vxlan.{lower_vxlan, name_device}
use pktc.Tile.Choice.{Among}
use pktc.Wire.{Fact, fact, Expectation, expect, check}
use pktc.Wire.Check.{check_iff}
use pktc.Wire.Port.{EndsWithPort, lower_vxlan-expect}
use pktc.Mirror.{turn_layer, split_prefix, rebuild, turn, swap_endpoints}
use pktc.Mirror.Far.{peer, settle, settle_innermost, mirror_packet, is_addressed, remove_prop}
use pktc.Mirror.Ends.{IsBare, end_value}
use pktc.Mirror.Twice.{turn_layer_twice}
use pktc.Mirror.Peer.{SameNames, peer-SameNames}

abbrev here : Pos
here = record { file = bytes "t.lisp"; line = 1; col = 1 }

abbrev prop : Text → Value → Prop
prop k v = record { key = k; val = v; pos = here }

-- `(ipv4 :src 10.0.0.1 :dst 10.0.0.2 (udp :dst-port 4789 (vxlan :vni 100)))`
abbrev tunnel : Node
tunnel =
    node (bytes "vxlan") (prop (bytes "vni") (atom k_number (bytes "100") here) ∷ []) none_below
      here

abbrev transport : Node
transport =
    node (bytes "udp") (prop (bytes "dst-port") (atom k_number (bytes "4789") here) ∷ [])
      (child tunnel none_below) here

abbrev outer : Node
outer =
    node (bytes "ipv4")
      (prop (bytes "src") (atom k_string (bytes "10.0.0.1") here)
        ∷ prop (bytes "dst") (atom k_string (bytes "10.0.0.2") here)
        ∷ [])
      (child transport none_below) here

abbrev captured : List Fact
captured = fact (bytes "encapsulation") (bytes "VXLAN") (bytes "VXLAN") ∷ []

check_iff_example :
    Among
      (fact (bytes "encapsulation") (bytes "VXLAN") (bytes "VXLAN"))
      (check captured (bytes "GRE"))
    ↔ (Among (fact (bytes "encapsulation") (bytes "VXLAN") (bytes "VXLAN")) captured
        × (contains_text (bytes "GRE") (bytes "VXLAN") ≡ false))
check_iff_example =
    check_iff (fact (bytes "encapsulation") (bytes "VXLAN") (bytes "VXLAN")) captured (bytes "GRE")

abbrev src_read : Reading Addr
src_read = is_concrete (v4 (10 ∷ 0 ∷ 0 ∷ 1 ∷ [])) here (bytes "src")

abbrev dst_read : Reading Addr
dst_read = is_concrete (v4 (10 ∷ 0 ∷ 0 ∷ 2 ∷ [])) here (bytes "dst")

get-src : get outer src ≡ ok src_read
unfolding get read_prop lookup parse_addr Netip.parse_addr bytes text_eq digit_value has_prefix
get-src = refl

get-dst : get outer dst ≡ ok dst_read
unfolding get read_prop lookup parse_addr Netip.parse_addr bytes text_eq digit_value has_prefix
get-dst = refl

abbrev eth0 : Env
eth0 = new (bytes "eth0")

abbrev script : Script
script =
    command (bytes "Ethernet inside VXLAN is a vxlan device") (
      bytes "ip"
      ∷ bytes "link"
      ∷ bytes "add"
      ∷ bytes "name"
      ∷ bytes "vxlan100"
      ∷ bytes "type"
      ∷ bytes "vxlan"
      ∷ bytes "id"
      ∷ bytes "100"
      ∷ bytes "local"
      ∷ bytes "10.0.0.1"
      ∷ bytes "remote"
      ∷ bytes "10.0.0.2"
      ∷ bytes "dstport"
      ∷ bytes "4789"
      ∷ bytes "dev"
      ∷ bytes "eth0"
      ∷ [])
    ∷ []

abbrev lowered : Env
lowered = record {
  root = bytes "eth0";
  dev = bytes "vxlan100";
  key_dir = bytes "/etc/wireguard";
  created = bytes "vxlan100" ∷ [];
  used = bytes "vxlan100" ∷ bytes "eth0" ∷ [];
  count = [];
}

lower_vxlan_run : lower_vxlan (outer ∷ transport ∷ tunnel ∷ []) eth0 ≡ ok (script, lowered)
unfolding lower_vxlan bytes text_eq new read_endpoint claim valid_name format_uint digit_value
    parse_uint has_prefix contains_text contains_byte join get lookup layer name_device parse_vni
    parse_unsigned refuse parse_u16 parse_addr Netip.parse_addr Netip.addr_string Netip.is_multicast
    at_pos underlay_address enter is_multicast read_prop
lower_vxlan_run = refl

lower_vxlan-expect_example :
    (port : ℕ) × (expectation : Expectation) × (expect (outer ∷ transport ∷ tunnel ∷ [])
      ≡ ok expectation)
    × (expectation.filter ≡ bytes "udp port " ++ format_uint port)
    × EndsWithPort eth0 port script
lower_vxlan-expect_example =
    lower_vxlan-expect outer transport tunnel [] src_read dst_read eth0 lowered script refl refl
      refl get-src get-dst lower_vxlan_run

one-IsBare : IsBare (bytes "::1")
unfolding bytes text_eq
one-IsBare = (refl, (refl, (refl, (refl, tt))))

two-IsBare : IsBare (bytes "::2")
unfolding bytes text_eq
two-IsBare = (refl, (refl, (refl, (refl, tt))))

abbrev near : Prop
near = prop (bytes "src") (end_value (bytes "::1") (bytes "64") here)

abbrev far : Prop
far = prop (bytes "dst") (end_value (bytes "::2") [] here)

two_ended : Distinct (near ∷ far ∷ [])
unfolding find_prop bytes text_eq
two_ended = (refl, (refl, tt))

near_found : find_prop (bytes "src") (near ∷ far ∷ []) ≡ some near
unfolding find_prop bytes text_eq
near_found = refl

far_found : find_prop (bytes "dst") (near ∷ far ∷ []) ≡ some far
unfolding find_prop bytes text_eq
far_found = refl

turn_layer_twice_example :
    (turn_layer (bytes "ipv6") (turn_layer (bytes "ipv6") (near ∷ far ∷ [])).0).0 ≡ near ∷ far ∷ []
turn_layer_twice_example =
    turn_layer_twice (bytes "ipv6") (near ∷ far ∷ []) near far (bytes "::1") (bytes "64")
      (bytes "::2") [] here here two_ended near_found far_found refl refl one-IsBare two-IsBare

peer-SameNames_example : Returns (λ m. SameNames m.tree outer) (peer outer [])
peer-SameNames_example = peer-SameNames outer []

-- `(ipv4 :src 10.0.0.1/24 :dst 10.0.0.2)`
abbrev prefixed : Node
prefixed =
    node (bytes "ipv4")
      (prop (bytes "src") (atom k_string (bytes "10.0.0.1/24") here)
        ∷ prop (bytes "dst") (atom k_string (bytes "10.0.0.2") here)
        ∷ [])
      none_below here

-- the names of the properties of the far end
far_keys : Result (List Text)
far_keys = peer prefixed [] >>= λ m. ok (map (λ p. p.key) (props_of m.tree))

-- The address that the exchange gave the layer is dropped again, as an inner address.
far_keys-run : far_keys ≡ ok (bytes "dst" ∷ [])
unfolding far_keys peer settle_innermost text_eq mirror_packet turn turn_layer find_prop bytes
    is_addressed lookup swap_endpoints parse_prefix rebuild split_prefix contains_byte
    Netip.parse_prefix parse_uint settle remove_prop digit_value has_prefix
far_keys-run = refl
