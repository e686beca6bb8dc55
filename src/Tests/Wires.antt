-- ===== src/Tests/Wires.antt =====
-- What the wire shows of tunnels that have been lowered.
use pktc.Common.{ℕ, ◌≡◌, refl, Text, bytes, text_eq, has_prefix, List, [], ◌∷◌, ◌++◌}
use pktc.Diag.{ok}
use pktc.Std.Strconv.{format_uint, digit_value}
use pktc.Std.Netip
use pktc.Std.Netip.{Addr, v4}
use pktc.Sexp.Kind.{k_string, k_number}
use pktc.Sexp.Value.{atom}
use pktc.Ast.{Node, node, none_below, lookup}
use pktc.Ast.Reading.{Reading, is_concrete, get, read_prop, require}
use pktc.Ast.Props.{parse_addr}
use pktc.Env.{Env, new, alloc, valid_name, enter, get_count, set_count, numbered}
use pktc.Command.{Script, command}
use pktc.Linux.{layer, endpoints}
use pktc.Linux.Tunnel.{link_add, lower_gretap}
use pktc.Wire.{expect}
use pktc.Wire.Tunnels.{gretap_tunnel, shown, lower_tunnel-expect}
use pktc.Tests.Mirrored.{here, prop, inner, tunnel, outer, behind}

abbrev gretap_script : Script
gretap_script =
    command (bytes "Ethernet inside GRE is a bridged gretap device")
      (link_add (bytes "gretap1") (bytes "gretap") (bytes "::1") (bytes "::2"))
    ∷ []

gretap-run :
    lower_gretap (outer (bytes "::1") (bytes "::2") ∷ tunnel ∷ inner ∷ []) (new (bytes "eth0"))
    ≡ ok (gretap_script, behind)
unfolding lower_gretap new alloc valid_name format_uint digit_value bytes text_eq get lookup layer
    endpoints parse_addr Netip.parse_addr Netip.addr_string enter read_prop get_count set_count
    numbered require has_prefix
gretap-run = refl

lower_tunnel-expect_example :
    (near : Text) × (far : Text) × (why : Text) × (dev : Text) × (words : List Text)
    × (more : Script) × (gretap_script
        ≡ command why (link_add dev (bytes "gretap") near far ++ words) ∷ more)
    × (expect (outer (bytes "::1") (bytes "::2") ∷ tunnel ∷ inner ∷ [])
        ≡ ok (shown near far (bytes "proto gre") (bytes "GRE") (bytes "GREv0")))
lower_tunnel-expect_example =
    lower_tunnel-expect (outer (bytes "::1") (bytes "::2")) tunnel (inner ∷ []) (new (bytes "eth0"))
      behind gretap_script gretap_tunnel refl refl gretap-run

abbrev transport : Node
transport =
    node (bytes "udp") (prop (bytes "src-port") (atom k_number (bytes "51820") here) ∷ [])
      none_below here

abbrev guard : Node
guard =
    node (bytes "wireguard") (prop (bytes "peer") (atom k_string (bytes "b") here) ∷ []) none_below
      here

abbrev inside : Node
inside =
    node (bytes "ipv4") (prop (bytes "src") (atom k_string (bytes "10.1.0.1/24") here) ∷ [])
      none_below here

abbrev guarded : Env
guarded = record {
  root = bytes "eth0";
  dev = bytes "wg1";
  key_dir = bytes "/etc/wireguard";
  created = bytes "wg1" ∷ [];
  used = bytes "wg1" ∷ bytes "eth0" ∷ [];
  count = (bytes "wg", 1) ∷ [];
}

abbrev under : Node
under =
    node (bytes "ipv4")
      (prop (bytes "src") (atom k_string (bytes "10.0.0.1") here)
        ∷ prop (bytes "dst") (atom k_string (bytes "10.0.0.2") here)
        ∷ [])
      none_below here

abbrev reading : Text → ℕ → Reading Addr
reading key n = is_concrete (v4 (10 ∷ 0 ∷ 0 ∷ n ∷ [])) here key

abbrev guard_script : Script
guard_script =
    command (bytes "IP inside WireGuard is a wireguard device") (
      bytes "ip"
      ∷ bytes "link"
      ∷ bytes "add"
      ∷ bytes "name"
      ∷ bytes "wg1"
      ∷ bytes "type"
      ∷ bytes "wireguard"
      ∷ [])
    ∷ command (bytes "key material is machine state, not packet structure") (
        bytes "wg"
        ∷ bytes "set"
        ∷ bytes "wg1"
        ∷ bytes "listen-port"
        ∷ bytes "51820"
        ∷ bytes "private-key"
        ∷ bytes "/etc/wireguard/wg1.key"
        ∷ [])
    ∷ command (bytes "the peer's endpoint on the underlay") (
        bytes "wg"
        ∷ bytes "set"
        ∷ bytes "wg1"
        ∷ bytes "peer"
        ∷ bytes "$(cat /etc/wireguard/b.pub)"
        ∷ bytes "endpoint"
        ∷ bytes "10.0.0.2:51820"
        ∷ bytes "allowed-ips"
        ∷ bytes "10.1.0.0/24"
        ∷ [])
    ∷ command (bytes "address on the tunnel") (
        bytes "ip"
        ∷ bytes "addr"
        ∷ bytes "add"
        ∷ bytes "10.1.0.1/24"
        ∷ bytes "dev"
        ∷ bytes "wg1"
        ∷ [])
    ∷ []
