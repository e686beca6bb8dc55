-- ===== src/Tests/Mirrored.antt =====
-- Both ends of one tunnel, tiled: packages mirror and tile.
use pktc.Common.{
  false, List, ◌≡◌, refl, Text, bytes, text_eq, contains_byte, has_prefix, join, [], ◌∷◌,
}
use pktc.Diag.{Pos, ok}
use pktc.Std.Strconv.{format_uint, digit_value}
use pktc.Std.Netip
use pktc.Sexp.Kind.{k_string}
use pktc.Sexp.Value.{Value, atom}
use pktc.Ast.{Prop, Node, node, none_below, child, find_prop, lookup}
use pktc.Ast.Reading.{get, read_prop, require}
use pktc.Ast.Props.{parse_addr, parse_prefix}
use pktc.Spine.{Spine, extract, from_form, configure_form, slice}
use pktc.Env.{Env, new, alloc, valid_name, enter, get_count, set_count, numbered}
use pktc.Command.{command}
use pktc.Tile.{match_at, fits, best}
use pktc.Tile.Address.{address_of}
use pktc.Tile.Cover.{Covering, bring_up, cover}
use pktc.Linux.{layer, endpoints}
use pktc.Linux.Tunnel.{link_add, lower_gretap}
use pktc.Linux.Tiles.{linux}
use pktc.Mirror.{
  Mirrored, exchanged, turn, turn_layer, swap_endpoints, rebuild, split_prefix, layers_of,
}
use pktc.Mirror.Far.{peer, mirror_packet, settle_innermost, is_addressed, shared_notes, key_notes}
use pktc.Mirror.Others.{turn_layer_other}
use pktc.Mirror.Tiled.{peer-same_tiles}

abbrev pub here : Pos
here = record { file = bytes "t.lisp"; line = 1; col = 1 }

abbrev pub prop : Text → Value → Prop
prop k v = record { key = k; val = v; pos = here }

abbrev pub inner : Node
inner = node (bytes "ethernet") [] none_below here

abbrev pub tunnel : Node
tunnel = node (bytes "gre") [] (child inner none_below) here

abbrev pub outer : Text → Text → Node
outer src dst =
    node (bytes "ipv4")
      (prop (bytes "src") (atom k_string src here)
        ∷ prop (bytes "dst") (atom k_string dst here)
        ∷ [])
      (child tunnel none_below) here

-- `(configure (ipv4 :src SRC :dst DST (gre (ethernet))))`
abbrev pub tree : Text → Text → Node
tree src dst = node configure_form [] (child (outer src dst) none_below) here

abbrev pub spine : Text → Text → Spine
spine src dst = outer src dst ∷ tunnel ∷ inner ∷ []

abbrev pub covering : Text → Text → Covering
covering src dst = record {
  script =
      command (bytes "Ethernet inside GRE is a bridged gretap device")
        (link_add (bytes "gretap1") (bytes "gretap") src dst)
      ∷ bring_up (bytes "gretap1");
  applied = bytes "GRETAP" ∷ [];
  payload = [];
}

abbrev pub behind : Env
behind = record {
  root = bytes "eth0";
  dev = bytes "gretap1";
  key_dir = bytes "/etc/wireguard";
  created = bytes "gretap1" ∷ [];
  used = bytes "gretap1" ∷ bytes "eth0" ∷ [];
  count = (bytes "gretap", 1) ∷ [];
}

abbrev pub mirrored : Mirrored
mirrored = record {
  tree = tree (bytes "::2") (bytes "::1");
  supplied = exchanged (bytes "ipv4") ∷ [];
  missing = [];
}

pub peer-run : peer (tree (bytes "::1") (bytes "::2")) [] ≡ ok mirrored
unfolding peer bytes text_eq turn turn_layer find_prop swap_endpoints rebuild split_prefix
    mirror_packet settle_innermost is_addressed lookup parse_prefix contains_byte shared_notes
    key_notes layers_of
peer-run = refl

pub from_form-near :
    from_form (tree (bytes "::1") (bytes "::2")) ≡ ok (spine (bytes "::1") (bytes "::2"))
unfolding from_form extract bytes text_eq
from_form-near = refl

pub from_form-far : from_form mirrored.tree ≡ ok (spine (bytes "::2") (bytes "::1"))
unfolding from_form extract bytes text_eq
from_form-far = refl

pub cover-near :
    cover linux (spine (bytes "::1") (bytes "::2")) (new (bytes "eth0"))
    ≡ ok (covering (bytes "::1") (bytes "::2"), behind)
unfolding cover match_at fits slice bytes text_eq best lower_gretap new alloc valid_name format_uint
    digit_value has_prefix join get lookup layer endpoints parse_addr Netip.parse_addr
    Netip.addr_string enter address_of read_prop get_count set_count numbered require
cover-near = refl

pub cover-far :
    cover linux (spine (bytes "::2") (bytes "::1")) (new (bytes "eth0"))
    ≡ ok (covering (bytes "::2") (bytes "::1"), behind)
unfolding cover match_at fits slice bytes text_eq best lower_gretap new alloc valid_name format_uint
    digit_value has_prefix join get lookup layer endpoints parse_addr Netip.parse_addr
    Netip.addr_string enter address_of read_prop get_count set_count numbered require
cover-far = refl

peer-same_tiles_example :
    (covering (bytes "::1") (bytes "::2")).applied ≡ (covering (bytes "::2") (bytes "::1")).applied
peer-same_tiles_example =
    peer-same_tiles (tree (bytes "::1") (bytes "::2")) [] mirrored
      (spine (bytes "::1") (bytes "::2")) (spine (bytes "::2") (bytes "::1")) (new (bytes "eth0"))
      (new (bytes "eth0")) behind behind (covering (bytes "::1") (bytes "::2"))
      (covering (bytes "::2") (bytes "::1")) peer-run from_form-near from_form-far cover-near
      cover-far

vni_ne_src : text_eq (bytes "vni") (bytes "src") ≡ false
unfolding bytes text_eq
vni_ne_src = refl

vni_ne_dst : text_eq (bytes "vni") (bytes "dst") ≡ false
unfolding bytes text_eq
vni_ne_dst = refl

abbrev keyed : List Prop
keyed =
    prop (bytes "vni") (atom k_string (bytes "7") here)
    ∷ prop (bytes "src") (atom k_string (bytes "::1") here)
    ∷ prop (bytes "dst") (atom k_string (bytes "::2") here)
    ∷ []

turn_layer_other_example :
    find_prop (bytes "vni") (turn_layer (bytes "ipv6") keyed).0 ≡ find_prop (bytes "vni") keyed
turn_layer_other_example = turn_layer_other (bytes "vni") (bytes "ipv6") keyed vni_ne_src vni_ne_dst
