-- ===== src/Tests/Returns.antt =====
-- The far end of the far end, package mirror.
use pktc.Common.{◌≡◌, refl, bytes, text_eq, contains_byte, [], ◌∷◌}
use pktc.Diag.{ok}
use pktc.Sexp.Kind.{k_string}
use pktc.Sexp.Value.{atom}
use pktc.Ast.{Prop, find_prop, lookup}
use pktc.Ast.Props.{parse_prefix}
use pktc.Std.Netip
use pktc.Mirror.{Mirrored, layers_of}
use pktc.Mirror.Far.{peer, is_addressed}
use pktc.Mirror.Return.{Both, no_src, both_ends, AllSymmetric}
use pktc.Mirror.Settled.{Unaddressed}
use pktc.Mirror.Back.{peer_twice}
use pktc.Tests.Mirrored.{here, prop, tree, mirrored, peer-run}

abbrev src_prop : Prop
src_prop = prop (bytes "src") (atom k_string (bytes "::1") here)

abbrev dst_prop : Prop
dst_prop = prop (bytes "dst") (atom k_string (bytes "::2") here)

ends-Both : Both (src_prop ∷ dst_prop ∷ [])
unfolding bytes text_eq find_prop
ends-Both = record {
  s = src_prop;
  d = dst_prop;
  a = bytes "::1";
  m = [];
  b = bytes "::2";
  n = [];
  p = here;
  q = here;
  distinct = (refl, (refl, tt));
  src_found = refl;
  dst_found = refl;
  src_text = refl;
  dst_text = refl;
  src_bare = (refl, (refl, (refl, (refl, tt))));
  dst_bare = (refl, (refl, (refl, (refl, tt))));
}

tree-AllSymmetric : AllSymmetric (layers_of (tree (bytes "::1") (bytes "::2")))
unfolding layers_of find_prop
tree-AllSymmetric = (no_src refl, (both_ends ends-Both, (no_src refl, (no_src refl, tt))))

tree-Unaddressed : Unaddressed (layers_of (tree (bytes "::1") (bytes "::2")))
unfolding layers_of is_addressed lookup bytes text_eq find_prop parse_prefix Netip.parse_prefix
    contains_byte
tree-Unaddressed = (refl, (refl, (refl, (refl, tt))))

peer_twice_example :
    (back : Mirrored) × (peer mirrored.tree [] ≡ ok back)
    × (back.tree ≡ tree (bytes "::1") (bytes "::2"))
peer_twice_example =
    peer_twice (tree (bytes "::1") (bytes "::2")) mirrored tree-AllSymmetric tree-Unaddressed
      peer-run refl
