-- ===== src/Tests/Trees.antt =====
-- The trees: packages ast and spine.
use pktc.Common.{◌≤◌, ◌≡◌, ◌↔◌, refl, Text, bytes, has_prefix, none, some, [], ◌∷◌, arith}
use pktc.Diag.{Pos, ok, ◌>>=◌, Returns}
use pktc.Std.Strconv.{format_uint, digit_value, parse_uint}
use pktc.Sexp.Kind.{k_number}
use pktc.Sexp.Value.{Value, atom}
use pktc.Ast.{Prop, Node, node, none_below, child, find_prop, lookup}
use pktc.Ast.Build.{build}
use pktc.Ast.Distinct.{WellFormed, well, no_node, one_more, build-WellFormed}
use pktc.Ast.RoundTrip.{form, build-form}
use pktc.Ast.Reading.{get, require}
use pktc.Ast.Props.{parse_u16, parse_vlan_id, parse_vni, parse_unsigned, number_text, dst_port}
use pktc.Ast.Bounds.{Denotes, Given, parse_numbers_iff, parse_unsigned-format_uint, get-require_iff}
use pktc.Spine.{extract, from_form, configure_form}
use pktc.Spine.Chain.{Chain, Configures, extract_iff, from_form-Configures}

abbrev here : Pos
here = record { file = bytes "t.lisp"; line = 1; col = 1 }

abbrev number : Text → Value
number t = atom k_number t here

abbrev prop : Text → Value → Prop
prop k v = record { key = k; val = v; pos = here }

-- `(udp :dst-port 4789 (vxlan :vni 100))`
abbrev vxlan_layer : Node
vxlan_layer = node (bytes "vxlan") (prop (bytes "vni") (number (bytes "100")) ∷ []) none_below here

abbrev udp_layer : Node
udp_layer =
    node (bytes "udp") (prop (bytes "dst-port") (number (bytes "4789")) ∷ [])
      (child vxlan_layer none_below) here

udp_layer-WellFormed : WellFormed udp_layer
unfolding find_prop
udp_layer-WellFormed =
    well (refl, tt) (refl, tt) (one_more (well (refl, tt) (refl, tt) no_node) no_node)

build-WellFormed_example : Returns WellFormed (build (form udp_layer))
build-WellFormed_example = build-WellFormed (form udp_layer)

build-form_example : build (form udp_layer) ≡ ok udp_layer
build-form_example = build-form udp_layer udp_layer-WellFormed

parse_numbers_iff_example :
    ((parse_u16 (number (bytes "0x64")) ≡ ok 100) ↔ Denotes 16 (number (bytes "0x64")) 100)
    × ((parse_vlan_id (number (bytes "0x64")) ≡ ok 100)
        ↔ (Denotes 16 (number (bytes "0x64")) 100 × (1 ≤ 100) × (100 ≤ 4094)))
    × ((parse_vni (number (bytes "0x64")) ≡ ok 100)
        ↔ (Denotes 32 (number (bytes "0x64")) 100 × (100 ≤ 16777215)))
parse_numbers_iff_example = parse_numbers_iff (number (bytes "0x64")) 100

parse_numbers :
    (number_text (bytes "0x1001") 16 ≡ some 4097) × (number_text (bytes "65536") 16 ≡ none)
unfolding number_text bytes has_prefix parse_uint digit_value
parse_numbers = (refl, refl)

parse_unsigned-format_uint_example :
    parse_unsigned 16 (atom k_number (format_uint 4789) here) 16 ≡ ok 4789
parse_unsigned-format_uint_example = parse_unsigned-format_uint 16 4789 here (omega arith)

get-require_iff_example : ((get udp_layer dst_port >>= require (bytes "udp")) ≡ ok 4789) ↔ (
    (p : Prop) × Given udp_layer dst_port
      (bytes "udp")
      4789
      (lookup udp_layer (bytes "dst-port"))
      p)
get-require_iff_example = get-require_iff udp_layer dst_port (bytes "udp") 4789

extract_iff_example :
    (extract udp_layer ≡ ok (udp_layer ∷ vxlan_layer ∷ []))
    ↔ Chain udp_layer (udp_layer ∷ vxlan_layer ∷ [])
extract_iff_example = extract_iff udp_layer (udp_layer ∷ vxlan_layer ∷ [])

extract_udp : extract udp_layer ≡ ok (udp_layer ∷ vxlan_layer ∷ [])
unfolding extract
extract_udp = refl

from_form-Configures_example :
    Returns
      (Configures (node configure_form [] (child udp_layer none_below) here))
      (from_form (node configure_form [] (child udp_layer none_below) here))
from_form-Configures_example =
    from_form-Configures (node configure_form [] (child udp_layer none_below) here)
