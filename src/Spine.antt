-- ===== src/Spine.antt =====
-- spine/spine.go: a packet tree as the list of its layers, outermost first.
pub mod Chain
use pktc.Common.{
  ℕ, suc, ◌+◌, Text, bytes, text_eq, List, [], ◌∷◌, map, join, take, drop, not, ◌-◌, if◌then◌else◌,
}
use pktc.Diag.{
  errorf, too_many_children, expected_configure, configure_props, configure_children, Result, ok,
  err, ◌>>=◌,
}
use pktc.Ast.{Prop, Node, Nodes, node, none_below, child, name_of, node_pos}

-- `Spine{Layers}`
abbrev pub Spine : Type 0
Spine = List Node

-- `Names` and `String`
unfoldable pub names : Spine → List Text
names sp = map name_of sp

unfoldable pub spine_string : Spine → Text
unfolding names
spine_string sp = join (names sp) (bytes " · ")

-- `Slice(i, j)`
unfoldable pub slice : Spine → ℕ → ℕ → Spine
slice sp i j = take (j - i) (drop i sp)

-- `len(n.Children)`
abbrev pub count_nodes : Nodes → ℕ
count_nodes none_below = 0
count_nodes (child n ns) = suc (count_nodes ns)

-- The walk of `Extract`; each layer but the last has one node below it.
unfoldable mutual
  pub extract : Node → Result Spine
  extract (node name props kids pos) =
      extract_below name kids >>= λ layers. ok (node name props kids pos ∷ layers)

  -- the layers below the layer `name`
  pub extract_below : Text → Nodes → Result Spine
  extract_below name none_below = ok []
  extract_below name (child n none_below) = extract n
  extract_below name (child n (child m ns)) =
      err (errorf (node_pos m) (too_many_children name (count_nodes ns + 2)))

abbrev pub configure_form : Text
configure_form = bytes "configure"

-- the children of a `configure` form
unfoldable pub from_kids : Node → Nodes → Result Spine
from_kids root (child n none_below) = extract n
from_kids root ns = err (errorf (node_pos root) (configure_children (count_nodes ns)))

unfoldable pub from_props : Node → List Prop → Nodes → Result Spine
unfolding from_kids
from_props root (p ∷ ps) kids = err (errorf p.pos configure_props)
from_props root [] kids = from_kids root kids

-- `FromForm`
unfoldable pub from_form : Node → Result Spine
unfolding from_props
from_form (node name props kids pos) =
    if not (text_eq name configure_form)
    then err (errorf pos (expected_configure name))
    else from_props (node name props kids pos) props kids
