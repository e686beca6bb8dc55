-- ===== src/Mirror/Far.antt =====
-- mirror/mirror.go: `Peer`, and what it does behind the exchange of the ends.
use pktc.Common.{
  ap, refl, ◌≡◌, ◌∙◌, not, ◌&&◌, Bool, true, false, Text, bytes, text_eq, Option, none, some, List,
  [], ◌∷◌, ◌++◌, if◌then◌else◌,
}
use pktc.Diag
use pktc.Diag.{
  Pos, errorf, bad_peer_inner, nothing_to_mirror, one_ended, Result, ok, err, fault, ◌>>=◌, ◌>>◌,
}
use pktc.Sexp.Kind.{k_string}
use pktc.Sexp.Value.{atom, text_of, pos_of}
use pktc.Ast.{Prop, Node, Nodes, node, none_below, child, name_of, node_pos, lookup}
use pktc.Ast.Props.{parse_prefix}
use pktc.Tile.{is_nil}
use pktc.Tile.Address.{is_ip}
use pktc.Mirror.{
  Note, same_at_both, key_material, peer_name, inner_set, inner_missing, Mirrored, turn, layers_of,
}

abbrev pub shared_key : Node → Text → List Note
shared_key n key = if not (is_nil (lookup n key)) then same_at_both key (name_of n) ∷ [] else []

-- the loop over the keys that both ends share
unfoldable pub shared_notes : List Node → List Note
shared_notes [] = []
shared_notes (n ∷ ns) =
    shared_key n (bytes "vni")
    ++ (shared_key n (bytes "key") ++ (shared_key n (bytes "spi") ++ shared_notes ns))

abbrev pub peer_note : Option Prop → List Note
peer_note none = []
peer_note (some p) = peer_name (text_of p.val) ∷ []

-- the loop over what only the far end knows
unfoldable pub key_notes : List Node → List Note
key_notes [] = []
key_notes (n ∷ ns) =
    (if text_eq (name_of n) (bytes "wireguard")
      then key_material (name_of n) ∷ peer_note (lookup n (bytes "peer"))
      else [])
    ++ key_notes ns

-- `setProp`
unfoldable pub set_prop : Text → Text → Pos → List Prop → List Prop
set_prop key text pos [] = record { key = key; val = atom k_string text pos; pos = pos } ∷ []
set_prop key text pos (p ∷ ps) =
    if text_eq p.key key
    then record p { val = atom k_string text (pos_of p.val) } ∷ ps
    else p ∷ set_prop key text pos ps

-- `removeProp`
unfoldable pub remove_prop : Text → List Prop → List Prop
remove_prop key [] = []
remove_prop key (p ∷ ps) =
    if not (text_eq p.key key) then p ∷ remove_prop key ps else remove_prop key ps

-- does the value parse as a prefix?
abbrev pub is_ok : {A : Type 0} → Result A → Bool
is_ok (ok a) = true
is_ok _ = false

abbrev pub prefix_prop : Option Prop → Bool
prefix_prop none = false
prefix_prop (some p) = is_ok (parse_prefix p.val)

-- the tests of `innermostAddressed` on a layer
unfoldable pub is_addressed : Node → Bool
is_addressed n = is_ip n && prefix_prop (lookup n (bytes "src"))

abbrev nowhere : Pos
nowhere = record { file = []; line = 0; col = 0 }

unfoldable pub inner_checked : {A : Type 0} → Result A → Result (Unit {0})
inner_checked (ok a) = ok tt
inner_checked (err e) = err (Diag.plain (bad_peer_inner e))
inner_checked (fault x) = fault x

-- what is done to the innermost layer with an address
unfoldable pub settle : Text → Node → Node × List Note × List Note
settle inner (node name ps kids pos) =
    if not (text_eq inner [])
    then (node name (set_prop (bytes "src") inner pos ps) kids pos, inner_set name inner ∷ [], [])
    else (node name (remove_prop (bytes "src") ps) kids pos, [], inner_missing name ∷ [])

-- a layer further in comes first
unfoldable pub settled :
    Text
    → List Prop
    → Pos
    → Option (Node × List Note × List Note)
    → Option (Nodes × List Note × List Note)
    → Option (Node × List Note × List Note)
settled name ps pos this none = this
settled name ps pos this (some (kids, more, lost)) = some (node name ps kids pos, more, lost)

unfoldable pub only_child :
    Option (Node × List Note × List Note) → Option (Nodes × List Note × List Note)
only_child none = none
only_child (some (n, more, lost)) = some (child n none_below, more, lost)

-- `innermostAddressed`, and the change of what it finds; none if it finds no layer
unfoldable mutual
  unfolding settled only_child

  pub settle_innermost : Text → Node → Option (Node × List Note × List Note)
  settle_innermost inner (node name ps kids pos) =
      let deeper = settle_below inner kids in
      settled name ps pos
        (if is_addressed (node name ps kids pos)
          then some (settle inner (node name ps kids pos))
          else none)
        deeper

  pub settle_below : Text → Nodes → Option (Nodes × List Note × List Note)
  settle_below inner none_below = none
  settle_below inner (child n none_below) =
      let deeper = settle_innermost inner n in only_child deeper
  settle_below inner (child n (child m ns)) = none

-- the test of the given inner address
unfoldable pub check_inner : Text → Result (Unit {0})
check_inner inner =
    if not (text_eq inner [])
    then inner_checked (parse_prefix (atom k_string inner nowhere))
    else ok tt

-- the result, with what was done to the innermost address
unfoldable pub with_inner :
    Node → List Note → List Note → Option (Node × List Note × List Note) → Mirrored
with_inner t supplied missing none = record { tree = t; supplied = supplied; missing = missing }
with_inner t supplied missing (some (t', more, lost)) = record {
  tree = t';
  supplied = supplied ++ more;
  missing = missing ++ lost;
}

-- what follows the loop over the two-ended layers
unfoldable pub mirror_turned : Text → Node → Node × List Note → Result Mirrored
unfolding with_inner
mirror_turned inner n (t, []) = err (errorf (node_pos n) (one_ended (name_of n)))
mirror_turned inner n (t, x ∷ xs) = ok (
    with_inner t (x ∷ xs ++ shared_notes (layers_of t)) (key_notes (layers_of t))
      (settle_innermost inner t))

-- `Peer` on the packet
unfoldable pub mirror_packet : Text → Node → Result Mirrored
unfolding mirror_turned
mirror_packet inner n = mirror_turned inner n (turn n)

-- the wrapper around the packet is left as it is
unfoldable pub mirror_tree : Text → Node → Result Mirrored
mirror_tree inner (node name ps (child n none_below) pos) =
    if text_eq name (bytes "configure")
    then (mirror_packet inner n >>= λ m.
        ok (record m { tree = node name ps (child m.tree none_below) pos }))
    else mirror_packet inner (node name ps (child n none_below) pos)
mirror_tree inner n = mirror_packet inner n

-- `clone`, which copies the properties and the children of every node
unfoldable mutual
  pub clone : Node → Node
  clone (node name ps kids pos) = node name ps (clone_kids kids) pos

  pub clone_kids : Nodes → Nodes
  clone_kids none_below = none_below
  clone_kids (child n ns) = child (clone n) (clone_kids ns)

-- `Peer`
unfoldable pub peer : Node → Text → Result Mirrored
unfolding check_inner mirror_tree clone
peer root inner = check_inner inner >> mirror_tree inner (clone root)

mutual
  unfolding clone

  -- A copy is the tree it copies: a change of the copy leaves the near end's tree alone, which is a value here.
  pub clone_lem : (n : Node) → clone n ≡ n
  clone_lem (node name ps kids pos) = ap (λ ks. node name ps ks pos) (clone_kids_lem kids)

  pub clone_kids_lem : (ns : Nodes) → clone_kids ns ≡ ns
  clone_kids_lem none_below = refl
  clone_kids_lem (child n ns) =
      ap (λ m. child m (clone_kids ns)) (clone_lem n) ∙ ap (child n) (clone_kids_lem ns)
