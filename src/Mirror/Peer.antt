-- ===== src/Mirror/Peer.antt =====
-- mirror/mirror.go: how `Peer` ends, and the shape of its tree.
use pktc.Common.{
  ◌≡◌, refl, ap, ◌∙◌, Bool, not, Text, bytes, text_eq, Option, none, some, List, [], ◌∷◌, ◌++◌,
  if◌then◌else◌, true, false, Bool-cases, inl, inr,
}
use pktc.Diag.{Pos, Result, Returns, returns, fails, Returns-bind, Returns-if}
use pktc.Ast.{Prop, Node, Nodes, node, none_below, child}
use pktc.Ast.Total.{Returning, parse_prefix-Returning}
use pktc.Spine.{names}
use pktc.Mirror.{Note, Mirrored, turn, turn_below, turn_layer, layers_of, layers_below}
use pktc.Mirror.Far.{
  settle, is_addressed, settled, only_child, settle_innermost, settle_below, inner_checked,
  check_inner, with_inner, mirror_turned, mirror_packet, mirror_tree, peer, clone_lem, shared_notes,
  key_notes,
}

-- The layers of the trees have the same names, outermost first.
abbrev pub SameNames : Node → Node → Type 0
SameNames t n = names (layers_of t) ≡ names (layers_of n)

abbrev SameBelow : Nodes → Nodes → Type 0
SameBelow ts ns = names (layers_below ts) ≡ names (layers_below ns)

-- layers of one name above layers of the same names
above :
    (name : Text) (ps qs : List Prop) (ts ns : Nodes) (p q : Pos)
    → SameBelow ts ns
    → SameNames (node name ps ts p) (node name qs ns q)
unfolding names layers_of
above name ps qs ts ns p q h = ap (λ xs. name ∷ xs) h

mutual
  unfolding turn layers_of names

  pub turn-SameNames : (n : Node) → SameNames (turn n).0 n
  turn-SameNames (node name ps kids pos) =
      above name (turn_layer name ps).0 ps (turn_below kids).0 kids pos pos
        (turn_below-SameBelow kids)

  turn_below-SameBelow : (ns : Nodes) → SameBelow (turn_below ns).0 ns
  turn_below-SameBelow none_below = refl
  turn_below-SameBelow (child n none_below) = turn-SameNames n
  turn_below-SameBelow (child n (child m ns)) = refl

-- what a change of the innermost address may do
abbrev KeepsNode : Node → Option (Node × List Note × List Note) → Type 0
KeepsNode n none = Unit
KeepsNode n (some (t, more, lost)) = SameNames t n

abbrev KeepsBelow : Nodes → Option (Nodes × List Note × List Note) → Type 0
KeepsBelow ns none = Unit
KeepsBelow ns (some (ts, more, lost)) = SameBelow ts ns

settle-SameNames : (inner : Text) (n : Node) → SameNames (settle inner n).0 n
unfolding settle layers_of names
settle-SameNames inner (node name ps kids pos) = elim (Bool-cases (not (text_eq inner []))) [
  | inl set ↦ rw set refl
  | inr dropped ↦ rw dropped refl
]

settled-KeepsNode :
    (name : Text) (ps : List Prop) (kids : Nodes) (pos : Pos)
    (this : Option (Node × List Note × List Note)) (deeper : Option (Nodes × List Note × List Note))
    → KeepsNode (node name ps kids pos) this
    → KeepsBelow kids deeper
    → KeepsNode (node name ps kids pos) (settled name ps pos this deeper)
unfolding settled
settled-KeepsNode name ps kids pos this none h k = h
settled-KeepsNode name ps kids pos this (some (ts, more, lost)) h k =
    above name ps ps ts kids pos pos k

this-KeepsNode :
    (inner : Text) (n : Node) (b : Bool) → KeepsNode n (if b then some (settle inner n) else none)
this-KeepsNode inner n true = settle-SameNames inner n
this-KeepsNode inner n false = tt

only_child-KeepsBelow :
    (n : Node) (o : Option (Node × List Note × List Note))
    → KeepsNode n o
    → KeepsBelow (child n none_below) (only_child o)
unfolding only_child layers_of
only_child-KeepsBelow n none h = tt
only_child-KeepsBelow n (some (t, more, lost)) h = h

mutual
  unfolding settle_innermost

  settle_innermost-KeepsNode : (inner : Text) (n : Node) → KeepsNode n (settle_innermost inner n)
  settle_innermost-KeepsNode inner (node name ps kids pos) =
      settled-KeepsNode name ps kids pos
        (if is_addressed (node name ps kids pos)
          then some (settle inner (node name ps kids pos))
          else none)
        (settle_below inner kids)
        (this-KeepsNode inner (node name ps kids pos) (is_addressed (node name ps kids pos)))
        (settle_below-KeepsBelow inner kids)

  settle_below-KeepsBelow : (inner : Text) (ns : Nodes) → KeepsBelow ns (settle_below inner ns)
  settle_below-KeepsBelow inner none_below = tt
  settle_below-KeepsBelow inner (child n none_below) =
      only_child-KeepsBelow n (settle_innermost inner n) (settle_innermost-KeepsNode inner n)
  settle_below-KeepsBelow inner (child n (child m ns)) = tt

with_inner-SameNames :
    (t : Node) (supplied missing : List Note) (o : Option (Node × List Note × List Note))
    → KeepsNode t o
    → SameNames (with_inner t supplied missing o).tree t
unfolding with_inner
with_inner-SameNames t supplied missing none h = refl
with_inner-SameNames t supplied missing (some (t', more, lost)) h = h

mirror_turned-SameNames :
    (inner : Text) (n : Node) (turned : Node × List Note)
    → SameNames turned.0 n
    → Returns (λ m. SameNames m.tree n) (mirror_turned inner n turned)
unfolding mirror_turned
mirror_turned-SameNames inner n (t, []) h = fails _
mirror_turned-SameNames inner n (t, x ∷ xs) h = returns (
    with_inner-SameNames t (x ∷ xs ++ shared_notes (layers_of t)) (key_notes (layers_of t))
      (settle_innermost inner t) (settle_innermost-KeepsNode inner t)
    ∙ h)

mirror_packet-SameNames :
    (inner : Text) (n : Node) → Returns (λ m. SameNames m.tree n) (mirror_packet inner n)
unfolding mirror_packet
mirror_packet-SameNames inner n = mirror_turned-SameNames inner n (turn n) (turn-SameNames n)

mirror_tree-SameNames :
    (inner : Text) (n : Node) → Returns (λ m. SameNames m.tree n) (mirror_tree inner n)
unfolding mirror_tree
mirror_tree-SameNames inner (node name ps none_below pos) = mirror_packet-SameNames inner _
mirror_tree-SameNames inner (node name ps (child n none_below) pos) =
    Returns-if (text_eq name (bytes "configure"))
      (λ _. Returns-bind (mirror_packet-SameNames inner n) λ m h. returns (wrapped m h))
      (λ _. mirror_packet-SameNames inner _)
  where
    wrapped :
        (m : Mirrored)
        → SameNames m.tree n
        → SameNames
            (node name ps (child m.tree none_below) pos)
            (node name ps (child n none_below) pos)
    wrapped m h =
        above name ps ps (child m.tree none_below) (child n none_below) pos pos
          (unfold layers_of in h)
mirror_tree-SameNames inner (node name ps (child n (child m ns)) pos) =
    mirror_packet-SameNames inner _

inner_checked-Returning : {A : Type 0} {r : Result A} → Returning r → Returning (inner_checked r)
unfolding inner_checked
inner_checked-Returning (returns h) = returns tt
inner_checked-Returning (fails e) = fails _

pub check_inner-Returning : (inner : Text) → Returning (check_inner inner)
unfolding check_inner
check_inner-Returning inner =
    Returns-if (not (text_eq inner [])) (λ _. inner_checked-Returning (parse_prefix-Returning _))
      λ _. returns tt

-- `Peer` returns on every tree, with an error or with a tree whose chain has the layers of the one
-- at hand: only properties differ.
pub peer-SameNames :
    (root : Node) (inner : Text) → Returns (λ m. SameNames m.tree root) (peer root inner)
unfolding peer
peer-SameNames root inner =
    rw (clone_lem root)
      (Returns-bind (check_inner-Returning inner) λ _ _. mirror_tree-SameNames inner root)
