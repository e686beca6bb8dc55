-- ===== src/Mirror/Back.antt =====
-- mirror/mirror.go: the far end of the far end.
use pktc.Common.{
  ◌≡◌, refl, ap, sym, ◌∙◌, subst, true, false, Bool-cases, inl, inr, Text, bytes, text_eq, Option,
  none, some, List, [], ◌∷◌, ◌++◌,
}
use pktc.Diag.{Pos, Result, ok, ok-injective, >>=-eq-ok}
use pktc.Ast.{Prop, Node, node, none_below, child}
use pktc.Mirror.{Note, Mirrored, turn, turn_layer, layers_of}
use pktc.Mirror.Far.{
  settle_innermost, check_inner, with_inner, mirror_turned, mirror_packet, mirror_tree, clone_lem,
  peer, shared_notes, key_notes,
}
use pktc.Mirror.Settled.{Unaddressed, Loses, settle_innermost-Loses, settle_innermost-none}
use pktc.Mirror.Return.{AllSymmetric, turn_twice}

append-not_empty : (xs : List Note) (y : Note) (ys : List Note) → ¬ (xs ++ y ∷ ys ≡ [])
append-not_empty [] y ys e = cc
append-not_empty (x ∷ xs) y ys e = cc

-- Where nothing is lost, the tree is the turned one.
with_inner-whole :
    (t : Node) (supplied missing : List Note) (o : Option (Node × List Note × List Note))
    → Loses o
    → (with_inner t supplied missing o).missing ≡ []
    → (with_inner t supplied missing o).tree ≡ t
unfolding with_inner
with_inner-whole t supplied missing none h e = refl
with_inner-whole t supplied missing (some (t', more, lost)) (n, ns, same) e =
    absurd (append-not_empty missing n ns (ap (λ l. missing ++ l) (sym same) ∙ e))

mirror_turned-whole :
    (n : Node) (m : Mirrored) (turned : Node × List Note)
    → mirror_turned [] n turned ≡ ok m
    → m.missing ≡ []
    → (m.tree ≡ turned.0) × (x : Note) × (xs : List Note) × (turned.1 ≡ x ∷ xs)
unfolding mirror_turned
mirror_turned-whole n m (t, []) h e = cc
mirror_turned-whole n m (t, x ∷ xs) h e =
    let whole =
      with_inner-whole t (x ∷ xs ++ shared_notes (layers_of t)) (key_notes (layers_of t))
        (settle_innermost [] t) (settle_innermost-Loses t) in
    let same = ok-injective h in
    (
      ap (λ (r : Mirrored). r.tree) (sym same) ∙ whole (ap (λ (r : Mirrored). r.missing) same ∙ e),
      x,
      xs,
      refl,
    )

mirror_turned-again :
    (t n : Node) (notes : List Note) (x : Note) (xs : List Note)
    → notes ≡ x ∷ xs
    → settle_innermost [] n ≡ none
    → (m : Mirrored) × (mirror_turned [] t (n, notes) ≡ ok m) × (m.tree ≡ n)
unfolding mirror_turned with_inner
mirror_turned-again t n notes x xs e h = rw (e, h) (_, refl, refl)

-- a tree from which `Peer` leads back to another
abbrev Back : (Node → Result Mirrored) → Node → Node → Type 0
Back f t n = (m : Mirrored) × (f t ≡ ok m) × (m.tree ≡ n)

mirror_packet-Back :
    (n : Node) (m : Mirrored)
    → AllSymmetric (layers_of n)
    → Unaddressed (layers_of n)
    → mirror_packet [] n ≡ ok m
    → m.missing ≡ []
    → (m.tree ≡ (turn n).0) × Back (mirror_packet []) (turn n).0 n
unfolding mirror_packet
mirror_packet-Back n m sym_n bare h e =
    let (whole, x, xs, notes) = mirror_turned-whole n m (turn n) h e in
    let (m', back, tree) =
      mirror_turned-again (turn n).0 n (turn n).1 x xs notes (settle_innermost-none n bare) in
    (whole, (m', ap (mirror_turned [] (turn n).0) (turn_twice n sym_n) ∙ back, tree))

-- under the wrapper
wrapped-Back :
    (name : Text) (ps : List Prop) (pos : Pos) (t n : Node)
    → text_eq name (bytes "configure") ≡ true
    → Back (mirror_packet []) t n
    → Back
        (mirror_tree [])
        (node name ps (child t none_below) pos)
        (node name ps (child n none_below) pos)
unfolding mirror_tree
wrapped-Back name ps pos t n is_form (m, back, tree) =
    rw (is_form, back)
      (
        record m { tree = node name ps (child m.tree none_below) pos },
        refl,
        ap (λ k. node name ps (child k none_below) pos) tree,
      )

-- and without one
plain-Back :
    (name : Text) (ps : List Prop) (pos : Pos) (t n : Node)
    → text_eq name (bytes "configure") ≡ false
    → Back (mirror_packet []) (node name ps (child t none_below) pos) n
    → Back (mirror_tree []) (node name ps (child t none_below) pos) n
unfolding mirror_tree
plain-Back name ps pos t n no_form (m, back, tree) = rw no_form (m, back, tree)

form-Back :
    (name : Text) (ps : List Prop) (pos : Pos) (n : Node) (m : Mirrored)
    → AllSymmetric (layers_of n)
    → Unaddressed (layers_of n)
    → text_eq name (bytes "configure") ≡ true
    → mirror_tree [] (node name ps (child n none_below) pos) ≡ ok m
    → m.missing ≡ []
    → Back (mirror_tree []) m.tree (node name ps (child n none_below) pos)
unfolding mirror_tree
form-Back name ps pos n m hs bare is_form h e =
    let (inner, made, rest) = >>=-eq-ok (mirror_packet [] n) _ (rw is_form at h) in
    let same = ok-injective rest in
    let (tree, back) =
      mirror_packet-Back n inner hs bare made (ap (λ (r : Mirrored). r.missing) same ∙ e) in
    subst (λ t. Back (mirror_tree []) t (node name ps (child n none_below) pos))
      (ap (λ t. node name ps (child t none_below) pos) (sym tree)
        ∙ ap (λ (r : Mirrored). r.tree) same)
      (wrapped-Back name ps pos (turn n).0 n is_form back)

mirror_tree-Back :
    (root : Node) (m : Mirrored)
    → AllSymmetric (layers_of root)
    → Unaddressed (layers_of root)
    → mirror_tree [] root ≡ ok m
    → m.missing ≡ []
    → Back (mirror_tree []) m.tree root
unfolding mirror_tree turn layers_of
mirror_tree-Back (node name ps none_below pos) m hs bare h e =
    let (tree, back) = mirror_packet-Back (node name ps none_below pos) m hs bare h e in
    subst (λ t. Back (mirror_tree []) t (node name ps none_below pos)) (sym tree) back
mirror_tree-Back (node name ps (child n none_below) pos) m hs bare h e =
    elim (Bool-cases (text_eq name (bytes "configure"))) [
      | inl is_form ↦ form-Back name ps pos n m hs.1 bare.1 is_form h e
      | inr no_form ↦
          let (tree, back) =
            mirror_packet-Back (node name ps (child n none_below) pos) m hs bare (rw no_form at h)
              e in
          subst (λ t. Back (mirror_tree []) t (node name ps (child n none_below) pos)) (sym tree)
            (plain-Back name (turn_layer name ps).0 pos (turn n).0
              (node name ps (child n none_below) pos) no_form back)
    ]
mirror_tree-Back (node name ps (child n (child k ns)) pos) m hs bare h e =
    let root = node name ps (child n (child k ns)) pos in
    let (tree, back) = mirror_packet-Back root m hs bare h e in
    subst (λ t. Back (mirror_tree []) t root) (sym tree) back

peer-mirror_tree : (root : Node) → peer root [] ≡ mirror_tree [] root
unfolding peer check_inner text_eq
peer-mirror_tree root = ap (mirror_tree []) (clone_lem root)

-- Where `Peer` derives a far end from a tree and reports nothing missing, it derives the tree at hand,
-- positions included, from that far end. It is so where no IP layer has a `:src` with a length, and
-- each layer with both ends has distinct keys and as ends two strings, each an address with or
-- without a length.
pub peer_twice :
    (root : Node) (m : Mirrored)
    → AllSymmetric (layers_of root)
    → Unaddressed (layers_of root)
    → peer root [] ≡ ok m
    → m.missing ≡ []
    → (back : Mirrored) × (peer m.tree [] ≡ ok back) × (back.tree ≡ root)
peer_twice root m hs bare h e =
    let (back, done, tree) = mirror_tree-Back root m hs bare (sym (peer-mirror_tree root) ∙ h) e in
    (back, peer-mirror_tree m.tree ∙ done, tree)
