-- ===== src/Mirror/Return.antt =====
-- mirror/mirror.go: `Peer` on the tree that `Peer` derived.
use pktc.Common.{◌≡◌, refl, ap, sym, ◌∙◌, Text, bytes, Option, none, some, List, [], ◌∷◌, ◌++◌, All}
use pktc.Diag.{Pos}
use pktc.Ast.{Prop, Node, Nodes, node, none_below, child, props_of, find_prop}
use pktc.Ast.Distinct.{Distinct}
use pktc.Mirror.{
  Note, exchanged, mirrored_src, mirrored_dst, put_ends, turned, turn_layer, turn, turn_below,
  layers_of, layers_below,
}
use pktc.Mirror.Ends.{IsBare, end_value}
use pktc.Mirror.Twice.{put_end, find_prop-put_ends, turn_layer-both, turn_layer_twice}

-- Both ends of a layer of distinct keys, as strings: each an address with or without a length.
pub record Both (ps : List Prop) : Type 0 where
  pub s : Prop
  pub d : Prop
  pub a : Text
  pub m : Text
  pub b : Text
  pub n : Text
  pub p : Pos
  pub q : Pos
  pub distinct : Distinct ps
  pub src_found : find_prop (bytes "src") ps ≡ some s
  pub dst_found : find_prop (bytes "dst") ps ≡ some d
  pub src_text : s.val ≡ end_value a m p
  pub dst_text : d.val ≡ end_value b n q
  pub src_bare : IsBare a
  pub dst_bare : IsBare b

-- A layer without one of the two ends, or with both as strings.
pub data Symmetric (ps : List Prop) : Type 0 where
  no_src : find_prop (bytes "src") ps ≡ none → Symmetric ps
  no_dst : find_prop (bytes "dst") ps ≡ none → Symmetric ps
  both_ends : Both ps → Symmetric ps

turn_layer-notes :
    (name : Text) (ps : List Prop) (s d : Prop)
    → find_prop (bytes "src") ps ≡ some s
    → find_prop (bytes "dst") ps ≡ some d
    → (turn_layer name ps).1 ≡ exchanged name ∷ []
unfolding turn_layer turned
turn_layer-notes name ps s d hs hd = rw (hs, hd) refl

turned-no_dst : (name : Text) (ps : List Prop) (o : Option Prop) → turned name ps o none ≡ (ps, [])
unfolding turned
turned-no_dst name ps none = refl
turned-no_dst name ps (some s) = refl

turn_layer-no_dst :
    (name : Text) (ps : List Prop)
    → find_prop (bytes "dst") ps ≡ none
    → turn_layer name ps ≡ (ps, [])
unfolding turn_layer
turn_layer-no_dst name ps h = rw h (turned-no_dst name ps (find_prop (bytes "src") ps))

turn_layer-no_src :
    (name : Text) (ps : List Prop)
    → find_prop (bytes "src") ps ≡ none
    → turn_layer name ps ≡ (ps, [])
unfolding turn_layer turned
turn_layer-no_src name ps h = rw h refl

idle-again :
    (name : Text) (ps : List Prop)
    → turn_layer name ps ≡ (ps, [])
    → turn_layer name (turn_layer name ps).0 ≡ (ps, (turn_layer name ps).1)
idle-again name ps h = rw (h, h) refl

pair_eq : {A B : Type 0} {p : A × B} {a : A} {b : B} → p.0 ≡ a → p.1 ≡ b → p ≡ (a, b)
pair_eq e f = cc

turn_layer-Symmetric :
    (name : Text) (ps : List Prop)
    → Symmetric ps
    → turn_layer name (turn_layer name ps).0 ≡ (ps, (turn_layer name ps).1)
turn_layer-Symmetric name ps (no_src h) = idle-again name ps (turn_layer-no_src name ps h)
turn_layer-Symmetric name ps (no_dst h) = idle-again name ps (turn_layer-no_dst name ps h)
turn_layer-Symmetric name ps (both_ends e) =
    let x = mirrored_src e.s.val e.d.val in
    let y = mirrored_dst e.s.val e.d.val in
    let once = turn_layer-both name ps e.s e.d e.src_found e.dst_found in
    let src_again = find_prop-put_ends (bytes "src") x y e.s ps e.src_found in
    let dst_again = find_prop-put_ends (bytes "dst") x y e.d ps e.dst_found in
    pair_eq
      (turn_layer_twice name ps e.s e.d e.a e.m e.b e.n e.p e.q e.distinct e.src_found e.dst_found
        e.src_text e.dst_text e.src_bare e.dst_bare)
      (ap (λ qs. (turn_layer name qs).1) once
        ∙ turn_layer-notes name (put_ends x y ps) (put_end x y e.s) (put_end x y e.d) src_again
            dst_again
        ∙ sym (turn_layer-notes name ps e.s e.d e.src_found e.dst_found))

-- the node and the notes of a layer and of what is below it
abbrev joined : Text → Pos → List Prop × List Note → Nodes × List Note → Node × List Note
joined name pos (ps, notes) (kids, more) = (node name ps kids pos, notes ++ more)

-- The layers of the chain are symmetric.
abbrev pub AllSymmetric : List Node → Type 0
AllSymmetric = All (λ n. Symmetric (props_of n))

mutual
  unfolding turn layers_of

  pub turn_twice : (n : Node) → AllSymmetric (layers_of n) → turn (turn n).0 ≡ (n, (turn n).1)
  turn_twice (node name ps kids pos) (h, hs) =
      ap (λ t. joined name pos t (turn_below (turn_below kids).0)) (turn_layer-Symmetric name ps h)
      ∙ ap (joined name pos (ps, (turn_layer name ps).1)) (turn_below_twice kids hs)

  turn_below_twice :
      (ns : Nodes)
      → AllSymmetric (layers_below ns)
      → turn_below (turn_below ns).0 ≡ (ns, (turn_below ns).1)
  turn_below_twice none_below h = refl
  turn_below_twice (child n none_below) h =
      ap (λ (t : Node × List Note). (child t.0 none_below, t.1)) (turn_twice n h)
  turn_below_twice (child n (child m ns)) h = refl
