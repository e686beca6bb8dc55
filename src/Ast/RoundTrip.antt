-- ===== src/Ast/RoundTrip.antt =====
-- ast/node.go: the form of a node, to compare `Build` with.
use pktc.Common.{
  ◌≡◌, refl, ap, subst, sym, ◌∙◌, false, Text, bytes, none, List, [], ◌∷◌, ◌++◌, All, text_eq,
  append_assoc, append-nil, has_prefix,
}
use pktc.Diag.{Pos, Result, ok, ◌>>=◌}
use pktc.Sexp.Kind.{k_list, k_symbol, k_keyword}
use pktc.Sexp.Value.{Value, Values, nil, cons, atom, list, kind_of}
use pktc.Ast.{Prop, Node, Nodes, node, none_below, child, find_prop}
use pktc.Ast.Build.{check_prop, check_child, build, build_items, build_kids}
use pktc.Ast.Distinct.{
  Distinct, IsValue, WellFormed, well, EachWellFormed, one_more, text_eq_sym, find_prop-head,
}

-- the properties of a node as the items of its form, in front of its nested forms
unfoldable pub form_props : List Prop → Values → Values
form_props [] kids = kids
form_props (p ∷ ps) kids =
    cons (atom k_keyword (b':' ∷ p.key) p.pos) (cons p.val (form_props ps kids))

unfoldable mutual
  pub form : Node → Value
  form (node name props kids pos) =
      list (cons (atom k_symbol name pos) (form_props props (forms kids))) pos

  pub forms : Nodes → Values
  forms none_below = nil
  forms (child n ns) = cons (form n) (forms ns)

-- Properties that are not among those before them.
abbrev Fresh : List Prop → List Prop → Type 0
Fresh done [] = Unit
Fresh done (p ∷ ps) = (find_prop p.key done ≡ none) × Fresh (done ++ p ∷ []) ps

check_prop-form :
    (name : Text) (done : List Prop) (p : Prop)
    → find_prop p.key done ≡ none
    → IsValue p
    → check_prop name done (atom k_keyword (b':' ∷ p.key) p.pos) p.val ≡ ok p
unfolding check_prop bytes has_prefix
check_prop-form name done p new v = rw v (rw new)

build_items-props :
    (name : Text) (done ps : List Prop) (kids : Values)
    → Fresh done ps
    → All IsValue ps
    → build_items name done (form_props ps kids) ≡ build_items name (done ++ ps) kids
unfolding form_props build_items
build_items-props name done [] kids f a =
    ap (λ ds. build_items name ds kids) (sym (append-nil done))
build_items-props name done (p ∷ ps) kids (new, f) (v, a) = rw (check_prop-form name done p new v) (
    build_items-props name (done ++ p ∷ []) ps kids f a
    ∙ ap (λ ds. build_items name ds kids) (append_assoc done (p ∷ []) ps))

-- In front of a property with another key.
find_prop-middle :
    (k : Text) (done : List Prop) (p : Prop) (ps : List Prop)
    → find_prop k (done ++ p ∷ ps) ≡ none
    → text_eq p.key k ≡ false
find_prop-middle k [] p ps h = (find_prop-head k p ps h).0
find_prop-middle k (q ∷ done) p ps h =
    find_prop-middle k done p ps (find_prop-head k q (done ++ p ∷ ps) h).1

Distinct-middle :
    (done : List Prop) (p : Prop) (ps : List Prop)
    → Distinct (done ++ p ∷ ps)
    → find_prop p.key done ≡ none
unfolding find_prop
Distinct-middle [] p ps d = refl
Distinct-middle (q ∷ done) p ps (first, d) =
    rw (text_eq_sym p.key q.key (find_prop-middle q.key done p ps first))
      (Distinct-middle done p ps d)

Fresh-of_Distinct : (done ps : List Prop) → Distinct (done ++ ps) → Fresh done ps
Fresh-of_Distinct done [] d = tt
Fresh-of_Distinct done (p ∷ ps) d = (
  Distinct-middle done p ps d,
  Fresh-of_Distinct (done ++ p ∷ []) ps (subst Distinct (sym (append_assoc done (p ∷ []) ps)) d),
)

kind_of-form : (n : Node) → kind_of (form n) ≡ k_list
unfolding form
kind_of-form (node name props kids pos) = refl

build_kids-cons :
    (v : Value) (vs : Values) (n : Node) (ns : Nodes)
    → kind_of v ≡ k_list
    → build v ≡ ok n
    → build_kids vs ≡ ok ns
    → build_kids (cons v vs) ≡ ok (child n ns)
unfolding build check_child
build_kids-cons v vs n ns k b bs = rw k (rw b (rw bs))

build_items-kids :
    (name : Text) (props : List Prop) (v : Value) (vs : Values) (n : Node) (ns : Nodes)
    → kind_of v ≡ k_list
    → build v ≡ ok n
    → build_kids vs ≡ ok ns
    → build_items name props (cons v vs) ≡ ok (props, child n ns)
unfolding build check_child
build_items-kids name props v nil n ns k b bs = rw k (rw b (ap (λ ms. ok (props, child n ms)) (cc)))
build_items-kids name props v (cons w vs) n ns k b bs =
    rw k (rw b (ap (λ (r : Result Nodes). r >>= λ cs. ok (props, child n cs)) bs))

-- once its children are built from their forms, so is the node
build-node :
    (name : Text) (props : List Prop) (kids : Nodes) (pos : Pos)
    → Distinct props
    → All IsValue props
    → build_items name props (forms kids) ≡ ok (props, kids)
    → build (form (node name props kids pos)) ≡ ok (node name props kids pos)
unfolding form build
build-node name props kids pos d a e =
    rw (build_items-props name [] props (forms kids) (Fresh-of_Distinct [] props d) a) (rw e)

build_items-nil :
    (name : Text) (props : List Prop) → build_items name props nil ≡ ok (props, none_below)
unfolding build
build_items-nil name props = refl

build_kids-nil : build_kids nil ≡ ok none_below
unfolding build
build_kids-nil = refl

mutual
  unfolding forms

  build-form_lem : (n : Node) → WellFormed n → build (form n) ≡ ok n
  build-form_lem (node name props none_below pos) (well d a w) =
      build-node name props none_below pos d a (build_items-nil name props)
  build-form_lem (node name props (child n ns) pos) (well d a (one_more w ws)) =
      build-node name props (child n ns) pos d a (
        build_items-kids name props (form n) (forms ns) n ns (kind_of-form n) (build-form_lem n w)
          (build_kids-forms ns ws))

  build_kids-forms : (ns : Nodes) → EachWellFormed ns → build_kids (forms ns) ≡ ok ns
  build_kids-forms none_below w = build_kids-nil
  build_kids-forms (child n ns) (one_more w ws) =
      build_kids-cons (form n) (forms ns) n ns (kind_of-form n) (build-form_lem n w)
        (build_kids-forms ns ws)

-- Every well-formed node is what `Build` makes of its form, positions included.
pub build-form : (n : Node) → WellFormed n → build (form n) ≡ ok n
build-form n w = build-form_lem n w
