-- ===== src/Ast/Build.antt =====
-- ast/node.go: `Build`, from a form to a node.
use pktc.Common.{Option, not, Text, none, some, List, [], ◌∷◌, ◌++◌, if◌then◌else◌}
use pktc.Diag.{
  errorf, empty_form, expected_form, bad_head, no_value, late_property, duplicate_property,
  expected_nested, Result, ok, err, ◌>>=◌, ◌>>◌,
}
use pktc.Sexp.Kind.{k_list, k_symbol, k_keyword, ◌≟◌}
use pktc.Sexp.Value.{Value, Values, nil, cons, value, kind_of, text_of, pos_of, key}
use pktc.Ast.{Prop, Node, Nodes, node, none_below, child, find_prop}

-- what a new property makes of the look-up of its key among those before it
unfoldable pub new_prop : Text → Value → Value → Option Prop → Result Prop
unfolding key
new_prop name kw val (some _) = err (errorf (pos_of kw) (duplicate_property (text_of kw) name))
new_prop name kw val none = ok (record { key = key kw; val = val; pos = pos_of kw })

-- The body of the property loop: the pair `kw val` on the form `name` with the properties so far.
unfoldable pub check_prop : Text → List Prop → Value → Value → Result Prop
unfolding new_prop
check_prop name props kw val =
    if kind_of val ≟ k_keyword
    then err (errorf (pos_of kw) (no_value (text_of kw)))
    else new_prop name kw val (find_prop (key kw) props)

-- the tests of the loop over nested forms
unfoldable pub check_child : Value → Result (Unit {0})
check_child v =
    if kind_of v ≟ k_keyword
    then err (errorf (pos_of v) (late_property (text_of v)))
    else if not (kind_of v ≟ k_list)
    then err (errorf (pos_of v) (expected_nested (kind_of v)))
    else ok tt

-- `build_items` is the property loop, which hands over to the loop of `build_kids` at the first
-- item that is no property name.
unfoldable mutual
  pub build : Value → Result Node
  build (value k_list t nil pos) = err (errorf pos empty_form)
  build (value k_list t (cons head rest) pos) =
      let whole =
        (build_items (text_of head) [] rest >>= λ (props, kids).
        ok (node (text_of head) props kids pos)) in
      if kind_of head ≟ k_symbol
      then whole
      else err (errorf (pos_of head) (bad_head (kind_of head)))
  build (value k t is pos) = err (errorf pos (expected_form k))

  pub build_items : Text → List Prop → Values → Result (List Prop × Nodes)
  build_items name props nil = ok (props, none_below)
  build_items name props (cons v nil) =
      let last = (check_child v >> (build v >>= λ c. ok (props, child c none_below))) in
      if kind_of v ≟ k_keyword then err (errorf (pos_of v) (no_value (text_of v))) else last
  build_items name props (cons v (cons w rest)) =
      let more = (check_prop name props v w >>= λ p. build_items name (props ++ p ∷ []) rest) in
      let kids =
        (check_child v
          >> (build v >>= λ c. build_kids (cons w rest) >>= λ cs. ok (props, child c cs))) in
      if kind_of v ≟ k_keyword then more else kids

  pub build_kids : Values → Result Nodes
  build_kids nil = ok none_below
  build_kids (cons v vs) =
      check_child v >> (build v >>= λ c. build_kids vs >>= λ cs. ok (child c cs))
