-- ===== src/Ast/Distinct.antt =====
-- ast/node.go: well-formed nodes, and `Build`.
use pktc.Common.{
  ◌≡◌, refl, sym, false, Text, Option, none, some, List, [], ◌∷◌, ◌++◌, All, All-append, text_eq,
  text_eq_iff, arith, Bool-cases, inl, inr, not,
}
use pktc.Diag.{Pos, Returns, returns, fails, Returns-bind, Returns-if}
use pktc.Sexp.Kind.{k_list, k_symbol, k_keyword, ◌≟◌}
use pktc.Sexp.Value.{Value, Values, nil, cons, value, kind_of, text_of, key}
use pktc.Ast.{Prop, Node, Nodes, node, none_below, child, find_prop}
use pktc.Ast.Build.{new_prop, check_prop, check_child, build, build_items, build_kids}

-- No two properties have the same key.
abbrev pub Distinct : List Prop → Type 0
Distinct [] = Unit
Distinct (p ∷ ps) = (find_prop p.key ps ≡ none) × Distinct ps

-- A property name is no property's value.
abbrev pub IsValue : Prop → Type 0
IsValue p = (kind_of p.val ≟ k_keyword) ≡ false

-- Of a node and of all below it: the keys are distinct, and every property has a value.
mutual
  pub data WellFormed : Node → Type 0 where
    well :
        {name : Text} {props : List Prop} {kids : Nodes} {pos : Pos}
        → Distinct props
        → All IsValue props
        → EachWellFormed kids
        → WellFormed (node name props kids pos)

  pub data EachWellFormed : Nodes → Type 0 where
    no_node : EachWellFormed none_below
    one_more :
        {n : Node} {ns : Nodes} → WellFormed n → EachWellFormed ns → EachWellFormed (child n ns)

pub text_eq_sym : (s t : Text) → text_eq s t ≡ false → text_eq t s ≡ false
text_eq_sym s t h = elim (Bool-cases (text_eq t s)) [
  | inl same ↦ cc ((text_eq_iff s t).1 (sym ((text_eq_iff t s).0 same)))
  | inr other ↦ other
]

find_prop-snoc :
    (k : Text) (ps : List Prop) (p : Prop)
    → find_prop k ps ≡ none
    → text_eq p.key k ≡ false
    → find_prop k (ps ++ p ∷ []) ≡ none
unfolding find_prop
find_prop-snoc k [] p h e = rw e
find_prop-snoc k (q ∷ ps) p h e = ground (arith, find_prop-snoc k ps p)

pub find_prop-head :
    (k : Text) (q : Prop) (ps : List Prop)
    → find_prop k (q ∷ ps) ≡ none
    → (text_eq q.key k ≡ false) × (find_prop k ps ≡ none)
unfolding find_prop
find_prop-head k q ps h = ground arith

Distinct-snoc :
    (ps : List Prop) (p : Prop) → find_prop p.key ps ≡ none → Distinct ps → Distinct (ps ++ p ∷ [])
Distinct-snoc [] p new d = (unfold find_prop in refl, tt)
Distinct-snoc (q ∷ ps) p new (first, d) =
    let (other, later) = find_prop-head p.key q ps new in
    (find_prop-snoc q.key ps p first (text_eq_sym q.key p.key other), Distinct-snoc ps p later d)

-- what one round of the property loop adds
abbrev Fits : List Prop → Prop → Type 0
Fits props p = (find_prop p.key props ≡ none) × IsValue p

new_prop-Fits :
    (name : Text) (props : List Prop) (kw val : Value) (found : Option Prop)
    → find_prop (key kw) props ≡ found
    → (kind_of val ≟ k_keyword) ≡ false
    → Returns (Fits props) (new_prop name kw val found)
unfolding new_prop
new_prop-Fits name props kw val (some q) e h = fails _
new_prop-Fits name props kw val none e h = returns (e, h)

check_prop-Fits :
    (name : Text) (props : List Prop) (kw val : Value)
    → Returns (Fits props) (check_prop name props kw val)
unfolding check_prop
check_prop-Fits name props kw val =
    Returns-if (kind_of val ≟ k_keyword) (λ _. fails _)
      (λ other. new_prop-Fits name props kw val (find_prop (key kw) props) refl other)

check_child-Returns : (v : Value) → Returns (λ (u : Unit {0}). Unit {0}) (check_child v)
unfolding check_child
check_child-Returns v =
    Returns-if (kind_of v ≟ k_keyword) (λ _. fails _)
      (λ _. Returns-if (not (kind_of v ≟ k_list)) (λ _. fails _) (λ _. returns tt))

-- the parts that the loops of `Build` collect
abbrev Parts : List Prop × Nodes → Type 0
Parts (props, kids) = Distinct props × All IsValue props × EachWellFormed kids

mutual
  unfolding build

  build_wf : (v : Value) → Returns WellFormed (build v)
  build_wf (value k_list t nil pos) = fails _
  build_wf (value k_list t (cons head rest) pos) =
      Returns-if (kind_of head ≟ k_symbol)
        (λ _.
          Returns-bind (build_items-Parts (text_of head) [] rest tt tt)
            λ (props, kids) (d, a, w). returns (well d a w))
        (λ _. fails _)
  build_wf (value _ t is pos) = fails _

  build_items-Parts :
      (name : Text) (props : List Prop) (is : Values)
      → Distinct props
      → All IsValue props
      → Returns Parts (build_items name props is)
  build_items-Parts name props nil d a = returns (d, a, no_node)
  build_items-Parts name props (cons v nil) d a =
      Returns-if (kind_of v ≟ k_keyword) (λ _. fails _)
        (λ _.
          Returns-bind (check_child-Returns v)
            λ _ _. Returns-bind (build_wf v) λ c w. returns (d, a, one_more w no_node))
  build_items-Parts name props (cons v (cons w rest)) d a =
      Returns-if (kind_of v ≟ k_keyword)
        (λ _. Returns-bind (check_prop-Fits name props v w) λ p (new, is_value).
          build_items-Parts name (props ++ p ∷ []) rest (Distinct-snoc props p new d)
            (All-append IsValue props (p ∷ []) a (is_value, tt)))
        (λ _. Returns-bind (check_child-Returns v) λ _ _. Returns-bind (build_wf v) λ c one.
          Returns-bind (build_kids_wf (cons w rest)) λ cs more. returns (d, a, one_more one more))

  build_kids_wf : (is : Values) → Returns EachWellFormed (build_kids is)
  build_kids_wf nil = returns no_node
  build_kids_wf (cons v vs) = Returns-bind (check_child-Returns v) λ _ _.
      Returns-bind (build_wf v)
        λ c one. Returns-bind (build_kids_wf vs) λ cs more. returns (one_more one more)

-- `Build` returns on every value, with an error or with a node in which, at every depth, no two
-- properties share a key and no property's value is itself a property name.
pub build-WellFormed : (v : Value) → Returns WellFormed (build v)
build-WellFormed v = build_wf v
