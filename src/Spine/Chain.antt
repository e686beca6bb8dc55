-- ===== src/Spine/Chain.antt =====
-- spine/spine.go: trees that do not branch, as a specification of `Extract`.
use pktc.Common.{
  ◌≡◌, ◌↔◌, refl, ap, sym, ◌∙◌, Text, List, [], ◌∷◌, not, text_eq, text_eq_iff, subst, arith,
}
use pktc.Diag.{
  Result, ok, ◌>>=◌, Returns, returns, fails, Returns-bind, Returns-if, Returns-map, Returns-ok,
}
use pktc.Ast.{Prop, Node, Nodes, node, none_below, child, kids_of, name_of, props_of}
use pktc.Spine.{Spine, extract, extract_below, from_form, from_props, from_kids, configure_form}

-- A tree that does not branch, and its layers.
pub data Chain : Node → Spine → Type 0 where
  innermost : {n : Node} → kids_of n ≡ none_below → Chain n (n ∷ [])
  below : {n m : Node} {sp : Spine} → kids_of n ≡ child m none_below → Chain m sp → Chain n (n ∷ sp)

-- the layers below a layer with such children
abbrev Below : Nodes → Spine → Type 0
Below kids [] = kids ≡ none_below
Below kids (m ∷ sp) = (kids ≡ child m none_below) × Chain m (m ∷ sp)

Chain-of-Below : (n : Node) (sp : Spine) → Below (kids_of n) sp → Chain n (n ∷ sp)
Chain-of-Below n [] h = innermost h
Chain-of-Below n (m ∷ sp) (e, c) = below e c

-- Every result of `Extract` is the chain below its argument.
abbrev IsChain : Node → Spine → Type 0
IsChain n sp = (rest : Spine) × (sp ≡ n ∷ rest) × Below (kids_of n) rest

Below-of-IsChain : (n : Node) (sp : Spine) → IsChain n sp → Below (child n none_below) sp
Below-of-IsChain n sp (rest, e, b) =
    subst (Below (child n none_below)) (sym e) (refl, Chain-of-Below n rest b)

mutual
  unfolding extract

  extract-IsChain : (n : Node) → Returns (IsChain n) (extract n)
  extract-IsChain (node name props kids pos) =
      Returns-bind (extract_below-Below name kids) λ rest b. returns (rest, refl, b)

  extract_below-Below :
      (name : Text) (kids : Nodes) → Returns (Below kids) (extract_below name kids)
  extract_below-Below name none_below = returns refl
  extract_below-Below name (child n none_below) =
      Returns-map (extract-IsChain n) (λ sp c. Below-of-IsChain n sp c)
  extract_below-Below name (child n (child m ns)) = fails _

extract-innermost : (n : Node) → kids_of n ≡ none_below → extract n ≡ ok (n ∷ [])
unfolding extract
extract-innermost (node name props kids pos) e =
    ap (λ ks. extract_below name ks >>= λ rest. ok (node name props kids pos ∷ rest)) e

extract-below :
    (n m : Node) (sp : Spine)
    → kids_of n ≡ child m none_below
    → extract m ≡ ok sp
    → extract n ≡ ok (n ∷ sp)
unfolding extract
extract-below (node name props kids pos) m sp e h =
    ap (λ ks. extract_below name ks >>= λ rest. ok (node name props kids pos ∷ rest)) e
    ∙ ap (λ (r : Result Spine). r >>= λ rest. ok (node name props kids pos ∷ rest)) h

Chain-extract : {n : Node} {sp : Spine} → Chain n sp → extract n ≡ ok sp
Chain-extract (innermost {n} e) = extract-innermost n e
Chain-extract (below {n} {m} {sp} e c) = extract-below n m sp e (Chain-extract c)

extract-Chain : (n : Node) → Returns (Chain n) (extract n)
extract-Chain n =
    Returns-map (extract-IsChain n)
      λ sp (rest, e, b). subst (Chain n) (sym e) (Chain-of-Below n rest b)

-- `Extract` returns the layers of a tree exactly when it is a chain, outermost layer first, and
-- an error otherwise.
pub extract_iff : (n : Node) (sp : Spine) → (extract n ≡ ok sp) ↔ Chain n sp
extract_iff n sp = (λ e. Returns-ok (extract-Chain n) e, Chain-extract)

-- A `configure` form without properties, and the chain below its one child.
pub record Configures (root : Node) (sp : Spine) : Type 0 where
  pub named : name_of root ≡ configure_form
  pub bare : props_of root ≡ []
  pub packet : Node
  pub only : kids_of root ≡ child packet none_below
  pub chain : Chain packet sp

from_kids-child :
    (root : Node) (kids : Nodes)
    → Returns (λ sp. (n : Node) × (kids ≡ child n none_below) × Chain n sp) (from_kids root kids)
unfolding from_kids
from_kids-child root none_below = fails _
from_kids-child root (child n none_below) = Returns-map (extract-Chain n) λ sp c. (n, refl, c)
from_kids-child root (child n (child m ns)) = fails _

from_props-Configures :
    (root : Node)
    → name_of root ≡ configure_form
    → (props : List Prop) → props_of root ≡ props
    → Returns (Configures root) (from_props root props (kids_of root))
unfolding from_props
from_props-Configures root named (p ∷ ps) e = fails _
from_props-Configures root named [] e =
    Returns-map (from_kids-child root (kids_of root))
      λ sp (n, only, c). record { named = named; bare = e; packet = n; only = only; chain = c }

-- `FromForm` returns, and every spine that it returns is the chain below the one child of a
-- `configure` form that has no properties.
pub from_form-Configures : (root : Node) → Returns (Configures root) (from_form root)
unfolding from_form
from_form-Configures (node name props kids pos) =
    Returns-if (not (text_eq name configure_form)) (λ _. fails _)
      λ same.
        from_props-Configures (node name props kids pos)
          ((text_eq_iff name configure_form).0 (ground arith)) props refl
