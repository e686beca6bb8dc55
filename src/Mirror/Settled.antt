-- ===== src/Mirror/Settled.antt =====
-- mirror/mirror.go: what `Peer` does to the innermost address when none is given.
use pktc.Common.{
  ◌≡◌, refl, Bool, true, false, Text, text_eq, Option, none, some, List, [], ◌∷◌, All,
  if◌then◌else◌,
}
use pktc.Diag.{Pos}
use pktc.Ast.{Prop, Node, Nodes, node, none_below, child}
use pktc.Mirror.{Note, inner_missing, layers_of, layers_below}
use pktc.Mirror.Far.{is_addressed, settle, settled, only_child, settle_innermost, settle_below}

-- no layer has a `:src` with a length
abbrev pub Unaddressed : List Node → Type 0
Unaddressed = All (λ n. is_addressed n ≡ false)

-- something is reported as missing
abbrev pub Loses : {X : Type 0} → Option (X × List Note × List Note) → Type 0
Loses none = Unit
Loses (some (x, more, lost)) = (n : Note) × (ns : List Note) × (lost ≡ n ∷ ns)

settle-Loses : (n : Node) → Loses (some (settle [] n))
unfolding settle text_eq
settle-Loses (node name ps kids pos) = (inner_missing name, [], refl)

settled-Loses :
    (name : Text) (ps : List Prop) (pos : Pos) (this : Option (Node × List Note × List Note))
    (deeper : Option (Nodes × List Note × List Note))
    → Loses this
    → Loses deeper
    → Loses (settled name ps pos this deeper)
unfolding settled
settled-Loses name ps pos this none h k = h
settled-Loses name ps pos this (some (kids, more, lost)) h k = k

this-Loses : (n : Node) (b : Bool) → Loses (if b then some (settle [] n) else none)
this-Loses n true = settle-Loses n
this-Loses n false = tt

only_child-Loses : (o : Option (Node × List Note × List Note)) → Loses o → Loses (only_child o)
unfolding only_child
only_child-Loses none h = tt
only_child-Loses (some (n, more, lost)) h = h

mutual
  unfolding settle_innermost

  pub settle_innermost-Loses : (n : Node) → Loses (settle_innermost [] n)
  settle_innermost-Loses (node name ps kids pos) =
      settled-Loses name ps pos
        (if is_addressed (node name ps kids pos)
          then some (settle [] (node name ps kids pos))
          else none)
        (settle_below [] kids)
        (this-Loses (node name ps kids pos) (is_addressed (node name ps kids pos)))
        (settle_below-Loses kids)

  settle_below-Loses : (ns : Nodes) → Loses (settle_below [] ns)
  settle_below-Loses none_below = tt
  settle_below-Loses (child n none_below) =
      only_child-Loses (settle_innermost [] n) (settle_innermost-Loses n)
  settle_below-Loses (child n (child m ns)) = tt

mutual
  unfolding settle_innermost layers_of settled only_child

  pub settle_innermost-none : (n : Node) → Unaddressed (layers_of n) → settle_innermost [] n ≡ none
  settle_innermost-none (node name ps kids pos) (h, hs) = rw (settle_below-none kids hs, h) refl

  settle_below-none : (ns : Nodes) → Unaddressed (layers_below ns) → settle_below [] ns ≡ none
  settle_below-none none_below h = refl
  settle_below-none (child n none_below) h = rw (settle_innermost-none n h) refl
  settle_below-none (child n (child m ns)) h = refl
