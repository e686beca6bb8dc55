-- ===== src/Cli/Names.antt =====
-- cmd/pktc/main.go, `readTrees`: the names of the layers of the trees that it gives.
use pktc.Common.{◌≡◌, true, Text, List, [], ◌∷◌, ◌++◌, All}
use pktc.Std.Trim.{OneLine}
use pktc.Diag.{Result, Gives, gives, refuses, breaks, Gives-bind, Gives-if, Gives-any}
use pktc.Sexp.Kind.{k_list, k_symbol, k_keyword, ◌≟◌}
use pktc.Sexp.Value.{Value, Values, nil, cons, value, kind_of, text_of}
use pktc.Sexp.Symbols.{SymbolsFit, symbols_fit, EachFits, one_more, read-SymbolsFit}
use pktc.Ast.{Prop, Node, Nodes, node, none_below, child}
use pktc.Ast.Build.{check_prop, check_child, build, build_items, build_kids}
use pktc.Spine.{names}
use pktc.Mirror.{layers_of}
use pktc.Mirror.Lines.{NamesFit, NamesFitBelow}
use pktc.Cli.{build_all, build_forms, read_trees, single, read_tree}

child-Fits : (c : Node) (cs : Nodes) → NamesFit c → NamesFitBelow (child c cs)
unfolding layers_of names
child-Fits c none_below h = h
child-Fits c (child d ds) h = tt

node-Fits :
    (name : Text) (props : List Prop) (kids : Nodes) (pos : _)
    → OneLine name
    → NamesFitBelow kids
    → NamesFit (node name props kids pos)
unfolding layers_of names
node-Fits name props kids pos h k = (h, k)

any : {A : Type 0} (r : Result A) → Gives (λ a. Unit {0}) r
any r = Gives-any r (λ a. tt)

head-OneLine : (v : Value) → SymbolsFit v → (kind_of v ≟ k_symbol) ≡ true → OneLine (text_of v)
head-OneLine (value k t is p) (symbols_fit h each) e = h e

abbrev Parts : List Prop × Nodes → Type 0
Parts (props, kids) = NamesFitBelow kids

mutual
  unfolding build layers_of names

  build-NamesFit : (v : Value) → SymbolsFit v → Gives NamesFit (build v)
  build-NamesFit (value k_list t nil pos) h = refuses _
  build-NamesFit (value k_list t (cons head rest) pos) (symbols_fit _ (one_more h hs)) =
      Gives-if (kind_of head ≟ k_symbol)
        (λ e. Gives-bind (build_items-NamesFit (text_of head) [] rest hs) λ (props, kids) k.
          gives (node-Fits (text_of head) props kids pos (head-OneLine head h e) k))
        (λ _. refuses _)
  build-NamesFit (value _ t is pos) h = refuses _

  build_items-NamesFit :
      (name : Text) (props : List Prop) (is : Values)
      → EachFits is
      → Gives Parts (build_items name props is)
  build_items-NamesFit name props nil h = gives tt
  build_items-NamesFit name props (cons v nil) (one_more h hs) =
      Gives-if (kind_of v ≟ k_keyword) (λ _. refuses _)
        (λ _.
          Gives-bind (any (check_child v))
            λ _ _. Gives-bind (build-NamesFit v h) λ c fit. gives (child-Fits c none_below fit))
  build_items-NamesFit name props (cons v (cons w rest)) (one_more h (one_more k hs)) =
      Gives-if (kind_of v ≟ k_keyword)
        (λ _.
          Gives-bind (any (check_prop name props v w))
            λ p _. build_items-NamesFit name (props ++ p ∷ []) rest hs)
        (λ _. Gives-bind (any (check_child v)) λ _ _.
          Gives-bind (build-NamesFit v h) λ c fit.
            Gives-bind (any (build_kids (cons w rest))) λ cs _. gives (child-Fits c cs fit))

build_all-NamesFit : (vs : List Value) → All SymbolsFit vs → Gives (All NamesFit) (build_all vs)
unfolding build_all
build_all-NamesFit [] h = gives tt
build_all-NamesFit (v ∷ vs) (h, hs) =
    Gives-bind (build-NamesFit v h)
      λ n fit. Gives-bind (build_all-NamesFit vs hs) λ ns fits. gives (fit, fits)

build_forms-NamesFit :
    (path : Text) (vs : List Value) → All SymbolsFit vs → Gives (All NamesFit) (build_forms path vs)
unfolding build_forms
build_forms-NamesFit path [] h = refuses _
build_forms-NamesFit path (v ∷ vs) h = build_all-NamesFit (v ∷ vs) h

-- No name of a layer of a tree that `readTrees` gives holds a newline.
pub read_trees-NamesFit : (path src : Text) → Gives (All NamesFit) (read_trees path src)
unfolding read_trees
read_trees-NamesFit path src =
    Gives-bind (read-SymbolsFit path src) λ forms fit. build_forms-NamesFit path forms fit

single-NamesFit :
    (path : Text) (trees : List Node) → All NamesFit trees → Gives NamesFit (single path trees)
unfolding single
single-NamesFit path [] h = breaks _
single-NamesFit path (n ∷ []) (h, _) = gives h
single-NamesFit path (n ∷ m ∷ ns) h = refuses _

pub read_tree-NamesFit : (path src : Text) → Gives NamesFit (read_tree path src)
unfolding read_tree
read_tree-NamesFit path src =
    Gives-bind (read_trees-NamesFit path src) λ trees fit. single-NamesFit path trees fit
