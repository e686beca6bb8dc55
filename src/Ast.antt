-- ===== src/Ast.antt =====
-- ast/node.go: protocol nodes. The package's other files are the modules Reading and Props.
pub mod Reading
pub mod Props
pub mod Build
pub mod Distinct
pub mod RoundTrip
pub mod Bounds
pub mod Total
use pktc.Common.{◌≡◌, Text, Option, none, some, List, [], ◌∷◌, text_eq, if◌then◌else◌}
use pktc.Diag.{Pos}
use pktc.Sexp.Value.{Value}

pub record Prop : Type 0 where
  pub key : Text
  pub val : Value
  pub pos : Pos

-- `Nodes` is a node's `Children`.
mutual
  pub data Node : Type 0 where
    node : Text → List Prop → Nodes → Pos → Node

  pub data Nodes : Type 0 where
    none_below : Nodes
    child : Node → Nodes → Nodes

abbrev pub name_of : Node → Text
name_of (node name props kids pos) = name

abbrev pub props_of : Node → List Prop
props_of (node name props kids pos) = props

abbrev pub kids_of : Node → Nodes
kids_of (node name props kids pos) = kids

abbrev pub node_pos : Node → Pos
node_pos (node name props kids pos) = pos

-- the linear scan of `Lookup`
unfoldable pub find_prop : Text → List Prop → Option Prop
find_prop key [] = none
find_prop key (p ∷ ps) = if text_eq p.key key then some p else find_prop key ps

unfoldable pub lookup : Node → Text → Option Prop
unfolding find_prop
lookup n key = find_prop key (props_of n)
