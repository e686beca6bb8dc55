-- ===== src/Mirror.antt =====
-- mirror/mirror.go: the tree of the far end. A tree here is a value, so the copy that `clone` makes
-- is the tree itself, and a change of the copy's layers is a new chain.
pub mod Far
pub mod Notes
pub mod Lines
pub mod Ends
pub mod Twice
pub mod Return
pub mod Settled
pub mod Back
pub mod Others
pub mod Peer
pub mod Tiled
use pktc.Common.{
  ℕ, ◌+◌, ◌==◌, not, ◌&&◌, ◌||◌, Bool, true, false, Text, bytes, text_eq, Option, none, some, List,
  [], ◌∷◌, ◌++◌, if◌then◌else◌,
}
use pktc.Diag
use pktc.Diag.{
  Pos, errorf, bad_peer_inner, nothing_to_mirror, one_ended, Result, ok, err, fault, ◌>>=◌, ◌>>◌,
}
use pktc.Sexp.Kind.{k_string, k_star, ◌≟◌}
use pktc.Sexp.Value.{Value, atom, kind_of, text_of, pos_of}
use pktc.Ast.{
  Prop, Node, Nodes, node, none_below, child, name_of, props_of, node_pos, find_prop, lookup,
}
use pktc.Ast.Props.{parse_prefix}
use pktc.Tile.{is_nil}
use pktc.Tile.Address.{is_ip}

-- what the notes of `Supplied` and `Missing` say, with their arguments
pub data Note : Type 0 where
  exchanged : Text → Note
  same_at_both : Text → Text → Note
  key_material : Text → Note
  peer_name : Text → Note
  inner_set : Text → Text → Note
  inner_missing : Text → Note

-- `Result`
pub record Mirrored : Type 0 where
  pub tree : Node
  pub supplied : List Note
  pub missing : List Note

-- `splitPrefix` on a text: the address, and what stands behind the first slash
unfoldable pub split_text : Text → Text × Text
split_text [] = ([], [])
split_text (c ∷ s) =
    let (addr, size) = split_text s in if c == b'/' then ([], s) else (c ∷ addr, size)

-- `splitPrefix`
unfoldable pub split_prefix : Value → Text × Text
unfolding split_text
split_prefix v = if kind_of v ≟ k_star then ([], []) else split_text (text_of v)

-- `rebuild`
unfoldable pub rebuild : Value → Text → Text → Value
rebuild orig addr size =
    if kind_of orig ≟ k_star || text_eq addr []
    then orig
    else atom k_string (if not (text_eq size []) then addr ++ (b'/' ∷ size) else addr) (pos_of orig)

-- the loop of `swapEndpoints`, which gives the two keys their new values
unfoldable pub put_ends : Value → Value → List Prop → List Prop
put_ends new_src new_dst [] = []
put_ends new_src new_dst (p ∷ ps) =
    (if text_eq p.key (bytes "src")
      then record p { val = new_src }
      else if text_eq p.key (bytes "dst")
      then record p { val = new_dst }
      else p)
    ∷ put_ends new_src new_dst ps

-- the two values of `swapEndpoints`: the addresses exchanged, each length kept in its place
unfoldable pub mirrored_src : Value → Value → Value
mirrored_src s d = rebuild d (split_prefix d).0 (split_prefix s).1

unfoldable pub mirrored_dst : Value → Value → Value
mirrored_dst s d = rebuild s (split_prefix s).0 (split_prefix d).1

-- `swapEndpoints`, on the properties of a layer that has both ends
unfoldable pub swap_endpoints : Prop → Prop → List Prop → List Prop
unfolding put_ends mirrored_src mirrored_dst
swap_endpoints s d ps = put_ends (mirrored_src s.val d.val) (mirrored_dst s.val d.val) ps

-- one round of the loop over the layers: the properties, and the note if it swaps
unfoldable pub turned : Text → List Prop → Option Prop → Option Prop → List Prop × List Note
turned name ps (some s) (some d) = (swap_endpoints s d ps, exchanged name ∷ [])
turned name ps _ _ = (ps, [])

unfoldable pub turn_layer : Text → List Prop → List Prop × List Note
unfolding turned
turn_layer name ps = turned name ps (find_prop (bytes "src") ps) (find_prop (bytes "dst") ps)

-- The loop over the layers of the chain, which `spineOf` collects: those with one child each, and
-- the one behind them.
unfoldable mutual
  pub turn : Node → Node × List Note
  turn (node name ps kids pos) =
      let (ps', notes) = turn_layer name ps in
      let (kids', more) = turn_below kids in (node name ps' kids' pos, notes ++ more)

  pub turn_below : Nodes → Nodes × List Note
  turn_below none_below = (none_below, [])
  turn_below (child n none_below) = let (n', notes) = turn n in (child n' none_below, notes)
  turn_below (child n (child m ns)) = (child n (child m ns), [])

-- `spineOf`
unfoldable mutual
  pub layers_of : Node → List Node
  layers_of (node name ps kids pos) = node name ps kids pos ∷ layers_below kids

  pub layers_below : Nodes → List Node
  layers_below none_below = []
  layers_below (child n none_below) = layers_of n
  layers_below (child n (child m ns)) = []
