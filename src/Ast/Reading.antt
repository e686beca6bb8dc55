-- ===== src/Ast/Reading.antt =====
-- ast/value.go: the three states of a property.
use pktc.Common.{Text, bytes, Option, none, some}
use pktc.Diag.{Pos, errorf, not_concrete, missing_required, bad_value, Result, ok, err, fault}
use pktc.Sexp.Kind.{k_star, ◌≟◌}
use pktc.Sexp.Value.{Value, kind_of, pos_of}
use pktc.Ast.{Prop, Node, name_of, node_pos, lookup}
use pktc.Common.{if◌then◌else◌}

pub data State : Type 0 where
  absent dynamic concrete : State

-- `State.String`
unfoldable pub state_string : State → Text
state_string absent = bytes "absent"
state_string dynamic = bytes "dynamic"
state_string concrete = bytes "concrete"

-- `Value[T]`: its state, position and key, and the value in the one state that has one. Every
-- other state holds Go's zero value, which nothing reads.
pub data Reading (T : Type 0) : Type 0 where
  is_absent is_dynamic : Pos → Text → Reading T
  is_concrete : T → Pos → Text → Reading T

module _ {T : Type 0} where
  abbrev pub state : Reading T → State
  state (is_absent p k) = absent
  state (is_dynamic p k) = dynamic
  state (is_concrete v p k) = concrete

  -- `Pos`
  abbrev pub reading_pos : Reading T → Pos
  reading_pos (is_absent p k) = p
  reading_pos (is_dynamic p k) = p
  reading_pos (is_concrete v p k) = p

  -- `Value.Get`
  abbrev pub concrete_value : Reading T → Option T
  concrete_value (is_concrete v p k) = some v
  concrete_value _ = none

  -- `Require`
  unfoldable pub require : Text → Reading T → Result T
  require form (is_concrete v p k) = ok v
  require form (is_dynamic p k) = err (errorf p (not_concrete form k))
  require form (is_absent p k) = err (errorf p (missing_required form k))

pub record PropDef (T : Type 0) : Type 0 where
  pub key : Text
  pub parse : Value → Result T

module _ {T : Type 0} where
  -- a property that is there and no `*`
  unfoldable pub concrete_from : Node → Text → Prop → Result T → Result (Reading T)
  concrete_from n key p (ok t) = ok (is_concrete t (pos_of p.val) key)
  concrete_from n key p (err e) = err (errorf (pos_of p.val) (bad_value (name_of n) key e))
  concrete_from n key p (fault x) = fault x

  unfoldable pub read_prop : Node → PropDef T → Option Prop → Result (Reading T)
  unfolding concrete_from
  read_prop n def none = ok (is_absent (node_pos n) def.key)
  read_prop n def (some p) =
      if kind_of p.val ≟ k_star
      then ok (is_dynamic (pos_of p.val) def.key)
      else concrete_from n def.key p (def.parse p.val)

  -- `Get`
  unfoldable pub get : Node → PropDef T → Result (Reading T)
  unfolding read_prop
  get n def = read_prop n def (lookup n def.key)
