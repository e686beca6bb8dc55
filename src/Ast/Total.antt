-- ===== src/Ast/Total.antt =====
-- ast/props.go and ast/value.go: how the parsers and readings end.
use pktc.Common.{ℕ, ◌==◌, ltb, ◌||◌, not, Text, contains_byte, Option, none, some}
use pktc.Diag.{Result, Returns, returns, fails, Returns-bind, Returns-if}
use pktc.Std.Netip
use pktc.Sexp.Kind.{k_number, k_star, ◌≟◌}
use pktc.Sexp.Value.{Value, kind_of, text_of}
use pktc.Ast.{Prop, Node, lookup}
use pktc.Ast.Reading.{
  Reading, is_absent, is_dynamic, is_concrete, PropDef, concrete_from, read_prop, get, require,
}
use pktc.Ast.Props.{
  is_textual, parse_addr, parse_prefix, parse_text, number_text, parse_unsigned, parse_u16,
  parse_u32, parse_vlan_id, parse_vni,
}

-- it returns, whatever with
abbrev pub Returning : {A : Type 0} → Result A → Type 0
Returning {A} r = Returns (λ (a : A). Unit {0}) r

pub option-Returning :
    {A B : Type 0} (o : Option A) (e : Result B) (f : A → Result B)
    → Returning e
    → ((a : A) → Returning (f a))
    → Returning (elim o [ none ↦ e | some a ↦ f a ])
option-Returning none e f h k = h
option-Returning (some a) e f h k = k a

pub parse_addr-Returning : (v : Value) → Returning (parse_addr v)
unfolding parse_addr
parse_addr-Returning v =
    Returns-if (not (is_textual v)) (λ _. fails _)
      λ _. option-Returning (Netip.parse_addr (text_of v)) _ _ (fails _) λ a. returns tt

pub parse_prefix-Returning : (v : Value) → Returning (parse_prefix v)
unfolding parse_prefix
parse_prefix-Returning v =
    Returns-if (not (is_textual v)) (λ _. fails _)
      λ _.
        Returns-if (not (contains_byte b'/' (text_of v))) (λ _. fails _)
          λ _. option-Returning (Netip.parse_prefix (text_of v)) _ _ (fails _) λ a. returns tt

pub parse_text-Returning : (v : Value) → Returning (parse_text v)
unfolding parse_text
parse_text-Returning v = Returns-if (not (is_textual v)) (λ _. fails _) λ _. returns tt

pub parse_unsigned-Returning :
    (width : ℕ) (v : Value) (bits : ℕ) → Returning (parse_unsigned width v bits)
unfolding parse_unsigned
parse_unsigned-Returning width v bits =
    Returns-if (not (kind_of v ≟ k_number)) (λ _. fails _)
      λ _. option-Returning (number_text (text_of v) bits) _ _ (fails _) λ a. returns tt

pub parse_u16-Returning : (v : Value) → Returning (parse_u16 v)
unfolding parse_u16
parse_u16-Returning v = parse_unsigned-Returning 16 v 16

pub parse_u32-Returning : (v : Value) → Returning (parse_u32 v)
unfolding parse_u32
parse_u32-Returning v = parse_unsigned-Returning 32 v 32

pub parse_vlan_id-Returning : (v : Value) → Returning (parse_vlan_id v)
unfolding parse_vlan_id
parse_vlan_id-Returning v =
    Returns-bind (parse_unsigned-Returning 16 v 16)
      λ n _. Returns-if (n == 0 || ltb 4094 n) (λ _. fails _) λ _. returns tt

pub parse_vni-Returning : (v : Value) → Returning (parse_vni v)
unfolding parse_vni
parse_vni-Returning v =
    Returns-bind (parse_unsigned-Returning 32 v 32)
      λ n _. Returns-if (ltb 0xFFFFFF n) (λ _. fails _) λ _. returns tt

module _ {T : Type 0} where
  concrete_from-Returning :
      (n : Node) (key : Text) (p : Prop) {r : Result T}
      → Returning r
      → Returning (concrete_from n key p r)
  unfolding concrete_from
  concrete_from-Returning n key p (returns _) = returns tt
  concrete_from-Returning n key p (fails e) = fails _

  read_prop-Returning :
      (n : Node) (def : PropDef T) (found : Option Prop)
      → ((v : Value) → Returning (def.parse v))
      → Returning (read_prop n def found)
  unfolding read_prop
  read_prop-Returning n def none h = returns tt
  read_prop-Returning n def (some p) h =
      Returns-if (kind_of p.val ≟ k_star) (λ _. returns tt)
        (λ _. concrete_from-Returning n def.key p (h p.val))

  -- `Get` returns if the parser does.
  pub get-Returning :
      (n : Node) (def : PropDef T) → ((v : Value) → Returning (def.parse v)) → Returning (get n def)
  unfolding get
  get-Returning n def h = read_prop-Returning n def (lookup n def.key) h

  pub require-Returning : (form : Text) (r : Reading T) → Returning (require form r)
  unfolding require
  require-Returning form (is_concrete v p k) = returns tt
  require-Returning form (is_dynamic p k) = fails _
  require-Returning form (is_absent p k) = fails _
