-- ===== src/Ast/Bounds.antt =====
-- ast/props.go and ast/value.go: what the typed readings of a property accept.
use Prim.Native.Nat.{◌≤◌}
use native.Mathlib.Nat.{mod-eq_of_lt, one-le-pow}
use pktc.Common.{
  ℕ, ◌+◌, ◌*◌, ◌%◌, ◌^◌, ◌<◌, ◌≡◌, ◌↔◌, refl, ap, sym, ◌∙◌, true, false, leb, Text, bytes, Option,
  none, some, [], ◌∷◌, drop, is_digit, All, has_prefix, arith, Bool-cases, Option-cases, inl, inr,
  leb-false→lt,
}
use pktc.Diag.{Pos, Result, ok, err, fault, ◌>>=◌, >>=-eq-ok}
use pktc.Sexp.Kind.{k_number, k_star, ◌≟◌}
use pktc.Sexp.Value.{Value, atom, kind_of, text_of}
use pktc.Sexp.Reader.{has_hex_prefix}
use pktc.Std.Strconv.{digit_value, parse_loop, parse_uint, format_uint}
use pktc.Std.Decimal.{parse_uint-format_uint, format_uint-digits}
use pktc.Ast.{Prop, Node, lookup}
use pktc.Ast.Reading.{PropDef, concrete_from, read_prop, get, require}
use pktc.Ast.Props.{number_text, parse_unsigned, parse_u16, parse_vlan_id, parse_vni}

parse_loop-lt :
    (base bits : ℕ) (s : Text) (n u : ℕ)
    → n < 2 ^ bits
    → parse_loop base bits s n ≡ some u
    → u < 2 ^ bits
unfolding parse_loop
parse_loop-lt base bits [] n u h e = ground arith
parse_loop-lt base bits (c ∷ s) n u h e = elim (Bool-cases (leb base (digit_value c))) [
  | inl bad ↦ cc (rw bad at e)
  | inr good ↦ elim (Bool-cases (leb (2 ^ bits) (n * base + digit_value c))) [
    | inl over ↦ cc (rw (good, over) at e)
    | inr fits ↦
        parse_loop-lt base bits s (n * base + digit_value c) u (leb-false→lt _ _ fits)
          (rw (good, fits) at e)
  ]
]

pow-pos : (bits : ℕ) → 0 < 2 ^ bits
pow-pos bits = one-le-pow bits 2 (omega arith)

parse_uint-lt : (t : Text) (base bits : ℕ) {u : ℕ} → parse_uint t base bits ≡ some u → u < 2 ^ bits
unfolding parse_uint
parse_uint-lt [] base bits e = cc
parse_uint-lt (c ∷ t) base bits {u} e = parse_loop-lt base bits (c ∷ t) 0 u (pow-pos bits) e

number_text-lt : (t : Text) (bits : ℕ) {u : ℕ} → number_text t bits ≡ some u → u < 2 ^ bits
unfolding number_text
number_text-lt t bits {u} e = elim (Bool-cases (has_hex_prefix t)) [
  | inl hex ↦ parse_uint-lt (drop 2 t) 16 bits (rw hex at e)
  | inr dec ↦ parse_uint-lt t 10 bits (rw dec at e)
]

-- The value is a number, and its spelling denotes `n`, which fits in `bits` bits.
abbrev pub Denotes : ℕ → Value → ℕ → Type 0
Denotes bits v n = ((kind_of v ≟ k_number) ≡ true) × (number_text (text_of v) bits ≡ some n)

pub parse_unsigned-Denotes :
    (bits : ℕ) (v : Value) (n : ℕ) → parse_unsigned bits v bits ≡ ok n → Denotes bits v n
unfolding parse_unsigned
parse_unsigned-Denotes bits v n e = elim (Bool-cases (kind_of v ≟ k_number)) [
  | inr other ↦ cc (rw other at e)
  | inl number ↦ elim (Option-cases (number_text (text_of v) bits)) [
    | inl missing ↦ cc (rw (number, missing) at e)
    | inr (u, found) ↦
        let same : u % 2 ^ bits ≡ n = cc (rw (number, found) at e) in
        (
          number,
          found ∙ ap some (sym (mod-eq_of_lt (number_text-lt (text_of v) bits found)) ∙ same),
        )
  ]
]

pub Denotes-parse_unsigned :
    (bits : ℕ) (v : Value) (n : ℕ) → Denotes bits v n → parse_unsigned bits v bits ≡ ok n
unfolding parse_unsigned
Denotes-parse_unsigned bits v n (number, found) =
    rw (number, found) (ap ok (mod-eq_of_lt (number_text-lt (text_of v) bits found)))

-- `parseU16` accepts a value exactly when it is a number, decimal or hexadecimal, that fits in 16
-- bits, and returns that number.
parse_u16_iff : (v : Value) (n : ℕ) → (parse_u16 v ≡ ok n) ↔ Denotes 16 v n
unfolding parse_u16
parse_u16_iff v n = (parse_unsigned-Denotes 16 v n, Denotes-parse_unsigned 16 v n)

-- `parseVLANID` accepts a value exactly when it is a number from 1 to 4094, and returns it.
parse_vlan_id_iff :
    (v : Value) (n : ℕ) → (parse_vlan_id v ≡ ok n) ↔ (Denotes 16 v n × (1 ≤ n) × (n ≤ 4094))
unfolding parse_vlan_id
parse_vlan_id_iff v n = (to, from)
  where
    to : parse_vlan_id v ≡ ok n → Denotes 16 v n × (1 ≤ n) × (n ≤ 4094)
    to e =
        let (u, read, tested) = >>=-eq-ok (parse_unsigned 16 v 16) _ e in
        let same : u ≡ n = ground arith in
        (parse_unsigned-Denotes 16 v n (read ∙ ap ok same), ground arith, ground arith)

    from : Denotes 16 v n × (1 ≤ n) × (n ≤ 4094) → parse_vlan_id v ≡ ok n
    from (d, low, high) = rw (Denotes-parse_unsigned 16 v n d) (ground arith)

-- `parseVNI` accepts a value exactly when it is a number of at most 24 bits, and returns it.
parse_vni_iff : (v : Value) (n : ℕ) → (parse_vni v ≡ ok n) ↔ (Denotes 32 v n × (n ≤ 16777215))
unfolding parse_vni
parse_vni_iff v n = (to, from)
  where
    to : parse_vni v ≡ ok n → Denotes 32 v n × (n ≤ 16777215)
    to e =
        let (u, read, tested) = >>=-eq-ok (parse_unsigned 32 v 32) _ e in
        let same : u ≡ n = ground arith in
        (parse_unsigned-Denotes 32 v n (read ∙ ap ok same), ground arith)

    from : Denotes 32 v n × (n ≤ 16777215) → parse_vni v ≡ ok n
    from (d, high) = rw (Denotes-parse_unsigned 32 v n d) (ground arith)

-- Of all values, `parseU16` accepts exactly the numbers, decimal or hexadecimal, that fit in 16 bits,
-- `parseVLANID` those from 1 to 4094, and `parseVNI` those of at most 24 bits; each returns the number.
pub parse_numbers_iff :
    (v : Value) (n : ℕ)
    → ((parse_u16 v ≡ ok n) ↔ Denotes 16 v n)
      × ((parse_vlan_id v ≡ ok n) ↔ (Denotes 16 v n × (1 ≤ n) × (n ≤ 4094)))
      × ((parse_vni v ≡ ok n) ↔ (Denotes 32 v n × (n ≤ 16777215)))
parse_numbers_iff v n = (parse_u16_iff v n, parse_vlan_id_iff v n, parse_vni_iff v n)

plain_decimal : (t : Text) → All (λ c. is_digit c ≡ true) t → has_hex_prefix t ≡ false
unfolding has_prefix bytes
plain_decimal [] a = refl
plain_decimal (c ∷ []) a = ground arith
plain_decimal (c ∷ d ∷ t) (_, (p, _)) = ground arith

number_text-decimal :
    (t : Text) (bits : ℕ)
    → All (λ c. is_digit c ≡ true) t
    → number_text t bits ≡ parse_uint t 10 bits
unfolding number_text
number_text-decimal t bits a = rw (plain_decimal t a)

-- The decimal spelling of a number below `2 ^ bits` is read as that number: what the emitted
-- commands print, the tree could have said.
pub parse_unsigned-format_uint :
    (bits n : ℕ) (pos : Pos)
    → n < 2 ^ bits
    → parse_unsigned bits (atom k_number (format_uint n) pos) bits ≡ ok n
parse_unsigned-format_uint bits n pos h =
    Denotes-parse_unsigned bits (atom k_number (format_uint n) pos) n (refl, denotes)
  where
    denotes : number_text (format_uint n) bits ≡ some n
    denotes =
        rw (number_text-decimal (format_uint n) bits (format_uint-digits n))
          (parse_uint-format_uint bits n h)

module _ {T : Type 0} (n : Node) (def : PropDef T) (form : Text) (t : T) where
  -- the property that the reading comes from
  abbrev pub Given : Option Prop → Prop → Type 0
  Given found p = (found ≡ some p) × ((kind_of p.val ≟ k_star) ≡ false) × (def.parse p.val ≡ ok t)

  concrete_from-require :
      (p : Prop) (r : Result T) → (concrete_from n def.key p r >>= require form) ≡ ok t → r ≡ ok t
  unfolding concrete_from require
  concrete_from-require p (ok u) e = e
  concrete_from-require p (err x) e = cc
  concrete_from-require p (fault x) e = cc

  read_prop-Given :
      (found : Option Prop)
      → (read_prop n def found >>= require form) ≡ ok t
      → (p : Prop) × Given found p
  unfolding read_prop
  read_prop-Given none e = unfold require in cc
  read_prop-Given (some p) e = elim (Bool-cases (kind_of p.val ≟ k_star)) [
    | inl star ↦ unfold require in cc (rw star at e)
    | inr other ↦ (p, (refl, other, concrete_from-require p (def.parse p.val) (rw other at e)))
  ]

  Given-read_prop :
      (found : Option Prop) (p : Prop)
      → Given found p
      → (read_prop n def found >>= require form) ≡ ok t
  unfolding read_prop concrete_from require
  Given-read_prop found p (there, other, parsed) = rw there (rw other (rw parsed))

  -- A required property has a value exactly when the node carries it, it is no `*`, and its value
  -- parses at the property's type; the value read is the one parsed.
  pub get-require_iff :
      ((get n def >>= require form) ≡ ok t) ↔ ((p : Prop) × Given (lookup n def.key) p)
  unfolding get
  get-require_iff =
      (read_prop-Given (lookup n def.key), λ (p, g). Given-read_prop (lookup n def.key) p g)
