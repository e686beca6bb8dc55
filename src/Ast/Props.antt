-- ===== src/Ast/Props.antt =====
-- ast/props.go: the property vocabulary.
use pktc.Common.{
  ℕ, ◌^◌, ◌%◌, ◌==◌, ltb, ◌||◌, Text, bytes, contains_byte, Option, none, some, if◌then◌else◌, not,
  Bool, drop,
}
use pktc.Diag.{
  plain, expected_address, expected_prefix, expected_text, expected_number, not_address,
  no_prefix_length, not_prefix, does_not_fit, outside_vlan_range, exceeds_vni_range, Result, ok,
  err, ◌>>=◌,
}
use pktc.Sexp.Kind.{k_string, k_symbol, k_number, ◌≟◌}
use pktc.Sexp.Value.{Value, kind_of, text_of}
use pktc.Sexp.Reader.{has_hex_prefix}
use pktc.Std.Strconv.{parse_uint}
use pktc.Std.Netip
use pktc.Std.Netip.{Addr, Prefix}
use pktc.Ast.Reading.{PropDef}

-- a string or a bare symbol
abbrev pub is_textual : Value → Bool
is_textual v = kind_of v ≟ k_string || kind_of v ≟ k_symbol

-- `ParseAddr`
unfoldable pub parse_addr : Value → Result Addr
parse_addr v =
    if not (is_textual v)
    then err (plain (expected_address (kind_of v)))
    else elim (Netip.parse_addr (text_of v)) [
      | none ↦ err (plain (not_address (text_of v)))
      | some a ↦ ok a
    ]

-- `ParsePrefix`
unfoldable pub parse_prefix : Value → Result Prefix
parse_prefix v =
    if not (is_textual v)
    then err (plain (expected_prefix (kind_of v)))
    else if not (contains_byte b'/' (text_of v))
    then err (plain (no_prefix_length (text_of v)))
    else elim (Netip.parse_prefix (text_of v)) [
      | none ↦ err (plain (not_prefix (text_of v)))
      | some p ↦ ok p
    ]

-- `ParseText`
unfoldable pub parse_text : Value → Result Text
parse_text v =
    if not (is_textual v) then err (plain (expected_text (kind_of v))) else ok (text_of v)

-- The number that a text denotes, decimal or `0x…`, if it fits in `bits` bits.
unfoldable pub number_text : Text → ℕ → Option ℕ
number_text t bits =
    if has_hex_prefix t then parse_uint (drop 2 t) 16 bits else parse_uint t 10 bits

-- `parseUnsigned`, at the type of `width` bits
unfoldable pub parse_unsigned : ℕ → Value → ℕ → Result ℕ
unfolding number_text
parse_unsigned width v bits =
    if not (kind_of v ≟ k_number)
    then err (plain (expected_number (kind_of v)))
    else elim (number_text (text_of v) bits) [
      | none ↦ err (plain (does_not_fit (text_of v) bits))
      | some u ↦ ok (u % 2 ^ width)
    ]

unfoldable pub parse_u16 : Value → Result ℕ
parse_u16 v = parse_unsigned 16 v 16

unfoldable pub parse_u32 : Value → Result ℕ
parse_u32 v = parse_unsigned 32 v 32

-- `parseVLANID`
unfoldable pub parse_vlan_id : Value → Result ℕ
parse_vlan_id v = do
  n ← parse_unsigned 16 v 16
  if n == 0 || ltb 4094 n then err (plain (outside_vlan_range n)) else ok n

-- `parseVNI`
unfoldable pub parse_vni : Value → Result ℕ
parse_vni v = do
  n ← parse_unsigned 32 v 32
  if ltb 0xFFFFFF n then err (plain (exceeds_vni_range n)) else ok n

abbrev pub src : PropDef Addr
src = record { key = bytes "src"; parse = parse_addr }

abbrev pub dst : PropDef Addr
dst = record { key = bytes "dst"; parse = parse_addr }

abbrev pub src_prefix : PropDef Prefix
src_prefix = record { key = bytes "src"; parse = parse_prefix }

abbrev pub dst_prefix : PropDef Prefix
dst_prefix = record { key = bytes "dst"; parse = parse_prefix }

abbrev pub src_port : PropDef ℕ
src_port = record { key = bytes "src-port"; parse = parse_u16 }

abbrev pub dst_port : PropDef ℕ
dst_port = record { key = bytes "dst-port"; parse = parse_u16 }

abbrev pub vni : PropDef ℕ
vni = record { key = bytes "vni"; parse = parse_vni }

abbrev pub key : PropDef ℕ
key = record { key = bytes "key"; parse = parse_u32 }

abbrev pub sequence : PropDef ℕ
sequence = record { key = bytes "sequence"; parse = parse_u32 }

abbrev pub spi : PropDef ℕ
spi = record { key = bytes "spi"; parse = parse_u32 }

abbrev pub vlan_id : PropDef ℕ
vlan_id = record { key = bytes "id"; parse = parse_vlan_id }

abbrev pub peer : PropDef Text
peer = record { key = bytes "peer"; parse = parse_text }

abbrev pub protocol : PropDef Text
protocol = record { key = bytes "protocol"; parse = parse_text }

abbrev pub mode : PropDef Text
mode = record { key = bytes "mode"; parse = parse_text }

abbrev pub name : PropDef Text
name = record { key = bytes "name"; parse = parse_text }
