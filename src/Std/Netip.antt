-- ===== src/Std/Netip.antt =====
-- net/netip: addresses and prefixes, as far as the program uses them. IPv4 text is in V4, IPv6
-- text in V6.
mod V4
mod V6
mod Tests
use pktc.Common.{
  ℕ, zero, suc, ◌+◌, ◌-◌, ◌*◌, ◌/◌, ◌%◌, ◌^◌, ◌==◌, ltb, leb, if◌then◌else◌, Bool, true, false,
  ◌&&◌, ◌||◌, not, Text, bytes, Option, none, some, List, [], ◌∷◌, ◌++◌, text_eq, is_digit, take,
  drop, contains_byte,
}
use pktc.Std.Strconv.{format_uint, parse_uint}
use V4.{parse4, string4}
use V6.{parse6, string6, mapped, tail_bytes}

-- Four bytes, or eight 16-bit groups with a zone.
pub data Addr : Type 0 where
  v4 : List ℕ → Addr
  v6 : List ℕ → Text → Addr

pub record Prefix : Type 0 where
  pub addr : Addr
  pub bits : ℕ

abbrev pub option_map : {A B : Type 0} → (A → B) → Option A → Option B
option_map f none = none
option_map f (some a) = some (f a)

-- `ParseAddr`: the first dot or colon decides the family.
parse_by : Text → Text → Option Addr
parse_by s [] = none
parse_by s (c ∷ t) =
    let later = parse_by s t in
    if c == b'.'
    then option_map v4 (parse4 s)
    else if c == b':'
    then option_map (λ (g, z). v6 g z) (parse6 s)
    else if c == b'%'
    then none
    else later

unfoldable pub parse_addr : Text → Option Addr
unfolding parse_by parse4 parse6
parse_addr s = parse_by s s

-- `Addr.String`
unfoldable pub addr_string : Addr → Text
unfolding string4 string6
addr_string (v4 b) = string4 b
addr_string (v6 g z) = string6 g z

-- `Is6`
abbrev pub is6 : Addr → Bool
is6 (v4 b) = false
is6 (v6 g z) = true

abbrev zone_of : Addr → Text
zone_of (v4 b) = []
zone_of (v6 g z) = z

abbrev first : List ℕ → ℕ
first [] = 0
first (b ∷ bs) = b

-- `IsMulticast`: 224.0.0.0/4 or ff00::/8
unfoldable pub is_multicast : Addr → Bool
unfolding mapped tail_bytes
is_multicast (v4 b) = first b / 16 == 14
is_multicast (v6 g z) =
    if mapped g then first (tail_bytes (drop 6 g)) / 16 == 14 else first g / 256 == 255

-- The part before the last slash and the part behind it.
unfoldable pub cut_last : Text → Option (Text × Text)
cut_last [] = none
cut_last (c ∷ s) = elim (cut_last s) [
  | some (a, b) ↦ some (c ∷ a, b)
  | none ↦ if c == b'/' then some ([], s) else none
]

-- the length behind the slash: no sign and no leading zero
prefix_bits : Text → ℕ → Option ℕ
prefix_bits t most = elim (parse_uint t 10 63) [
  | none ↦ none
  | some n ↦ if ltb most n then none else some n
]

prefix_length : Text → ℕ → Option ℕ
unfolding prefix_bits
prefix_length [] most = none
prefix_length (c ∷ []) most = prefix_bits (c ∷ []) most
prefix_length (c ∷ d ∷ s) most =
    if ltb c b'1' || ltb b'9' c then none else prefix_bits (c ∷ d ∷ s) most

prefix_from : Text → Addr → Option Prefix
unfolding prefix_length
prefix_from t (v4 b) = option_map (λ n. record { addr = v4 b; bits = n }) (prefix_length t 32)
prefix_from t (v6 g []) =
    option_map (λ n. record { addr = v6 g []; bits = n }) (prefix_length t 128)
prefix_from t (v6 g (c ∷ z)) = none

-- `ParsePrefix`
unfoldable pub parse_prefix : Text → Option Prefix
unfolding cut_last parse_addr prefix_from
parse_prefix s = elim (cut_last s) [
  | none ↦ none
  | some (a, b) ↦ elim (parse_addr a) [ none ↦ none | some x ↦ prefix_from b x ]
]

-- `Prefix.String`
unfoldable pub prefix_string : Prefix → Text
prefix_string p = addr_string p.addr ++ b'/' ∷ format_uint p.bits

-- the part of a group of `width` bits that a prefix of `bits` bits keeps
keep : ℕ → ℕ → ℕ → ℕ
keep width bits g = if leb width bits then g else g / 2 ^ (width - bits) * 2 ^ (width - bits)

mask : ℕ → ℕ → List ℕ → List ℕ
unfolding keep
mask width bits [] = []
mask width bits (g ∷ gs) = keep width bits g ∷ mask width (bits - width) gs

mask_addr : ℕ → Addr → Addr
unfolding mask
mask_addr bits (v4 b) = v4 (mask 8 bits b)
mask_addr bits (v6 g z) = v6 (mask 16 bits g) []

-- `Prefix.Masked`
unfoldable pub masked : Prefix → Prefix
unfolding mask_addr
masked p = record { addr = mask_addr p.bits p.addr; bits = p.bits }
