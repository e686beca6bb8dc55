-- ===== src/Std/Netip/V4.antt =====
-- net/netip: dotted decimal.
use pktc.Common.{
  ℕ, ◌+◌, ◌-◌, ◌*◌, ◌==◌, ltb, if◌then◌else◌, ◌&&◌, ◌||◌, Text, bytes, Option, none, some, List, [],
  ◌∷◌, ◌++◌, is_digit, length, join, map,
}
use pktc.Std.Strconv.{format_uint}

-- `parseIPv4Fields`: `val` is the field so far and `len` its digits. A dot that stands first, last
-- or behind a dot is an error, and so is a leading zero.
pub fields_loop : Text → List ℕ → ℕ → ℕ → Option (List ℕ)
fields_loop [] fields val len = if ltb (length fields) 3 then none else some (fields ++ val ∷ [])
fields_loop (c ∷ s) fields val len =
    let digit = fields_loop s fields (val * 10 + (c - b'0')) (len + 1) in
    let dot = fields_loop s (fields ++ val ∷ []) 0 0 in
    if is_digit c
    then if len == 1 && val == 0
      then none
      else if ltb 255 (val * 10 + (c - b'0'))
      then none
      else digit
    else if c == b'.'
    then if len == 0 || length s == 0 then none else if length fields == 3 then none else dot
    else none

unfoldable pub parse4 : Text → Option (List ℕ)
unfolding fields_loop
parse4 s = fields_loop s [] 0 0

unfoldable pub string4 : List ℕ → Text
string4 b = join (map format_uint b) (bytes ".")
