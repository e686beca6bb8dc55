-- ===== src/Std/Strconv.antt =====
-- strconv: `FormatUint(n, 10)`, also `%d`, and `ParseUint`.
use pktc.Common.{
  ℕ, zero, suc, ◌+◌, ◌-◌, ◌*◌, ◌/◌, ◌%◌, ◌^◌, ltb, leb, if◌then◌else◌, ◌&&◌, Text, Option, none,
  some, [], ◌∷◌, ◌++◌,
}
use pktc.Common.Int.{ℤ, pos, negsuc}

-- The decimal digits of `n`, most significant first; `n + 1` rounds are more than enough.
unfoldable pub digits : ℕ → ℕ → Text
digits zero n = []
digits (suc f) n =
    let front = digits f (n / 10) in
    if ltb n 10 then (b'0' + n) ∷ [] else front ++ (b'0' + n % 10) ∷ []

unfoldable pub format_uint : ℕ → Text
unfolding digits
format_uint n = digits (suc n) n

-- `%d` of an int
unfoldable pub format_int : ℤ → Text
format_int (pos n) = format_uint n
format_int (negsuc n) = b'-' ∷ format_uint (suc n)

-- the value of one digit, 36 where it is none
unfoldable pub digit_value : ℕ → ℕ
digit_value c =
    if leb b'0' c && leb c b'9'
    then c - b'0'
    else if leb b'a' c && leb c b'z'
    then c - b'a' + 10
    else if leb b'A' c && leb c b'Z'
    then c - b'A' + 10
    else 36

-- The loop of `ParseUint` in `base`, with the digits read so far: a digit out of range or a value
-- past `2 ^ bits` is an error.
unfoldable pub parse_loop : ℕ → ℕ → Text → ℕ → Option ℕ
unfolding digit_value
parse_loop base bits [] n = some n
parse_loop base bits (c ∷ s) n =
    let later = parse_loop base bits s (n * base + digit_value c) in
    if leb base (digit_value c)
    then none
    else if leb (2 ^ bits) (n * base + digit_value c)
    then none
    else later

unfoldable pub parse_uint : Text → ℕ → ℕ → Option ℕ
unfolding parse_loop
parse_uint [] base bits = none
parse_uint (c ∷ s) base bits = parse_loop base bits (c ∷ s) 0
