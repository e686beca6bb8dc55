-- ===== src/Std/Netip/V6.antt =====
-- net/netip: colon-separated groups, with `::`, a dotted tail and a zone.
use pktc.Common.{
  ℕ, zero, suc, ◌+◌, ◌-◌, ◌*◌, ◌/◌, ◌%◌, ◌==◌, ltb, leb, if◌then◌else◌, Bool, true, false, not,
  ◌&&◌, ◌||◌, Text, bytes, Option, none, some, List, [], ◌∷◌, ◌++◌, length, take, drop, has_prefix,
  all,
}
use pktc.Std.Strconv.{digit_value}
use pktc.Std.Netip.V4.{parse4, string4}

-- The text before the first `%` and the one behind it.
split_zone : Text → Text × Option Text
split_zone [] = ([], none)
split_zone (c ∷ s) =
    let later = split_zone s in if c == b'%' then ([], some s) else (c ∷ later.0, later.1)

-- One group: its value, its digits and what follows.
group : Text → ℕ → ℕ → ℕ × ℕ × Text
group [] acc len = (acc, len, [])
group (c ∷ s) acc len =
    let more = group s (acc * 16 + digit_value c) (len + 1) in
    if ltb (digit_value c) 16 then more else (acc, len, c ∷ s)

-- The groups read, where `::` stood, and the text that the loop left.
record Groups : Type 0 where
  read : List ℕ
  ellipsis : Option ℕ
  left : Text

abbrev is_some : Option ℕ → Bool
is_some none = false
is_some (some n) = true

two_groups : List ℕ → List ℕ
two_groups (a ∷ b ∷ c ∷ d ∷ _) = (a * 256 + b) ∷ (c * 256 + d) ∷ []
two_groups _ = []

-- a dotted tail: the last two groups
dotted : List ℕ → Option ℕ → Text → Option Groups
unfolding two_groups
dotted done ell s =
    if not (is_some ell) && not (length done == 6)
    then none
    else if ltb 6 (length done)
    then none
    else elim (parse4 s) [
      | none ↦ none
      | some b ↦ some (record { read = done ++ two_groups b; ellipsis = ell; left = [] })
    ]

-- The loop of `parseIPv6`, with the rounds that are left for the eight groups.
groups_loop : ℕ → List ℕ → Option ℕ → Text → Option Groups
unfolding group dotted
groups_loop zero done ell s = some (record { read = done; ellipsis = ell; left = s })
groups_loop (suc k) done ell s =
    let (acc, len, rest) = group s 0 0 in
    let done' = done ++ acc ∷ [] in
    let close = some (record { read = done'; ellipsis = ell; left = [] }) in
    let after_colon = groups_loop k done' ell (drop 1 rest) in
    let after_ellipsis = groups_loop k done' (some (length done')) (drop 2 rest) in
    let ends = some (record { read = done'; ellipsis = some (length done'); left = [] }) in
    if len == 0 || ltb 4 len
    then none
    else if has_prefix rest (bytes ".")
    then dotted done ell s
    else if length rest == 0
    then close
    else if not (has_prefix rest (bytes ":")) || length rest == 1
    then none
    else if has_prefix rest (bytes "::")
    then (if is_some ell then none else if length rest == 2 then ends else after_ellipsis)
    else after_colon

zeros : ℕ → List ℕ
zeros zero = []
zeros (suc n) = 0 ∷ zeros n

-- what follows the loop: nothing may be left, and `::` stands for the groups that are missing
expand : Groups → Option (List ℕ)
unfolding zeros
expand g = if not (length g.left == 0) then none else elim g.ellipsis [
  | none ↦ if length g.read == 8 then some g.read else none
  | some e ↦
      if length g.read == 8
      then none
      else some (take e g.read ++ (zeros (8 - length g.read) ++ drop e g.read))
]

parse_groups : Text → Option (List ℕ)
unfolding groups_loop expand
parse_groups s =
    if has_prefix s (bytes "::")
    then if length s == 2
      then some (zeros 8)
      else elim (groups_loop 8 [] (some 0) (drop 2 s)) [ none ↦ none | some g ↦ expand g ]
    else elim (groups_loop 8 [] none s) [ none ↦ none | some g ↦ expand g ]

with_zone : Text → Text → Option (List ℕ × Text)
unfolding parse_groups
with_zone s z = elim (parse_groups s) [ none ↦ none | some g ↦ some (g, z) ]

zoned : Text → Option Text → Option (List ℕ × Text)
unfolding with_zone
zoned s none = with_zone s []
zoned s (some []) = none
zoned s (some (c ∷ z)) = with_zone s (c ∷ z)

unfoldable pub parse6 : Text → Option (List ℕ × Text)
unfolding split_zone zoned
parse6 s = let (a, z) = split_zone s in zoned a z

hex_digit : ℕ → ℕ
hex_digit d = if ltb d 10 then b'0' + d else b'a' + (d - 10)

-- without leading zeros
hex : ℕ → Text
unfolding hex_digit
hex g =
    if ltb g 16
    then hex_digit g ∷ []
    else if ltb g 256
    then hex_digit (g / 16) ∷ hex_digit (g % 16) ∷ []
    else if ltb g 4096
    then hex_digit (g / 256) ∷ hex_digit (g / 16 % 16) ∷ hex_digit (g % 16) ∷ []
    else hex_digit (g / 4096)
      ∷ hex_digit (g / 256 % 16)
      ∷ hex_digit (g / 16 % 16)
      ∷ hex_digit (g % 16)
      ∷ []

-- how many zero groups stand in front
run : List ℕ → ℕ
run [] = 0
run (zero ∷ gs) = suc (run gs)
run (suc g ∷ gs) = 0

-- The first longest run of two zero groups or more: its start and its length.
longest : ℕ → List ℕ → ℕ × ℕ → ℕ × ℕ
unfolding run
longest i [] best = best
longest i (g ∷ gs) best =
    longest (i + 1) gs
      (if leb 2 (run (g ∷ gs)) && ltb best.1 (run (g ∷ gs)) then (i, run (g ∷ gs)) else best)

colons : List ℕ → Text
unfolding hex
colons [] = []
colons (g ∷ []) = hex g
colons (g ∷ h ∷ gs) = hex g ++ (b':' ∷ colons (h ∷ gs))

plain6 : List ℕ → Text
unfolding longest colons
plain6 g =
    let (at, len) = longest 0 g (0, 0) in
    if len == 0 then colons g else colons (take at g) ++ (bytes "::" ++ colons (drop (at + len) g))

sixth_is_ffff : List ℕ → Bool
sixth_is_ffff (_ ∷ _ ∷ _ ∷ _ ∷ _ ∷ f ∷ _) = f == 0xffff
sixth_is_ffff _ = false

-- `Is4In6`: an IPv4 address in IPv6 form, which is printed dotted
unfoldable pub mapped : List ℕ → Bool
unfolding sixth_is_ffff
mapped g = all (λ x. x == 0) (take 5 g) && sixth_is_ffff g

unfoldable pub tail_bytes : List ℕ → List ℕ
tail_bytes (a ∷ b ∷ []) = (a / 256) ∷ (a % 256) ∷ (b / 256) ∷ (b % 256) ∷ []
tail_bytes _ = []

zone_suffix : Text → Text
zone_suffix [] = []
zone_suffix (c ∷ z) = b'%' ∷ c ∷ z

unfoldable pub string6 : List ℕ → Text → Text
unfolding plain6 mapped tail_bytes zone_suffix
string6 g z =
    if mapped g
    then bytes "::ffff:" ++ (string4 (tail_bytes (drop 6 g)) ++ zone_suffix z)
    else plain6 g ++ zone_suffix z
