-- ===== src/Std/Strings.antt =====
-- strings: `TrimSpace` and `Split` at newlines.
use mathlib.Core.List.{reverse}
use pktc.Common.{
  ℕ, ◌==◌, leb, ◌&&◌, ◌||◌, Bool, Text, bytes, List, [], ◌∷◌, if◌then◌else◌, ◌≡◌, refl,
}

-- White space as Unicode defines it: the runes of one, two and three bytes.
unfoldable pub is_blank : ℕ → Bool
is_blank a = leb 9 a && leb a 13 || a == b' '

unfoldable pub is_blank2 : ℕ → ℕ → Bool
is_blank2 a b = a == 0xC2 && (b == 0x85 || b == 0xA0)

unfoldable pub is_blank3 : ℕ → ℕ → ℕ → Bool
is_blank3 a b c =
    a == 0xE1 && b == 0x9A && c == 0x80
    || a == 0xE2 && b == 0x80 && (leb 0x80 c && leb c 0x8A || c == 0xA8 || c == 0xA9 || c == 0xAF)
    || a == 0xE2 && b == 0x81 && c == 0x9F
    || a == 0xE3 && b == 0x80 && c == 0x80

-- what is left behind the white space at the front
unfoldable pub trim_left : (ℕ → ℕ → Bool) → (ℕ → ℕ → ℕ → Bool) → Text → Text
unfolding is_blank
trim_left two three [] = []
trim_left two three (a ∷ []) = if is_blank a then [] else a ∷ []
trim_left two three (a ∷ b ∷ []) =
    let later = trim_left two three (b ∷ []) in
    if is_blank a then later else if two a b then [] else a ∷ b ∷ []
trim_left two three (a ∷ b ∷ c ∷ s) =
    let later = trim_left two three (b ∷ c ∷ s) in
    let later2 = trim_left two three (c ∷ s) in
    let later3 = trim_left two three s in
    if is_blank a
    then later
    else if two a b
    then later2
    else if three a b c
    then later3
    else a ∷ b ∷ c ∷ s

-- the same at the end
unfoldable pub trim_right : Text → Text
unfolding trim_left is_blank2 is_blank3
trim_right s = reverse (trim_left (λ b a. is_blank2 a b) (λ c b a. is_blank3 a b c) (reverse s))

-- `TrimSpace`
unfoldable pub trim_space : Text → Text
unfolding trim_right
trim_space s = trim_right (trim_left is_blank2 is_blank3 s)

-- a byte in front of the first line
abbrev pub onto_first : ℕ → List Text → List Text
onto_first c [] = (c ∷ []) ∷ []
onto_first c (line ∷ lines) = (c ∷ line) ∷ lines

-- `Split(s, "\n")`
unfoldable pub split_lines : Text → List Text
split_lines [] = [] ∷ []
split_lines (c ∷ s) = if c == b'\n' then [] ∷ split_lines s else onto_first c (split_lines s)

trim_space_run : trim_space (bytes " \t a b\u{a0}\u{3000}\n") ≡ bytes "a b"
unfolding trim_space bytes
trim_space_run = refl

split_lines_run : split_lines (bytes "a\n\nb\n") ≡ bytes "a" ∷ [] ∷ bytes "b" ∷ [] ∷ []
unfolding split_lines bytes
split_lines_run = refl
