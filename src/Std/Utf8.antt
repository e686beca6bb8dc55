-- ===== src/Std/Utf8.antt =====
-- unicode/utf8: a text as Go's decoder splits it into runes, and the width of a text in runes, by
-- which `fmt` pads.
use pktc.Common.{
  ℕ, zero, suc, ◌+◌, ◌-◌, ◌*◌, ◌≡◌, refl, ltb, leb, ◌==◌, ◌&&◌, Bool, Text, bytes, List, [], ◌∷◌,
  if◌then◌else◌,
}

-- What the decoder finds: a rune, or a byte that begins none.
pub data Piece : Type 0 where
  rune : ℕ → Piece
  bad : ℕ → Piece

abbrev pub is_cont : ℕ → Bool
is_cont c = leb 0x80 c && leb c 0xBF

-- may `b` follow the first byte `a` of a longer sequence?
abbrev pub accepts : ℕ → ℕ → Bool
accepts a b =
    leb (if a == 0xE0 then 0xA0 else if a == 0xF0 then 0x90 else 0x80) b
    && leb b (if a == 0xED then 0x9F else if a == 0xF4 then 0x8F else 0xBF)

-- The piece at the byte `a`, and the number of further bytes it takes.
unfoldable pub four : ℕ → ℕ → ℕ → Text → Piece × ℕ
four a b c [] = (bad a, 0)
four a b c (d ∷ s) =
    if leb 0xF0 a && leb a 0xF4 && accepts a b && is_cont c && is_cont d
    then (rune ((a - 0xF0) * 262144 + (b - 0x80) * 4096 + (c - 0x80) * 64 + (d - 0x80)), 3)
    else (bad a, 0)

unfoldable pub three : ℕ → ℕ → Text → Piece × ℕ
unfolding four
three a b [] = (bad a, 0)
three a b (c ∷ s) =
    if leb 0xE0 a && leb a 0xEF && accepts a b && is_cont c
    then (rune ((a - 0xE0) * 4096 + (b - 0x80) * 64 + (c - 0x80)), 2)
    else four a b c s

unfoldable pub two : ℕ → Text → Piece × ℕ
unfolding three
two a [] = (bad a, 0)
two a (b ∷ s) =
    if leb 0xC2 a && leb a 0xDF && is_cont b
    then (rune ((a - 0xC0) * 64 + (b - 0x80)), 1)
    else three a b s

-- `DecodeRuneInString`
unfoldable pub decode : ℕ → Text → Piece × ℕ
unfolding two
decode a s = if ltb a 0x80 then (rune a, 0) else two a s

-- the pieces behind the next `n` bytes
unfoldable pub pieces_after : ℕ → Text → List Piece
unfolding decode
pieces_after n [] = []
pieces_after zero (a ∷ s) = let (p, n) = decode a s in p ∷ pieces_after n s
pieces_after (suc n) (a ∷ s) = pieces_after n s

unfoldable pub pieces : Text → List Piece
unfolding pieces_after
pieces s = pieces_after 0 s

abbrev count : List Piece → ℕ
count [] = 0
count (p ∷ ps) = suc (count ps)

-- `RuneCountInString`
unfoldable pub rune_count : Text → ℕ
unfolding pieces
rune_count s = count (pieces s)

pieces_run :
    pieces (0xFF ∷ bytes "aé—😀")
    ≡ bad 0xFF ∷ rune b'a' ∷ rune 0xE9 ∷ rune 0x2014 ∷ rune 0x1F600 ∷ []
unfolding pieces bytes
pieces_run = refl

surrogate_run : pieces (0xED ∷ 0xA0 ∷ 0x80 ∷ []) ≡ bad 0xED ∷ bad 0xA0 ∷ bad 0x80 ∷ []
unfolding pieces
surrogate_run = refl
