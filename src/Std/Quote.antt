-- ===== src/Std/Quote.antt =====
-- strconv.Quote, which is `%q`. Which runes past Latin-1 are printable is a table of Go's
-- unicode package, and the parameter `printable` here.
use pktc.Common.{
  ℕ, ◌+◌, ◌-◌, ◌/◌, ◌%◌, ◌≡◌, refl, ltb, leb, ◌==◌, ◌&&◌, ◌||◌, not, Bool, false, Text, bytes, utf8,
  List, [], ◌∷◌, ◌++◌, if◌then◌else◌,
}
use pktc.Std.Utf8.{Piece, rune, bad, pieces}

-- one digit, and the last digits of a number, base 16
unfoldable pub hex_digit : ℕ → ℕ
hex_digit n = if ltb n 10 then b'0' + n else b'a' + (n - 10)

unfoldable pub hex2 : ℕ → Text
unfolding hex_digit
hex2 n = hex_digit (n / 16 % 16) ∷ hex_digit (n % 16) ∷ []

unfoldable pub hex4 : ℕ → Text
unfolding hex2
hex4 n = hex2 (n / 256) ++ hex2 n

unfoldable pub hex8 : ℕ → Text
unfolding hex4
hex8 n = hex4 (n / 65536) ++ hex4 n

module _ (printable : ℕ → Bool) where
  -- `IsPrint`
  unfoldable pub is_print : ℕ → Bool
  is_print r =
      if leb r 0xFF then leb 0x20 r && ltb r 0x7F || leb 0xA1 r && not (r == 0xAD) else printable r

  -- the escapes of a rune that is not printable
  unfoldable pub escape : ℕ → Text
  unfolding hex2 hex4 hex8
  escape r =
      if r == 7
      then bytes "\\a"
      else if r == 8
      then bytes "\\b"
      else if r == 12
      then bytes "\\f"
      else if r == 10
      then bytes "\\n"
      else if r == 13
      then bytes "\\r"
      else if r == 9
      then bytes "\\t"
      else if r == 11
      then bytes "\\v"
      else if ltb r 0x20 || r == 0x7F
      then bytes "\\x" ++ hex2 r
      else if ltb r 0x10000
      then bytes "\\u" ++ hex4 r
      else bytes "\\U" ++ hex8 r

  -- `appendEscapedRune`
  unfoldable pub escaped_rune : ℕ → Text
  unfolding escape is_print
  escaped_rune r =
      if r == b'"' || r == b'\\' then b'\\' ∷ r ∷ [] else if is_print r then utf8 r else escape r

  unfoldable pub escaped_piece : Piece → Text
  unfolding escaped_rune hex2
  escaped_piece (rune r) = escaped_rune r
  escaped_piece (bad b) = bytes "\\x" ++ hex2 b

  unfoldable pub escaped : List Piece → Text
  unfolding escaped_piece
  escaped [] = []
  escaped (p ∷ ps) = escaped_piece p ++ escaped ps

  -- `Quote`
  unfoldable pub quoted : Text → Text
  unfolding escaped
  quoted s = b'"' ∷ (escaped (pieces s) ++ b'"' ∷ [])

quoted_run : quoted (λ r. false) (0xFF ∷ bytes "a\"\n—é") ≡ bytes "\"\\xffa\\\"\\n\\u2014é\""
unfolding quoted pieces bytes utf8
quoted_run = refl
