-- ===== src/Std/OneLine.antt =====
-- strconv.Quote: a quoted text stands on one line.
use pktc.Common.{
  ℕ, ◌≡◌, ◌≢◌, refl, ◌/◌, ◌%◌, ◌==◌, ◌||◌, ltb, Bool, true, Text, bytes, utf8, contains_byte, List,
  [], ◌∷◌, if_intro, arith,
}
use pktc.Std.Utf8.{Piece, rune, bad, pieces}
use pktc.Std.Quote.{
  hex_digit, hex2, hex4, hex8, is_print, escape, escaped_rune, escaped_piece, escaped, quoted,
}
use pktc.Std.Trim.{OneLine, OneLine-append}

utf8-OneLine : (r : ℕ) → r ≢ 10 → OneLine (utf8 r)
unfolding utf8 contains_byte
utf8-OneLine r h = ground arith

hex_digit-OneLine : (n : ℕ) (s : Text) → OneLine s → OneLine (hex_digit n ∷ s)
unfolding hex_digit contains_byte
hex_digit-OneLine n s h = ground arith

hex2-OneLine : (n : ℕ) → OneLine (hex2 n)
unfolding hex2 contains_byte
hex2-OneLine n =
    hex_digit-OneLine (n / 16 % 16) (hex_digit (n % 16) ∷ []) (hex_digit-OneLine (n % 16) [] refl)

hex4-OneLine : (n : ℕ) → OneLine (hex4 n)
unfolding hex4
hex4-OneLine n = OneLine-append (hex2 (n / 256)) (hex2 n) (hex2-OneLine (n / 256)) (hex2-OneLine n)

hex8-OneLine : (n : ℕ) → OneLine (hex8 n)
unfolding hex8
hex8-OneLine n =
    OneLine-append (hex4 (n / 65536)) (hex4 n) (hex4-OneLine (n / 65536)) (hex4-OneLine n)

module _ (printable : ℕ → Bool) where
  escape-OneLine : (r : ℕ) → OneLine (escape printable r)
  unfolding escape bytes contains_byte
  escape-OneLine r =
      if_intro OneLine (r == 7) (λ _. refl)
        λ _.
          if_intro OneLine (r == 8) (λ _. refl)
            λ _.
              if_intro OneLine (r == 12) (λ _. refl)
                λ _.
                  if_intro OneLine (r == 10) (λ _. refl)
                    λ _.
                      if_intro OneLine (r == 13) (λ _. refl)
                        λ _.
                          if_intro OneLine (r == 9) (λ _. refl)
                            λ _.
                              if_intro OneLine (r == 11) (λ _. refl)
                                λ _.
                                  if_intro OneLine (ltb r 0x20 || r == 0x7F) (λ _. hex2-OneLine r)
                                    λ _.
                                      if_intro OneLine (ltb r 0x10000) (λ _. hex4-OneLine r)
                                        (λ _. hex8-OneLine r)

  printed_newline : (r : ℕ) → is_print printable r ≡ true → r ≢ 10
  unfolding is_print
  printed_newline r h e = ground arith

  mark-OneLine : (r : ℕ) → (r == b'"' || r == b'\\') ≡ true → OneLine (b'\\' ∷ r ∷ [])
  unfolding contains_byte
  mark-OneLine r h = ground arith

  escaped_rune-OneLine : (r : ℕ) → OneLine (escaped_rune printable r)
  unfolding escaped_rune
  escaped_rune-OneLine r = if_intro OneLine (r == b'"' || r == b'\\') (mark-OneLine r) λ _.
      if_intro OneLine (is_print printable r) (λ p. utf8-OneLine r (printed_newline r p))
        (λ _. escape-OneLine r)

  escaped_piece-OneLine : (p : Piece) → OneLine (escaped_piece printable p)
  unfolding escaped_piece bytes contains_byte
  escaped_piece-OneLine (rune r) = escaped_rune-OneLine r
  escaped_piece-OneLine (bad b) = hex2-OneLine b

  escaped-OneLine : (ps : List Piece) → OneLine (escaped printable ps)
  unfolding escaped contains_byte
  escaped-OneLine [] = refl
  escaped-OneLine (p ∷ ps) =
      OneLine-append (escaped_piece printable p) _ (escaped_piece-OneLine p) (escaped-OneLine ps)

  -- Whatever the text is, its quotation holds no newline.
  pub quoted-OneLine : (s : Text) → OneLine (quoted printable s)
  unfolding quoted contains_byte
  quoted-OneLine s =
      OneLine-append (escaped printable (pieces s)) (b'"' ∷ []) (escaped-OneLine (pieces s)) refl
