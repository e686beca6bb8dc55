-- ===== src/Sexp/Print.antt =====
-- A printer for values, to compare `Read` of sexp/reader.go with.
use pktc.Common.{
  ℕ, ◌≡◌, ◌≢◌, Bool, true, false, Text, bytes, [], ◌∷◌, ◌++◌, All, ◌==◌, if◌then◌else◌,
}
use pktc.Diag.{Pos}
use pktc.Sexp.Kind.{Kind, k_list, k_string}
use pktc.Sexp.Value.{Value, Values, nil, cons, value, atom, list}
use pktc.Sexp.Reader.{is_delim, classify, advance_pos}
use pktc.Sexp.Moves.{passed}

-- the escape of one byte of a string literal
unfoldable pub escape_byte : ℕ → Text
escape_byte c = if c == b'"' then bytes "\\\"" else if c == b'\\' then bytes "\\\\" else c ∷ []

unfoldable pub escape : Text → Text
escape [] = []
escape (c ∷ s) = escape_byte c ++ escape s

-- A blank follows each item of a list.
unfoldable mutual
  pub print : Value → Text
  print (value k_list t is p) = b'(' ∷ (print_items is ++ b')' ∷ [])
  print (value k_string t is p) = b'"' ∷ (escape t ++ b'"' ∷ [])
  print (value k t is p) = t

  pub print_items : Values → Text
  print_items nil = []
  print_items (cons v vs) = print v ++ b' ' ∷ print_items vs

-- The value with the positions that its print gives it, the print beginning at `p`.
unfoldable mutual
  pub placed : Value → Pos → Value
  placed (value k_list t is q) p = value k_list t (placed_items is (advance_pos b'(' p)) p
  placed (value k t is q) p = value k t is p

  pub placed_items : Values → Pos → Values
  placed_items nil p = nil
  placed_items (cons v vs) p =
      cons (placed v p) (placed_items vs (advance_pos b' ' (passed (print v) p)))

abbrev pub is_bare : Kind → Bool
is_bare k_list = false
is_bare k_string = false
is_bare _ = true

-- What a bare word of the source can be.
abbrev pub IsWord : Text → Type 0
IsWord t = (t ≢ []) × (t ≢ bytes ":") × All (λ c. is_delim c ≡ false) t

-- The values that the reader can return: no text on a list, no items elsewhere, and a bare word's
-- kind is that of its spelling.
mutual
  pub data Printable : Value → Type 0 where
    a_list : {is : Values} {p : Pos} → EachPrintable is → Printable (list is p)
    a_string : {t : Text} {p : Pos} → Printable (atom k_string t p)
    a_word :
        {k : Kind} {t : Text} {p : Pos}
        → IsWord t
        → classify t ≡ k
        → is_bare k ≡ true
        → Printable (atom k t p)

  pub data EachPrintable : Values → Type 0 where
    no_items : EachPrintable nil
    items : {v : Value} {vs : Values} → Printable v → EachPrintable vs → EachPrintable (cons v vs)
