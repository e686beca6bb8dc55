-- ===== src/Sexp/Reader.antt =====
-- sexp/reader.go. The reader's `src` and `i` are the bytes that are left, `rest`; its file, line
-- and column are `at`.
use pktc.Common.{
  ℕ, zero, suc, ◌+◌, ◌*◌, ◌==◌, leb, if◌then◌else◌, Bool, true, false, ◌&&◌, ◌||◌, Text, bytes,
  text_eq, has_prefix, is_digit, List, [], ◌∷◌, ◌++◌, length, all, drop,
}
use pktc.Sexp.Kind.{Kind, k_symbol, k_keyword, k_string, k_number, k_star}
use pktc.Sexp.Value.{Value, Values, nil, atom, list, snoc}
use pktc.Diag.{
  Pos, errorf, unexpected_close, unclosed_paren, unterminated_string, expected_value, empty_name,
  unknown_escape, Result, ok, err, fault, out_of_fuel, ◌>>=◌,
}

pub record Reader : Type 0 where
  pub rest : Text
  pub at : Pos

-- what `advance` makes of the position when it passes the byte `c`
unfoldable pub advance_pos : ℕ → Pos → Pos
advance_pos c p =
    if c == b'\n' then record p { line = p.line + 1; col = 1 } else record p { col = p.col + 1 }

-- `advance` at the byte `c`, with `s` behind it
abbrev pub advance : ℕ → Text → Reader → Reader
advance c s r = record { rest = s; at = advance_pos c r.at }

-- `peek`: 0 at the end
abbrev pub peek : Text → ℕ
peek [] = 0
peek (c ∷ s) = c

abbrev pub is_space : ℕ → Bool
is_space c = c == b' ' || c == b'\t' || c == b'\r' || c == b'\n'

-- The loop of `skipSpace`; `note` is true in its inner loop, which runs to the end of a comment's
-- line.
unfoldable pub skip_loop : Bool → Text → Pos → Reader
skip_loop note [] p = record { rest = []; at = p }
skip_loop true (c ∷ s) p =
    let go = skip_loop true s (advance_pos c p) in
    let stop = skip_loop false s (advance_pos c p) in if c == b'\n' then stop else go
skip_loop false (c ∷ s) p =
    let go = skip_loop false s (advance_pos c p) in
    let note = skip_loop true s (advance_pos c p) in
    if is_space c then go else if c == b';' then note else record { rest = c ∷ s; at = p }

unfoldable pub skip_space : Reader → Reader
unfolding skip_loop
skip_space r = skip_loop false r.rest r.at

-- `isDelim`
unfoldable pub is_delim : ℕ → Bool
is_delim c = c == b'(' || c == b')' || c == b'"' || c == b';' || is_space c

abbrev pub is_hex : ℕ → Bool
is_hex c = is_digit c || leb b'a' c && leb c b'f' || leb b'A' c && leb c b'F'

abbrev pub trim_minus : Text → Text
trim_minus [] = []
trim_minus (c ∷ s) = if c == b'-' then s else c ∷ s

abbrev pub nonempty : Text → Bool
nonempty [] = false
nonempty (c ∷ s) = true

abbrev pub has_hex_prefix : Text → Bool
has_hex_prefix s = has_prefix s (bytes "0x") || has_prefix s (bytes "0X")

-- `isNumber`
unfoldable pub is_number : Text → Bool
is_number s =
    let t = trim_minus s in
    if has_hex_prefix t
    then nonempty (drop 2 t) && all is_hex (drop 2 t)
    else nonempty t && all is_digit t

unfoldable pub classify : Text → Kind
classify text =
    if text_eq text (bytes "*")
    then k_star
    else if has_prefix text (bytes ":")
    then k_keyword
    else if is_number text
    then k_number
    else k_symbol

-- the loop of `readAtom`: the bytes before the next delimiter, and the reader there
unfoldable pub atom_loop : Text → Pos → Text × Reader
unfolding is_delim
atom_loop [] p = ([], record { rest = []; at = p })
atom_loop (c ∷ s) p =
    let later = atom_loop s (advance_pos c p) in
    if is_delim c then ([], record { rest = c ∷ s; at = p }) else (c ∷ later.0, later.1)

abbrev pub finish_atom : Pos → Text → Reader → Result (Value × Reader)
finish_atom p text r =
    if text_eq text []
    then err (errorf p expected_value)
    else if text_eq text (bytes ":")
    then err (errorf p empty_name)
    else ok (atom (classify text) text p, r)

unfoldable pub read_atom : Reader → Result (Value × Reader)
unfolding atom_loop
read_atom r = let (text, r') = atom_loop r.rest r.at in finish_atom r.at text r'

-- the byte that `\e` stands for
unfoldable pub unescape : Pos → ℕ → Result ℕ
unescape esc e =
    if e == b'n'
    then ok b'\n'
    else if e == b't'
    then ok b'\t'
    else if e == b'\\'
    then ok b'\\'
    else if e == b'"'
    then ok b'"'
    else err (errorf esc (unknown_escape e))

-- The loop of `readString` behind the opening quote: `pos` is the literal's, `sb` what is written
-- so far.
unfoldable pub string_loop : Pos → Text → Pos → Text → Result (Value × Reader)
unfolding unescape
string_loop pos [] p sb = err (errorf pos unterminated_string)
string_loop pos (c ∷ []) p sb =
    if c == b'"'
    then ok (atom k_string sb pos, record { rest = []; at = advance_pos c p })
    else err (errorf pos unterminated_string)
string_loop pos (c ∷ e ∷ s) p sb =
    let esc = advance_pos c p in
    let plain = string_loop pos (e ∷ s) esc (sb ++ c ∷ []) in
    let escaped = (unescape esc e >>= λ d. string_loop pos s (advance_pos e esc) (sb ++ d ∷ [])) in
    if c == b'"'
    then ok (atom k_string sb pos, record { rest = e ∷ s; at = esc })
    else if c == b'\\'
    then escaped
    else plain

-- `readString`, its opening quote at `c`
abbrev pub read_string : ℕ → Text → Reader → Result (Value × Reader)
read_string c s r = string_loop r.at s (advance_pos c r.at) []

-- the dispatch of `readValue` on the next byte; `go` is `readList` behind its parenthesis
unfoldable pub value_at :
    (Reader → Result (Value × Reader)) → Reader → Text → Result (Value × Reader)
value_at go r [] = read_atom r
value_at go r (c ∷ s) =
    if c == b'('
    then go (advance c s r)
    else if c == b')'
    then err (errorf r.at unexpected_close)
    else if c == b'"'
    then read_string c s r
    else read_atom r

-- one round of the loop of `readList`, the space skipped; `more` reads a value and goes round
unfoldable pub list_at :
    Pos → Values → (Reader → Result (Value × Reader)) → Reader → Text → Result (Value × Reader)
list_at pos items more r [] = err (errorf pos unclosed_paren)
list_at pos items more r (c ∷ s) = if c == b')' then ok (list items pos, advance c s r) else more r

-- `read_value` is `readValue`, and `list_loop` the loop of `readList` behind the parenthesis at
-- `pos`, with the items read so far. What a call leaves is no structural part of its input, so
-- each call costs a unit of fuel.
unfoldable mutual
  pub read_value : ℕ → Reader → Result (Value × Reader)
  read_value zero r = fault out_of_fuel
  read_value (suc f) r = value_at (λ r'. list_loop f r.at nil r') r r.rest

  pub list_loop : ℕ → Pos → Values → Reader → Result (Value × Reader)
  list_loop zero pos items r = fault out_of_fuel
  list_loop (suc f) pos items r =
      let r' = skip_space r in
      list_at pos items (λ q. read_value f q >>= λ (v, q'). list_loop f pos (snoc items v) q') r'
        r'.rest

-- The loop of `Read`, with the forms read so far.
unfoldable pub forms_at :
    (Reader → Result (List Value)) → List Value → Reader → Text → Result (List Value)
forms_at more out r [] = ok out
forms_at more out r (c ∷ s) = more r

unfoldable pub forms_loop : ℕ → List Value → Reader → Result (List Value)
forms_loop zero out r = fault out_of_fuel
forms_loop (suc f) out r =
    let r' = skip_space r in
    forms_at
      (λ q. read_value (2 * length q.rest + 1) q >>= λ (v, q'). forms_loop f (out ++ v ∷ []) q') out
      r' r'.rest

-- the reader that `Read` starts with
abbrev pub start : Text → Text → Reader
start file src = record { rest = src; at = record { file = file; line = 1; col = 1 } }

-- `Read`. Every form takes a byte at least, so the loop makes at most `len(src) + 1` rounds.
unfoldable pub read : Text → Text → Result (List Value)
read file src = forms_loop (length src + 1) [] (start file src)
