-- ===== src/Sexp/Symbols.antt =====
-- sexp/reader.go: a symbol that is read holds no newline.
use pktc.Common.{
  ℕ, zero, suc, ◌+◌, ◌*◌, ◌==◌, ◌≡◌, refl, true, false, Text, bytes, text_eq, contains_byte, List,
  [], ◌∷◌, ◌++◌, length, All, All-append, if_intro, arith,
}
use pktc.Std.Trim.{OneLine}
use pktc.Diag.{Pos, Result, ◌>>=◌, Gives, gives, refuses, breaks, Gives-bind, Gives-if, Gives-any}
use pktc.Sexp.Kind.{Kind, k_symbol, ◌≟◌}
use pktc.Sexp.Value.{Value, Values, nil, cons, value, snoc}
use pktc.Sexp.Reader.{
  Reader, advance, advance_pos, is_delim, atom_loop, read_atom, unescape, string_loop, skip_space,
  value_at, list_at, read_value, list_loop, forms_at, forms_loop, start, read,
}

-- Every symbol in the value is on one line.
mutual
  pub data SymbolsFit : Value → Type 0 where
    symbols_fit :
        {k : Kind} {t : Text} {is : Values} {p : Pos}
        → ((k ≟ k_symbol) ≡ true → OneLine t)
        → EachFits is
        → SymbolsFit (value k t is p)

  pub data EachFits : Values → Type 0 where
    none_left : EachFits nil
    one_more : {v : Value} {vs : Values} → SymbolsFit v → EachFits vs → EachFits (cons v vs)

EachFits-snoc : {vs : Values} {v : Value} → EachFits vs → SymbolsFit v → EachFits (snoc vs v)
EachFits-snoc none_left h = one_more h none_left
EachFits-snoc (one_more f fs) h = one_more f (EachFits-snoc fs h)

abbrev Read : Value × Reader → Type 0
Read (v, r) = SymbolsFit v

string_loop-Gives :
    (pos : Pos) (s : Text) (p : Pos) (sb : Text) → Gives Read (string_loop pos s p sb)
unfolding string_loop
string_loop-Gives pos [] p sb = refuses _
string_loop-Gives pos (c ∷ []) p sb =
    Gives-if (c == b'"') (λ _. gives (symbols_fit (λ e. cc e) none_left)) (λ _. refuses _)
string_loop-Gives pos (c ∷ e ∷ s) p sb =
    Gives-if (c == b'"') (λ _. gives (symbols_fit (λ e. cc e) none_left))
      (λ _.
        Gives-if (c == b'\\')
          (λ _.
            Gives-bind (Gives-any {P = λ _. Unit {0}} (unescape (advance_pos c p) e) (λ _. tt))
              λ d _. string_loop-Gives pos s (advance_pos e (advance_pos c p)) (sb ++ d ∷ []))
          (λ _. string_loop-Gives pos (e ∷ s) (advance_pos c p) (sb ++ c ∷ [])))

inside-OneLine : (c : ℕ) (s : Text) → is_delim c ≡ false → OneLine s → OneLine (c ∷ s)
unfolding contains_byte is_delim
inside-OneLine c s h k = ground arith

atom_loop-OneLine : (s : Text) (p : Pos) → OneLine (atom_loop s p).0
unfolding atom_loop contains_byte
atom_loop-OneLine [] p = refl
atom_loop-OneLine (c ∷ s) p =
    let later = atom_loop-OneLine s (advance_pos c p) in
    if_intro (λ (t : Text × Reader). OneLine t.0) (is_delim c) (λ _. refl)
      (λ h. inside-OneLine c (atom_loop s (advance_pos c p)).0 h later)

read_atom-Gives : (q : Reader) → Gives Read (read_atom q)
unfolding read_atom
read_atom-Gives q =
    Gives-if (text_eq (atom_loop q.rest q.at).0 []) (λ _. refuses _)
      λ _.
        Gives-if (text_eq (atom_loop q.rest q.at).0 (bytes ":")) (λ _. refuses _)
          λ _. gives (symbols_fit (λ _. atom_loop-OneLine q.rest q.at) none_left)

value_at-Gives :
    (go : Reader → Result (Value × Reader)) (q : Reader) (s : Text)
    → ((q' : Reader) → Gives Read (go q'))
    → Gives Read (value_at go q s)
unfolding value_at
value_at-Gives go q [] h = read_atom-Gives q
value_at-Gives go q (c ∷ s) h =
    Gives-if (c == b'(') (λ _. h (advance c s q))
      (λ _.
        Gives-if (c == b')') (λ _. refuses _)
          (λ _.
            Gives-if (c == b'"') (λ _. string_loop-Gives q.at s (advance_pos c q.at) [])
              (λ _. read_atom-Gives q)))

list_at-Gives :
    (pos : Pos) (items : Values) (more : Reader → Result (Value × Reader)) (q : Reader) (s : Text)
    → EachFits items
    → Gives Read (more q)
    → Gives Read (list_at pos items more q s)
unfolding list_at
list_at-Gives pos items more q [] fit h = refuses _
list_at-Gives pos items more q (c ∷ s) fit h =
    Gives-if (c == b')') (λ _. gives (symbols_fit (λ e. cc e) fit)) (λ _. h)

mutual
  unfolding read_value

  read_value-Gives : (f : ℕ) (q : Reader) → Gives Read (read_value f q)
  read_value-Gives zero q = breaks _
  read_value-Gives (suc f) q =
      value_at-Gives (λ q'. list_loop f q.at nil q') q q.rest
        λ q'. list_loop-Gives f q.at nil q' none_left

  list_loop-Gives :
      (f : ℕ) (pos : Pos) (items : Values) (q : Reader)
      → EachFits items
      → Gives Read (list_loop f pos items q)
  list_loop-Gives zero pos items q fit = breaks _
  list_loop-Gives (suc f) pos items q fit =
      list_at-Gives pos items (λ p. read_value f p >>= λ (v, p'). list_loop f pos (snoc items v) p')
        (skip_space q) (skip_space q).rest fit
        (Gives-bind (read_value-Gives f (skip_space q))
          λ (v, p') h. list_loop-Gives f pos (snoc items v) p' (EachFits-snoc fit h))

forms_at-Gives :
    (more : Reader → Result (List Value)) (out : List Value) (q : Reader) (s : Text)
    → All SymbolsFit out
    → Gives (All SymbolsFit) (more q)
    → Gives (All SymbolsFit) (forms_at more out q s)
unfolding forms_at
forms_at-Gives more out q [] fit h = gives fit
forms_at-Gives more out q (c ∷ s) fit h = h

forms_loop-Gives :
    (f : ℕ) (out : List Value) (q : Reader)
    → All SymbolsFit out
    → Gives (All SymbolsFit) (forms_loop f out q)
unfolding forms_loop
forms_loop-Gives zero out q fit = breaks _
forms_loop-Gives (suc f) out q fit =
    forms_at-Gives
      (λ p. read_value (2 * length p.rest + 1) p >>= λ (v, p'). forms_loop f (out ++ v ∷ []) p') out
      (skip_space q) (skip_space q).rest fit
      (Gives-bind (read_value-Gives _ (skip_space q)) λ (v, p') h.
        forms_loop-Gives f (out ++ v ∷ []) p' (All-append SymbolsFit out (v ∷ []) fit (h, tt)))

-- What `Read` gives holds only symbols without a newline.
pub read-SymbolsFit : (file src : Text) → Gives (All SymbolsFit) (read file src)
unfolding read
read-SymbolsFit file src = forms_loop-Gives (length src + 1) [] (start file src) tt
