-- ===== src/Sexp/RoundTrip.antt =====
-- sexp/reader.go: `Read` on the output of a printer.
use pktc.Common.{
  ℕ, zero, suc, ◌+◌, ◌*◌, ◌<◌, ◌≡◌, refl, ap, subst, sym, ◌∙◌, true, false, Text, List, [], ◌∷◌,
  ◌++◌, append_assoc, append-nil, length, length-append, arith, ◌==◌,
}
use pktc.Diag.{Pos, ok}
use pktc.Sexp.Kind.{Kind}
use pktc.Sexp.Value.{Value, Values, nil, cons, atom, snoc}
use pktc.Sexp.Reader.{
  advance_pos, is_delim, is_space, classify, string_loop, skip_space, value_at, read_value,
  list_loop, forms_at, forms_loop, read, start,
}
use pktc.Sexp.Moves.{passed, passed-append}
use pktc.Sexp.Print.{
  escape, print, print_items, placed, placed_items, is_bare, IsWord, Printable, a_list, a_string,
  a_word, EachPrintable, no_items, items,
}
use pktc.Sexp.Tokens.{at, string_loop-escape, Stops, value_at-word}
use pktc.Sexp.Begins.{Begins, print-bare, placed-bare, print-Begins, skip_space-solid}
use pktc.Sexp.Lists.{
  append_values, append_values-snoc, list_loop-Begins, list_loop-close, ReadsValue, ReadsItems,
}

read_value-open :
    (f : ℕ) (t : Text) (p : Pos)
    → read_value (suc f) (at (b'(' ∷ t) p) ≡ list_loop f p nil (at t (advance_pos b'(' p))
unfolding read_value value_at
read_value-open f t p = refl

read_value-quote :
    (f : ℕ) (t : Text) (p : Pos)
    → read_value (suc f) (at (b'"' ∷ t) p) ≡ string_loop p t (advance_pos b'"' p) []
unfolding read_value value_at
read_value-quote f t p = refl

read_value-word :
    (f : ℕ) (k : Kind) (t rest : Text) (q p : Pos)
    → IsWord t
    → classify t ≡ k
    → is_bare k ≡ true
    → Stops rest
    → read_value (suc f) (at (print (atom k t q) ++ rest) p)
      ≡ ok (placed (atom k t q) p, at rest (passed (print (atom k t q)) p))
unfolding read_value
read_value-word f k t rest q p w kind bare stop =
    rw (print-bare k t q bare, placed-bare k t q p bare, ← kind)
      (value_at-word (λ r'. list_loop f p nil r') t rest p w stop)

append_values-nil : (vs : Values) → append_values vs nil ≡ vs
append_values-nil nil = refl
append_values-nil (cons v vs) = ap (cons v) (append_values-nil vs)

-- the item `v` in front of the rest of a list
list_loop-cons :
    (f : ℕ) (pos : Pos) (acc : Values) (v : Value) (vs : Values) (rest : Text) (p : Pos)
    → Printable v
    → 2 * length (print v) < f
    → ReadsValue v
    → list_loop (suc f) pos acc (at (print_items (cons v vs) ++ b')' ∷ rest) p)
      ≡ list_loop f pos
          (snoc acc (placed v p))
          (at (print_items vs ++ b')' ∷ rest) (advance_pos b' ' (passed (print v) p)))
unfolding print
list_loop-cons f pos acc v vs rest p one h reads =
    ap (λ t. list_loop (suc f) pos acc (at t p))
      (append_assoc (print v) (b' ' ∷ print_items vs) (b')' ∷ rest))
    ∙ list_loop-Begins f pos acc (placed v p) (print v ++ b' ' ∷ (print_items vs ++ b')' ∷ rest))
        (print_items vs ++ b')' ∷ rest) p (passed (print v) p)
        (print-Begins (b' ' ∷ (print_items vs ++ b')' ∷ rest)) one)
        (reads f (b' ' ∷ (print_items vs ++ b')' ∷ rest)) p h (unfold is_delim in refl))

mutual
  unfolding print placed passed

  read_value-print : {v : Value} → Printable v → ReadsValue v
  read_value-print (a_list {is} each) (suc f) rest p h stop =
      read_value-open f _ p
      ∙ ap (λ t. list_loop f p nil (at t (advance_pos b'(' p)))
          (append_assoc (print_items is) (b')' ∷ []) rest)
      ∙ list_loop-print each f p nil rest (advance_pos b'(' p)
          (omega (arith, length-append (print_items is) (b')' ∷ [])))
  read_value-print (a_string {t}) (suc f) rest p h stop =
      read_value-quote f _ p
      ∙ ap (λ t. string_loop p t (advance_pos b'"' p) []) (append_assoc (escape t) (b'"' ∷ []) rest)
      ∙ string_loop-escape p t rest (advance_pos b'"' p) []
  read_value-print (a_word {k} {t} {p = q} w kind bare) (suc f) rest p h stop =
      read_value-word f k t rest q p w kind bare stop
  read_value-print _ zero rest p h stop = absurd (omega arith)

  list_loop-print : {vs : Values} → EachPrintable vs → ReadsItems vs
  list_loop-print no_items zero pos acc rest p h = absurd (omega arith)
  list_loop-print (items one each) zero pos acc rest p h = absurd (omega arith)
  list_loop-print no_items (suc f) pos acc rest p h =
      rw append_values-nil (list_loop-close f pos acc rest p)
  list_loop-print (items {v} {vs} one each) (suc f) pos acc rest p h =
      list_loop-cons f pos acc v vs rest p one
        (omega (arith, length-append (print v) (b' ' ∷ print_items vs))) (read_value-print one)
      ∙ list_loop-print each f pos (snoc acc (placed v p)) rest
          (advance_pos b' ' (passed (print v) p))
          (omega (arith, length-append (print v) (b' ' ∷ print_items vs)))
      ∙ simp (append_values-snoc, append_assoc, passed-append)

forms_loop-blank :
    (f : ℕ) (out : List Value) (s : Text) (p : Pos)
    → forms_loop f out (at (b' ' ∷ s) p) ≡ forms_loop f out (at s (advance_pos b' ' p))
unfolding forms_loop skip_space
forms_loop-blank zero out s p = refl
forms_loop-blank (suc f) out s p = refl

forms_loop-item :
    (f : ℕ) (out : List Value) (w : Value) (c : ℕ) (s t : Text) (p q : Pos)
    → is_space c ≡ false
    → (c == b';') ≡ false
    → read_value (2 * length (c ∷ s) + 1) (at (c ∷ s) p) ≡ ok (w, at (b' ' ∷ t) q)
    → forms_loop (suc f) out (at (c ∷ s) p)
      ≡ forms_loop f (out ++ w ∷ []) (at t (advance_pos b' ' q))
unfolding forms_loop forms_at
forms_loop-item f out w c s t p q solid code e =
    rw (skip_space-solid c s p solid code) (rw e (forms_loop-blank f (out ++ w ∷ []) t q))

forms_loop-Begins :
    (f : ℕ) (out : List Value) (w : Value) (s t : Text) (p q : Pos)
    → Begins s
    → read_value (2 * length s + 1) (at s p) ≡ ok (w, at (b' ' ∷ t) q)
    → forms_loop (suc f) out (at s p) ≡ forms_loop f (out ++ w ∷ []) (at t (advance_pos b' ' q))
forms_loop-Begins f out w s t p q b e =
    subst
      (λ u.
        read_value (2 * length u + 1) (at u p) ≡ ok (w, at (b' ' ∷ t) q)
        → forms_loop (suc f) out (at u p)
          ≡ forms_loop f (out ++ w ∷ []) (at t (advance_pos b' ' q)))
      (sym b.split) (forms_loop-item f out w b.head b.tail t p q b.solid b.code) e

abbrev pub to_list : Values → List Value
to_list nil = []
to_list (cons v vs) = v ∷ to_list vs

forms_loop-print :
    (f : ℕ) (out : List Value) (vs : Values) (p : Pos)
    → EachPrintable vs
    → length (print_items vs) < f
    → forms_loop f out (at (print_items vs) p) ≡ ok (out ++ to_list (placed_items vs p))
unfolding print placed
forms_loop-print zero out vs p each h = absurd (omega arith)
forms_loop-print (suc f) out nil p each h = unfold forms_loop forms_at skip_space in rw append-nil
forms_loop-print (suc f) out (cons v vs) p (items one each) h =
    forms_loop-Begins f out (placed v p) (print_items (cons v vs)) (print_items vs) p
      (passed (print v) p) (print-Begins (b' ' ∷ print_items vs) one)
      (read_value-print one _ (b' ' ∷ print_items vs) p
        (omega (arith, length-append (print v) (b' ' ∷ print_items vs))) (unfold is_delim in refl))
    ∙ forms_loop-print f (out ++ placed v p ∷ []) vs (advance_pos b' ' (passed (print v) p)) each
        (omega (arith, length-append (print v) (b' ' ∷ print_items vs)))
    ∙ simp append_assoc

-- A file that holds the print of some values, a blank behind each, reads as exactly those values,
-- each part at the position that the print gives it.
pub read-print_items :
    (file : Text) (vs : Values)
    → EachPrintable vs
    → read file (print_items vs) ≡ ok (to_list (placed_items vs (start file []).at))
unfolding read
read-print_items file vs each =
    forms_loop-print (length (print_items vs) + 1) [] vs (start file []).at each (omega arith)
