-- ===== src/Sexp/Begins.antt =====
-- The first byte of a print: the reader skips nothing there and does not take it for an end.
use pktc.Common.{ℕ, ◌≡◌, refl, subst, sym, true, false, Text, [], ◌∷◌, ◌++◌, arith, ◌==◌}
use pktc.Diag.{Pos}
use pktc.Sexp.Kind.{Kind, k_list, k_string}
use pktc.Sexp.Value.{Value, atom}
use pktc.Sexp.Reader.{is_delim, is_space, skip_space}
use pktc.Sexp.Print.{
  escape, print, print_items, placed, is_bare, IsWord, Printable, a_list, a_string, a_word,
}
use pktc.Sexp.Tokens.{at}

-- What a print begins with: no blank, no comment, no closing parenthesis.
pub record Begins (s : Text) : Type 0 where
  pub head : ℕ
  pub tail : Text
  pub split : s ≡ head ∷ tail
  pub solid : is_space head ≡ false
  pub code : (head == b';') ≡ false
  pub open_end : (head == b')') ≡ false

pub print-bare : (k : Kind) (t : Text) (p : Pos) → is_bare k ≡ true → print (atom k t p) ≡ t
unfolding print
print-bare k_list t p h = cc
print-bare k_string t p h = cc
print-bare _ t p h = refl

pub placed-bare :
    (k : Kind) (t : Text) (q p : Pos) → is_bare k ≡ true → placed (atom k t q) p ≡ atom k t p
unfolding placed
placed-bare k_list t q p h = cc
placed-bare _ t q p h = refl

word-Begins : (t rest : Text) → IsWord t → Begins (t ++ rest)
unfolding is_delim
word-Begins [] rest (full, _, _) = absurd (full refl)
word-Begins (c ∷ t) rest (_, _, (plain, _)) = record {
  head = c;
  tail = t ++ rest;
  split = refl;
  solid = ground arith;
  code = ground arith;
  open_end = ground arith;
}

pub print-Begins : {v : Value} (rest : Text) → Printable v → Begins (print v ++ rest)
unfolding print
print-Begins rest (a_list {is} _) = record {
  head = b'(';
  tail = (print_items is ++ b')' ∷ []) ++ rest;
  split = refl;
  solid = refl;
  code = refl;
  open_end = refl;
}
print-Begins rest (a_string {t}) = record {
  head = b'"';
  tail = (escape t ++ b'"' ∷ []) ++ rest;
  split = refl;
  solid = refl;
  code = refl;
  open_end = refl;
}
print-Begins rest (a_word {k} {t} {p} w kind bare) =
    subst (λ s. Begins (s ++ rest)) (sym (print-bare k t p bare)) (word-Begins t rest w)

pub skip_space-solid :
    (c : ℕ) (s : Text) (p : Pos)
    → is_space c ≡ false
    → (c == b';') ≡ false
    → skip_space (at (c ∷ s) p) ≡ at (c ∷ s) p
unfolding skip_space
skip_space-solid c s p solid code = rw (solid, code)
