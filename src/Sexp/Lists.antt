-- ===== src/Sexp/Lists.antt =====
-- One round of the loop of `readList` over a printed list.
use pktc.Common.{
  ℕ, zero, suc, ◌*◌, ◌<◌, ◌≡◌, refl, ap, subst, sym, false, Text, [], ◌∷◌, ◌++◌, length, ◌==◌,
}
use pktc.Diag.{Pos, ok}
use pktc.Sexp.Value.{Value, Values, nil, cons, list, snoc}
use pktc.Sexp.Reader.{advance_pos, is_space, skip_space, list_at, read_value, list_loop}
use pktc.Sexp.Moves.{passed}
use pktc.Sexp.Print.{print, print_items, placed, placed_items}
use pktc.Sexp.Tokens.{at, Stops}
use pktc.Sexp.Begins.{Begins, skip_space-solid}

list_loop-blank :
    (f : ℕ) (pos : Pos) (acc : Values) (s : Text) (p : Pos)
    → list_loop f pos acc (at (b' ' ∷ s) p) ≡ list_loop f pos acc (at s (advance_pos b' ' p))
unfolding read_value skip_space
list_loop-blank zero pos acc s p = refl
list_loop-blank (suc f) pos acc s p = refl

abbrev pub append_values : Values → Values → Values
append_values nil vs = vs
append_values (cons u us) vs = cons u (append_values us vs)

pub append_values-snoc :
    (us vs : Values) (v : Value) → append_values (snoc us v) vs ≡ append_values us (cons v vs)
append_values-snoc nil vs v = refl
append_values-snoc (cons u us) vs v = ap (cons u) (append_values-snoc us vs v)

-- One item of a list and the blank behind it.
list_loop-item :
    (f : ℕ) (pos : Pos) (acc : Values) (w : Value) (c : ℕ) (s t : Text) (p q : Pos)
    → is_space c ≡ false
    → (c == b';') ≡ false
    → (c == b')') ≡ false
    → read_value f (at (c ∷ s) p) ≡ ok (w, at (b' ' ∷ t) q)
    → list_loop (suc f) pos acc (at (c ∷ s) p)
      ≡ list_loop f pos (snoc acc w) (at t (advance_pos b' ' q))
unfolding list_at list_loop
list_loop-item f pos acc w c s t p q solid code open_end e =
    rw (skip_space-solid c s p solid code)
      (rw open_end (rw e (list_loop-blank f pos (snoc acc w) t q)))

pub list_loop-Begins :
    (f : ℕ) (pos : Pos) (acc : Values) (w : Value) (s t : Text) (p q : Pos)
    → Begins s
    → read_value f (at s p) ≡ ok (w, at (b' ' ∷ t) q)
    → list_loop (suc f) pos acc (at s p) ≡ list_loop f pos (snoc acc w) (at t (advance_pos b' ' q))
list_loop-Begins f pos acc w s t p q b e =
    subst
      (λ u.
        read_value f (at u p) ≡ ok (w, at (b' ' ∷ t) q)
        → list_loop (suc f) pos acc (at u p)
          ≡ list_loop f pos (snoc acc w) (at t (advance_pos b' ' q)))
      (sym b.split) (list_loop-item f pos acc w b.head b.tail t p q b.solid b.code b.open_end) e

-- the end of a list
pub list_loop-close :
    (f : ℕ) (pos : Pos) (acc : Values) (rest : Text) (p : Pos)
    → list_loop (suc f) pos acc (at (b')' ∷ rest) p)
      ≡ ok (list acc pos, at rest (advance_pos b')' p))
unfolding list_at list_loop skip_space
list_loop-close f pos acc rest p = refl

abbrev pub ReadsValue : Value → Type 0
ReadsValue v =
    (f : ℕ) (rest : Text) (p : Pos)
    → 2 * length (print v) < f
    → Stops rest
    → read_value f (at (print v ++ rest) p) ≡ ok (placed v p, at rest (passed (print v) p))

abbrev pub ReadsItems : Values → Type 0
ReadsItems vs =
    (f : ℕ) (pos : Pos) (acc : Values) (rest : Text) (p : Pos)
    → suc (2 * length (print_items vs)) < f
    → list_loop f pos acc (at (print_items vs ++ b')' ∷ rest) p)
      ≡ ok (
        list (append_values acc (placed_items vs p)) pos,
        at rest (passed (print_items vs ++ b')' ∷ []) p),
      )
