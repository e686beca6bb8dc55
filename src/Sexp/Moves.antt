-- ===== src/Sexp/Moves.antt =====
-- Where a reader can get to by `advance`, and where the values that it reads begin.
use pktc.Common.{
  ℕ, ◌≤◌, ◌≡◌, refl, ap, ◌∙◌, sym, Bool, true, false, Text, [], ◌∷◌, ◌++◌, length, arith, suc, ◌≢◌,
  append_assoc, ◌==◌, if_intro,
}
use pktc.Diag.{Pos}
use pktc.Sexp.Kind.{k_string}
use pktc.Sexp.Value.{Value, Values, nil, cons, atom, list, snoc}
use pktc.Sexp.Reader.{Reader, advance, advance_pos, skip_loop, skip_space, is_space, classify}

-- `Moves r q`: calls of `advance` take `r` to `q`.
pub data Moves (r : Reader) : Reader → Type 0 where
  here : Moves r r
  next : {q : Reader} {c : ℕ} {s : Text} → Moves r q → q.rest ≡ c ∷ s → Moves r (advance c s q)

-- the position behind a text
unfoldable pub passed : Text → Pos → Pos
passed [] p = p
passed (c ∷ s) p = passed s (advance_pos c p)

pub passed-append : (s t : Text) (p : Pos) → passed (s ++ t) p ≡ passed t (passed s p)
unfolding passed
passed-append [] t p = refl
passed-append (c ∷ s) t p = passed-append s t (advance_pos c p)

-- A reader that is reached stands behind a prefix of the text, at that prefix's end position.
pub Moves-prefix :
    {r q : Reader} → Moves r q → (s : Text) × (r.rest ≡ s ++ q.rest) × (q.at ≡ passed s r.at)
unfolding passed
Moves-prefix here = ([], refl, refl)
Moves-prefix {r} (next {c} {s = rest} m e) =
    let (s, whole, place) = Moves-prefix m in
    (
      s ++ c ∷ [],
      whole ∙ ap (λ t. s ++ t) e ∙ sym (append_assoc s (c ∷ []) rest),
      ap (advance_pos c) place ∙ sym (passed-append s (c ∷ []) r.at),
    )

-- What a loop leaves: a reader that is reached, no longer than `n` bytes.
pub record Within (r : Reader) (n : ℕ) (q : Reader) : Type 0 where
  pub moves : Moves r q
  pub left : length q.rest ≤ n

widen : {r q : Reader} {n : ℕ} → Within r n q → Within r (suc n) q
widen w = record { moves = w.moves; left = omega arith }

module _ (r : Reader) where
  skip_loop-Within :
      (note : Bool) (s : Text) (p : Pos)
      → Moves r (record { rest = s; at = p })
      → Within r (length s) (skip_loop note s p)
  unfolding skip_loop
  skip_loop-Within note [] p m = record { moves = m; left = omega arith }
  skip_loop-Within true (c ∷ s) p m =
      if_intro (Within r (suc (length s))) (c == b'\n')
        (λ _. widen (skip_loop-Within false s (advance_pos c p) (next m refl)))
        (λ _. widen (skip_loop-Within true s (advance_pos c p) (next m refl)))
  skip_loop-Within false (c ∷ s) p m =
      if_intro (Within r (suc (length s))) (is_space c)
        (λ _. widen (skip_loop-Within false s (advance_pos c p) (next m refl)))
        (λ _.
          if_intro (Within r (suc (length s))) (c == b';')
            (λ _. widen (skip_loop-Within true s (advance_pos c p) (next m refl)))
            (λ _. record { moves = m; left = omega arith }))

  pub skip_space-Within : (q : Reader) → Moves r q → Within r (length q.rest) (skip_space q)
  unfolding skip_space
  skip_space-Within q m = skip_loop-Within false q.rest q.at m

-- Where a value begins in what `r` has before it: at a reader that is reached, at its own position.
mutual
  pub data Located (r : Reader) : Value → Type 0 where
    is_list :
        {q : Reader} (s : Text) {p : Pos} {items : Values}
        → Moves r q
        → q.at ≡ p
        → q.rest ≡ b'(' ∷ s
        → EachLocated r items
        → Located r (list items p)
    is_string :
        {q : Reader} (s : Text) {t : Text} {p : Pos}
        → Moves r q
        → q.at ≡ p
        → q.rest ≡ b'"' ∷ s
        → Located r (atom k_string t p)
    is_atom :
        {q : Reader} (s : Text) {t : Text} {p : Pos}
        → Moves r q
        → q.at ≡ p
        → q.rest ≡ t ++ s
        → t ≢ []
        → Located r (atom (classify t) t p)

  pub data EachLocated (r : Reader) : Values → Type 0 where
    none_left : EachLocated r nil
    one_more :
        {v : Value} {vs : Values} → Located r v → EachLocated r vs → EachLocated r (cons v vs)

pub EachLocated-snoc :
    {r : Reader} {vs : Values} {v : Value}
    → EachLocated r vs
    → Located r v
    → EachLocated r (snoc vs v)
EachLocated-snoc none_left l = one_more l none_left
EachLocated-snoc (one_more k ks) l = one_more k (EachLocated-snoc ks l)
