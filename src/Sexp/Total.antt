-- ===== src/Sexp/Total.antt =====
-- sexp/reader.go: how `Read` ends, and the positions of the values.
use pktc.Common.{
  ℕ, zero, suc, ◌+◌, ◌*◌, ◌<◌, ◌≡◌, refl, ap, subst, Text, bytes, List, [], ◌∷◌, ◌++◌, length, All,
  All-append, arith, if_intro, ◌==◌, ==_iff, text_eq, text_eq-false→ne, length-lt_of_append, ◌∙◌,
}
use pktc.Diag.{Pos, Result, ◌>>=◌, Returns, returns, fails, Returns-bind, Returns-if}
use pktc.Sexp.Value.{Value, Values, nil, list, snoc}
use pktc.Sexp.Reader.{
  Reader, advance, advance_pos, is_delim, atom_loop, read_atom, unescape, string_loop, skip_space,
  value_at, list_at, read_value, list_loop, forms_at, forms_loop, start, read,
}
use pktc.Sexp.Moves.{
  Moves, here, next, skip_space-Within, Located, is_list, is_string, is_atom, EachLocated,
  none_left, EachLocated-snoc,
}

module _ (r : Reader) where
  -- A value was read from before `n` bytes: some of them are gone, and it is where it says it is.
  abbrev Good : ℕ → Value × Reader → Type 0
  Good n (v, q) = Moves r q × (length q.rest < n) × Located r v

  -- `unescape` always returns
  unescape-Returns : (p : Pos) (e : ℕ) → Returns (λ d. Unit {0}) (unescape p e)
  unfolding unescape
  unescape-Returns p e =
      Returns-if (e == b'n') (λ _. returns tt)
        (λ _.
          Returns-if (e == b't') (λ _. returns tt)
            (λ _.
              Returns-if (e == b'\\') (λ _. returns tt)
                (λ _. Returns-if (e == b'"') (λ _. returns tt) (λ _. fails _))))

  module _ {q₀ : Reader} {s₀ : Text} (m₀ : Moves r q₀) (e₀ : q₀.rest ≡ b'"' ∷ s₀) where
    string_loop-Good :
        (s : Text) (p : Pos) (sb : Text) (n : ℕ)
        → length s < n
        → Moves r (record { rest = s; at = p })
        → Returns (Good n) (string_loop q₀.at s p sb)
    unfolding string_loop
    string_loop-Good [] p sb n h m = fails _
    string_loop-Good (c ∷ []) p sb n h m =
        Returns-if (c == b'"') (λ _. returns (next m refl, omega arith, is_string s₀ m₀ refl e₀))
          (λ _. fails _)
    string_loop-Good (c ∷ e ∷ s) p sb n h m =
        Returns-if (c == b'"') (λ _. returns (next m refl, omega arith, is_string s₀ m₀ refl e₀))
          (λ _.
            Returns-if (c == b'\\')
              (λ _. Returns-bind (unescape-Returns (advance_pos c p) e) λ d _.
                string_loop-Good s (advance_pos e (advance_pos c p)) (sb ++ d ∷ []) n (omega arith)
                  (next (next m refl) refl))
              (λ _.
                string_loop-Good (e ∷ s) (advance_pos c p) (sb ++ c ∷ []) n (omega arith)
                  (next m refl)))

  -- what the loop of `readAtom` yields: the text read is what stood before the rest
  atom_loop-moves :
      (s : Text) (p : Pos)
      → Moves r (record { rest = s; at = p })
      → Moves r (atom_loop s p).1 × (s ≡ (atom_loop s p).0 ++ (atom_loop s p).1.rest)
  unfolding atom_loop
  atom_loop-moves [] p m = (m, refl)
  atom_loop-moves (c ∷ s) p m =
      let (later, split) = atom_loop-moves s (advance_pos c p) (next m refl) in
      if_intro (λ (t : Text × Reader). Moves r t.1 × (c ∷ s ≡ t.0 ++ t.1.rest)) (is_delim c)
        (λ _. (m, refl)) (λ _. (later, ap (λ t. c ∷ t) split))

  read_atom-Good : (q : Reader) → Moves r q → Returns (Good (length q.rest)) (read_atom q)
  unfolding read_atom
  read_atom-Good q m =
      let (later, split) = atom_loop-moves q.rest q.at m in
      Returns-if (text_eq (atom_loop q.rest q.at).0 []) (λ _. fails _)
        λ full.
          Returns-if (text_eq (atom_loop q.rest q.at).0 (bytes ":")) (λ _. fails _)
            λ _.
              let full' = text_eq-false→ne _ [] full in
              returns (later, length-lt_of_append _ _ _ split full', is_atom _ m refl split full')

  value_at-Good :
      (go : Reader → Result (Value × Reader)) (q : Reader) (s : Text)
      → Moves r q
      → q.rest ≡ s
      → ((s' : Text) (q' : Reader)
          → Moves r q'
          → s ≡ b'(' ∷ s'
          → q'.rest ≡ s'
          → Returns (Good (length s)) (go q'))
      → Returns (Good (length s)) (value_at go q s)
  unfolding value_at
  value_at-Good go q [] m e hgo =
      subst (λ n. Returns (Good n) (read_atom q)) (ap length e) (read_atom-Good q m)
  value_at-Good go q (c ∷ s) m e hgo =
      Returns-if (c == b'(')
        (λ o. hgo s (advance c s q) (next m e) (ap (λ x. x ∷ s) ((==_iff c _).0 o)) refl)
        (λ _.
          Returns-if (c == b')') (λ _. fails _)
            (λ _.
              Returns-if (c == b'"')
                (λ o.
                  string_loop-Good m (e ∙ ap (λ x. x ∷ s) ((==_iff c _).0 o)) s (advance_pos c q.at)
                    [] (suc (length s)) (omega arith) (next m e))
                (λ _.
                  subst (λ n. Returns (Good n) (read_atom q)) (ap length e) (read_atom-Good q m))))

  -- the list that opened at `pos` is located whatever its items are, if they are
  abbrev Opened : Pos → Type 0
  Opened pos = (items : Values) → EachLocated r items → Located r (list items pos)

  list_at-Good :
      (pos : Pos) (items : Values) (more : Reader → Result (Value × Reader)) (q : Reader) (s : Text)
      (n : ℕ)
      → Moves r q
      → q.rest ≡ s
      → Opened pos
      → EachLocated r items
      → length s < n
      → Returns (Good n) (more q)
      → Returns (Good n) (list_at pos items more q s)
  unfolding list_at
  list_at-Good pos items more q [] n m e whole each short k = fails _
  list_at-Good pos items more q (c ∷ s) n m e whole each short k =
      Returns-if (c == b')') (λ _. returns (next m e, omega arith, whole items each)) (λ _. k)

  -- One induction on the fuel; in the loop `n` bounds what was left before the list began.
  mutual
    unfolding read_value

    read_value-Good :
        (f : ℕ) (q : Reader)
        → Moves r q
        → 2 * length q.rest < f
        → Returns (Good (length q.rest)) (read_value f q)
    read_value-Good zero q m h = absurd (omega arith)
    read_value-Good (suc f) q m h =
        value_at-Good (λ q'. list_loop f q.at nil q') q q.rest m refl
          λ s' q' m' o e.
            list_loop-Good f q.at nil q' (length q.rest) m' (λ _. is_list s' m refl o) none_left
              (omega (arith, ap length o, ap length e)) (omega (arith, ap length o, ap length e))

    list_loop-Good :
        (f : ℕ) (pos : Pos) (items : Values) (q : Reader) (n : ℕ)
        → Moves r q
        → Opened pos
        → EachLocated r items
        → length q.rest < n
        → suc (2 * length q.rest) < f
        → Returns (Good n) (list_loop f pos items q)
    list_loop-Good zero pos items q n m whole each short h = absurd (omega arith)
    list_loop-Good (suc f) pos items q n m whole each short h =
        let w = skip_space-Within r q m in
        list_at-Good pos items
          (λ p. read_value f p >>= λ (v, p'). list_loop f pos (snoc items v) p') (skip_space q)
          (skip_space q).rest n w.moves refl whole each (omega (arith, w.left))
          (Returns-bind (read_value-Good f (skip_space q) w.moves (omega (arith, w.left)))
            λ (v, p') (m', less, l).
              list_loop-Good f pos (snoc items v) p' n m' whole (EachLocated-snoc each l)
                (omega (arith, w.left)) (omega (arith, w.left)))

  forms_at-Returns :
      (more : Reader → Result (List Value)) (out : List Value) (q : Reader) (s : Text)
      → All (Located r) out
      → (0 < length s → Returns (All (Located r)) (more q))
      → Returns (All (Located r)) (forms_at more out q s)
  unfolding forms_at
  forms_at-Returns more out q [] a k = returns a
  forms_at-Returns more out q (c ∷ s) a k = k (omega arith)

  forms_loop-Returns :
      (f : ℕ) (out : List Value) (q : Reader)
      → Moves r q
      → All (Located r) out
      → length q.rest < f
      → Returns (All (Located r)) (forms_loop f out q)
  unfolding forms_loop
  forms_loop-Returns zero out q m a h = absurd (omega arith)
  forms_loop-Returns (suc f) out q m a h =
      let w = skip_space-Within r q m in
      forms_at-Returns
        (λ p. read_value (2 * length p.rest + 1) p >>= λ (v, p'). forms_loop f (out ++ v ∷ []) p')
        out (skip_space q) (skip_space q).rest a
        λ _.
          Returns-bind (read_value-Good _ (skip_space q) w.moves (omega arith))
            λ (v, p') (m', less, l).
              forms_loop-Returns f (out ++ v ∷ []) p' m'
                (All-append (Located r) out (v ∷ []) a (l, tt)) (omega (arith, w.left))

pub read-Located : (file src : Text) → Returns (All (Located (start file src))) (read file src)
unfolding read
read-Located file src =
    forms_loop-Returns (start file src) (length src + 1) [] (start file src) here tt (omega arith)
