-- ===== src/Sexp/Tokens.antt =====
-- Reading back one token: a string literal in its escaped form, and a bare word.
use pktc.Common.{
  ℕ, ◌≡◌, ◌≢◌, refl, ap, true, false, Text, bytes, [], ◌∷◌, ◌++◌, All, append_assoc, append-nil,
  append-ne-nil, arith, ◌==◌, ==_iff, text_eq, text_eq_iff, Bool-cases, inl, inr, ◌≡⟨◌⟩◌, ◌∎,
}
use pktc.Diag.{Pos, Result, ok}
use pktc.Sexp.Kind.{k_string}
use pktc.Sexp.Value.{Value, atom}
use pktc.Sexp.Reader.{
  Reader, advance_pos, is_delim, classify, atom_loop, read_atom, string_loop, value_at,
}
use pktc.Sexp.Moves.{passed, passed-append}
use pktc.Sexp.Print.{escape_byte, escape, IsWord}

abbrev pub at : Text → Pos → Reader
at s p = record { rest = s; at = p }

-- one byte of a literal that stands for itself
string_loop-plain :
    (pos : Pos) (c : ℕ) (t : Text) (p : Pos) (sb : Text)
    → t ≢ []
    → c ≢ b'"'
    → c ≢ b'\\'
    → string_loop pos (c ∷ t) p sb ≡ string_loop pos t (advance_pos c p) (sb ++ c ∷ [])
unfolding string_loop
string_loop-plain pos c [] p sb full q b = absurd (full refl)
string_loop-plain pos c (e ∷ t) p sb full q b = ground arith

-- The escape of one byte, anywhere before the closing quote, adds that byte.
string_loop-escape_byte :
    (pos : Pos) (c : ℕ) (t : Text) (p : Pos) (sb : Text)
    → t ≢ []
    → string_loop pos (escape_byte c ++ t) p sb
      ≡ string_loop pos t (passed (escape_byte c) p) (sb ++ c ∷ [])
unfolding escape_byte bytes passed
string_loop-escape_byte pos c t p sb full = elim (Bool-cases (c == b'"')) [
  | inl quote ↦ rw ((==_iff c b'"').0 quote) (unfold string_loop in refl)
  | inr other ↦ elim (Bool-cases (c == b'\\')) [
    | inl slash ↦ rw ((==_iff c b'\\').0 slash) (unfold string_loop in refl)
    | inr rest ↦
        rw (other, rest) (string_loop-plain pos c t p sb full (ground arith) (ground arith))
  ]
]

string_loop-close :
    (pos : Pos) (rest : Text) (p : Pos) (sb : Text)
    → string_loop pos (b'"' ∷ rest) p sb ≡ ok (atom k_string sb pos, at rest (advance_pos b'"' p))
unfolding string_loop
string_loop-close pos [] p sb = refl
string_loop-close pos (c ∷ rest) p sb = refl

-- The text of a literal is read back, and the literal ends at its closing quote.
pub string_loop-escape :
    (pos : Pos) (s rest : Text) (p : Pos) (sb : Text)
    → string_loop pos (escape s ++ b'"' ∷ rest) p sb
      ≡ ok (atom k_string (sb ++ s) pos, at rest (passed (escape s ++ b'"' ∷ []) p))
unfolding escape passed
string_loop-escape pos [] rest p sb = rw append-nil (string_loop-close pos rest p sb)
string_loop-escape pos (c ∷ s) rest p sb =
    string_loop pos (escape (c ∷ s) ++ b'"' ∷ rest) p sb
    ≡⟨ ap (λ t. string_loop pos t p sb) (append_assoc (escape_byte c) (escape s) _) ⟩
      string_loop pos (escape_byte c ++ (escape s ++ b'"' ∷ rest)) p sb
    ≡⟨ string_loop-escape_byte pos c _ p sb (append-ne-nil (escape s) b'"' rest) ⟩
      string_loop pos (escape s ++ b'"' ∷ rest) (passed (escape_byte c) p) (sb ++ c ∷ [])
    ≡⟨ string_loop-escape pos s rest (passed (escape_byte c) p) (sb ++ c ∷ []) ⟩
      ok (
        atom k_string ((sb ++ c ∷ []) ++ s) pos,
        at rest (passed (escape s ++ b'"' ∷ []) (passed (escape_byte c) p)),
      )
    ≡⟨ (simp (append_assoc, passed-append)) ⟩
      ok (atom k_string (sb ++ c ∷ s) pos, at rest (passed (escape (c ∷ s) ++ b'"' ∷ []) p)) ∎

-- what may follow a bare word
abbrev pub Stops : Text → Type 0
Stops [] = Unit
Stops (c ∷ s) = is_delim c ≡ true

atom_loop-word :
    (t rest : Text) (p : Pos)
    → All (λ c. is_delim c ≡ false) t
    → Stops rest
    → atom_loop (t ++ rest) p ≡ (t, at rest (passed t p))
unfolding atom_loop passed
atom_loop-word [] [] p a stop = refl
atom_loop-word [] (c ∷ rest) p a stop = rw stop
atom_loop-word (c ∷ t) rest p (plain, a) stop =
    rw (plain, atom_loop-word t rest (advance_pos c p) a stop)

text_eq-ne : (s t : Text) → s ≢ t → text_eq s t ≡ false
text_eq-ne s t ne = elim (Bool-cases (text_eq s t)) [
  | inl same ↦ absurd (ne ((text_eq_iff s t).0 same))
  | inr other ↦ other
]

-- A bare word is read as itself.
read_atom-word :
    (t rest : Text) (p : Pos)
    → IsWord t
    → Stops rest
    → read_atom (at (t ++ rest) p) ≡ ok (atom (classify t) t p, at rest (passed t p))
unfolding read_atom
read_atom-word t rest p (full, named, plain) stop =
    rw (atom_loop-word t rest p plain stop)
      (rw (text_eq-ne t [] full, text_eq-ne t (bytes ":") named))

delim_false :
    (c : ℕ)
    → is_delim c ≡ false
    → ((c == b'(') ≡ false) × ((c == b')') ≡ false) × ((c == b'"') ≡ false)
unfolding is_delim
delim_false c h = ground arith

pub value_at-word :
    (go : Reader → Result (Value × Reader)) (t rest : Text) (p : Pos)
    → IsWord t
    → Stops rest
    → value_at go (at (t ++ rest) p) (t ++ rest) ≡ ok (atom (classify t) t p, at rest (passed t p))
unfolding value_at is_delim
value_at-word go [] rest p (full, _, _) stop = absurd (full refl)
value_at-word go (c ∷ t) rest p w stop =
    let (o, e, q) = delim_false c (w.2).0 in rw (o, e, q) (read_atom-word (c ∷ t) rest p w stop)
