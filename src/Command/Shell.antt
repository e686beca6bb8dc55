-- ===== src/Command/Shell.antt =====
-- command/command.go: how a shell reads a line of simple words, to compare the printed line with.
use pktc.Common.{
  ℕ, ◌≡◌, refl, ap, sym, ◌∙◌, true, false, ◌==◌, ==_iff, Text, bytes, text_eq, contains_text, List,
  [], ◌∷◌, ◌++◌, map, join, all, All, append_assoc, append-nil, Option, none, some, if◌then◌else◌,
  arith, Bool-cases, inl, inr,
}
use pktc.Command.{Command, is_safe_byte, safe, replace_quotes, quote, command_string}

-- between two words, in a word, between single quotes, behind a backslash
data Mode : Type 0 where
  between in_word in_quotes escaped : Mode

-- The words of a line: the word in progress is `cur`, those behind it `done`. A byte that is
-- special to a shell and stands in no quotes is refused, so nothing is left to expansion.
sh : Mode → Text → List Text → Text → Option (List Text)
sh between cur done [] = some done
sh in_word cur done [] = some (done ++ cur ∷ [])
sh in_quotes cur done [] = none
sh escaped cur done [] = none
sh between cur done (c ∷ s) =
    let blank = sh between [] done s in
    let quoted = sh in_quotes [] done s in
    let slash = sh escaped [] done s in
    let word = sh in_word (c ∷ []) done s in
    if c == b' '
    then blank
    else if c == b'\''
    then quoted
    else if c == b'\\'
    then slash
    else if is_safe_byte c
    then word
    else none
sh in_word cur done (c ∷ s) =
    let blank = sh between [] (done ++ cur ∷ []) s in
    let quoted = sh in_quotes cur done s in
    let slash = sh escaped cur done s in
    let word = sh in_word (cur ++ c ∷ []) done s in
    if c == b' '
    then blank
    else if c == b'\''
    then quoted
    else if c == b'\\'
    then slash
    else if is_safe_byte c
    then word
    else none
sh in_quotes cur done (c ∷ s) =
    let close = sh in_word cur done s in
    let more = sh in_quotes (cur ++ c ∷ []) done s in if c == b'\'' then close else more
sh escaped cur done (c ∷ s) = sh in_word (cur ++ c ∷ []) done s

pub shell_words : Text → Option (List Text)
unfolding sh
shell_words line = sh between [] [] line

safe_byte_plain :
    (c : ℕ)
    → is_safe_byte c ≡ true
    → ((c == b' ') ≡ false) × ((c == b'\'') ≡ false) × ((c == b'\\') ≡ false)
unfolding is_safe_byte
safe_byte_plain c h = ground arith

sh-safe :
    (cur : Text) (done : List Text) (t s : Text)
    → all is_safe_byte t ≡ true
    → sh in_word cur done (t ++ s) ≡ sh in_word (cur ++ t) done s
unfolding sh
sh-safe cur done [] s h = ap (λ c. sh in_word c done s) (sym (append-nil cur))
sh-safe cur done (c ∷ t) s h = elim (Bool-cases (is_safe_byte c)) [
  | inr bad ↦ cc (rw bad at h)
  | inl good ↦
      let (a, b, d) = safe_byte_plain c good in
      rw (a, b, d, good)
        (sh-safe (cur ++ c ∷ []) done t s (rw good at h)
          ∙ ap (λ w. sh in_word w done s) (append_assoc cur (c ∷ []) t))
]

sh-replace_quotes :
    (cur : Text) (done : List Text) (t s : Text)
    → sh in_quotes cur done (replace_quotes t ++ b'\'' ∷ s) ≡ sh in_word (cur ++ t) done s
unfolding sh replace_quotes
sh-replace_quotes cur done [] s = ap (λ c. sh in_word c done s) (sym (append-nil cur))
sh-replace_quotes cur done (c ∷ t) s = elim (Bool-cases (c == b'\'')) [
  | inl mark ↦ rw ((==_iff c b'\'').0 mark) (
      sh-replace_quotes (cur ++ b'\'' ∷ []) done t s
      ∙ ap (λ w. sh in_word w done s) (append_assoc cur (b'\'' ∷ []) t))
  | inr other ↦
      rw (other, other)
        (sh-replace_quotes (cur ++ c ∷ []) done t s
          ∙ ap (λ w. sh in_word w done s) (append_assoc cur (c ∷ []) t))
]

-- A token that asks for no substitution by the shell.
abbrev pub IsLiteral : Text → Type 0
IsLiteral t = contains_text t (bytes "$(") ≡ false

sh-safe_first :
    (done : List Text) (t s : Text)
    → safe t ≡ true
    → sh between [] done (t ++ s) ≡ sh in_word t done s
unfolding sh safe text_eq
sh-safe_first done [] s h = cc
sh-safe_first done (c ∷ t) s h = elim (Bool-cases (is_safe_byte c)) [
  | inr bad ↦ cc (rw bad at h)
  | inl good ↦
      let (a, b, d) = safe_byte_plain c good in
      rw (a, b, d, good) (sh-safe (c ∷ []) done t s (rw good at h))
]

-- A quoted token is read as the one word that it was.
sh-quote :
    (done : List Text) (t s : Text)
    → IsLiteral t
    → sh between [] done (quote t ++ s) ≡ sh in_word t done s
unfolding quote
sh-quote done t s lit = elim (Bool-cases (safe t)) [
  | inl plain ↦ rw plain (sh-safe_first done t s plain)
  | inr special ↦
      rw (special, lit)
        (ap (λ u. sh between [] done (b'\'' ∷ u)) (append_assoc (replace_quotes t) (b'\'' ∷ []) s)
          ∙ unfold sh in sh-replace_quotes [] done t s)
]

sh-blank :
    (cur : Text) (done : List Text) (s : Text)
    → sh in_word cur done (bytes " " ++ s) ≡ sh between [] (done ++ cur ∷ []) s
unfolding sh bytes
sh-blank cur done s = refl

sh-join :
    (done argv : List Text)
    → All IsLiteral argv
    → sh between [] done (join (map quote argv) (bytes " ")) ≡ some (done ++ argv)
unfolding join
sh-join done [] a = unfold sh in ap some (sym (append-nil done))
sh-join done (t ∷ []) (lit, a) =
    ap (sh between [] done) (sym (append-nil (quote t)))
    ∙ sh-quote done t [] lit
    ∙ unfold sh in refl
sh-join done (t ∷ u ∷ argv) (lit, a) =
    sh-quote done t (bytes " " ++ join (map quote (u ∷ argv)) (bytes " ")) lit
    ∙ sh-blank t done (join (map quote (u ∷ argv)) (bytes " "))
    ∙ sh-join (done ++ t ∷ []) (u ∷ argv) a
    ∙ ap some (append_assoc done (t ∷ []) (u ∷ argv))

-- The line printed for a command whose arguments ask for no substitution is read by a shell as
-- exactly those arguments, whatever other bytes they hold, and nothing in it is expanded.
pub shell_words-command_string :
    (c : Command) → All IsLiteral c.argv → shell_words (command_string c) ≡ some c.argv
unfolding shell_words command_string
shell_words-command_string c a = sh-join [] c.argv a
