-- ===== src/Nettest/Undo.antt =====
-- internal/nettest/nettest.go: what undoes the commands that a test has run, and steps of a test
-- that keep its clean-ups equal to that.
use pktc.Common.{
  ◌≡◌, refl, ◌&&◌, ◌||◌, Bool, true, false, Text, bytes, text_eq, List, [], ◌∷◌, ◌++◌,
  if◌then◌else◌,
}
use pktc.Nettest.{Test, Verdict, goes_on, skips, fatal, M, ◌>>=◌, pure, skip, fail}

-- What undoes a command that succeeded on the host: the deletion of the namespace or of the link
-- that it made. What is made inside a namespace goes with it.
unfoldable pub undo_of : List Text → List (List Text)
undo_of (program ∷ object ∷ verb ∷ name ∷ rest) =
    if text_eq program (bytes "ip") && text_eq verb (bytes "add")
    then if text_eq object (bytes "netns") || text_eq object (bytes "link")
      then (program ∷ object ∷ bytes "del" ∷ name ∷ []) ∷ []
      else []
    else []
undo_of _ = []

unfoldable pub undo : List (List Text × Bool) → List (List Text)
unfolding undo_of
undo [] = []
undo ((argv, true) ∷ rest) = undo_of argv ++ undo rest
undo ((argv, false) ∷ rest) = undo rest

-- The clean-ups undo what the commands have made so far, the last one first.
abbrev pub IsTidy : {W : Type 0} → Test W → Type 0
IsTidy t = t.cleanups ≡ undo t.ran

-- The test is in a state with `P` on each of the three ways.
pub data Settles {W A : Type 0} (P : Test W → Type 0) : Verdict W A → Type 0 where
  on_value : {a : A} {t : Test W} → P t → Settles P (goes_on a t)
  on_skip : {m : Text} {t : Test W} → P t → Settles P (skips m t)
  on_fatal : {m : Text} {t : Test W} → P t → Settles P (fatal m t)

-- The step keeps tests tidy.
abbrev pub Tidies : {W A : Type 0} → M W A → Type 0
Tidies {W} m = (t : Test W) → IsTidy t → Settles IsTidy (m t)

pub undo-nothing :
    (argv : List Text) (b : Bool) (rest : List (List Text × Bool))
    → undo_of argv ≡ []
    → undo ((argv, b) ∷ rest) ≡ undo rest
unfolding undo
undo-nothing argv true rest e = rw e
undo-nothing argv false rest e = refl

module _ {W A B : Type 0} (f : A → M W B) (hf : (a : A) → Tidies (f a)) where
  pub Settles-then :
      {v : Verdict W A}
      → Settles IsTidy v
      → Settles IsTidy (elim v as (λ _. Verdict W B) [
        | goes_on a t' ↦ f a t'
        | skips z t' ↦ skips z t'
        | fatal z t' ↦ fatal z t'
      ])
  Settles-then (on_value {a} {t} p) = hf a t p
  Settles-then (on_skip p) = on_skip p
  Settles-then (on_fatal p) = on_fatal p

  pub Tidies-bind : {m : M W A} → Tidies m → Tidies (m >>= f)
  Tidies-bind hm t ht = Settles-then (hm t ht)

module _ {W A : Type 0} where
  pub Tidies-if : (b : Bool) (m n : M W A) → Tidies m → Tidies n → Tidies (if b then m else n)
  Tidies-if true m n hm hn = hm
  Tidies-if false m n hm hn = hn

  pub pure-Tidies : (a : A) → Tidies {W = W} (pure a)
  pure-Tidies a t ht = on_value ht

  pub skip-Tidies : (m : Text) → Tidies {W = W} {A = A} (skip m)
  skip-Tidies m t ht = on_skip ht

  pub fail-Tidies : (m : Text) → Tidies {W = W} {A = A} (fail m)
  fail-Tidies m t ht = on_fatal ht

pub undo-made :
    (argv undone : List Text) (rest : List (List Text × Bool))
    → undo_of argv ≡ undone ∷ []
    → undo ((argv, true) ∷ rest) ≡ undone ∷ undo rest
unfolding undo
undo-made argv undone rest e = rw e

pub undo-failed :
    (argv : List Text) (rest : List (List Text × Bool)) → undo ((argv, false) ∷ rest) ≡ undo rest
unfolding undo
undo-failed argv rest = refl
