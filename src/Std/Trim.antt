-- ===== src/Std/Trim.antt =====
-- strings: what `TrimSpace` and `Split` leave.
use mathlib.Core.List.{reverse, reverse-append, reverse-reverse}
use pktc.Common.{
  ℕ, ◌≡◌, refl, sym, ap, ◌∙◌, ltb, ◌&&◌, ◌||◌, not, Bool, true, false, Bool-cases, inl, inr, Text,
  bytes, contains_byte, List, [], ◌∷◌, ◌++◌, append_assoc, append-nil, All, arith,
}
use pktc.Std.Strings.{
  is_blank, is_blank2, is_blank3, trim_left, trim_right, trim_space, split_lines,
}

-- an ASCII byte that is no white space
abbrev pub is_solid : ℕ → Bool
is_solid a = ltb a 128 && not (is_blank a)

is_blank2-first : (a b : ℕ) → is_solid a ≡ true → is_blank2 a b ≡ false
unfolding is_blank2 is_blank
is_blank2-first a b h = ground arith

is_blank2-second : (a b : ℕ) → is_solid b ≡ true → is_blank2 a b ≡ false
unfolding is_blank2 is_blank
is_blank2-second a b h = ground arith

is_blank3-first : (a b c : ℕ) → is_solid a ≡ true → is_blank3 a b c ≡ false
unfolding is_blank3 is_blank
is_blank3-first a b c h = ground arith

is_blank3-third : (a b c : ℕ) → is_solid c ≡ true → is_blank3 a b c ≡ false
unfolding is_blank3 is_blank
is_blank3-third a b c h = ground arith

not_blank : (a : ℕ) → is_solid a ≡ true → is_blank a ≡ false
unfolding is_blank
not_blank a h = ground arith

module _ (two : ℕ → ℕ → Bool) (three : ℕ → ℕ → ℕ → Bool) (h : ℕ) (solid : is_solid h ≡ true)
    (two_first : (b : ℕ) → two h b ≡ false) (two_second : (a : ℕ) → two a h ≡ false)
    (three_first : (b c : ℕ) → three h b c ≡ false)
    (three_third : (a b : ℕ) → three a b h ≡ false) where
  trim_left-solid : (s : Text) → trim_left two three (h ∷ s) ≡ h ∷ s
  unfolding trim_left
  trim_left-solid [] = rw (not_blank h solid)
  trim_left-solid (b ∷ []) = rw (not_blank h solid, two_first b)
  trim_left-solid (b ∷ c ∷ s) = rw (not_blank h solid, two_first b, three_first b c)

  -- a solid byte stops the white space at the front, wherever it stands
  trim_left-stops : (x : Text) → (y : Text) × (trim_left two three (x ++ h ∷ []) ≡ y ++ h ∷ [])
  unfolding trim_left
  trim_left-stops [] = ([], trim_left-solid [])
  trim_left-stops (a ∷ []) = elim (Bool-cases (is_blank a)) [
    | inl blank ↦ ([], rw (blank, not_blank h solid))
    | inr dark ↦ (a ∷ [], rw (dark, two_second a))
  ]
  trim_left-stops (a ∷ b ∷ []) = elim (Bool-cases (is_blank a)) [
    | inl blank ↦ rw blank (trim_left-stops (b ∷ []))
    | inr dark ↦ rw dark (elim (Bool-cases (two a b)) [
      | inl wide ↦ rw wide (trim_left-stops [])
      | inr thin ↦ (a ∷ b ∷ [], rw (thin, three_third a b))
    ])
  ]
  trim_left-stops (a ∷ b ∷ c ∷ x) = elim (Bool-cases (is_blank a)) [
    | inl blank ↦ rw blank (trim_left-stops (b ∷ c ∷ x))
    | inr dark ↦ rw dark (elim (Bool-cases (two a b)) [
      | inl wide ↦ rw wide (trim_left-stops (c ∷ x))
      | inr thin ↦ rw thin (elim (Bool-cases (three a b c)) [
        | inl wide ↦ rw wide (trim_left-stops x)
        | inr thin3 ↦ (a ∷ b ∷ c ∷ x, rw thin3)
      ])
    ])
  ]

trim_left-newline :
    (two : ℕ → ℕ → Bool) (three : ℕ → ℕ → ℕ → Bool) (s : Text)
    → trim_left two three (b'\n' ∷ s) ≡ trim_left two three s
unfolding trim_left
trim_left-newline two three [] = refl
trim_left-newline two three (b ∷ []) = refl
trim_left-newline two three (b ∷ c ∷ s) = refl

trim_right-solid : (r : Text) (z : ℕ) → is_solid z ≡ true → trim_right (r ++ z ∷ []) ≡ r ++ z ∷ []
unfolding trim_right
trim_right-solid r z solid =
    rw
      (
        reverse-append r (z ∷ []),
        trim_left-solid (λ b a. is_blank2 a b) (λ c b a. is_blank3 a b c) z solid
            (λ b. is_blank2-second b z solid) (λ a. is_blank2-first z a solid)
            (λ b c. is_blank3-third c b z solid) (λ a b. is_blank3-first z b a solid) (reverse r),
        reverse-append (z ∷ []) (reverse r),
        reverse-reverse r,
      )
      refl

trim_right-newline : (s : Text) → trim_right (s ++ bytes "\n") ≡ trim_right s
unfolding trim_right bytes
trim_right-newline s =
    rw
      (
        reverse-append s (b'\n' ∷ []),
        trim_left-newline (λ b a. is_blank2 a b) (λ c b a. is_blank3 a b c) (reverse s),
      )
      refl

trim_front : (h : ℕ) (s : Text) → is_solid h ≡ true → trim_left is_blank2 is_blank3 (h ∷ s) ≡ h ∷ s
trim_front h s solid =
    trim_left-solid is_blank2 is_blank3 h solid (λ b. is_blank2-first h b solid)
      (λ a. is_blank2-second a h solid) (λ b c. is_blank3-first h b c solid)
      (λ a b. is_blank3-third a b h solid) s

-- `TrimSpace` leaves a solid byte at the front where it is.
pub trim_space-front :
    (h : ℕ) (s : Text) → is_solid h ≡ true → (y : Text) × (trim_space (h ∷ s) ≡ h ∷ y)
unfolding trim_space trim_right
trim_space-front h s solid =
    let (y, stops) =
      trim_left-stops (λ b a. is_blank2 a b) (λ c b a. is_blank3 a b c) h solid
        (λ b. is_blank2-second b h solid) (λ a. is_blank2-first h a solid)
        (λ b c. is_blank3-third c b h solid) (λ a b. is_blank3-first h b a solid) (reverse s) in
    (
      reverse y,
      rw (trim_front h s solid, reverse-append (h ∷ []) s, stops, reverse-append y (h ∷ [])) refl,
    )

-- A text that begins and ends with solid bytes.
pub record Framed (u : Text) : Type 0 where
  pub first : ℕ
  pub behind : Text
  pub begins : u ≡ first ∷ behind
  pub first_solid : is_solid first ≡ true
  pub front : Text
  pub last : ℕ
  pub ends : u ≡ front ++ last ∷ []
  pub last_solid : is_solid last ≡ true

trim_right-Framed : {u : Text} → Framed u → trim_right u ≡ u
trim_right-Framed f = rw f.ends (trim_right-solid f.front f.last f.last_solid)

trim_left-Framed :
    {u : Text} (s : Text) → Framed u → trim_left is_blank2 is_blank3 (u ++ s) ≡ u ++ s
trim_left-Framed s f = rw f.begins (trim_front f.first (f.behind ++ s) f.first_solid)

pub trim_space-Framed : {u : Text} → Framed u → trim_space u ≡ u
unfolding trim_space
trim_space-Framed {u} f =
    ap (λ v. trim_right (trim_left is_blank2 is_blank3 v)) (sym (append-nil u))
    ∙ ap trim_right (trim_left-Framed [] f ∙ append-nil u)
    ∙ trim_right-Framed f

pub trim_space-line : {u : Text} → Framed u → trim_space (u ++ bytes "\n") ≡ u
unfolding trim_space
trim_space-line {u} f =
    ap trim_right (trim_left-Framed (bytes "\n") f) ∙ trim_right-newline u ∙ trim_right-Framed f

-- no newline in it
abbrev pub OneLine : Text → Type 0
OneLine s = contains_byte b'\n' s ≡ false

contains-append :
    (b : ℕ) (s t : Text) → contains_byte b (s ++ t) ≡ (contains_byte b s || contains_byte b t)
unfolding contains_byte
contains-append b [] t = refl
contains-append b (c ∷ s) t = ground (arith, contains-append b s t)

pub OneLine-append : (s t : Text) → OneLine s → OneLine t → OneLine (s ++ t)
OneLine-append s t hs ht = rw (contains-append b'\n' s t, hs, ht) refl

-- the lines, each with its newline
unfoldable pub lined : List Text → Text
lined [] = []
lined (l ∷ ls) = l ++ (bytes "\n" ++ lined ls)

pub lined-append : (ls ms : List Text) → lined (ls ++ ms) ≡ lined ls ++ lined ms
unfolding lined bytes
lined-append [] ms = refl
lined-append (l ∷ ls) ms =
    ap (λ w. l ++ (bytes "\n" ++ w)) (lined-append ls ms)
    ∙ sym (append_assoc l (bytes "\n" ++ lined ls) (lined ms))

split_lines-line : (l : Text) → OneLine l → split_lines l ≡ l ∷ []
unfolding split_lines contains_byte
split_lines-line [] h = refl
split_lines-line (c ∷ l) h = ground (arith, split_lines-line l)

split_lines-cons :
    (l s : Text) → OneLine l → split_lines (l ++ (bytes "\n" ++ s)) ≡ l ∷ split_lines s
unfolding split_lines contains_byte bytes
split_lines-cons [] s h = refl
split_lines-cons (c ∷ l) s h = ground (arith, split_lines-cons l s)

pub split_lines-lined :
    (ls : List Text) (s : Text) → All OneLine ls → split_lines (lined ls ++ s) ≡ ls ++ split_lines s
unfolding lined bytes
split_lines-lined [] s h = refl
split_lines-lined (l ∷ ls) s (one, more) =
    ap split_lines (append_assoc l (bytes "\n" ++ lined ls) s)
    ∙ split_lines-cons l (lined ls ++ s) one
    ∙ ap (λ ms. l ∷ ms) (split_lines-lined ls s more)

-- A script's lines, behind `TrimSpace` and `Split`, with a newline at its end or none.
pub split_lines-script :
    (ls : List Text) (z : Text)
    → All OneLine ls
    → OneLine z
    → Framed (lined ls ++ z)
    → split_lines (trim_space ((lined ls ++ z) ++ bytes "\n")) ≡ ls ++ z ∷ []
split_lines-script ls z hl hz f =
    ap split_lines (trim_space-line f)
    ∙ split_lines-lined ls z hl
    ∙ ap (λ ms. ls ++ ms) (split_lines-line z hz)
