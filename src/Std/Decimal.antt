-- ===== src/Std/Decimal.antt =====
-- strconv: `FormatUint` against `ParseUint`.
use pktc.Common.{
  ℕ, zero, suc, ◌+◌, ◌*◌, ◌/◌, ◌%◌, ◌^◌, ◌<◌, ◌≤◌, ◌≡◌, ◌≢◌, refl, ap, sym, ◌∙◌, true, ltb, Text,
  some, [], ◌∷◌, ◌++◌, append_assoc, arith, Bool-cases, inl, inr, ltb→lt, lt→ltb, ltb-false→le,
  if_intro, append-ne-nil, append-nil, is_digit, All, All-append, length, length-append,
}
use native.Mathlib.Nat.{pow-suc, pow-le-pow_right}
use pktc.Std.Strconv.{digits, format_uint, digit_value, parse_loop, parse_uint}

digit_value-digit : (d : ℕ) → d < 10 → digit_value (b'0' + d) ≡ d
unfolding digit_value
digit_value-digit d h = ground arith

parse_loop-digit :
    (bits d : ℕ) (s : Text) (n : ℕ)
    → d < 10
    → n * 10 + d < 2 ^ bits
    → parse_loop 10 bits ((b'0' + d) ∷ s) n ≡ parse_loop 10 bits s (n * 10 + d)
unfolding parse_loop
parse_loop-digit bits d s n h fits = rw (digit_value-digit d h) (ground arith)

-- Digits in front of `s` are read before it.
parse_loop-digits :
    (bits f n : ℕ) (s : Text)
    → n < f
    → n < 2 ^ bits
    → parse_loop 10 bits (digits f n ++ s) 0 ≡ parse_loop 10 bits s n
unfolding digits
parse_loop-digits bits zero n s h fits = absurd (omega arith)
parse_loop-digits bits (suc f) n s h fits = elim (Bool-cases (ltb n 10)) [
  | inl small ↦ rw small (
      parse_loop-digit bits n s 0 (ltb→lt n 10 small) (omega arith)
      ∙ ap (parse_loop 10 bits s) (omega arith))
  | inr large ↦ rw large (
      ap (λ t. parse_loop 10 bits t 0) (append_assoc (digits f (n / 10)) ((b'0' + n % 10) ∷ []) s)
      ∙ parse_loop-digits bits f (n / 10) ((b'0' + n % 10) ∷ s)
          (omega (arith, ltb-false→le n 10 large)) (omega arith)
      ∙ parse_loop-digit bits (n % 10) s (n / 10) (omega arith) (omega arith)
      ∙ ap (parse_loop 10 bits s) (omega arith))
]

digits-ne-nil : (f n : ℕ) → n < f → digits f n ≢ []
unfolding digits
digits-ne-nil zero n h = absurd (omega arith)
digits-ne-nil (suc f) n h =
    if_intro (λ (t : Text). t ≢ []) (ltb n 10) (λ _. cc)
      (λ _. append-ne-nil (digits f (n / 10)) (b'0' + n % 10) [])

parse_uint-eq_loop :
    (t : Text) (base bits : ℕ) → t ≢ [] → parse_uint t base bits ≡ parse_loop base bits t 0
unfolding parse_uint
parse_uint-eq_loop [] base bits ne = absurd (ne refl)
parse_uint-eq_loop (c ∷ t) base bits ne = refl

pub parse_uint-format_uint :
    (bits n : ℕ) → n < 2 ^ bits → parse_uint (format_uint n) 10 bits ≡ some n
unfolding format_uint
parse_uint-format_uint bits n fits =
    parse_uint-eq_loop (digits (suc n) n) 10 bits (digits-ne-nil (suc n) n (omega arith))
    ∙ ap (λ t. parse_loop 10 bits t 0) (sym (append-nil (digits (suc n) n)))
    ∙ parse_loop-digits bits (suc n) n [] (omega arith) fits
    ∙ unfold parse_loop in refl

lt-two-pow : (n : ℕ) → n < 2 ^ n
lt-two-pow zero = omega arith
lt-two-pow (suc n) = omega (arith, lt-two-pow n, pow-suc 2 n)

lt-two-pow_of_le : (n k : ℕ) → n ≤ k → n < 2 ^ k
lt-two-pow_of_le n k h =
    omega (arith, lt-two-pow n, pow-le-pow_right {n = 2} (omega arith) {i = n} {j = k} h)

-- Two numbers are not written alike.
pub format_uint-injective : (m n : ℕ) → format_uint m ≡ format_uint n → m ≡ n
format_uint-injective m n e = cc (
  parse_uint-format_uint (m + n) m (lt-two-pow_of_le m (m + n) (omega arith)),
  parse_uint-format_uint (m + n) n (lt-two-pow_of_le n (m + n) (omega arith)),
  e,
)

-- A number below `10 ^ k` takes `k` digits at most.
length-digits : (k f n : ℕ) → n < 10 ^ suc k → length (digits f n) ≤ suc k
unfolding digits
length-digits k zero n h = omega arith
length-digits zero (suc f) n h = rw (lt→ltb n 10 h) (omega arith)
length-digits (suc k) (suc f) n h =
    if_intro (λ (t : Text). length t ≤ suc (suc k)) (ltb n 10) (λ _. omega arith)
      (λ _. omega (
        arith,
        length-append (digits f (n / 10)) ((b'0' + n % 10) ∷ []),
        length-digits k f (n / 10) (omega (arith, h, pow-suc 10 (suc k))),
      ))

digits-digits : (f n : ℕ) → All (λ c. is_digit c ≡ true) (digits f n)
unfolding digits
digits-digits zero n = tt
digits-digits (suc f) n =
    if_intro (All (λ c. is_digit c ≡ true)) (ltb n 10) (λ small. (ground arith, tt))
      (λ _. All-append _ (digits f (n / 10)) _ (digits-digits f (n / 10)) (ground arith, tt))

pub format_uint-digits : (n : ℕ) → All (λ c. is_digit c ≡ true) (format_uint n)
unfolding format_uint
format_uint-digits n = digits-digits (suc n) n

pub length-format_uint : (k n : ℕ) → n < 10 ^ suc k → length (format_uint n) ≤ suc k
unfolding format_uint
length-format_uint k n h = length-digits k (suc n) n h

pub format_uint-ne-nil : (n : ℕ) → format_uint n ≢ []
unfolding format_uint
format_uint-ne-nil n = digits-ne-nil (suc n) n (omega arith)
