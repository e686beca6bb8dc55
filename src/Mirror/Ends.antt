-- ===== src/Mirror/Ends.antt =====
-- Exchanging the two ends of a layer.
use pktc.Common.{
  ◌==◌, not, ◌≡◌, refl, ap, sym, ◌∙◌, inl, inr, false, Text, text_eq, text_eq_iff, [], ◌∷◌, ◌++◌,
  All, Bool-cases, if◌then◌else◌,
}
use pktc.Diag.{Pos}
use pktc.Sexp.Kind.{k_string}
use pktc.Sexp.Value.{Value, atom}
use pktc.Mirror.{split_text, split_prefix, rebuild, mirrored_src, mirrored_dst}

-- An address, with a length behind a slash if there is one.
abbrev pub with_size : Text → Text → Text
with_size addr size = if not (text_eq size []) then addr ++ (b'/' ∷ size) else addr

-- an address that is there, without a slash in it
abbrev pub IsBare : Text → Type 0
IsBare addr = (text_eq addr [] ≡ false) × All (λ c. (c == b'/') ≡ false) addr

split_text-plain :
    (addr : Text) → All (λ c. (c == b'/') ≡ false) addr → split_text addr ≡ (addr, [])
unfolding split_text
split_text-plain [] a = refl
split_text-plain (c ∷ addr) (h, a) = rw (h, split_text-plain addr a) refl

split_text-slash :
    (addr size : Text)
    → All (λ c. (c == b'/') ≡ false) addr
    → split_text (addr ++ (b'/' ∷ size)) ≡ (addr, size)
unfolding split_text
split_text-slash [] size a = refl
split_text-slash (c ∷ addr) size (h, a) = rw (h, split_text-slash addr size a) refl

split_text-with_size :
    (addr size : Text) → IsBare addr → split_text (with_size addr size) ≡ (addr, size)
split_text-with_size addr size (_, a) = elim (Bool-cases (text_eq size [])) [
  | inl empty ↦
      rw empty (split_text-plain addr a ∙ ap (λ s. (addr, s)) (sym ((text_eq_iff size []).0 empty)))
  | inr there ↦ rw there (split_text-slash addr size a)
]

abbrev pub end_value : Text → Text → Pos → Value
end_value addr size p = atom k_string (with_size addr size) p

module _ (a m b n : Text) (p q : Pos) (bare_a : IsBare a) (bare_b : IsBare b) where
  pub mirrored_ends :
      (mirrored_src (end_value a m p) (end_value b n q) ≡ end_value b m q)
      × (mirrored_dst (end_value a m p) (end_value b n q) ≡ end_value a n p)
  unfolding mirrored_src mirrored_dst split_prefix rebuild
  mirrored_ends =
      rw (split_text-with_size a m bare_a, split_text-with_size b n bare_b, bare_a.0, bare_b.0)
        (refl, refl)
