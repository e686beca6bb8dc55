-- ===== src/Env/Names.antt =====
-- Which names are valid, and the set of the names in use.
use pktc.Common.{
  ◌<◌, ◌≤◌, ◌≡◌, ◌≢◌, true, false, Text, List, [], ◌∷◌, length, any, ltb, text_eq, text_eq_iff,
  arith, Bool-cases, inl, inr, if◌then◌else◌,
}
use pktc.Diag.{ok, Returns, returns, fails, Returns-if}
use pktc.Env.{is_used, is_illegal, valid_name, max_if_name}

-- What the kernel takes as an interface name.
pub record IsName (name : Text) : Type 0 where
  pub nonempty : name ≢ []
  pub fits : length name ≤ 15
  pub legal : any is_illegal name ≡ false

pub valid_name-Returns : (name : Text) → Returns (λ (u : Unit {0}). IsName name) (valid_name name)
unfolding valid_name
valid_name-Returns name =
    Returns-if (text_eq name []) (λ _. fails _)
      λ full.
        Returns-if (ltb max_if_name (length name)) (λ _. fails _)
          λ short.
            Returns-if (any is_illegal name) (λ _. fails _)
              λ plain. returns (record {
                nonempty = λ e. cc ((text_eq_iff name []).1 e);
                fits = ground arith;
                legal = plain;
              })

pub IsName-valid_name : (name : Text) → IsName name → valid_name name ≡ ok tt
unfolding valid_name
IsName-valid_name name v = rw (empty_test, size_test, v.legal)
  where
    empty_test : text_eq name [] ≡ false
    empty_test = elim (Bool-cases (text_eq name [])) [
      | inl e ↦ absurd (v.nonempty ((text_eq_iff name []).0 e))
      | inr e ↦ e
    ]

    size_test : ltb max_if_name (length name) ≡ false
    size_test = let fits = v.fits in ground arith

-- The list without the first occurrence of a name.
pub remove : Text → List Text → List Text
remove name [] = []
remove name (u ∷ us) = if text_eq u name then us else u ∷ remove name us

pub length-remove :
    (name : Text) (us : List Text) → is_used name us ≡ true → length (remove name us) < length us
unfolding remove
length-remove name [] h = cc
length-remove name (u ∷ us) h = ground (arith, length-remove name us)

pub is_used-remove :
    (k name : Text) (us : List Text)
    → is_used k us ≡ true
    → name ≢ k
    → is_used k (remove name us) ≡ true
unfolding remove
is_used-remove k name [] h ne = cc
is_used-remove k name (u ∷ us) h ne =
    ground (arith, is_used-remove k name us, text_eq_iff u name, text_eq_iff u k)
