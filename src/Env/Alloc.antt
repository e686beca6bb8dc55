-- ===== src/Env/Alloc.antt =====
-- env/env.go: `Alloc` and `Claim`.
use pktc.Common.{
  ℕ, zero, suc, ◌<◌, ◌≡◌, refl, true, false, Text, List, [], ◌∷◌, ◌++◌, length, arith, ◌==◌, ==_iff,
  Bool-cases, inl, inr,
}
use pktc.Diag.{Returns, returns, fails, Returns-bind, Returns-if, Returns-map}
use pktc.Std.Strconv.{format_uint}
use pktc.Std.Decimal.{format_uint-injective}
use pktc.Env.{Env, is_used, claim, get_count, set_count, numbered, alloc_loop, alloc}
use pktc.Env.Names.{IsName, valid_name-Returns, remove, length-remove, is_used-remove}

append_cancel_left : (s t u : Text) → s ++ t ≡ s ++ u → t ≡ u
append_cancel_left [] t u e = e
append_cancel_left (c ∷ s) t u e = append_cancel_left s t u (cc)

numbered-injective : (prefix : Text) (m n : ℕ) → numbered prefix m ≡ numbered prefix n → m ≡ n
unfolding numbered
numbered-injective prefix m n e =
    format_uint-injective m n (append_cancel_left prefix (format_uint m) (format_uint n) e)

-- A name was given out: it is valid and was free, and it is now in use; the rest of the state, but
-- for the counters, is as it was.
pub record Given (e : Env) (name : Text) (e' : Env) : Type 0 where
  pub valid : IsName name
  pub free : is_used name e.used ≡ false
  pub used : e'.used ≡ name ∷ e.used
  pub root : e'.root ≡ e.root
  pub dev : e'.dev ≡ e.dev
  pub created : e'.created ≡ e.created
  pub key_dir : e'.key_dir ≡ e.key_dir

-- `Claim` returns, and gives out exactly the name asked for, if it is valid and free.
pub claim-Given :
    (name : Text) (e : Env) → Returns (λ (n, e'). (n ≡ name) × Given e n e') (claim name e)
unfolding claim
claim-Given name e = Returns-bind (valid_name-Returns name) λ _ v.
    Returns-if (is_used name e.used) (λ _. fails _)
      λ free. returns (
        refl,
        record {
          valid = v;
          free = free;
          used = refl;
          root = refl;
          dev = refl;
          created = refl;
          key_dir = refl;
        },
      )

-- the number that `Alloc` settles on, past `n`: all numbers between are in use
pub record First (prefix : Text) (e : Env) (n : ℕ) (name : Text) (e' : Env) : Type 0 where
  pub number : ℕ
  pub named : name ≡ numbered prefix number
  pub past : n < number
  pub skipped : (k : ℕ) → n < k → k < number → is_used (numbered prefix k) e.used ≡ true
  pub counted : e'.count ≡ set_count prefix number e.count
  pub given : Given e name e'

module _ (prefix : Text) (e : Env) where
  -- one number more was passed over
  First-down :
      {n : ℕ} {name : Text} {e' : Env}
      → is_used (numbered prefix (suc n)) e.used ≡ true
      → First prefix e (suc n) name e'
      → First prefix e n name e'
  First-down {n} busy first = record {
    number = first.number;
    named = first.named;
    past = let past = first.past in omega arith;
    skipped = λ k a b. elim (Bool-cases (k == suc n)) [
      | inl here ↦ rw ((==_iff k (suc n)).0 here) busy
      | inr later ↦ first.skipped k (ground arith) b
    ];
    counted = first.counted;
    given = first.given;
  }

  -- The names past `n` that are in use are among `left`: each round takes one away.
  alloc_loop-First :
      (f n : ℕ) (left : List Text)
      → length left < f
      → ((m : ℕ)
          → n < m
          → is_used (numbered prefix m) e.used ≡ true
          → is_used (numbered prefix m) left ≡ true)
      → Returns (λ (name, e'). First prefix e n name e') (alloc_loop f prefix n e)
  unfolding alloc_loop
  alloc_loop-First zero n left h among = absurd (omega arith)
  alloc_loop-First (suc f) n left h among =
      Returns-bind (valid_name-Returns (numbered prefix (suc n))) λ _ v.
        Returns-if (is_used (numbered prefix (suc n)) e.used)
          (λ busy.
            Returns-map
              (alloc_loop-First f (suc n) (remove (numbered prefix (suc n)) left)
                (omega (
                  arith,
                  length-remove (numbered prefix (suc n)) left (among (suc n) (omega arith) busy),
                ))
                (λ m past m_used.
                  is_used-remove (numbered prefix m) (numbered prefix (suc n)) left
                    (among m (omega arith) m_used)
                    (λ same. absurd (omega (arith, numbered-injective prefix (suc n) m same)))))
              λ (name, e') first. First-down busy first)
          (λ free. returns (record {
            number = suc n;
            named = refl;
            past = omega arith;
            skipped = λ k a b. absurd (omega arith);
            counted = refl;
            given = record {
              valid = v;
              free = free;
              used = refl;
              root = refl;
              dev = refl;
              created = refl;
              key_dir = refl;
            };
          }))

pub alloc-First :
    (prefix : Text) (e : Env)
    → Returns (λ (name, e'). First prefix e (get_count prefix e.count) name e') (alloc prefix e)
unfolding alloc
alloc-First prefix e =
    alloc_loop-First prefix e (suc (length e.used)) (get_count prefix e.count) e.used (omega arith)
      (λ m _ busy. busy)
