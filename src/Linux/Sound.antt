-- ===== src/Linux/Sound.antt =====
-- What holds of the environment behind any sequence of lowerings.
use pktc.Common.{
  ◌≡◌, refl, ap, sym, true, false, Text, List, [], ◌∷◌, ◌++◌, All, All-append, text_eq, text_eq_iff,
  Bool-cases, inl, inr, arith,
}
use pktc.Env.{Env, is_used, new}
use pktc.Env.Names.{IsName}
use pktc.Linux.Grown.{Grown}

-- No two names of the list are the same.
abbrev pub Unique : List Text → Type 0
Unique [] = Unit
Unique (n ∷ ns) = (is_used n ns ≡ false) × Unique ns

-- The devices made have valid and pairwise different names, none of them the root's, and the root's
-- and theirs are in use.
pub record Sound (e : Env) : Type 0 where
  pub valid : All IsName e.created
  pub in_use : All (λ n. is_used n e.used ≡ true) e.created
  pub distinct : Unique e.created
  pub root_used : is_used e.root e.used ≡ true
  pub root_apart : is_used e.root e.created ≡ false

is_used-append :
    (n : Text) (ns : List Text) (d : Text)
    → is_used n ns ≡ false
    → text_eq d n ≡ false
    → is_used n (ns ++ d ∷ []) ≡ false
is_used-append n [] d h e = rw e
is_used-append n (m ∷ ns) d h e = ground (arith, is_used-append n ns d)

text_eq_flip : (s t : Text) → text_eq s t ≡ false → text_eq t s ≡ false
text_eq_flip s t h = elim (Bool-cases (text_eq t s)) [
  | inl same ↦ cc ((text_eq_iff s t).1 (sym ((text_eq_iff t s).0 same)))
  | inr other ↦ other
]

Unique-snoc : (ns : List Text) (d : Text) → Unique ns → is_used d ns ≡ false → Unique (ns ++ d ∷ [])
Unique-snoc [] d u h = (refl, tt)
Unique-snoc (n ∷ ns) d (new, u) h =
    (is_used-append n ns d new (text_eq_flip n d (ground arith)), Unique-snoc ns d u (ground arith))

-- a free name is none of the names in use
free-ne :
    (d n : Text) (used : List Text)
    → is_used d used ≡ false
    → is_used n used ≡ true
    → text_eq n d ≡ false
free-ne d n used free busy = elim (Bool-cases (text_eq n d)) [
  | inl same ↦ cc (ap (λ m. is_used m used) ((text_eq_iff n d).0 same))
  | inr other ↦ other
]

free-new :
    (d : Text) (used ns : List Text)
    → is_used d used ≡ false
    → All (λ n. is_used n used ≡ true) ns
    → is_used d ns ≡ false
free-new d used [] free a = refl
free-new d used (n ∷ ns) free (busy, a) = rw (free-ne d n used free busy, free-new d used ns free a)

is_used-more : (n d : Text) (used : List Text) → is_used n used ≡ true → is_used n (d ∷ used) ≡ true
is_used-more n d used h = ground arith

is_used-head : (d : Text) (used : List Text) → is_used d (d ∷ used) ≡ true
is_used-head d used = rw ((text_eq_iff d d).1 refl)

All-more :
    (d : Text) (used ns : List Text)
    → All (λ n. is_used n used ≡ true) ns
    → All (λ n. is_used n (d ∷ used) ≡ true) ns
All-more d used [] a = tt
All-more d used (n ∷ ns) (h, a) = (is_used-more n d used h, All-more d used ns a)

-- Making one more device keeps it.
pub Grown-Sound : {e e' : Env} → Grown e e' → Sound e → Sound e'
Grown-Sound {e} {e'} g s =
    let d = g.device in
    record {
      valid = rw g.created (All-append IsName e.created (d ∷ []) s.valid (g.valid, tt));
      in_use =
          rw (g.created, g.used)
            (All-append (λ n. is_used n (d ∷ e.used) ≡ true) e.created (d ∷ [])
              (All-more d e.used e.created s.in_use) (is_used-head d e.used, tt));
      distinct =
          rw g.created
            (Unique-snoc e.created d s.distinct (free-new d e.used e.created g.free s.in_use));
      root_used = rw (g.root, g.used) (is_used-more e.root d e.used s.root_used);
      root_apart =
          rw (g.root, g.created)
            (is_used-append e.root e.created d s.root_apart
              (text_eq_flip e.root d (free-ne d e.root e.used g.free s.root_used)));
    }

-- It holds of a new environment.
pub new-Sound : (root : Text) → Sound (new root)
unfolding new
new-Sound root = record {
  valid = tt;
  in_use = tt;
  distinct = tt;
  root_used = is_used-head root [];
  root_apart = refl;
}
