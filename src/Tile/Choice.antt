-- ===== src/Tile/Choice.antt =====
-- tile/tile.go: the choice that `best` makes.
use Prim.Native.Nat.{◌≤◌}
use pktc.Common.{
  ◌≡◌, refl, ap, sym, subst, ◌⊎◌, inl, inr, true, false, List, [], ◌∷◌, All, length, arith,
  Bool-cases, if_intro, if◌then◌else◌,
}
use pktc.Common.Int.{ℤ, pos, negsuc, ◌<ℤ◌}
use pktc.Tile.{Tile, displaces, best}

-- membership, with the place where
abbrev pub Among : {A : Type 0} → A → List A → Type 0
Among a [] = ⊥
Among a (b ∷ bs) = (a ≡ b) ⊎ Among a bs

-- `u` is no better choice than `t`: it is not longer, and not of lower priority at the same length.
pub record NoBetter (t u : Tile) : Type 0 where
  pub shorter : length u.pattern ≤ length t.pattern
  pub later : length u.pattern ≡ length t.pattern → (u.priority <ℤ t.priority) ≡ false

displaces-NoBetter : (t u : Tile) → displaces u t ≡ false → NoBetter t u
unfolding displaces
displaces-NoBetter t u h = record { shorter = ground arith; later = λ e. ground arith }

displaces_self : (t : Tile) → displaces t t ≡ false
unfolding displaces
displaces_self t = ground arith

displaces_trans :
    (t u v : Tile) → displaces t u ≡ false → displaces v u ≡ true → displaces t v ≡ false
unfolding displaces
displaces_trans t u v h k = ground arith

-- the choice of one round of `best`
better-keeps :
    (pick t u : Tile)
    → displaces u pick ≡ false
    → displaces u (if displaces t pick then t else pick) ≡ false
better-keeps pick t u h = elim (Bool-cases (displaces t pick)) [
  | inl over ↦ rw over (displaces_trans u pick t h over)
  | inr under ↦ rw under h
]

better-takes : (pick t : Tile) → displaces t (if displaces t pick then t else pick) ≡ false
better-takes pick t = elim (Bool-cases (displaces t pick)) [
  | inl over ↦ rw over (displaces_self t)
  | inr under ↦ rw under under
]

best-keeps :
    (pick u : Tile) (ts : List Tile) → displaces u pick ≡ false → displaces u (best pick ts) ≡ false
unfolding best
best-keeps pick u [] h = h
best-keeps pick u (t ∷ ts) h =
    best-keeps (if displaces t pick then t else pick) u ts (better-keeps pick t u h)

best-NoBetter_lem : (pick : Tile) (ts : List Tile) → All (λ t. NoBetter (best pick ts) t) ts
unfolding best
best-NoBetter_lem pick [] = tt
best-NoBetter_lem pick (t ∷ ts) =
    let next = if displaces t pick then t else pick in
    (
      displaces-NoBetter (best next ts) t (best-keeps next t ts (better-takes pick t)),
      best-NoBetter_lem next ts,
    )

best-Among : (pick : Tile) (ts : List Tile) → Among (best pick ts) (pick ∷ ts)
unfolding best
best-Among pick [] = inl refl
best-Among pick (t ∷ ts) =
    if_intro (λ x. Among (best x ts) (pick ∷ t ∷ ts)) (displaces t pick)
      (λ _. inr (best-Among t ts)) (λ _. skip (best-Among pick ts))
  where
    skip : {b : Tile} → Among b (pick ∷ ts) → Among b (pick ∷ t ∷ ts)
    skip (inl here) = inl here
    skip (inr later) = inr (inr later)

-- Among any candidates `best` picks one of them, and no candidate is longer, nor of lower priority
-- at the same length.
pub best-NoBetter :
    (pick : Tile) (ts : List Tile)
    → Among (best pick ts) (pick ∷ ts) × All (NoBetter (best pick ts)) (pick ∷ ts)
best-NoBetter pick ts = (
  best-Among pick ts,
  (
    displaces-NoBetter (best pick ts) pick (best-keeps pick pick ts (displaces_self pick)),
    best-NoBetter_lem pick ts,
  ),
)

ℤ-eq_of_not_lt : (a b : ℤ) → (a <ℤ b) ≡ false → (b <ℤ a) ≡ false → a ≡ b
ℤ-eq_of_not_lt (pos m) (pos n) h k = ap pos (ground arith)
ℤ-eq_of_not_lt (pos m) (negsuc n) h k = absurd (ground arith)
ℤ-eq_of_not_lt (negsuc m) (pos n) h k = absurd (ground arith)
ℤ-eq_of_not_lt (negsuc m) (negsuc n) h k = ap negsuc (ground arith)

-- Two tiles of which neither is better are alike in length and priority.
pub NoBetter-antisymm :
    (t u : Tile)
    → NoBetter t u
    → NoBetter u t
    → (length t.pattern ≡ length u.pattern) × (t.priority ≡ u.priority)
NoBetter-antisymm t u a b =
    let same : length t.pattern ≡ length u.pattern =
      (let x = a.shorter in let y = b.shorter in omega arith) in
    (same, ℤ-eq_of_not_lt t.priority u.priority (b.later same) (a.later (sym same)))

pub All-Among : {A : Type 0} (P : A → Type 0) (a : A) (bs : List A) → All P bs → Among a bs → P a
All-Among P a [] h m = absurd m
All-Among P a (b ∷ bs) (p, h) (inl here) = subst P (sym here) p
All-Among P a (b ∷ bs) (p, h) (inr later) = All-Among P a bs h later
