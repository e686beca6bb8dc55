-- ===== src/Mirror/Twice.antt =====
-- Exchanging the ends of a layer twice.
use pktc.Common.{
  ◌≡◌, refl, ap, sym, ◌∙◌, subst, true, false, Text, bytes, text_eq, text_eq_iff, none, some, List,
  [], ◌∷◌, All, Bool-cases, inl, inr, if◌then◌else◌,
}
use pktc.Diag.{Pos}
use pktc.Sexp.Value.{Value}
use pktc.Ast.{Prop, find_prop}
use pktc.Ast.Distinct.{Distinct, find_prop-head}
use pktc.Mirror.{put_ends, mirrored_src, mirrored_dst, swap_endpoints, turned, turn_layer}
use pktc.Mirror.Ends.{IsBare, end_value, mirrored_ends}

src_ne_dst : text_eq (bytes "src") (bytes "dst") ≡ false
unfolding bytes text_eq
src_ne_dst = refl

dst_ne_src : text_eq (bytes "dst") (bytes "src") ≡ false
unfolding bytes text_eq
dst_ne_src = refl

-- a property named `dst` is none named `src`
other_key : (k : Text) → text_eq k (bytes "dst") ≡ true → text_eq k (bytes "src") ≡ false
other_key k h = rw ((text_eq_iff k (bytes "dst")).0 h) dst_ne_src

-- what one property becomes
abbrev pub put_end : Value → Value → Prop → Prop
put_end x y p =
    if text_eq p.key (bytes "src")
    then record p { val = x }
    else if text_eq p.key (bytes "dst")
    then record p { val = y }
    else p

pub put_end-key : (x y : Value) (p : Prop) → (put_end x y p).key ≡ p.key
put_end-key x y p = elim (Bool-cases (text_eq p.key (bytes "src"))) [
  | inl s ↦ rw s refl
  | inr s ↦ elim (Bool-cases (text_eq p.key (bytes "dst"))) [
    | inl d ↦ rw (s, d) refl
    | inr d ↦ rw (s, d) refl
  ]
]

put_end-twice : (x y x' y' : Value) (p : Prop) → put_end x' y' (put_end x y p) ≡ put_end x' y' p
put_end-twice x y x' y' p = elim (Bool-cases (text_eq p.key (bytes "src"))) [
  | inl s ↦ rw (s, s) refl
  | inr s ↦ elim (Bool-cases (text_eq p.key (bytes "dst"))) [
    | inl d ↦ rw (s, d, s, d) refl
    | inr d ↦ rw (s, d, s, d) refl
  ]
]

put_ends-twice :
    (x y x' y' : Value) (ps : List Prop) → put_ends x' y' (put_ends x y ps) ≡ put_ends x' y' ps
unfolding put_ends
put_ends-twice x y x' y' [] = refl
put_ends-twice x y x' y' (p ∷ ps) =
    ap (λ q. q ∷ put_ends x' y' (put_ends x y ps)) (put_end-twice x y x' y' p)
    ∙ ap (λ qs. put_end x' y' p ∷ qs) (put_ends-twice x y x' y' ps)

-- a key is found where it was, with the new value
pub find_prop-put_ends :
    (k : Text) (x y : Value) (p : Prop) (ps : List Prop)
    → find_prop k ps ≡ some p
    → find_prop k (put_ends x y ps) ≡ some (put_end x y p)
unfolding find_prop put_ends
find_prop-put_ends k x y p [] h = cc
find_prop-put_ends k x y p (q ∷ ps) h = elim (Bool-cases (text_eq q.key k)) [
  | inl here ↦
      let same : q ≡ p = some-injective (rw here at h) in
      rw (put_end-key x y q, here) (ap (λ r. some (put_end x y r)) same)
  | inr later ↦ rw (put_end-key x y q, later) (find_prop-put_ends k x y p ps (rw later at h))
]
  where
    some-injective : {a b : Prop} → some a ≡ some b → a ≡ b
    some-injective e = cc

pub find_prop-key :
    (k : Text) (p : Prop) (ps : List Prop) → find_prop k ps ≡ some p → text_eq p.key k ≡ true
unfolding find_prop
find_prop-key k p [] h = cc
find_prop-key k p (q ∷ ps) h = elim (Bool-cases (text_eq q.key k)) [
  | inl here ↦ let e : some q ≡ some p = rw here at h in cc (here, e)
  | inr later ↦ find_prop-key k p ps (rw later at h)
]

-- every property of the key has the value
abbrev Valued : Text → Value → List Prop → Type 0
Valued k v ps = All (λ p. text_eq p.key k ≡ true → p.val ≡ v) ps

Valued-none : (k : Text) (v : Value) (ps : List Prop) → find_prop k ps ≡ none → Valued k v ps
Valued-none k v [] h = tt
Valued-none k v (q ∷ ps) h =
    let (other, later) = find_prop-head k q ps h in
    (λ same. cc (same, other), Valued-none k v ps later)

-- in a list of distinct keys the first is the only one
Valued-find :
    (k : Text) (p : Prop) (ps : List Prop)
    → Distinct ps
    → find_prop k ps ≡ some p
    → Valued k p.val ps
unfolding find_prop
Valued-find k p [] d h = tt
Valued-find k p (q ∷ ps) (first, d) h = elim (Bool-cases (text_eq q.key k)) [
  | inl here ↦
      let same : some q ≡ some p = rw here at h in
      (
        λ _. cc same,
        Valued-none k p.val ps
            (subst (λ j. find_prop j ps ≡ none) ((text_eq_iff q.key k).0 here) first),
      )
  | inr later ↦ (λ same. cc (same, later), Valued-find k p ps d (rw later at h))
]

put_ends-same :
    (x y : Value) (ps : List Prop)
    → Valued (bytes "src") x ps
    → Valued (bytes "dst") y ps
    → put_ends x y ps ≡ ps
unfolding put_ends
put_ends-same x y [] h k = refl
put_ends-same x y (p ∷ ps) (s, h) (d, k) =
    ap (λ qs. put_end x y p ∷ qs) (put_ends-same x y ps h k) ∙ ap (λ q. q ∷ ps) head
  where
    head : put_end x y p ≡ p
    head = elim (Bool-cases (text_eq p.key (bytes "src"))) [
      | inl is_src ↦ rw is_src (ap (λ v. record p { val = v }) (sym (s is_src)))
      | inr not_src ↦ elim (Bool-cases (text_eq p.key (bytes "dst"))) [
        | inl is_dst ↦ rw (not_src, is_dst) (ap (λ v. record p { val = v }) (sym (d is_dst)))
        | inr not_dst ↦ rw (not_src, not_dst) refl
      ]
    ]

pub turn_layer-both :
    (name : Text) (ps : List Prop) (s d : Prop)
    → find_prop (bytes "src") ps ≡ some s
    → find_prop (bytes "dst") ps ≡ some d
    → (turn_layer name ps).0 ≡ put_ends (mirrored_src s.val d.val) (mirrored_dst s.val d.val) ps
unfolding turn_layer turned swap_endpoints
turn_layer-both name ps s d hs hd = rw (hs, hd) refl

put_end-src :
    (x y : Value) (s : Prop) → text_eq s.key (bytes "src") ≡ true → (put_end x y s).val ≡ x
put_end-src x y s h = rw h refl

put_end-dst :
    (x y : Value) (d : Prop) → text_eq d.key (bytes "dst") ≡ true → (put_end x y d).val ≡ y
put_end-dst x y d h = rw (other_key d.key h, h) refl

-- the new ends, once the ends at hand are known
ends-cong :
    (s s' d d' x y : Value) (ps : List Prop)
    → s ≡ s'
    → d ≡ d'
    → mirrored_src s' d' ≡ x
    → mirrored_dst s' d' ≡ y
    → put_ends (mirrored_src s d) (mirrored_dst s d) ps ≡ put_ends x y ps
ends-cong s s' d d' x y ps es ed hx hy = rw (es, ed, hx, hy) refl

-- A layer of distinct keys whose two ends are written as strings, each an address with or without a
-- length, is itself again when its ends are exchanged twice.
pub turn_layer_twice :
    (name : Text) (ps : List Prop) (s d : Prop) (a m b n : Text) (p q : Pos)
    → Distinct ps
    → find_prop (bytes "src") ps ≡ some s
    → find_prop (bytes "dst") ps ≡ some d
    → s.val ≡ end_value a m p
    → d.val ≡ end_value b n q
    → IsBare a
    → IsBare b
    → (turn_layer name (turn_layer name ps).0).0 ≡ ps
turn_layer_twice name ps s d a m b n p q distinct hs hd es ed bare_a bare_b =
    let x = end_value b m q in
    let y = end_value a n p in
    let (there_src, there_dst) = mirrored_ends a m b n p q bare_a bare_b in
    let (back_src, back_dst) = mirrored_ends b m a n q p bare_b bare_a in
    let once : (turn_layer name ps).0 ≡ put_ends x y ps =
      turn_layer-both name ps s d hs hd
      ∙ ends-cong s.val (end_value a m p) d.val (end_value b n q) x y ps es ed there_src
          there_dst in
    let s' = put_end x y s in
    let d' = put_end x y d in
    let again =
      turn_layer-both name (put_ends x y ps) s' d' (find_prop-put_ends (bytes "src") x y s ps hs)
        (find_prop-put_ends (bytes "dst") x y d ps hd) in
    ap (λ qs. (turn_layer name qs).0) once
    ∙ again
    ∙ ends-cong s'.val x d'.val y s.val d.val (put_ends x y ps)
        (put_end-src x y s (find_prop-key (bytes "src") s ps hs))
        (put_end-dst x y d (find_prop-key (bytes "dst") d ps hd)) (back_src ∙ sym es)
        (back_dst ∙ sym ed)
    ∙ put_ends-twice x y s.val d.val ps
    ∙ put_ends-same s.val d.val ps (Valued-find (bytes "src") s ps distinct hs)
        (Valued-find (bytes "dst") d ps distinct hd)
