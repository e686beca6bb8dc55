-- ===== src/Mirror/Others.antt =====
-- mirror/mirror.go: the properties that are no ends.
use pktc.Common.{
  ◌≡◌, refl, ap, false, Text, bytes, text_eq, text_eq_iff, Option, none, some, List, [], ◌∷◌,
  Bool-cases, inl, inr,
}
use pktc.Sexp.Value.{Value}
use pktc.Ast.{Prop, find_prop}
use pktc.Mirror.{put_ends, swap_endpoints, turned, turn_layer}
use pktc.Mirror.Twice.{put_end, put_end-key}

-- a property that is no end
put_end_other :
    (x y : Value) (p : Prop)
    → text_eq p.key (bytes "src") ≡ false
    → text_eq p.key (bytes "dst") ≡ false
    → put_end x y p ≡ p
put_end_other x y p s d = rw (s, d) refl

put_ends_other :
    (k : Text) (x y : Value) (ps : List Prop)
    → text_eq k (bytes "src") ≡ false
    → text_eq k (bytes "dst") ≡ false
    → find_prop k (put_ends x y ps) ≡ find_prop k ps
unfolding put_ends find_prop
put_ends_other k x y [] s d = refl
put_ends_other k x y (p ∷ ps) s d = elim (Bool-cases (text_eq p.key k)) [
  | inl here ↦
      let same = (text_eq_iff p.key k).0 here in
      rw (put_end-key x y p, here) (ap some (put_end_other x y p (rw same s) (rw same d)))
  | inr later ↦ rw (put_end-key x y p, later) (put_ends_other k x y ps s d)
]

turned_other :
    (k name : Text) (ps : List Prop) (found_src found_dst : Option Prop)
    → text_eq k (bytes "src") ≡ false
    → text_eq k (bytes "dst") ≡ false
    → find_prop k (turned name ps found_src found_dst).0 ≡ find_prop k ps
unfolding turned swap_endpoints
turned_other k name ps (some p) (some q) s d = put_ends_other k _ _ ps s d
turned_other k name ps (some p) none s d = refl
turned_other k name ps none (some q) s d = refl
turned_other k name ps none none s d = refl

-- A look-up of any other key, such as a VNI, a GRE key or an SPI, finds on a turned layer what it
-- found before, its value and its position included.
pub turn_layer_other :
    (k name : Text) (ps : List Prop)
    → text_eq k (bytes "src") ≡ false
    → text_eq k (bytes "dst") ≡ false
    → find_prop k (turn_layer name ps).0 ≡ find_prop k ps
unfolding turn_layer
turn_layer_other k name ps s d = turned_other k name ps _ _ s d
