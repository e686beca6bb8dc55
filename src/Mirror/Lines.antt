-- ===== src/Mirror/Lines.antt =====
-- mirror/mirror.go: the notes of `Peer`, each a text of one line.
use pktc.Common.{
  ℕ, refl, sym, subst, Bool, not, if_intro, Text, bytes, text_eq, contains_byte, Option, none, some,
  List, [], ◌∷◌, ◌++◌, All, All-append,
}
use pktc.Diag.{Pos, Returns, returns, fails, Returns-bind, Returns-if}
use pktc.Std.Trim.{OneLine, OneLine-append}
use pktc.Std.Quote.{quoted}
use pktc.Std.OneLine.{quoted-OneLine}
use pktc.Ast.{Prop, Node, Nodes, node, none_below, child, name_of, lookup}
use pktc.Spine.{names}
use pktc.Tile.{is_nil}
use pktc.Mirror.{
  Note, exchanged, same_at_both, key_material, peer_name, inner_set, inner_missing, Mirrored,
  turned, turn, turn_below, turn_layer, layers_of, layers_below,
}
use pktc.Mirror.Far.{
  shared_key, shared_notes, peer_note, key_notes, settle, is_addressed, settled, only_child,
  settle_innermost, settle_below, with_inner, mirror_turned, mirror_packet, mirror_tree, peer,
  clone_lem,
}
use pktc.Mirror.Notes.{note_string, on_form}
use pktc.Mirror.Peer.{turn-SameNames, check_inner-Returning}

-- what a note takes from the tree and from the flags is on one line, but for the name of a peer
abbrev pub NoteFits : Note → Type 0
NoteFits (exchanged name) = OneLine name
NoteFits (same_at_both key name) = OneLine key × OneLine name
NoteFits (key_material name) = OneLine name
NoteFits (peer_name text) = Unit
NoteFits (inner_set name address) = OneLine name × OneLine address
NoteFits (inner_missing name) = OneLine name

on_form-OneLine : (name rest : Text) → OneLine name → OneLine rest → OneLine (on_form name rest)
unfolding on_form bytes contains_byte
on_form-OneLine name rest hn hr = OneLine-append name _ hn hr

-- The text of a note is on one line, whatever the name of the peer holds.
pub note_string-OneLine :
    (printable : ℕ → Bool) (n : Note) → NoteFits n → OneLine (note_string printable n)
unfolding note_string bytes contains_byte
note_string-OneLine printable (exchanged name) h = on_form-OneLine name [] h refl
note_string-OneLine printable (same_at_both key name) (hk, h) =
    OneLine-append key _ hk (on_form-OneLine name _ h refl)
note_string-OneLine printable (key_material name) h = on_form-OneLine name _ h refl
note_string-OneLine printable (peer_name text) h =
    OneLine-append (quoted printable text)
      (bytes " names this end's view of the far end; the far end needs a name for this one")
      (quoted-OneLine printable text) refl
note_string-OneLine printable (inner_set name address) (h, ha) = on_form-OneLine name _ h ha
note_string-OneLine printable (inner_missing name) h = on_form-OneLine name _ h refl

abbrev pub NamesFit : Node → Type 0
NamesFit n = All OneLine (names (layers_of n))

abbrev pub NamesFitBelow : Nodes → Type 0
NamesFitBelow ns = All OneLine (names (layers_below ns))

turned-Fits :
    (name : Text) (ps : List Prop) (s d : Option Prop)
    → OneLine name
    → All NoteFits (turned name ps s d).1
unfolding turned
turned-Fits name ps (some s) (some d) h = (h, tt)
turned-Fits name ps none d h = tt
turned-Fits name ps (some s) none h = tt

mutual
  unfolding turn layers_of names turn_layer

  turn-Fits : (n : Node) → NamesFit n → All NoteFits (turn n).1
  turn-Fits (node name ps kids pos) (h, more) =
      All-append NoteFits (turn_layer name ps).1 (turn_below kids).1 (turned-Fits name ps _ _ h)
        (turn_below-Fits kids more)

  turn_below-Fits : (ns : Nodes) → NamesFitBelow ns → All NoteFits (turn_below ns).1
  turn_below-Fits none_below h = tt
  turn_below-Fits (child n none_below) h = turn-Fits n h
  turn_below-Fits (child n (child m ns)) h = tt

shared_key-Fits :
    (n : Node) (key : Text) → OneLine key → OneLine (name_of n) → All NoteFits (shared_key n key)
shared_key-Fits n key hk h =
    if_intro (All NoteFits) (not (is_nil (lookup n key))) (λ _. ((hk, h), tt)) (λ _. tt)

shared_notes-Fits : (ns : List Node) → All OneLine (names ns) → All NoteFits (shared_notes ns)
unfolding shared_notes names bytes contains_byte
shared_notes-Fits [] h = tt
shared_notes-Fits (n ∷ ns) (h, more) =
    All-append NoteFits _ _ (shared_key-Fits n (bytes "vni") refl h) (
      All-append NoteFits _ _ (shared_key-Fits n (bytes "key") refl h) (
        All-append NoteFits _ _ (shared_key-Fits n (bytes "spi") refl h)
          (shared_notes-Fits ns more)))

peer_note-Fits : (o : Option Prop) → All NoteFits (peer_note o)
peer_note-Fits none = tt
peer_note-Fits (some p) = (tt, tt)

key_notes-Fits : (ns : List Node) → All OneLine (names ns) → All NoteFits (key_notes ns)
unfolding key_notes names
key_notes-Fits [] h = tt
key_notes-Fits (n ∷ ns) (h, more) =
    All-append NoteFits _ _
      (if_intro (All NoteFits) (text_eq (name_of n) (bytes "wireguard"))
        (λ _. (h, peer_note-Fits (lookup n (bytes "peer")))) (λ _. tt))
      (key_notes-Fits ns more)

-- the notes on the innermost address
abbrev SettledFits : {A : Type 0} → Option (A × List Note × List Note) → Type 0
SettledFits none = Unit
SettledFits (some (t, more, lost)) = All NoteFits more × All NoteFits lost

module _ (inner : Text) (one : OneLine inner) where
  settle-Fits : (n : Node) → OneLine (name_of n) → SettledFits (some (settle inner n))
  unfolding settle
  settle-Fits (node name ps kids pos) h =
      if_intro (λ (r : Node × List Note × List Note). SettledFits {A = Node} (some r))
        (not (text_eq inner [])) (λ _. (((h, one), tt), tt)) (λ _. (tt, (h, tt)))

  settled-Fits :
      (name : Text) (ps : List Prop) (pos : Pos) (this : Option (Node × List Note × List Note))
      (deeper : Option (Nodes × List Note × List Note))
      → SettledFits this
      → SettledFits deeper
      → SettledFits (settled name ps pos this deeper)
  unfolding settled
  settled-Fits name ps pos this none h k = h
  settled-Fits name ps pos this (some (kids, more, lost)) h k = k

  only_child-Fits :
      (o : Option (Node × List Note × List Note)) → SettledFits o → SettledFits (only_child o)
  unfolding only_child
  only_child-Fits none h = tt
  only_child-Fits (some (n, more, lost)) h = h

  mutual
    unfolding settle_innermost layers_of names

    settle_innermost-Fits : (n : Node) → NamesFit n → SettledFits (settle_innermost inner n)
    settle_innermost-Fits (node name ps kids pos) (h, more) =
        settled-Fits name ps pos _ (settle_below inner kids)
          (if_intro SettledFits (is_addressed (node name ps kids pos))
            (λ _. settle-Fits (node name ps kids pos) h) (λ _. tt))
          (settle_below-Fits kids more)

    settle_below-Fits : (ns : Nodes) → NamesFitBelow ns → SettledFits (settle_below inner ns)
    settle_below-Fits none_below h = tt
    settle_below-Fits (child n none_below) h =
        only_child-Fits (settle_innermost inner n) (settle_innermost-Fits n h)
    settle_below-Fits (child n (child m ns)) h = tt

  -- all notes of a result
  abbrev ResultFits : Mirrored → Type 0
  ResultFits m = All NoteFits m.supplied × All NoteFits m.missing

  with_inner-Fits :
      (t : Node) (supplied missing : List Note) (o : Option (Node × List Note × List Note))
      → All NoteFits supplied
      → All NoteFits missing
      → SettledFits o
      → ResultFits (with_inner t supplied missing o)
  unfolding with_inner
  with_inner-Fits t supplied missing none hs hm h = (hs, hm)
  with_inner-Fits t supplied missing (some (t', more, lost)) hs hm (h, k) =
      (All-append NoteFits supplied more hs h, All-append NoteFits missing lost hm k)

  mirror_turned-Fits :
      (n t : Node) (notes : List Note)
      → All NoteFits notes
      → NamesFit t
      → Returns ResultFits (mirror_turned inner n (t, notes))
  unfolding mirror_turned
  mirror_turned-Fits n t [] hn h = fails _
  mirror_turned-Fits n t (x ∷ xs) hn h = returns (
      with_inner-Fits t (x ∷ xs ++ shared_notes (layers_of t)) (key_notes (layers_of t))
        (settle_innermost inner t)
        (All-append NoteFits (x ∷ xs) (shared_notes (layers_of t)) hn
          (shared_notes-Fits (layers_of t) h))
        (key_notes-Fits (layers_of t) h) (settle_innermost-Fits t h))

  mirror_packet-Fits : (n : Node) → NamesFit n → Returns ResultFits (mirror_packet inner n)
  unfolding mirror_packet
  mirror_packet-Fits n h =
      mirror_turned-Fits n (turn n).0 (turn n).1 (turn-Fits n h)
        (subst (All OneLine) (sym (turn-SameNames n)) h)

  mirror_tree-Fits : (n : Node) → NamesFit n → Returns ResultFits (mirror_tree inner n)
  unfolding mirror_tree layers_of names
  mirror_tree-Fits (node name ps none_below pos) h = mirror_packet-Fits _ h
  mirror_tree-Fits (node name ps (child n none_below) pos) (h, more) =
      Returns-if (text_eq name (bytes "configure"))
        (λ _. Returns-bind (mirror_packet-Fits n more) λ m k. returns k)
        (λ _. mirror_packet-Fits _ (h, more))
  mirror_tree-Fits (node name ps (child n (child m ns)) pos) h = mirror_packet-Fits _ h

  -- Every note of `Peer` is a text of one line, where the names of the layers and the given address are.
  pub peer-Fits :
      (root : Node)
      → NamesFit root
      → Returns (λ m. All NoteFits m.supplied × All NoteFits m.missing) (peer root inner)
  unfolding peer
  peer-Fits root h =
      rw (clone_lem root)
        (Returns-bind (check_inner-Returning inner) λ _ _. mirror_tree-Fits root h)
