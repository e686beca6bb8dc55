-- ===== src/Mirror/Tiled.antt =====
-- mirror/mirror.go and tile/cover.go: the tiles that the two ends of a tunnel are given.
use pktc.Common.{
  ℕ, zero, suc, ◌+◌, ltb, ◌≡◌, refl, ap, sym, ◌∙◌, Text, none, List, [], ◌∷◌, ◌++◌, length, drop,
  All, append-nil, append_assoc, Bool-cases, inl, inr, if◌then◌else◌,
}
use pktc.Diag.{ok, >>=-eq-ok, Returns-ok, ok-injective}
use pktc.Ast.{Node, node, name_of, kids_of}
use pktc.Spine.{Spine, names, slice, from_form}
use pktc.Spine.Chain.{Chain, innermost, below, Configures, from_form-Configures}
use pktc.Env.{Env}
use pktc.Tile.{Tile, Registry, pattern_matches, fits, match_at, best}
use pktc.Tile.Cover.{Covering, State, run_lower, advance, cover_round, cover_loop, start, cover}
use pktc.Tile.Agree.{finish-ok}
use pktc.Linux.Tiles.{tiles, linux}
use pktc.Mirror.{layers_of, layers_below, Mirrored}
use pktc.Mirror.Far.{peer}
use pktc.Mirror.Peer.{SameNames, peer-SameNames}

-- no tile looks at the fields of the layers to decide whether it fits
abbrev pub Unguarded : List Tile → Type 0
Unguarded ts = All (λ t. t.guard ≡ none) ts

names-length : (sp tp : Spine) → names sp ≡ names tp → length sp ≡ length tp
unfolding names
names-length [] [] h = refl
names-length [] (m ∷ tp) h = cc
names-length (n ∷ sp) [] h = cc
names-length (n ∷ sp) (m ∷ tp) h = ap suc (names-length sp tp (cc h))

names-drop : (i : ℕ) (sp tp : Spine) → names sp ≡ names tp → names (drop i sp) ≡ names (drop i tp)
unfolding names
names-drop zero sp tp h = h
names-drop (suc i) [] [] h = h
names-drop (suc i) [] (m ∷ tp) h = cc
names-drop (suc i) (n ∷ sp) [] h = cc
names-drop (suc i) (n ∷ sp) (m ∷ tp) h = names-drop i sp tp (cc h)

pattern_matches-names :
    (p : List Text) (sp tp : Spine)
    → names sp ≡ names tp
    → pattern_matches p sp ≡ pattern_matches p tp
unfolding names pattern_matches
pattern_matches-names [] sp tp h = refl
pattern_matches-names (w ∷ ws) [] [] h = refl
pattern_matches-names (w ∷ ws) [] (m ∷ tp) h = cc
pattern_matches-names (w ∷ ws) (n ∷ sp) [] h = cc
pattern_matches-names (w ∷ ws) (n ∷ sp) (m ∷ tp) h =
    let same : name_of n ≡ name_of m = cc h in rw (same, pattern_matches-names ws sp tp (cc h)) refl

fits-names :
    (t : Tile) (sp tp : Spine) (i : ℕ)
    → t.guard ≡ none
    → names sp ≡ names tp
    → fits t sp i ≡ fits t tp i
unfolding fits
fits-names t sp tp i g h =
    rw
      (
        g,
        names-length sp tp h,
        pattern_matches-names t.pattern (drop i sp) (drop i tp) (names-drop i sp tp h),
      )
      refl

match_at-names :
    (ts : List Tile) (sp tp : Spine) (i : ℕ)
    → Unguarded ts
    → names sp ≡ names tp
    → match_at ts sp i ≡ match_at ts tp i
unfolding match_at
match_at-names [] sp tp i u h = refl
match_at-names (t ∷ ts) sp tp i (g, u) h =
    rw (fits-names t sp tp i g h, match_at-names ts sp tp i u h) refl

-- the names of the tiles that the loop chooses from layer `i` on
unfoldable chosen_round : (ℕ → List Text) → ℕ → List Tile → List Text
chosen_round next i [] = []
chosen_round next i (c ∷ cs) = (best c cs).name ∷ next (i + length (best c cs).pattern)

unfoldable chosen_from : ℕ → List Tile → Spine → ℕ → List Text
unfolding chosen_round
chosen_from zero ts sp i = []
chosen_from (suc f) ts sp i =
    let round = chosen_round (chosen_from f ts sp) i (match_at ts sp i) in
    if ltb i (length sp) then round else []

chosen_round-cong :
    (next next' : ℕ → List Text) (i : ℕ) (ms : List Tile)
    → ((j : ℕ) → next j ≡ next' j)
    → chosen_round next i ms ≡ chosen_round next' i ms
unfolding chosen_round
chosen_round-cong next next' i [] h = refl
chosen_round-cong next next' i (c ∷ cs) h = ap (λ ns. (best c cs).name ∷ ns) (h _)

chosen_from-names :
    (f : ℕ) (ts : List Tile) (sp tp : Spine) (i : ℕ)
    → Unguarded ts
    → names sp ≡ names tp
    → chosen_from f ts sp i ≡ chosen_from f ts tp i
unfolding chosen_from
chosen_from-names zero ts sp tp i u h = refl
chosen_from-names (suc f) ts sp tp i u h =
    rw
      (
        names-length sp tp h,
        match_at-names ts sp tp i u h,
        chosen_round-cong (chosen_from f ts sp) (chosen_from f ts tp) i (match_at ts tp i)
            (λ j. chosen_from-names f ts sp tp j u h),
      )
      refl

module _ (ts : List Tile) (sp : Spine) where
  round-applied :
      (f : ℕ) (s s' : State) (ms : List Tile)
      → ((q : State)
          → cover_loop f ts sp q ≡ ok s'
          → s'.applied ≡ q.applied ++ chosen_from f ts sp q.i)
      → cover_round (cover_loop f ts sp) sp s ms ≡ ok s'
      → s'.applied ≡ s.applied ++ chosen_round (chosen_from f ts sp) s.i ms
  unfolding cover_round chosen_round
  round-applied f s s' [] ih r =
      ap (λ q. q.applied) (sym (ok-injective r)) ∙ sym (append-nil s.applied)
  round-applied f s s' (c ∷ cs) ih r =
      let (out, _, later) =
        >>=-eq-ok
          (run_lower (best c cs).lower (slice sp s.i (s.i + length (best c cs).pattern)) s.env) _
          r in
      ih (advance (best c cs) s out) later ∙ append_assoc s.applied ((best c cs).name ∷ []) _

  cover_loop-applied :
      (f : ℕ) (s s' : State)
      → cover_loop f ts sp s ≡ ok s'
      → s'.applied ≡ s.applied ++ chosen_from f ts sp s.i
  unfolding cover_loop chosen_from
  cover_loop-applied zero s s' h = cc
  cover_loop-applied (suc f) s s' h = elim (Bool-cases (ltb s.i (length sp))) [
    | inr outside ↦ rw outside (ended (rw outside at h))
    | inl inside ↦ rw inside (
        round-applied f s s' (match_at ts sp s.i) (λ q. cover_loop-applied f q s') (rw inside at h))
  ]
    where
      ended : ok s ≡ ok s' → s'.applied ≡ s.applied ++ []
      ended e = ap (λ q. q.applied) (sym (ok-injective e)) ∙ sym (append-nil s.applied)

cover-applied :
    (r : Registry) (sp : Spine) (e e' : Env) (c : Covering)
    → cover r sp e ≡ ok (c, e')
    → c.applied ≡ chosen_from (suc (length sp)) r.tiles sp 0
unfolding cover
cover-applied r sp e e' c h =
    let (s, looped, finished) = >>=-eq-ok (cover_loop (suc (length sp)) r.tiles sp (start e)) _ h in
    let (_, named, _) = finish-ok r sp (length e.created) s c e' finished in
    named ∙ cover_loop-applied r.tiles sp (suc (length sp)) (start e) s looped

cover-same_names :
    (r : Registry) (sp tp : Spine) (d e d' e' : Env) (b c : Covering)
    → Unguarded r.tiles
    → names sp ≡ names tp
    → cover r sp d ≡ ok (b, d')
    → cover r tp e ≡ ok (c, e')
    → b.applied ≡ c.applied
cover-same_names r sp tp d e d' e' b c u h near far =
    cover-applied r sp d d' b near
    ∙ chosen_from-names (suc (length sp)) r.tiles sp tp 0 u h
    ∙ ap (λ n. chosen_from (suc n) r.tiles tp 0) (names-length sp tp h)
    ∙ sym (cover-applied r tp e e' c far)

layers_of-kids : (n : Node) → layers_of n ≡ n ∷ layers_below (kids_of n)
unfolding layers_of
layers_of-kids (node name ps kids pos) = refl

-- the chain of layers is the spine
layers_of-Chain : {n : Node} {sp : Spine} → Chain n sp → layers_of n ≡ sp
unfolding layers_of
layers_of-Chain (innermost {n} k) = layers_of-kids n ∙ ap (λ ks. n ∷ layers_below ks) k
layers_of-Chain (below {n} {m} {sp} k chain) =
    layers_of-kids n ∙ ap (λ ks. n ∷ layers_below ks) k ∙ ap (λ ls. n ∷ ls) (layers_of-Chain chain)

pub layers_of-Configures :
    {root : Node} {sp : Spine} → Configures root sp → layers_of root ≡ root ∷ sp
unfolding layers_of
layers_of-Configures {root} {sp} conf =
    layers_of-kids root
    ∙ ap (λ ks. root ∷ layers_below ks) conf.only
    ∙ ap (λ ls. root ∷ ls) (layers_of-Chain conf.chain)

names-tail : (n m : Node) (sp tp : Spine) → names (n ∷ sp) ≡ names (m ∷ tp) → names sp ≡ names tp
unfolding names
names-tail n m sp tp h = cc h

tiles-Unguarded : Unguarded tiles
tiles-Unguarded = (refl, (refl, (refl, (refl, (refl, (refl, tt))))))

-- Where the trees of both ends are covered, the same tiles are applied at both, in the same order,
-- whatever devices the two ends have.
pub peer-same_tiles :
    (root : Node) (inner : Text) (m : Mirrored) (sp tp : Spine) (d e d' e' : Env) (b c : Covering)
    → peer root inner ≡ ok m
    → from_form root ≡ ok sp
    → from_form m.tree ≡ ok tp
    → cover linux sp d ≡ ok (b, d')
    → cover linux tp e ≡ ok (c, e')
    → b.applied ≡ c.applied
peer-same_tiles root inner m sp tp d e d' e' b c mirrored near far near_covered far_covered =
    let same : SameNames m.tree root = Returns-ok (peer-SameNames root inner) mirrored in
    let near_layers = layers_of-Configures (Returns-ok (from_form-Configures root) near) in
    let far_layers = layers_of-Configures (Returns-ok (from_form-Configures m.tree) far) in
    cover-same_names linux sp tp d e d' e' b c tiles-Unguarded
      (sym (names-tail m.tree root tp sp (ap names (sym far_layers) ∙ same ∙ ap names near_layers)))
      near_covered far_covered
