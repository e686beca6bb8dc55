-- ===== src/Tile/Agree.antt =====
-- tile/explain.go: `Explain` against `Cover`.
use pktc.Common.{
  ℕ, zero, suc, ◌+◌, ltb, ◌==◌, ◌≡◌, refl, ap, sym, ◌∙◌, subst, true, false, ◌⊎◌, inl, inr, List,
  [], ◌∷◌, ◌++◌, length, Bool-cases, Text, append_assoc, append-nil,
}
use pktc.Diag.{Result, ok, >>=-eq-ok, ok-injective}
use pktc.Command.{Script}
use pktc.Spine.{Spine, slice}
use pktc.Env.{Env}
use pktc.Tile.{Tile, Registry, match_at, best}
use pktc.Tile.Cover.{
  State, run_lower, advance, cover_round, cover_loop, Covering, leftover, finish, start, cover,
}
use pktc.Tile.Explain.{
  Attempt, Step, Explanation, attempts, stuck, chose, explain_round, explain_loop, note_for,
  explain,
}
use pktc.Tile.Bids.{attempts-match_at}

abbrev chosen_names : List Step → List Text
chosen_names [] = []
chosen_names (s ∷ ss) = s.chosen ∷ chosen_names ss

-- The steps record these choices, and at most one more position, at which nothing was chosen.
abbrev pub Records : List Step → List Text → Type 0
Records steps names = (chosen_names steps ≡ names) ⊎ (chosen_names steps ≡ names ++ [] ∷ [])

Records-cons :
    (s : Step) (ss : List Step) (names : List Text)
    → Records ss names
    → Records (s ∷ ss) (s.chosen ∷ names)
Records-cons s ss names (inl e) = inl (ap (λ ns. s.chosen ∷ ns) e)
Records-cons s ss names (inr e) = inr (ap (λ ns. s.chosen ∷ ns) e)

explain_round-stop :
    (next : ℕ → List Step → Result (ℕ × List Step)) (sp : Spine) (i : ℕ) (steps : List Step)
    (p : List Attempt × List Tile)
    → p.1 ≡ []
    → explain_round next sp i steps p ≡ ok (i, steps ++ stuck sp i p.0 ∷ [])
unfolding explain_round
explain_round-stop next sp i steps (tried, w) e =
    ap (λ w'. explain_round next sp i steps (tried, w')) e

explain_round-go :
    (next : ℕ → List Step → Result (ℕ × List Step)) (sp : Spine) (i : ℕ) (steps : List Step)
    (p : List Attempt × List Tile) (c : Tile) (cs : List Tile)
    → p.1 ≡ c ∷ cs
    → explain_round next sp i steps p
      ≡ next (i + length (best c cs).pattern) (steps ++ chose sp i p.0 (best c cs) (c ∷ cs) ∷ [])
unfolding explain_round
explain_round-go next sp i steps (tried, w) c cs e =
    ap (λ w'. explain_round next sp i steps (tried, w')) e

-- what `Explain` records where `Cover` goes from `s` to `s'`
record Follows (ts : List Tile) (sp : Spine) (f : ℕ) (s s' : State) (steps : List Step)
    : Type 0 where
  names : List Text
  tail : List Step
  applied : s'.applied ≡ s.applied ++ names
  explained : explain_loop f ts sp s.i steps ≡ ok (s'.i, steps ++ tail)
  records : Records tail names

module _ (ts : List Tile) (sp : Spine) where
  -- the loop is over: nothing is left
  Follows-end :
      (f : ℕ) (s s' : State) (steps : List Step)
      → ltb s.i (length sp) ≡ false
      → s ≡ s'
      → Follows ts sp (suc f) s s' steps
  Follows-end f s s' steps outside e =
      subst (λ q. Follows ts sp (suc f) s q steps) e
        (record {
          names = [];
          tail = [];
          applied = sym (append-nil s.applied);
          explained = unfold explain_loop in rw (outside, append-nil);
          records = inl refl;
        })

  -- nothing fits
  Follows-stuck :
      (f : ℕ) (s s' : State) (steps : List Step)
      → ltb s.i (length sp) ≡ true
      → match_at ts sp s.i ≡ []
      → s ≡ s'
      → Follows ts sp (suc f) s s' steps
  Follows-stuck f s s' steps inside none_fits e =
      subst (λ q. Follows ts sp (suc f) s q steps) e
        (record {
          names = [];
          tail = stuck sp s.i (attempts ts sp s.i).0 ∷ [];
          applied = sym (append-nil s.applied);
          explained =
              unfold explain_loop in
              rw inside (
                explain_round-stop (explain_loop f ts sp) sp s.i steps (attempts ts sp s.i)
                  (attempts-match_at ts sp s.i ∙ none_fits));
          records = inr refl;
        })

  -- a tile is chosen, and the loop goes on from `q`
  Follows-chosen :
      (f : ℕ) (s q s' : State) (steps : List Step) (c : Tile) (cs : List Tile)
      → ltb s.i (length sp) ≡ true
      → match_at ts sp s.i ≡ c ∷ cs
      → q.i ≡ s.i + length (best c cs).pattern
      → q.applied ≡ s.applied ++ (best c cs).name ∷ []
      → Follows ts sp f q s'
          (steps ++ chose sp s.i (attempts ts sp s.i).0 (best c cs) (c ∷ cs) ∷ [])
      → Follows ts sp (suc f) s s' steps
  Follows-chosen f s q s' steps c cs inside fit at named later = record {
    names = (best c cs).name ∷ later.names;
    tail = chose sp s.i (attempts ts sp s.i).0 (best c cs) (c ∷ cs) ∷ later.tail;
    applied =
        later.applied
        ∙ ap (λ ns. ns ++ later.names) named
        ∙ append_assoc s.applied ((best c cs).name ∷ []) later.names;
    explained =
        unfold explain_loop in
        rw inside (
          explain_round-go (explain_loop f ts sp) sp s.i steps (attempts ts sp s.i) c cs
            (attempts-match_at ts sp s.i ∙ fit)
          ∙ ap
              (λ n.
                explain_loop f ts sp n
                  (steps ++ chose sp s.i (attempts ts sp s.i).0 (best c cs) (c ∷ cs) ∷ []))
              (sym at)
          ∙ later.explained
          ∙ ap (λ ss. ok (s'.i, ss))
              (append_assoc steps (chose sp s.i (attempts ts sp s.i).0 (best c cs) (c ∷ cs) ∷ [])
                later.tail));
    records =
        Records-cons (chose sp s.i (attempts ts sp s.i).0 (best c cs) (c ∷ cs)) later.tail
          later.names later.records;
  }

  cover_loop-Follows :
      (f : ℕ) (s s' : State) (steps : List Step)
      → cover_loop f ts sp s ≡ ok s'
      → Follows ts sp f s s' steps
  cover_loop-Follows zero s s' steps h = unfold cover_loop in cc
  cover_loop-Follows (suc f) s s' steps h = elim (Bool-cases (ltb s.i (length sp))) [
    | inr outside ↦ Follows-end f s s' steps outside (unfold cover_loop in cc (rw outside at h))
    | inl inside ↦
        by_matches (match_at ts sp s.i) refl (unfold cover_loop in (rw inside at h))
          (cover_loop-Follows f) inside
  ]
    where
      by_matches :
          (ms : List Tile)
          → match_at ts sp s.i ≡ ms
          → cover_round (cover_loop f ts sp) sp s ms ≡ ok s'
          → ((q s' : State) (steps : List Step)
              → cover_loop f ts sp q ≡ ok s'
              → Follows ts sp f q s' steps)
          → ltb s.i (length sp) ≡ true
          → Follows ts sp (suc f) s s' steps
      by_matches [] e r ih inside = Follows-stuck f s s' steps inside e (unfold cover_round in cc r)
      by_matches (c ∷ cs) e r ih inside =
          let (out, lowered, later) =
            >>=-eq-ok
              (run_lower (best c cs).lower (slice sp s.i (s.i + length (best c cs).pattern)) s.env)
              (λ out. cover_loop f ts sp (advance (best c cs) s out)) {y = s'}
              (unfold cover_round in r) in
          Follows-chosen f s (advance (best c cs) s out) s' steps c cs inside e refl refl
            (ih (advance (best c cs) s out) s' _ later)

-- what `finish` makes of the state that the loop ends in
pub finish-ok :
    (r : Registry) (sp : Spine) (created : ℕ) (s : State) (c : Covering) (e : Env)
    → finish r sp created s ≡ ok (c, e)
    → (e ≡ s.env)
      × (c.applied ≡ s.applied)
      × ((script : Script) × leftover s.env (slice sp s.i (length sp)) ≡ ok (script, c.payload))
unfolding finish
finish-ok r [] created s c e h = cc
finish-ok r (n ∷ sp) created s c e h = elim (Bool-cases (s.i == 0)) [
  | inl none_fits ↦ cc (rw none_fits at h)
  | inr some_fit ↦
      let ((script, payload), placed, same) =
        >>=-eq-ok (leftover s.env (slice (n ∷ sp) s.i (length (n ∷ sp)))) _ (rw some_fit at h) in
      let ends = ok-injective same in
      (
        sym (ap (λ q. q.1) ends),
        sym (ap (λ q. q.0.applied) ends),
        (script, placed ∙ ap (λ p. ok (script, p)) (ap (λ q. q.0.payload) ends)),
      )
]

-- what `explain` returns of the loop's end
abbrev explained_by : Registry → Spine → ℕ → List Step → Explanation
explained_by r sp i steps = record {
  spine = sp;
  target = r.target;
  steps = steps;
  leftover = slice sp i (length sp);
  note = note_for sp r.target i (slice sp i (length sp));
}

explain-ok :
    (r : Registry) (sp : Spine) (i : ℕ) (steps : List Step)
    → explain_loop (suc (length sp)) r.tiles sp 0 [] ≡ ok (i, steps)
    → explain r sp ≡ ok (explained_by r sp i steps)
unfolding explain
explain-ok r sp i steps h = rw h

-- Where `Cover` succeeds, so does `Explain`: its steps record the tiles that `Cover` applied, in that
-- order, then at most the one position where nothing matched, and what it reports as left over is
-- what `Cover` makes an address and the payload of.
pub cover-explain :
    (r : Registry) (sp : Spine) (e e' : Env) (c : Covering)
    → cover r sp e ≡ ok (c, e')
    → (x : Explanation) × (explain r sp ≡ ok x)
      × Records x.steps c.applied
      × ((script : Script) × leftover e' x.leftover ≡ ok (script, c.payload))
unfolding cover
cover-explain r sp e e' c h =
    let (s, looped, finished) = >>=-eq-ok (cover_loop (suc (length sp)) r.tiles sp (start e)) _ h in
    let (env, named, (script, placed)) = finish-ok r sp (length e.created) s c e' finished in
    let same = cover_loop-Follows r.tiles sp (suc (length sp)) (start e) s [] looped in
    (
      explained_by r sp s.i same.tail,
      explain-ok r sp s.i same.tail same.explained,
      subst (λ names. Records same.tail names) (sym (same.applied) ∙ sym named) same.records,
      (script, ap (λ q. leftover q (slice sp s.i (length sp))) env ∙ placed),
    )
