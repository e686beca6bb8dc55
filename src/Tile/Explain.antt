-- ===== src/Tile/Explain.antt =====
-- tile/explain.go: the covering decision, recorded.
use pktc.Common.{
  ℕ, zero, suc, ◌+◌, ◌-◌, ltb, ◌==◌, Bool, not, Text, bytes, List, [], ◌∷◌, ◌++◌, length, drop,
  text_eq, if◌then◌else◌,
}
use pktc.Common.Int.{ℤ}
use pktc.Diag.{Result, ok, fault, out_of_fuel, ◌>>=◌}
use pktc.Std.Strconv.{format_uint}
use pktc.Ast.{name_of}
use pktc.Spine.{Spine, slice, spine_string}
use pktc.Tile.{Tile, Registry, tile_string, guard_holds, best}

pub record Attempt : Type 0 where
  pub name : Text
  pub pattern : Text
  pub size : ℕ
  pub priority : ℤ
  pub matched : Bool
  pub reason : Text

pub record Step : Type 0 where
  pub at : ℕ
  pub covered : Text
  pub chosen : Text
  pub because : Text
  pub attempts : List Attempt

pub record Explanation : Type 0 where
  pub spine : Spine
  pub target : Text
  pub steps : List Step
  pub leftover : Spine
  pub note : Text

-- `layer %d is %s, wants %s`
abbrev pub differs : ℕ → Text → Text → Text
differs k got want =
    bytes "layer " ++ (format_uint k ++ (bytes " is " ++ (got ++ (bytes ", wants " ++ want))))

-- the loop of `bid` over the pattern, the layer at hand being number `k`
unfoldable pub bid_pattern : List Text → Spine → ℕ → Text → Text
bid_pattern [] sp k then_ = then_
bid_pattern (want ∷ ws) [] k then_ = bytes "index out of range"
bid_pattern (want ∷ ws) (n ∷ sp) k then_ =
    let more = bid_pattern ws sp (k + 1) then_ in
    if not (text_eq (name_of n) want) then differs k (name_of n) want else more

-- `bid`: the empty string when the tile matches, or the reason it does not
unfoldable pub bid : Tile → Spine → ℕ → Text
unfolding bid_pattern
bid t sp i =
    if ltb (length sp) (i + length t.pattern)
    then bytes "needs "
      ++ (format_uint (length t.pattern)
          ++ (bytes " layers, only " ++ (format_uint (length sp - i) ++ bytes " remain")))
    else bid_pattern t.pattern (drop i sp) i (
        if not (guard_holds t.guard (slice sp i (i + length t.pattern)))
        then bytes "shape matches, but a field value ruled it out"
        else [])

-- what the inner loop of `Explain` records of one tile
abbrev pub attempt : Tile → Text → Attempt
attempt t reason = record {
  name = t.name;
  pattern = tile_string t;
  size = length t.pattern;
  priority = t.priority;
  matched = text_eq reason [];
  reason = reason;
}

-- The inner loop: every tile's attempt, and the tiles that matched.
unfoldable pub attempts : List Tile → Spine → ℕ → List Attempt × List Tile
attempts [] sp i = ([], [])
attempts (t ∷ ts) sp i =
    let reason = bid t sp i in
    let later = attempts ts sp i in
    (attempt t reason ∷ later.0, if text_eq reason [] then t ∷ later.1 else later.1)

-- the two loops of `why`
unfoldable pub longest : ℕ → List Tile → ℕ
longest n [] = n
longest n (t ∷ ts) = longest (if ltb n (length t.pattern) then length t.pattern else n) ts

unfoldable pub tied : ℕ → ℕ → List Tile → ℕ
tied size n [] = n
tied size n (t ∷ ts) = tied size (if length t.pattern == size then n + 1 else n) ts

-- `why`
unfoldable pub why : List Tile → Text
unfolding longest tied
why all =
    let size = longest 0 all in
    if length all == 1
    then bytes "the only tile that matched"
    else if ltb 1 (tied size 0 all)
    then format_uint (tied size 0 all)
      ++ (bytes " tiles matched "
          ++ (format_uint size ++ bytes " layers; the lowest priority wins"))
    else bytes "longest match: "
      ++ (format_uint size
          ++ (bytes " layers against " ++ (format_uint (length all - 1) ++ bytes " others")))

-- a position where no tile matched, and the step of a choice
abbrev pub stuck : Spine → ℕ → List Attempt → Step
stuck sp i tried = record {
  at = i;
  covered = spine_string (slice sp i (length sp));
  chosen = [];
  because = [];
  attempts = tried;
}

abbrev pub chose : Spine → ℕ → List Attempt → Tile → List Tile → Step
chose sp i tried pick winners = record {
  at = i;
  covered = spine_string (slice sp i (i + length pick.pattern));
  chosen = pick.name;
  because = why winners;
  attempts = tried;
}

-- One round: record the failing position and stop, or record the choice and go on by `next`.
unfoldable pub explain_round :
    (ℕ → List Step → Result (ℕ × List Step))
    → Spine
    → ℕ
    → List Step
    → List Attempt × List Tile
    → Result (ℕ × List Step)
explain_round next sp i steps (tried, []) = ok (i, steps ++ stuck sp i tried ∷ [])
explain_round next sp i steps (tried, c ∷ cs) =
    let pick = best c cs in
    next (i + length pick.pattern) (steps ++ chose sp i tried pick (c ∷ cs) ∷ [])

-- The loop, with the rounds that are left.
unfoldable pub explain_loop : ℕ → List Tile → Spine → ℕ → List Step → Result (ℕ × List Step)
unfolding explain_round attempts bid
explain_loop zero tiles sp i steps = fault out_of_fuel
explain_loop (suc f) tiles sp i steps =
    let round = explain_round (explain_loop f tiles sp) sp i steps (attempts tiles sp i) in
    if ltb i (length sp) then round else ok (i, steps)

-- the note at the end
unfoldable pub note_for : Spine → Text → ℕ → Spine → Text
note_for sp target i left =
    if i == 0
    then bytes "no tile matched at the outermost layer, so "
      ++ (spine_string sp ++ (bytes " has no lowering on " ++ target))
    else if ltb 0 (length left)
    then bytes "what no tile claimed is traffic through the device, not configuration of it"
    else []

-- `Explain`
unfoldable pub explain : Registry → Spine → Result Explanation
unfolding explain_loop note_for
explain r sp = explain_loop (suc (length sp)) r.tiles sp 0 [] >>= λ (i, steps).
    let left = slice sp i (length sp) in
    ok (record {
      spine = sp;
      target = r.target;
      steps = steps;
      leftover = left;
      note = note_for sp r.target i left;
    })
