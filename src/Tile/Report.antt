-- ===== src/Tile/Report.antt =====
-- tile/explain.go: the text of an explanation, and the end of `Explain`'s loop.
use pktc.Common.{
  ℕ, zero, suc, ◌+◌, ◌-◌, ◌<◌, ltb, not, ◌≡◌, true, Text, bytes, text_eq, List, [], ◌∷◌, ◌++◌,
  length, All, All-append, arith, if◌then◌else◌,
}
use pktc.Diag.{Result, Returns, returns, Returns-bind, Returns-if}
use pktc.Std.Strconv.{format_uint}
use pktc.Std.Utf8.{rune_count}
use pktc.Spine.{Spine, spine_string}
use pktc.Tile.{Tile, Registry, match_at, best}
use pktc.Tile.Choice.{Among, best-NoBetter}
use pktc.Tile.Keys.{match_at_iff}
use pktc.Tile.Loop.{HasPatterns, pattern-pos}
use pktc.Tile.Bids.{attempts-match_at}
use pktc.Tile.Explain.{
  Attempt, Step, Explanation, attempts, stuck, chose, explain_round, explain_loop, explain,
}

unfoldable pub spaces : ℕ → Text
spaces zero = []
spaces (suc n) = b' ' ∷ spaces n

-- `%-10s` and the like
unfoldable pub padded : ℕ → Text → Text
padded w s = s ++ spaces (w - rune_count s)

-- what the switch over an attempt prints behind the name and the pattern
unfoldable pub verdict : Step → Attempt → Text
verdict s a =
    if text_eq a.name s.chosen
    then bytes "chosen — " ++ s.because
    else if a.matched
    then bytes "matched " ++ (format_uint a.size ++ bytes " layers")
    else a.reason

unfoldable pub attempt_lines : Step → List Attempt → Text
attempt_lines s [] = []
attempt_lines s (a ∷ rest) =
    bytes "  "
    ++ (padded 10 a.name
        ++ (bytes " "
            ++ (padded 34 a.pattern
                ++ (bytes " " ++ (verdict s a ++ (bytes "\n" ++ attempt_lines s rest))))))

unfoldable pub step_lines : List Step → Text
step_lines [] = []
step_lines (s ∷ ss) =
    bytes "\nat layer "
    ++ (format_uint s.at
        ++ (bytes ": "
            ++ (s.covered
                ++ ((if text_eq s.chosen [] then bytes " — nothing matched\n" else bytes "\n")
                    ++ (attempt_lines s s.attempts ++ step_lines ss)))))

-- `Explanation.String`
unfoldable pub explanation_string : Explanation → Text
unfolding step_lines
explanation_string e =
    bytes "spine:  "
    ++ (spine_string e.spine
        ++ (bytes "\ntarget: "
            ++ (e.target
                ++ (bytes "\n"
                    ++ (step_lines e.steps
                        ++ ((if ltb 0 (length e.leftover)
                              then bytes "\nleft over: " ++ (spine_string e.leftover ++ bytes "\n")
                              else [])
                            ++ (if not (text_eq e.note [])
                                then bytes "\n" ++ (e.note ++ bytes "\n")
                                else [])))))))

-- every step is at a layer of the spine
abbrev pub AtLayers : Spine → List Step → Type 0
AtLayers sp steps = All (λ s. s.at < length sp) steps

module _ (ts : List Tile) (sp : Spine) (patterns : HasPatterns ts) where
  explain_round-AtLayers :
      (next : ℕ → List Step → Result (ℕ × List Step)) (i : ℕ) (steps : List Step)
      (p : List Attempt × List Tile)
      → i < length sp
      → AtLayers sp steps
      → p.1 ≡ match_at ts sp i
      → ((j : ℕ) (more : List Step)
          → i < j
          → AtLayers sp more
          → Returns (λ r. AtLayers sp r.1) (next j more))
      → Returns (λ r. AtLayers sp r.1) (explain_round next sp i steps p)
  unfolding explain_round
  explain_round-AtLayers next i steps (tried, []) inside a e go =
      returns (All-append (λ s. s.at < length sp) steps (stuck sp i tried ∷ []) a (inside, tt))
  explain_round-AtLayers next i steps (tried, c ∷ cs) inside a e go =
      go (i + length (best c cs).pattern) (steps ++ chose sp i tried (best c cs) (c ∷ cs) ∷ [])
        (grows c cs e)
        (All-append (λ s. s.at < length sp) steps (chose sp i tried (best c cs) (c ∷ cs) ∷ []) a
          (inside, tt))
    where
      grows :
          (c : Tile) (cs : List Tile)
          → c ∷ cs ≡ match_at ts sp i
          → i < i + length (best c cs).pattern
      grows c cs e =
          let among : Among (best c cs) (match_at ts sp i) = rw (← e) (best-NoBetter c cs).0 in
          let in_set = ((match_at_iff (best c cs) ts sp i).0 among).0 in
          omega (arith, pattern-pos (best c cs).pattern (patterns (best c cs) in_set))

  explain_loop-AtLayers :
      (f i : ℕ) (steps : List Step)
      → length sp - i < f
      → AtLayers sp steps
      → Returns (λ r. AtLayers sp r.1) (explain_loop f ts sp i steps)
  unfolding explain_loop
  explain_loop-AtLayers zero i steps h a = absurd (omega arith)
  explain_loop-AtLayers (suc f) i steps h a =
      Returns-if (ltb i (length sp))
        (λ inside.
          explain_round-AtLayers (explain_loop f ts sp) i steps (attempts ts sp i) (ground arith) a
            (attempts-match_at ts sp i)
            λ j more past a'. explain_loop-AtLayers f j more (later j inside past) a')
        (λ _. returns a)
    where
      later : (j : ℕ) → ltb i (length sp) ≡ true → i < j → length sp - j < f
      later j inside past = let fuel = h in ground arith

-- `Explain` ends on every spine if each tile of the set has a pattern, and every step that it
-- reports is at a layer of the spine.
pub explain-AtLayers :
    (r : Registry) (sp : Spine)
    → HasPatterns r.tiles
    → Returns (λ x. AtLayers sp x.steps) (explain r sp)
unfolding explain
explain-AtLayers r sp patterns =
    Returns-bind (explain_loop-AtLayers r.tiles sp patterns (suc (length sp)) 0 [] (omega arith) tt)
      λ _ a. returns a
