-- ===== src/Cli/Stops.antt =====
-- cmd/pktc/main.go: a run of `pktc lower` on a file with a rule that cannot be lowered.
use pktc.Common.{
  ℕ, suc, ◌+◌, ltb, ◌&&◌, not, ◌≡◌, refl, sym, ap, ◌∙◌, Bool, Text, bytes, List, [], ◌∷◌, ◌++◌,
  append_assoc, length, if◌then◌else◌, arith,
}
use pktc.Diag.{Error, Result, ok, err, fault, ok-injective}
use pktc.Diag.Format.{error_string}
use pktc.Ast.{Node}
use pktc.Env.{Env, new}
use pktc.Cli.{read_trees, heading_for, render, lower_next, lower_rules, lower_trees, lower}
use pktc.Cli.Main.{File, contents, loaded, finish, on_file, main}
use pktc.Cli.Mirror.{then_print}
use pktc.Cli.Args.{lower_args, main-flags}

-- the empty line in front of a rule that is not the first
abbrev pub gap_before : Bool → ℕ → Text
gap_before quiet i = if ltb 0 i && not quiet then bytes "\n" else []

-- a rule that was lowered, and those behind it
record Passed (later : Env → Text × Result Env) (gap : Text) (r : Result (Text × Env)) (t : Text)
    (last : Env) : Type 0 where
  shown : Text
  next : Env
  behind : Text
  made : r ≡ ok (shown, next)
  others : later next ≡ (behind, ok last)
  text : t ≡ (gap ++ shown) ++ behind

lower_next-Passed :
    (later : Env → Text × Result Env) (gap : Text) (r : Result (Text × Env)) (t : Text) (last : Env)
    → lower_next later gap r ≡ (t, ok last)
    → Passed later gap r t last
unfolding lower_next
lower_next-Passed later gap (ok (s, e)) t last h = record {
  shown = s;
  next = e;
  behind = (later e).0;
  made = refl;
  others = ap (λ r. ((later e).0, r)) (ap (λ (p : Text × Result Env). p.1) h);
  text = ap (λ (p : Text × Result Env). p.0) (sym h);
}
lower_next-Passed later gap (err x) t last h = cc h
lower_next-Passed later gap (fault x) t last h = cc h

rules_stop :
    (quiet : Bool) (n i : ℕ) (before : List Node) (root : Node) (later : List Node) (e last : Env)
    (t : Text) (x : Error)
    → lower_rules quiet n i before e ≡ (t, ok last)
    → render (heading_for (i + length before) n) root last quiet ≡ err x
    → lower_rules quiet n i (before ++ root ∷ later) e
      ≡ (t ++ gap_before quiet (i + length before), err x)
unfolding lower_rules lower_next
rules_stop quiet n i [] root later e last t x h fails =
    let same : e ≡ last = ok-injective (ap (λ (p : Text × Result Env). p.1) h) in
    let here : render (heading_for i n) root e quiet ≡ err x =
      ap (λ a. render (heading_for i n) root a quiet) same
      ∙ ap (λ k. render (heading_for k n) root last quiet) (omega arith)
      ∙ fails in
    rw here (
      ap (λ w. (w, err x))
        (ap (gap_before quiet) (omega arith)
          ∙ ap (λ s. s ++ gap_before quiet (i + 0)) (ap (λ (p : Text × Result Env). p.0) h)))
rules_stop quiet n i (b ∷ bs) root later e last t x h fails =
    let p =
      lower_next-Passed (lower_rules quiet n (suc i) bs) (gap_before quiet i)
        (render (heading_for i n) b e quiet) t last h in
    let count : suc i + length bs ≡ i + suc (length bs) = omega arith in
    let rest =
      rules_stop quiet n (suc i) bs root later p.next last p.behind x p.others
        (ap (λ k. render (heading_for k n) root last quiet) count ∙ fails) in
    rw (p.made, rest)
      (ap (λ w. (w, err x))
        (sym (
            append_assoc (gap_before quiet i ++ p.shown) p.behind
              (gap_before quiet (suc i + length bs)))
          ∙ ap (λ s. s ++ gap_before quiet (suc i + length bs)) (sym p.text)
          ∙ ap (λ k. t ++ gap_before quiet k) count))

-- A file of trees of which one cannot be lowered, behind those that can: `pktc lower` prints the scripts of
-- the rules before it and the empty line in front of it, and nothing of it or of the rules behind;
-- its diagnostic goes to stderr, and the status is 1.
pub main-lower_stops :
    (printable : ℕ → Bool) (files : Text → File) (program underlay key_dir : Text) (quiet : Bool)
    (path src : Text) (before : List Node) (root : Node) (later : List Node) (last : Env) (t : Text)
    (x : Error)
    → files path ≡ contents src
    → read_trees path src ≡ ok (before ++ root ∷ later)
    → lower_rules quiet
        (length (before ++ root ∷ later))
        0
        before
        (record (new underlay) { key_dir = key_dir })
      ≡ (t, ok last)
    → render (heading_for (length before) (length (before ++ root ∷ later))) root last quiet ≡ err x
    → main printable files (lower_args program underlay key_dir quiet path)
      ≡ ok (record {
        out = t ++ gap_before quiet (length before);
        err_out = bytes "pktc: " ++ (error_string printable x ++ bytes "\n");
        status = 1;
      })
unfolding on_file loaded then_print lower lower_trees finish
main-lower_stops printable files program underlay key_dir quiet path src before root later last t x
      file trees passed fails =
    let n = length (before ++ root ∷ later) in
    let count : 0 + length before ≡ length before = omega arith in
    let stops =
      rules_stop quiet n 0 before root later (record (new underlay) { key_dir = key_dir }) last t x
        passed (ap (λ k. render (heading_for k n) root last quiet) count ∙ fails)
      ∙ ap (λ k. (t ++ gap_before quiet k, err x)) count in
    (main-flags printable files program underlay [] key_dir [] quiet path).0
    ∙ rw (file, trees, stops) refl
