-- ===== src/Nettest/Whole.antt =====
-- internal/nettest/nettest.go on what `pktc lower` prints for a whole file.
use pktc.Common.{
  ℕ, suc, ◌≡◌, sym, subst, ap, ◌∙◌, Bool, Text, text_eq, List, [], ◌∷◌, ◌++◌, append-nil, length,
  map, All,
}
use pktc.Diag.{Result, ok, Gives-ok, ok-injective, >>=-eq-ok, ◌>>=◌}
use pktc.Ast.{Node}
use pktc.Spine.{Spine, from_form}
use pktc.Env.{Env, new, reset}
use pktc.Command.{command_string}
use pktc.Tile.Cover.{Covering, cover}
use pktc.Linux.Tiles.{linux}
use pktc.Mirror.Lines.{NamesFit}
use pktc.Cli.Names.{read_trees-NamesFit}
use pktc.Cli.{read_trees, rendered, heading_for, lower_rules, lower_trees, lower}
use pktc.Nettest.{Host, run_script}
use pktc.Nettest.Script.{Prints, Prints-append, run_all, run_script-Prints}
use pktc.Nettest.Rules.{
  heading_for-OneLine, is_gap, gap, gap_lines, gap-lined, gap-OneLine, gap-Shows, render-ok,
  lower_rules-first,
}
use pktc.Linux.Sound.{Sound, new-Sound}
use pktc.Cli.Lower.{reset-Sound, keyed-Sound}
use pktc.Nettest.Covered.{AllFit, covered-Scripted, Scripted, covering-Prints, names-OneLine}

-- The covering of each tree, from the environment that the ones before leave.
unfoldable pub coverings : List Node → Env → Result (List Covering × Env)
coverings [] e = ok ([], e)
coverings (root ∷ roots) e = from_form root >>= λ sp.
    cover linux sp (reset e) >>= λ (c, e'). coverings roots e' >>= λ (cs, last). ok (c ∷ cs, last)

-- the command lines of all scripts, in order
abbrev pub all_commands : List Covering → List Text
all_commands [] = []
all_commands (c ∷ cs) = map command_string c.script ++ all_commands cs

-- Rules that are all lowered, and what their scripts print.
record Whole (quiet : Bool) (n i : ℕ) (roots : List Node) (e last : Env) (cs : List Text)
    : Type 0 where
  text : Text
  done : lower_rules quiet n i roots e ≡ (gap quiet i ++ text, ok last)
  prints : Prints text cs

-- the first of several coverings, and the others
record First (root : Node) (roots : List Node) (e last : Env) (cs : List Covering) : Type 0 where
  spine : Spine
  covering : Covering
  next : Env
  others : List Covering
  formed : from_form root ≡ ok spine
  covered : cover linux spine (reset e) ≡ ok (covering, next)
  later : coverings roots next ≡ ok (others, last)
  same : cs ≡ covering ∷ others

coverings-First :
    (root : Node) (roots : List Node) (e last : Env) (cs : List Covering)
    → coverings (root ∷ roots) e ≡ ok (cs, last)
    → First root roots e last cs
unfolding coverings
coverings-First root roots e last cs h =
    let (sp, formed, more) = >>=-eq-ok (from_form root) _ h in
    let (p, covered, rest) = >>=-eq-ok (cover linux sp (reset e)) _ more in
    let (q, later, end) = >>=-eq-ok (coverings roots p.1) _ rest in
    let same = ok-injective end in
    record {
      spine = sp;
      covering = p.0;
      next = p.1;
      others = q.0;
      formed = formed;
      covered = covered;
      later = later ∙ ap (λ (z : List Covering × Env). ok (q.0, z.1)) same;
      same = ap (λ (z : List Covering × Env). z.0) (sym same);
    }

module _ (quiet : Bool) (n i : ℕ) (root : Node) (roots : List Node) (e last : Env)
    {cs : List Covering} (f : First root roots e last cs) (names_fit : NamesFit root)
    (scripted : Scripted f.covering) where
  shown : Text
  shown = rendered (heading_for i n) f.spine f.covering quiet

  shown-Prints : Prints shown (map command_string f.covering.script)
  unfolding shown
  shown-Prints =
      covering-Prints (heading_for i n) f.spine f.covering quiet (heading_for-OneLine i n)
        (names-OneLine root f.spine f.formed names_fit) scripted

  -- where the rules behind it print `u`
  first-Whole :
      (u : Text) (ds : List Text)
      → lower_rules quiet n (suc i) roots f.next ≡ (u, ok last)
      → Prints (shown ++ u) (map command_string f.covering.script ++ ds)
      → Whole quiet n i (root ∷ roots) e last (map command_string f.covering.script ++ ds)
  unfolding shown
  first-Whole u ds done prints = record {
    text = shown ++ u;
    done =
        lower_rules-first quiet n i root roots e f.next last shown u
          (render-ok (heading_for i n) root quiet e f.next f.spine f.covering f.formed f.covered)
          done;
    prints = prints;
  }

  alone-Whole :
      lower_rules quiet n (suc i) roots f.next ≡ ([], ok last)
      → Whole quiet n i (root ∷ roots) e last (map command_string f.covering.script ++ [])
  alone-Whole done = first-Whole [] [] done (
      subst (λ t. Prints t (map command_string f.covering.script ++ [])) (sym (append-nil shown))
        (subst (Prints shown) (sym (append-nil (map command_string f.covering.script)))
          shown-Prints))

  before-Whole :
      {ds : List Text}
      → Whole quiet n (suc i) roots f.next last ds
      → Whole quiet n i (root ∷ roots) e last (map command_string f.covering.script ++ ds)
  before-Whole {ds} w =
      let b = is_gap quiet (suc i) in
      first-Whole (gap quiet (suc i) ++ w.text) ds w.done (
        subst (λ g. Prints (shown ++ (g ++ w.text)) (map command_string f.covering.script ++ ds))
          (sym (gap-lined b))
          (Prints-append (gap_lines b) shown-Prints (gap-OneLine b) (gap-Shows b) w.prints))

no_rules :
    (quiet : Bool) (n i : ℕ) (e last : Env) (cs : List Covering)
    → coverings [] e ≡ ok (cs, last)
    → (lower_rules quiet n i [] e ≡ ([], ok last)) × (cs ≡ [])
unfolding coverings lower_rules
no_rules quiet n i e last cs h =
    let same = ok-injective h in
    (
      ap (λ (z : List Covering × Env). ([], ok z.1)) same,
      ap (λ (z : List Covering × Env). z.0) (sym same),
    )

First-Scripted :
    (root : Node) (roots : List Node) (e last : Env) {cs : List Covering}
    (f : First root roots e last cs)
    → Sound e
    → NamesFit root
    → AllFit f.covering
    → Scripted f.covering × Sound f.next
First-Scripted root roots e last f sound names_fit fit =
    covered-Scripted f.spine (reset e) f.next f.covering (reset-Sound sound)
      (names-OneLine root f.spine f.formed names_fit) f.covered fit

rules-Whole :
    (quiet : Bool) (n i : ℕ) (root : Node) (roots : List Node) (e last : Env) (cs : List Covering)
    → Sound e
    → coverings (root ∷ roots) e ≡ ok (cs, last)
    → All NamesFit (root ∷ roots)
    → All AllFit cs
    → Whole quiet n i (root ∷ roots) e last (all_commands cs)
rules-Whole quiet n i root [] e last cs sound h names_fit fits =
    let f = coverings-First root [] e last cs h in
    let fit : All AllFit (f.covering ∷ f.others) = subst (All AllFit) f.same fits in
    let (scripted, later_sound) = First-Scripted root _ e last f sound names_fit.0 fit.0 in
    let (done, none_left) = no_rules quiet n (suc i) f.next last f.others f.later in
    subst (λ ds. Whole quiet n i (root ∷ []) e last (all_commands ds))
      (ap (λ ds. f.covering ∷ ds) (sym none_left) ∙ sym f.same)
      (alone-Whole quiet n i root [] e last f names_fit.0 scripted done)
rules-Whole quiet n i root (next ∷ roots) e last cs sound h names_fit fits =
    let f = coverings-First root (next ∷ roots) e last cs h in
    let fit : All AllFit (f.covering ∷ f.others) = subst (All AllFit) f.same fits in
    let (scripted, later_sound) = First-Scripted root _ e last f sound names_fit.0 fit.0 in
    subst (λ ds. Whole quiet n i (root ∷ next ∷ roots) e last (all_commands ds)) (sym f.same)
      (before-Whole quiet n i root (next ∷ roots) e last f names_fit.0 scripted (
        rules-Whole quiet n (suc i) next roots f.next last f.others later_sound f.later names_fit.1
          fit.1))

trees-lowered :
    {W : Type 0} (h : Host W) (ns : Text) (quiet : Bool) (roots : List Node) (e last : Env)
    (cs : List Covering)
    → Sound e
    → coverings roots e ≡ ok (cs, last)
    → All NamesFit roots
    → All AllFit cs
    → (out : Text) × (lower_rules quiet (length roots) 0 roots e ≡ (out, ok last))
      × (run_script h ns out ≡ run_all h ns (all_commands cs))
unfolding run_script run_all text_eq
trees-lowered h ns quiet [] e last cs sound covered names_fit fits =
    let (done, none_left) = no_rules quiet 0 0 e last cs covered in
    ([], done, ap (λ ds. run_all h ns (all_commands ds)) (sym none_left))
trees-lowered h ns quiet (root ∷ roots) e last cs sound covered names_fit fits =
    let w =
      rules-Whole quiet (length (root ∷ roots)) 0 root roots e last cs sound covered names_fit
        fits in
    (w.text, w.done, run_script-Prints h ns w.prints)

-- Where all trees of a file are covered one after the other, `pktc lower` succeeds, and what it prints,
-- with or without `-quiet`, is run by `RunScript` as exactly the commands of all rules, in the
-- order of the file, each through a shell and up to the first that fails. It is so where each command
-- has an argument, and no argument and no reason of a command holds a newline.
pub run_script-lower :
    {W : Type 0} (h : Host W) (ns underlay key_dir : Text) (quiet : Bool) (path src : Text)
    (roots : List Node) (last : Env) (cs : List Covering)
    → read_trees path src ≡ ok roots
    → coverings roots (record (new underlay) { key_dir = key_dir }) ≡ ok (cs, last)
    → All AllFit cs
    → (out : Text) × (lower underlay key_dir quiet path src ≡ (out, ok last))
      × (run_script h ns out ≡ run_all h ns (all_commands cs))
unfolding lower lower_trees
run_script-lower h ns underlay key_dir quiet path src roots last cs trees covered fits =
    let (out, done, runs) =
      trees-lowered h ns quiet roots (record (new underlay) { key_dir = key_dir }) last cs
        (keyed-Sound key_dir (new-Sound underlay)) covered
        (Gives-ok (read_trees-NamesFit path src) trees) fits in
    (out, rw trees done, runs)
