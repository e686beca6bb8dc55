-- ===== src/Cli/Mirror.antt =====
-- cmd/pktc/main.go: `cmdMirror`, on its flags and the file's text.
use pktc.Common.{
  ℕ, zero, suc, ltb, Bool, false, Text, bytes, text_eq, List, [], ◌∷◌, ◌++◌, length, if◌then◌else◌,
}
use pktc.Diag.{Result, ok, err, fault}
use pktc.Ast.{Node}
use pktc.Env.{new}
use pktc.Mirror.{Note, Mirrored}
use pktc.Mirror.Far.{peer}
use pktc.Mirror.Notes.{note_string}
use pktc.Cli.{read_tree, render, after}

abbrev pub Printed : Type 0
Printed = Text × Result (Unit {0})

-- what follows a call that may fail: what was printed before stays
unfoldable pub then_print : {A : Type 0} → Result A → (A → Printed) → Printed
then_print (ok a) f = f a
then_print (err e) f = ([], err e)
then_print (fault x) f = ([], fault x)

-- `# ` and 68 dashes
unfoldable pub dashes : ℕ → Text
dashes zero = []
dashes (suc n) = b'-' ∷ dashes n

unfoldable pub rule_line : Text
unfolding dashes
rule_line = bytes "# " ++ (dashes 68 ++ bytes "\n")

-- the last line, if something is missing
unfoldable pub ending : List Note → Text
ending missing =
    if ltb 0 (length missing)
    then bytes "\n# the far end is incomplete; supply -peer-inner to finish it\n"
    else []

module _ (printable : ℕ → Bool) where
  -- a loop over notes
  unfoldable pub note_lines : Text → List Note → Text
  note_lines mark [] = []
  note_lines mark (n ∷ ns) = mark ++ (note_string printable n ++ (bytes "\n" ++ note_lines mark ns))

  -- what stands between the two ends
  unfoldable pub banner : Mirrored → Text
  unfolding note_lines rule_line
  banner m =
      bytes "\n"
      ++ (rule_line
          ++ (note_lines (bytes "# derived: ") m.supplied
              ++ (note_lines (bytes "# NOT DERIVED: ") m.missing ++ (rule_line ++ bytes "\n"))))

  unfoldable pub far_end : Text → Mirrored → Printed
  unfolding banner ending then_print
  far_end peer_underlay m = after (banner m) (
      then_print (render (bytes "far end") m.tree (new peer_underlay) false)
        λ (t, e). (t ++ ending m.missing, ok tt))

  unfoldable pub both_ends : Text → Text → Text → Node → Printed
  unfolding far_end then_print
  both_ends underlay peer_underlay inner root =
      then_print (render (bytes "near end") root (new underlay) false)
        λ (t, e). after t (then_print (peer root inner) (far_end peer_underlay))

  -- `cmdMirror`; an empty `-peer-underlay` is `-underlay`
  unfoldable pub mirror_command : Text → Text → Text → Text → Text → Printed
  unfolding both_ends then_print
  mirror_command underlay peer_underlay inner path src =
      then_print (read_tree path src)
        (both_ends underlay (if text_eq peer_underlay [] then underlay else peer_underlay) inner)
