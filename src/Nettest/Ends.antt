-- ===== src/Nettest/Ends.antt =====
-- internal/nettest/nettest.go on what `pktc mirror` prints.
use pktc.Common.{ℕ, ◌≡◌, refl, sym, subst, Bool, false, Text, bytes, contains_byte, ◌++◌, map, All}
use pktc.Std.Trim.{OneLine}
use pktc.Ast.{Node}
use pktc.Spine.{names}
use pktc.Diag.{Returns-ok}
use pktc.Command.{command_string}
use pktc.Mirror.Lines.{NoteFits, NamesFit, peer-Fits}
use pktc.Mirror.Peer.{peer-SameNames}
use pktc.Cli.Mirror.{ending}
use pktc.Cli.Both.{End, BothEnds}
use pktc.Nettest.{Host, run_script}
use pktc.Nettest.Script.{Prints, Prints-append, run_all, run_script-Prints}
use pktc.Env.{new, reset}
use pktc.Linux.Sound.{new-Sound}
use pktc.Cli.Lower.{reset-Sound}
use pktc.Nettest.Covered.{AllFit, covered-Scripted, covering-Prints, names-OneLine}
use pktc.Nettest.Banner.{banner_lines, banner-lined, banner-OneLine, banner-Shows, ended-Prints}

End-Prints :
    (heading : Text) {root : Node} {underlay out : Text} (e : End heading root underlay out)
    → OneLine heading
    → All OneLine (names e.spine)
    → AllFit e.covering
    → Prints out (map command_string e.covering.script)
End-Prints heading {underlay = underlay} e hh hn fit =
    subst (λ t. Prints t (map command_string e.covering.script)) (sym e.prints)
      (covering-Prints heading e.spine e.covering false hh hn (
        (covered-Scripted e.spine (reset (new underlay)) e.later e.covering
          (reset-Sound (new-Sound underlay)) hn e.covered fit).0))

near_heading : OneLine (bytes "near end")
unfolding bytes contains_byte
near_heading = refl

far_heading : OneLine (bytes "far end")
unfolding bytes contains_byte
far_heading = refl

-- What a successful `pktc mirror` prints, run as one script by `RunScript`, runs the commands of the
-- near end and then those of the far end, and nothing else: no note is a command, whatever the
-- peer is called. It is so where the names of the layers and the given address hold no newline, each
-- command has an argument, and no argument and no reason of a command holds a newline.
pub run_script-mirror :
    {W : Type 0} (h : Host W) (ns : Text) (printable : ℕ → Bool) (root : Node)
    (underlay peer_underlay inner out : Text)
    (both : BothEnds printable root underlay peer_underlay inner out)
    → NamesFit root
    → OneLine inner
    → AllFit both.near.covering
    → AllFit both.far.covering
    → run_script h ns out
      ≡ run_all h ns (
          map command_string both.near.covering.script
          ++ map command_string both.far.covering.script)
run_script-mirror h ns printable root underlay peer_underlay inner out both hn hi near far =
    run_script-Prints h ns (
      subst
        (λ t. Prints t (
          map command_string both.near.covering.script
          ++ map command_string both.far.covering.script))
        (sym both.prints)
        (subst
          (λ t. Prints (both.near_out ++ (t ++ (both.far_out ++ ending both.mirrored.missing))) (
            map command_string both.near.covering.script
            ++ map command_string both.far.covering.script))
          (sym (banner-lined printable both.mirrored))
          (Prints-append (banner_lines printable both.mirrored)
            (End-Prints (bytes "near end") both.near near_heading
              (names-OneLine root both.near.spine both.near.formed hn) near)
            (banner-OneLine printable both.mirrored notes.0 notes.1)
            (banner-Shows printable both.mirrored)
            (ended-Prints both.mirrored.missing (
              End-Prints (bytes "far end") both.far far_heading
                (names-OneLine both.mirrored.tree both.far.spine both.far.formed far_names) far)))))
  where
    notes : All NoteFits both.mirrored.supplied × All NoteFits both.mirrored.missing
    notes = Returns-ok (peer-Fits inner hi root hn) both.derived

    far_names : NamesFit both.mirrored.tree
    far_names = subst (All OneLine) (sym (Returns-ok (peer-SameNames root inner) both.derived)) hn
