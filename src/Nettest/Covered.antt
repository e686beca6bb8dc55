-- ===== src/Nettest/Covered.antt =====
-- internal/nettest/nettest.go on what `render` of cmd/pktc/main.go prints for a covering.
use pktc.Common.{
  ◌<◌, refl, ap, List, [], length, length-append, arith, ◌≡◌, sym, subst, Bool, Text, ◌∷◌, map, All,
}
use pktc.Std.Trim.{OneLine}
use pktc.Ast.{Node}
use pktc.Spine.{Spine, names, from_form}
use pktc.Spine.Chain.{from_form-Configures}
use pktc.Diag.{ok, Returns-ok}
use pktc.Command.{Command, Script, command_string}
use pktc.Env.{Env}
use pktc.Tile.Cover.{Covering, bring_all_up, cover}
use pktc.Linux.Tiles.{linux}
use pktc.Linux.Sound.{Sound}
use pktc.Linux.Cover.{Covered, cover-Covered}
use pktc.Linux.Texts.{cover-Texts}
use pktc.Mirror.{layers_of}
use pktc.Mirror.Lines.{NamesFit}
use pktc.Mirror.Tiled.{layers_of-Configures}
use pktc.Cli.{rendered}
use pktc.Nettest.Lines.{Fits}
use pktc.Nettest.Script.{Prints}
use pktc.Nettest.Rendered.{rendered-Prints}

-- A covering whose script has a command, and whose texts are on one line each.
pub record Scripted (c : Covering) : Type 0 where
  pub first : Command
  pub more : Script
  pub full : c.script ≡ first ∷ more
  pub fits : All Fits (first ∷ more)
  pub applied_fit : All OneLine c.applied
  pub payload_fits : All OneLine (names c.payload)

pub covering-Prints :
    (heading : Text) (sp : Spine) (c : Covering) (quiet : Bool)
    → OneLine heading
    → All OneLine (names sp)
    → Scripted c
    → Prints (rendered heading sp c quiet) (map command_string c.script)
covering-Prints heading sp c quiet hh hn s =
    subst
      (λ script.
        Prints
          (rendered heading sp
            (record { script = script; applied = c.applied; payload = c.payload }) quiet)
          (map command_string script))
      (sym s.full)
      (rendered-Prints heading sp c.applied s.first s.more c.payload quiet s.fits hh hn
        s.applied_fit s.payload_fits)

pub names-OneLine :
    (root : Node) (sp : Spine) → from_form root ≡ ok sp → NamesFit root → All OneLine (names sp)
unfolding names
names-OneLine root sp formed h =
    let layers : layers_of root ≡ root ∷ sp =
      layers_of-Configures (Returns-ok (from_form-Configures root) formed) in
    (subst (λ ls. All OneLine (names ls)) layers h).1

has_command :
    (s : Script)
    → 0 < length s
    → All Fits s
    → (c : Command) × (more : Script) × (s ≡ c ∷ more) × All Fits (c ∷ more)
has_command [] h fit = absurd (omega arith)
has_command (c ∷ s) h fit = (c, s, refl, fit)

bring_all_up-pos : (devs : List Text) → 0 < length devs → 0 < length (bring_all_up devs)
unfolding bring_all_up
bring_all_up-pos [] h = absurd (omega arith)
bring_all_up-pos (d ∷ devs) h = omega arith

script-pos :
    (e e' : Env) (c : Covering) → Covered e c e' → 0 < length c.applied → 0 < length c.script
script-pos e e' c covered h =
    let up = bring_all_up-pos covered.devices (omega (arith, covered.counted)) in
    omega (
      arith,
      ap length covered.ends_up,
      length-append covered.before (bring_all_up covered.devices),
      up,
    )

-- the commands of a covering's script
abbrev pub AllFit : Covering → Type 0
AllFit c = All Fits c.script

-- A covering from a sound environment has what its script needs to be run line by line, but for the texts
-- of its commands.
pub covered-Scripted :
    (sp : Spine) (e e' : Env) (c : Covering)
    → Sound e
    → All OneLine (names sp)
    → cover linux sp e ≡ ok (c, e')
    → AllFit c
    → Scripted c × Sound e'
unfolding cover
covered-Scripted [] e e' c sound h covered fit = cc covered
covered-Scripted (n ∷ sp) e e' c sound h covered fit =
    let texts = Returns-ok (cover-Texts n sp e h) covered in
    let made = Returns-ok (cover-Covered n sp e sound) covered in
    let (first, more, full, fits) =
      has_command c.script (script-pos e e' c made texts.some_tile) fit in
    (
      record {
        first = first;
        more = more;
        full = full;
        fits = fits;
        applied_fit = texts.applied_fit;
        payload_fits = texts.payload_fits;
      },
      made.sound,
    )
