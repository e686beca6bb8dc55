-- ===== src/Tests/Scripts.antt =====
-- What internal/nettest/nettest.go runs of printed scripts, and its namespaces.
use pktc.Common.{
  List, ◌∷◌, text_eq, join, contains_text, ℕ, All, ◌++◌, none, map, true, Bool, false, ◌≡◌, refl,
  Text, bytes, contains_byte, [],
}
use pktc.Diag.{ok}
use pktc.Spine.{names}
use pktc.Env.{new, reset}
use pktc.Command.{command, command_string, quote, safe, replace_quotes}
use pktc.Std.Strings.{trim_space, split_lines}
use pktc.Tile.Cover.{cover}
use pktc.Linux.Tiles.{linux}
use pktc.Mirror.{layers_of}
use pktc.Mirror.Lines.{NamesFit}
use pktc.Cli.{rendered}
use pktc.Cli.Mirror.{banner, ending}
use pktc.Cli.Both.{BothEnds}
use pktc.Nettest.{Host, Test, run_script, goes_on, skips, fatal}
use pktc.Nettest.Pair.{new_pair}
use pktc.Nettest.Pair.{new as new_namespace}
use pktc.Nettest.Undo.{Settles, IsTidy, undo}
use pktc.Nettest.Tidy.{setup-IsTidy}
use pktc.Nettest.Lines.{Fits, command-Fits}
use pktc.Std.Trim.{OneLine}
use pktc.Nettest.Script.{run_all}
use pktc.Nettest.Ends.{run_script-mirror}
use pktc.Tests.Mirrored.{
  tree, spine, covering, behind, mirrored, peer-run, from_form-near, from_form-far, cover-near,
  cover-far,
}

abbrev no_tables : ℕ → Bool
no_tables r = false

near_again :
    cover linux (spine (bytes "::1") (bytes "::2")) (reset (new (bytes "eth0")))
    ≡ ok (covering (bytes "::1") (bytes "::2"), behind)
unfolding reset new
near_again = cover-near

far_again :
    cover linux (spine (bytes "::2") (bytes "::1")) (reset (new (bytes "eth0")))
    ≡ ok (covering (bytes "::2") (bytes "::1"), behind)
unfolding reset new
far_again = cover-far

abbrev end_out : Text → Text → Text → Text
end_out heading src dst = rendered heading (spine src dst) (covering src dst) false

abbrev both_out : Text
both_out =
    end_out (bytes "near end") (bytes "::1") (bytes "::2")
    ++ (banner no_tables mirrored
        ++ (end_out (bytes "far end") (bytes "::2") (bytes "::1") ++ ending mirrored.missing))

abbrev both :
    BothEnds no_tables (tree (bytes "::1") (bytes "::2")) (bytes "eth0") (bytes "eth0") [] both_out
both = record {
  mirrored = mirrored;
  derived = peer-run;
  near_out = end_out (bytes "near end") (bytes "::1") (bytes "::2");
  near = record {
    spine = spine (bytes "::1") (bytes "::2");
    formed = from_form-near;
    covering = covering (bytes "::1") (bytes "::2");
    later = behind;
    covered = near_again;
    prints = refl;
  };
  far_out = end_out (bytes "far end") (bytes "::2") (bytes "::1");
  far = record {
    spine = spine (bytes "::2") (bytes "::1");
    formed = from_form-far;
    covering = covering (bytes "::2") (bytes "::1");
    later = behind;
    covered = far_again;
    prints = refl;
  };
  same_tiles = refl;
  prints = refl;
}

names_fit : NamesFit (tree (bytes "::1") (bytes "::2"))
unfolding layers_of names contains_byte bytes
names_fit = (refl, (refl, (refl, (refl, tt))))

script_fits :
    All Fits (covering (bytes "::1") (bytes "::2")).script
    × All Fits (covering (bytes "::2") (bytes "::1")).script
unfolding contains_byte bytes
script_fits = (
  (command-Fits _ _ _ refl refl, (command-Fits _ _ _ refl refl, tt)),
  (command-Fits _ _ _ refl refl, (command-Fits _ _ _ refl refl, tt)),
)

abbrev pub quiet_host : Host (Unit {0})
quiet_host = record {
  exec = λ argv w. (record { out = []; failure = none }, w);
  has_program = λ name. true;
  euid = 0;
  pid = 7;
}

empty_fits : OneLine []
unfolding contains_byte
empty_fits = refl

run_script-mirror_example :
    run_script quiet_host (bytes "ns") both_out
    ≡ run_all quiet_host (bytes "ns") (
        map command_string (covering (bytes "::1") (bytes "::2")).script
        ++ map command_string (covering (bytes "::2") (bytes "::1")).script)
run_script-mirror_example =
    run_script-mirror quiet_host (bytes "ns") no_tables (tree (bytes "::1") (bytes "::2"))
      (bytes "eth0") (bytes "eth0") [] both_out both names_fit empty_fits script_fits.0
      script_fits.1

abbrev fresh : Test (Unit {0})
fresh = record { world = tt; cleanups = []; ran = [] }

fresh-IsTidy : IsTidy fresh
unfolding undo
fresh-IsTidy = refl

setup-IsTidy_example :
    Settles IsTidy (new_namespace quiet_host (bytes "a") (bytes "10.0.0.1") fresh)
    × Settles IsTidy (new_pair quiet_host (bytes "a") (bytes "10.0.0.1") (bytes "10.0.0.2") fresh)
setup-IsTidy_example =
    setup-IsTidy quiet_host (bytes "a") (bytes "10.0.0.1") (bytes "10.0.0.2") fresh fresh-IsTidy

-- An argument that holds a newline is quoted with the newline in it, so `RunScript` takes the command for
-- two, neither of which it is.
abbrev split_argument : List (List Text)
split_argument =
    elim (run_script quiet_host (bytes "ns")
      (command_string (command [] (bytes "echo" ∷ bytes "a\nb" ∷ []))) fresh) [
        | goes_on e t ↦ map (λ (argv, b). argv) t.ran
        | skips m t ↦ []
        | fatal m t ↦ []
      ]

split_argument-run :
    split_argument
    ≡ (bytes "ip"
        ∷ bytes "netns"
        ∷ bytes "exec"
        ∷ bytes "ns"
        ∷ bytes "sh"
        ∷ bytes "-c"
        ∷ bytes "b'"
        ∷ [])
      ∷ (bytes "ip"
          ∷ bytes "netns"
          ∷ bytes "exec"
          ∷ bytes "ns"
          ∷ bytes "sh"
          ∷ bytes "-c"
          ∷ bytes "echo 'a"
          ∷ [])
      ∷ []
unfolding run_script bytes text_eq command_string quote safe join contains_text contains_byte
    trim_space split_lines pktc.Command.is_safe_byte
split_argument-run = refl
