-- ===== src/Cli/Args.antt =====
-- How the flags of `lower` and `mirror` reach their commands.
use pktc.Common.{
  ℕ, ◌≡◌, refl, Bool, true, false, Text, bytes, text_eq, List, [], ◌∷◌, ◌++◌, if◌then◌else◌,
}
use pktc.Std.Flag.{parse, put_setting, get_setting}
use pktc.Cli.{lower}
use pktc.Cli.Mirror.{Printed, mirror_command}
use pktc.Cli.Main.{File, dropped, text_flag, bool_flag, lower_with, mirror_with, on_file, main}

abbrev pub lowered : Text → Text → Bool → Text → Text → Printed
lowered underlay key_dir quiet path src =
    let (t, r) = lower underlay key_dir quiet path src in (t, dropped r)

-- `-quiet`, or nothing
abbrev pub quiet_flag : Bool → List Text
quiet_flag quiet = if quiet then bytes "-quiet" ∷ [] else []

abbrev pub lower_args : Text → Text → Text → Bool → Text → List Text
lower_args program underlay key_dir quiet path =
    program
    ∷ bytes "lower"
    ∷ bytes "-underlay"
    ∷ underlay
    ∷ bytes "-key-dir"
    ∷ key_dir
    ∷ (quiet_flag quiet ++ (bytes "--" ∷ path ∷ []))

abbrev pub mirror_args : Text → Text → Text → Text → Text → List Text
mirror_args program underlay peer_underlay inner path =
    program
    ∷ bytes "mirror"
    ∷ bytes "-underlay"
    ∷ underlay
    ∷ bytes "-peer-underlay"
    ∷ peer_underlay
    ∷ bytes "-peer-inner"
    ∷ inner
    ∷ bytes "--"
    ∷ path
    ∷ []

module _ (printable : ℕ → Bool) (files : Text → File) (program : Text) where
  main-lower :
      (underlay key_dir : Text) (quiet : Bool) (path : Text)
      → main printable files (lower_args program underlay key_dir quiet path)
        ≡ on_file printable files (lowered underlay key_dir quiet) path
  unfolding main bytes text_eq parse put_setting get_setting text_flag bool_flag lower_with
  main-lower underlay key_dir true path = refl
  main-lower underlay key_dir false path = refl

  main-mirror :
      (underlay peer_underlay inner path : Text)
      → main printable files (mirror_args program underlay peer_underlay inner path)
        ≡ on_file printable files (mirror_command printable underlay peer_underlay inner) path
  unfolding main bytes text_eq parse put_setting get_setting text_flag bool_flag mirror_with
  main-mirror underlay peer_underlay inner path = refl

  -- The values of all flags of `lower` and of `mirror` and the path behind `--` reach the commands as they
  -- are written, also where they begin with a dash or are empty.
  pub main-flags :
      (underlay peer_underlay key_dir inner : Text) (quiet : Bool) (path : Text)
      → (main printable files (lower_args program underlay key_dir quiet path)
          ≡ on_file printable files (lowered underlay key_dir quiet) path)
        × (main printable files (mirror_args program underlay peer_underlay inner path)
            ≡ on_file printable files (mirror_command printable underlay peer_underlay inner) path)
  main-flags underlay peer_underlay key_dir inner quiet path =
      (main-lower underlay key_dir quiet path, main-mirror underlay peer_underlay inner path)
