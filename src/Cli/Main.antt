-- ===== src/Cli/Main.antt =====
-- cmd/pktc/main.go: `main`, with the flags of `lower` and `mirror`. The file system is the parameter
-- `files`, what `os.ReadFile` makes of a path; an outcome is what the process writes and its status.
use pktc.Common.{
  ℕ, Bool, false, Text, bytes, text_eq, some, List, [], ◌∷◌, ◌++◌, ◌||◌, if◌then◌else◌,
}
use pktc.Diag.{plain, outside, Result, ok, err, fault}
use pktc.Diag.Format.{error_string}
use pktc.Std.Quote.{quoted}
use pktc.Std.Flag.{text, switch, Settings, get_setting, Parsed, parsed, help, failed, parse}
use pktc.Env.{default_key_dir}
use pktc.Cli.{lower}
use pktc.Cli.Views.{expect_command, explain_command}
use pktc.Cli.Parse.{parse_command}
use pktc.Cli.Mirror.{Printed, then_print, mirror_command}

unfoldable pub usage : Text
usage =
    bytes "pktc — describe the packet, derive the configuration\n"
    ++ (bytes "\n"
        ++ (bytes "usage:\n"
            ++ (bytes "  pktc parse <file>              print the encapsulation spine\n"
                ++ (bytes "  pktc lower [flags] <file>      print the commands that produce it\n"
                    ++ (bytes "  pktc mirror [flags] <file>     print both ends of the tunnel\n"
                        ++ (bytes
                              "  pktc expect <file>             print what the underlay should carry\n"
                            ++ (bytes
                                  "  pktc explain <file>            print which tiles bid and why one won\n"
                                ++ (bytes "\n"
                                    ++ (bytes "lower flags:\n"
                                        ++ (bytes
                                              "  -underlay <dev>   physical device the outermost tunnel attaches to (default eth0)\n"
                                            ++ (bytes
                                                  "  -quiet            omit explanatory comments\n"
                                                ++ (bytes
                                                      "  -key-dir <dir>    where a script looks for key material (default /etc/wireguard)\n"
                                                    ++ (bytes "\n"
                                                        ++ (bytes "mirror flags:\n"
                                                            ++ (bytes
                                                            "  -underlay <dev>       underlay on the near end (default eth0)\n"
                                                            ++ (bytes
                                                            "  -peer-underlay <dev>  underlay on the far end (defaults to -underlay)\n"
                                                            ++ (bytes
                                                            "  -peer-inner <cidr>    the far end's inner address; without it the peer\n"
                                                            ++ (bytes
                                                            "                        script omits the address and says so\n"
                                                            ++ (bytes "\n"
                                                            ++ (bytes
                                                            "pktc prints configuration; it never applies it.\n"))))))))))))))))))))

-- `os.ReadFile`: the contents, or the text of its error
pub data File : Type 0 where
  contents : Text → File
  unreadable : Text → File

pub record Outcome : Type 0 where
  pub out : Text
  pub err_out : Text
  pub status : ℕ

unfoldable pub loaded : File → Result Text
loaded (contents t) = ok t
loaded (unreadable m) = err (plain (outside m))

-- `fs.Usage(); os.Exit(2)`, behind what has been written to stderr
unfoldable pub usage_exit : Text → Result Outcome
usage_exit before = ok (record { out = []; err_out = before ++ usage; status = 2 })

abbrev pub printed : Result Text → Printed
printed (ok t) = (t, ok tt)
printed (err e) = ([], err e)
printed (fault x) = ([], fault x)

abbrev pub dropped : {A : Type 0} → Result A → Result (Unit {0})
dropped (ok a) = ok tt
dropped (err e) = err e
dropped (fault x) = fault x

-- the values of flags
unfoldable pub text_flag : Text → Settings → Text
text_flag name st = elim (get_setting name st) [ some (text t) ↦ t | _ ↦ [] ]

unfoldable pub bool_flag : Text → Settings → Bool
bool_flag name st = elim (get_setting name st) [ some (switch b) ↦ b | _ ↦ false ]

abbrev pub lower_flags : Settings
lower_flags =
    (bytes "underlay", text (bytes "eth0"))
    ∷ (bytes "quiet", switch false)
    ∷ (bytes "key-dir", text default_key_dir)
    ∷ []

abbrev pub mirror_flags : Settings
mirror_flags =
    (bytes "underlay", text (bytes "eth0"))
    ∷ (bytes "peer-underlay", text [])
    ∷ (bytes "peer-inner", text [])
    ∷ []

unfoldable pub lower_with : Settings → Text → Text → Printed
unfolding text_flag bool_flag
lower_with st path src =
    let (t, r) =
      lower (text_flag (bytes "underlay") st) (text_flag (bytes "key-dir") st)
        (bool_flag (bytes "quiet") st) path src in
    (t, dropped r)

module _ (printable : ℕ → Bool) where
  -- the end of `main`
  unfoldable pub finish : Printed → Result Outcome
  finish (t, ok u) = ok (record { out = t; err_out = []; status = 0 })
  finish (t, err e) = ok (record {
    out = t;
    err_out = bytes "pktc: " ++ (error_string printable e ++ bytes "\n");
    status = 1;
  })
  finish (t, fault x) = fault x

  unfoldable pub mirror_with : Settings → Text → Text → Printed
  unfolding text_flag
  mirror_with st path src =
      mirror_command printable (text_flag (bytes "underlay") st)
        (text_flag (bytes "peer-underlay") st) (text_flag (bytes "peer-inner") st) path src

  module _ (files : Text → File) where
    -- a command on the contents of the file at a path
    unfoldable pub on_file : (Text → Text → Printed) → Text → Result Outcome
    unfolding loaded finish then_print
    on_file command path = finish (then_print (loaded (files path)) (command path))

    -- a command that takes one argument and no flags
    unfoldable pub on_argument : (Text → Text → Printed) → List Text → Result Outcome
    unfolding on_file usage_exit
    on_argument command (path ∷ []) = on_file command path
    on_argument command _ = usage_exit []

    -- a command with flags: `ExitOnError` of package flag, and the test of `NArg`
    unfoldable pub on_flags : (Settings → Text → Text → Printed) → Parsed → Result Outcome
    unfolding on_file usage_exit usage
    on_flags command (parsed st (path ∷ [])) = on_file (command st) path
    on_flags command (parsed st _) = usage_exit []
    on_flags command help = ok (record { out = []; err_out = usage; status = 0 })
    on_flags command (failed m) = usage_exit (m ++ bytes "\n")

    -- the switch of `main` over the command's name
    unfoldable pub dispatch : Text → List Text → Result Outcome
    unfolding on_argument on_flags lower_with mirror_with
    dispatch name args =
        if text_eq name (bytes "parse")
        then on_argument (λ path src. printed (parse_command path src)) args
        else if text_eq name (bytes "lower")
        then on_flags lower_with (parse printable args lower_flags)
        else if text_eq name (bytes "mirror")
        then on_flags mirror_with (parse printable args mirror_flags)
        else if text_eq name (bytes "expect")
        then on_argument (λ path src. printed (expect_command path src)) args
        else if text_eq name (bytes "explain")
        then on_argument explain_command args
        else if text_eq name (bytes "-h")
            || text_eq name (bytes "--help")
            || text_eq name (bytes "help")
        then ok (record { out = usage; err_out = []; status = 0 })
        else usage_exit (bytes "pktc: unknown command " ++ (quoted printable name ++ bytes "\n\n"))

    -- `main`, on `os.Args`
    unfoldable pub main : List Text → Result Outcome
    unfolding dispatch
    main (program ∷ name ∷ args) = dispatch name args
    main _ = usage_exit []
