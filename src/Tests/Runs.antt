-- ===== src/Tests/Runs.antt =====
-- Whole runs of cmd/pktc.
use pktc.Common.{
  ℕ, ◌≡◌, refl, Bool, true, false, Text, bytes, text_eq, [], ◌∷◌, ◌++◌, if◌then◌else◌,
}
use pktc.Diag.{ok}
use pktc.Std.Flag.{parse, put_setting, get_setting}
use pktc.Std.Quote.{quoted}
use pktc.Std.Utf8.{pieces}
use pktc.Std.Netip
use pktc.Sexp.Value
use pktc.Cli.Mirror.{mirror_command}
use pktc.Cli.Main.{File, contents, unreadable, usage, main, on_file}
use pktc.Cli.Args.{lower_args, mirror_args, lowered, main-flags}

abbrev no_tables : ℕ → Bool
no_tables r = false

abbrev tunnel_file : Text
tunnel_file = bytes "(configure (ipv4 :src \"::1\" :dst \"::2\" (gre (ethernet))))"

abbrev one_file : Text → File
one_file path =
    if text_eq path (bytes "t.lisp")
    then contents tunnel_file
    else unreadable (bytes "no such file")

main-flags_example :
    (main no_tables one_file
        (lower_args (bytes "pktc") (bytes "-wan") (bytes "/keys") true (bytes "-t.lisp"))
      ≡ on_file no_tables one_file (lowered (bytes "-wan") (bytes "/keys") true) (bytes "-t.lisp"))
    × (main no_tables one_file
          (mirror_args (bytes "pktc") (bytes "-wan") (bytes "lan") [] (bytes "-t.lisp"))
        ≡ on_file no_tables one_file
            (mirror_command no_tables (bytes "-wan") (bytes "lan") [])
            (bytes "-t.lisp"))
main-flags_example =
    main-flags no_tables one_file (bytes "pktc") (bytes "-wan") (bytes "lan") (bytes "/keys") []
      true (bytes "-t.lisp")

unknown-run :
    main no_tables one_file (bytes "pktc" ∷ bytes "up\n" ∷ [])
    ≡ ok (record {
      out = [];
      err_out = bytes "pktc: unknown command \"up\\n\"\n\n" ++ usage;
      status = 2;
    })
unfolding main bytes text_eq quoted pieces
unknown-run = refl

unreadable-run :
    main no_tables one_file (bytes "pktc" ∷ bytes "lower" ∷ bytes "-quiet" ∷ bytes "u" ∷ [])
    ≡ ok (record { out = []; err_out = bytes "pktc: no such file\n"; status = 1 })
unfolding main bytes text_eq parse put_setting get_setting pktc.Diag.Format.error_string
unreadable-run = refl

abbrev mirror_out : Text
mirror_out = (mirror_command no_tables (bytes "eth0") [] [] (bytes "t.lisp") tunnel_file).0
