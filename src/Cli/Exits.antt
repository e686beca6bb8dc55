-- ===== src/Cli/Exits.antt =====
-- How a run of cmd/pktc ends, whatever its arguments and the files are.
use pktc.Common.{ℕ, ◌≡◌, Bool, Text, bytes, [], ◌++◌}
use pktc.Diag.{Error}
use pktc.Diag.Format.{error_string}
use pktc.Ast.Total.{Returning}
use pktc.Cli.Mirror.{Printed}
use pktc.Cli.Main.{usage, Outcome}

-- it comes to an end, whatever it has printed
abbrev Ending : Printed → Type 0
Ending p = Returning p.1

module _ (printable : ℕ → Bool) where
  -- How a process ends: its work is done and nothing is on stderr; or the error is there, behind
  -- whatever was printed before; or it was called wrongly, and the usage is on stderr; or `-h` asked
  -- for the usage.
  pub data Ends (o : Outcome) : Type 0 where
    done : o.status ≡ 0 → o.err_out ≡ [] → Ends o
    stopped :
        (e : Error)
        → o.status ≡ 1
        → o.err_out ≡ bytes "pktc: " ++ (error_string printable e ++ bytes "\n")
        → Ends o
    misused : (before : Text) → o.status ≡ 2 → o.out ≡ [] → o.err_out ≡ before ++ usage → Ends o
    helped : o.status ≡ 0 → o.out ≡ [] → o.err_out ≡ usage → Ends o
