-- ===== src/Nettest/Quiet.antt =====
-- command/command.go: the lines of a script without comments.
use pktc.Common.{◌≡◌, refl, ap, ◌∙◌, Text, bytes, List, [], ◌∷◌, ◌++◌, append_assoc, map, join, All}
use pktc.Std.Trim.{OneLine, lined}
use pktc.Command.{Command, Script, command_string, plain}
use pktc.Nettest.Lines.{Edged-Framed, Fits, command_string-Edged, command_string-OneLine}
use pktc.Nettest.Script.{Leads, no_lines, Shows, over, runs}
use pktc.Nettest.Printed.{last_line, Framed-Leads}

-- the lines of `-quiet`, but for the last
pub plain_front : Command → Script → List Text
plain_front c [] = []
plain_front c (d ∷ s) = command_string c ∷ plain_front d s

pub plain-lined :
    (c : Command) (s : Script) → plain (c ∷ s) ≡ lined (plain_front c s) ++ last_line c s
unfolding plain join plain_front last_line lined
plain-lined c [] = refl
plain-lined c (d ∷ s) =
    ap (λ w. command_string c ++ (bytes "\n" ++ w)) (plain-lined d s) ∙ simp append_assoc

pub plain-OneLine : (c : Command) (s : Script) → All Fits (c ∷ s) → All OneLine (plain_front c s)
unfolding plain_front
plain-OneLine c [] fit = tt
plain-OneLine c (d ∷ s) (f, more) = (command_string-OneLine f, plain-OneLine d s more)

pub plain-Shows :
    (c : Command) (s : Script)
    → All Fits (c ∷ s)
    → Shows (plain_front c s ++ last_line c s ∷ []) (map command_string (c ∷ s))
unfolding plain_front last_line
plain-Shows c [] (f, _) = runs (command_string-Edged f) over
plain-Shows c (d ∷ s) (f, more) = runs (command_string-Edged f) (plain-Shows d s more)

pub plain-Leads : (c : Command) (s : Script) → All Fits (c ∷ s) → Leads (plain_front c s)
unfolding plain_front
plain-Leads c [] fit = no_lines
plain-Leads c (d ∷ s) (f, more) = Framed-Leads _ (Edged-Framed (command_string-Edged f))
