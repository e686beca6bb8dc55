-- ===== src/Command.antt =====
-- command/command.go: commands as argument lists, and their shell text.
pub mod Shell
use pktc.Common.{
  ℕ, leb, ◌==◌, Text, bytes, text_eq, contains_text, List, [], ◌∷◌, ◌++◌, map, join, all, Bool, not,
  ◌&&◌, ◌||◌, if◌then◌else◌,
}

pub record Command : Type 0 where
  pub argv : List Text
  pub why : Text

abbrev pub Script : Type 0
Script = List Command

-- `New`
abbrev pub command : Text → List Text → Command
command why argv = record { argv = argv; why = why }

unfoldable pub is_safe_byte : ℕ → Bool
is_safe_byte c =
    leb b'a' c && leb c b'z'
    || leb b'A' c && leb c b'Z'
    || leb b'0' c && leb c b'9'
    || c == b'.'
    || c == b'/'
    || c == b':'
    || c == b'-'
    || c == b'_'

-- `safe`
unfoldable pub safe : Text → Bool
safe s = not (text_eq s []) && all is_safe_byte s

-- `strings.ReplaceAll(s, "'", "'\\''")`
unfoldable pub replace_quotes : Text → Text
replace_quotes [] = []
replace_quotes (c ∷ s) =
    if c == b'\'' then b'\'' ∷ b'\\' ∷ b'\'' ∷ b'\'' ∷ replace_quotes s else c ∷ replace_quotes s

-- `quote`
unfoldable pub quote : Text → Text
unfolding replace_quotes
quote s =
    if safe s
    then s
    else if contains_text s (bytes "$(") && not (contains_text s (bytes "\""))
    then b'"' ∷ (s ++ b'"' ∷ [])
    else b'\'' ∷ (replace_quotes s ++ b'\'' ∷ [])

-- `Command.String`
unfoldable pub command_string : Command → Text
command_string c = join (map quote c.argv) (bytes " ")

-- one round of `Shell`: the reason as a comment, and the command's line
unfoldable pub shell_lines : Command → Text
unfolding command_string
shell_lines c =
    (if not (text_eq c.why []) then bytes "# " ++ (c.why ++ bytes "\n") else [])
    ++ (command_string c ++ bytes "\n")

-- `Script.Shell`: an empty line between commands
unfoldable pub shell : Script → Text
unfolding shell_lines
shell [] = []
shell (c ∷ []) = shell_lines c
shell (c ∷ d ∷ s) = shell_lines c ++ (bytes "\n" ++ shell (d ∷ s))

-- `Script.Plain`
unfoldable pub plain : Script → Text
unfolding command_string
plain s = join (map command_string s) (bytes "\n")
