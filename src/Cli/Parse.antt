-- ===== src/Cli/Parse.antt =====
-- cmd/pktc/main.go: `cmdParse`, on a file whose text has been read.
use pktc.Common.{ℕ, ◌==◌, ltb, Text, bytes, [], ◌∷◌, ◌++◌, length, map, join, if◌then◌else◌}
use pktc.Diag.{Result, ok, ◌>>=◌}
use pktc.Sexp.Value.{text_of}
use pktc.Ast.{Prop, Node, name_of, props_of}
use pktc.Spine.{Spine, spine_string}
use pktc.Tile.Report.{padded}
use pktc.Cli.{read_spine}

-- `:%s %s`
unfoldable pub prop_text : Prop → Text
prop_text p = bytes ":" ++ (p.key ++ (bytes " " ++ text_of p.val))

-- `describe`
unfoldable pub describe : Node → Text
unfolding prop_text
describe n = join (map prop_text (props_of n)) (bytes "  ")

-- the loop over the names: the longest, in bytes
unfoldable pub name_width : ℕ → Spine → ℕ
name_width w [] = w
name_width w (n ∷ sp) = name_width (if ltb w (length (name_of n)) then length (name_of n) else w) sp

-- a byte in front of what is left of the text behind it
abbrev keep : ℕ → Text → Text
keep c [] = if c == b' ' then [] else c ∷ []
keep c (d ∷ s) = c ∷ d ∷ s

-- `strings.TrimRight(s, " ")`
unfoldable pub trim_right : Text → Text
trim_right [] = []
trim_right (c ∷ s) = keep c (trim_right s)

-- `  %-*s  %s`, trimmed, for each layer
unfoldable pub layer_lines : ℕ → Spine → Text
unfolding describe trim_right
layer_lines w [] = []
layer_lines w (n ∷ sp) =
    trim_right (bytes "  " ++ (padded w (name_of n) ++ (bytes "  " ++ describe n)))
    ++ (bytes "\n" ++ layer_lines w sp)

unfoldable pub parse_view : Spine → Text
unfolding layer_lines name_width
parse_view sp =
    bytes "spine: " ++ (spine_string sp ++ (bytes "\n\n" ++ layer_lines (name_width 0 sp) sp))

-- `cmdParse`: what it prints
unfoldable pub parse_command : Text → Text → Result Text
unfolding parse_view
parse_command path src = read_spine path src >>= λ sp. ok (parse_view sp)
