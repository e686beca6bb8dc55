-- ===== src/Tests/Commands.antt =====
-- The commands of cmd/pktc.
use pktc.Common.{bytes, []}
use pktc.Diag.{Pos}
use pktc.Ast.{Node, node, none_below, child}
use pktc.Linux.Sound.{Sound}

abbrev here : Pos
here = record { file = bytes "t.lisp"; line = 1; col = 1 }

-- `(configure (ipv4))`
abbrev inner_only : Node
inner_only =
    node (bytes "configure") [] (child (node (bytes "ipv4") [] none_below here) none_below) here
