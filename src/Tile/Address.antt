-- ===== src/Tile/Address.antt =====
-- tile/cover.go: the address that a layer carries.
use pktc.Common.{Bool, Text, bytes, text_eq, Option, none, some, [], ◌||◌, not, if◌then◌else◌}
use pktc.Diag.{Result, ok, ◌>>=◌}
use pktc.Std.Netip.{Prefix, prefix_string}
use pktc.Ast.{Prop, Node, name_of, lookup}
use pktc.Ast.Reading.{get, concrete_value}
use pktc.Ast.Props.{src_prefix}

-- is the layer `ipv4` or `ipv6`?
abbrev pub is_ip : Node → Bool
is_ip n = text_eq (name_of n) (bytes "ipv4") || text_eq (name_of n) (bytes "ipv6")

abbrev pub prefix_text : Option Prefix → Text
prefix_text none = []
prefix_text (some p) = prefix_string p

unfoldable pub address_from : Node → Option Prop → Result Text
address_from n none = ok []
address_from n (some _) = get n src_prefix >>= λ p. ok (prefix_text (concrete_value p))

-- `AddressOf`: the address and its length, or the empty string
unfoldable pub address_of : Node → Result Text
unfolding address_from
address_of n = if not (is_ip n) then ok [] else address_from n (lookup n (bytes "src"))
