-- ===== src/Linux/Endpoint.antt =====
-- tiles/linux/endpoint.go: one end of a tunnel as the tree describes it.
use pktc.Common.{
  Bool, true, false, Text, bytes, text_eq, contains_byte, Option, none, some, [], ◌∷◌, ◌++◌,
  if◌then◌else◌,
}
use pktc.Diag.{Pos, errorf, bad_value, Result, ok, err, fault, ◌>>=◌}
use pktc.Std.Netip
use pktc.Std.Netip.{Addr, Prefix, addr_string, prefix_string}
use pktc.Sexp.Kind.{k_star, ◌≟◌}
use pktc.Sexp.Value.{Value, kind_of, text_of, pos_of}
use pktc.Ast.{Prop, Node, name_of, node_pos, lookup}
use pktc.Ast.Props.{parse_addr, parse_prefix}
use pktc.Command.{Script, command}

pub record Endpoint : Type 0 where
  pub addr : Text
  pub prefix : Text
  pub dynamic : Bool
  pub absent : Bool
  pub pos : Pos

abbrev pub concrete_end : Pos → Text → Text → Endpoint
concrete_end p a pfx = record { addr = a; prefix = pfx; dynamic = false; absent = false; pos = p }

-- an error of the parse is one of the property
unfoldable pub explained {ℓ} : {A : Type ℓ} → Node → Text → Value → Result A → Result A
explained n key v (ok a) = ok a
explained n key v (err e) = err (errorf (pos_of v) (bad_value (name_of n) key e))
explained n key v (fault x) = fault x

unfoldable pub concrete_endpoint : Node → Text → Value → Result Endpoint
unfolding explained
concrete_endpoint n key v =
    if contains_byte b'/' (text_of v)
    then (explained n key v (parse_prefix v) >>= λ pfx.
        ok (concrete_end (pos_of v) (addr_string pfx.addr) (prefix_string pfx)))
    else (explained n key v (parse_addr v) >>= λ a. ok (concrete_end (pos_of v) (addr_string a) []))

unfoldable pub endpoint_of : Node → Text → Option Prop → Result Endpoint
unfolding concrete_endpoint
endpoint_of n key none =
    ok (record { addr = []; prefix = []; dynamic = false; absent = true; pos = node_pos n })
endpoint_of n key (some p) =
    if kind_of p.val ≟ k_star
    then ok (record { addr = []; prefix = []; dynamic = true; absent = false; pos = pos_of p.val })
    else concrete_endpoint n key p.val

-- `readEndpoint`
unfoldable pub read_endpoint : Node → Text → Result Endpoint
unfolding endpoint_of
read_endpoint n key = endpoint_of n key (lookup n key)

abbrev pub parsed_multicast : Option Addr → Bool
parsed_multicast none = false
parsed_multicast (some a) = Netip.is_multicast a

-- `endpoint.IsMulticast`
unfoldable pub is_multicast : Endpoint → Bool
is_multicast e = if text_eq e.addr [] then false else parsed_multicast (Netip.parse_addr e.addr)

-- `underlayAddress`
unfoldable pub underlay_address : Endpoint → Text → Script
underlay_address e dev =
    if text_eq e.prefix []
    then []
    else command (bytes "the address this tunnel is built on must exist on " ++ dev)
        (bytes "ip" ∷ bytes "addr" ∷ bytes "add" ∷ e.prefix ∷ bytes "dev" ∷ dev ∷ [])
      ∷ []
