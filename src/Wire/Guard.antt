-- ===== src/Wire/Guard.antt =====
-- wire/wire.go against tiles/linux/wireguard.go: the port of the peer.
use pktc.Common.{◌≡◌, ℕ, Text, bytes, Option, none, some, List, [], ◌∷◌, ◌++◌}
use pktc.Diag.{plain, unpredictable_port, Result, ok, err}
use pktc.Ast.{Node}
use pktc.Ast.Reading.{Reading, concrete_value, get}
use pktc.Ast.Props.{dst_port}
use pktc.Spine.{Spine}
use pktc.Env.{Env}
use pktc.Command.{Command, Script}
use pktc.Linux.Endpoint.{Endpoint}
use pktc.Linux.Wireguard.{value_or, peer_command}
use pktc.Wire.{Fact, fact, Expectation}
use pktc.Wire.Port.{for_port}

-- what the script holds of the peer: its endpoint's port is `:dst-port`, or else the port that this
-- end listens on
pub record Peered (transport : Node) (d : Reading ℕ) (script : Script) : Type 0 where
  pub port_read : get transport dst_port ≡ ok d
  pub listens : ℕ
  pub first : Command
  pub second : Command
  pub argv : List Text
  pub end : Endpoint
  pub allowed : Text
  pub more : Script
  pub emitted :
      script
      ≡ first
        ∷ second
        ∷ (peer_command argv end (value_or listens (concrete_value d)) allowed ++ more)

-- what `tunnelFacts` says of a WireGuard layer
abbrev pub opaque : List Fact
opaque = fact (bytes "encapsulation") (bytes "WireGuard (opaque UDP)") (bytes "UDP") ∷ []

-- the prediction, where the port is given and where it is not
abbrev pub predicted : List Fact → Text → Option ℕ → Result Expectation
predicted facts far none = err (plain unpredictable_port)
predicted facts far (some p) = ok (for_port facts far opaque p)
