-- ===== src/Linux/Tunnel.antt =====
-- tiles/linux/linux.go: the tiles IPIP, GRE and GRETAP.
use pktc.Common.{ℕ, Text, bytes, Option, none, some, List, [], ◌∷◌, ◌++◌}
use pktc.Common.Int.{pos}
use pktc.Diag.{ok, ◌>>=◌}
use pktc.Ast.Reading.{concrete_value, get}
use pktc.Ast.Props.{key}
use pktc.Env.{alloc, enter}
use pktc.Command.{command}
use pktc.Tile.{Tile, Lowering}
use pktc.Linux.{layer, endpoints, addr_on, u32}

-- `ip link add name DEV type KIND local LOCAL remote REMOTE`
abbrev pub link_add : Text → Text → Text → Text → List Text
link_add dev kind local remote =
    bytes "ip"
    ∷ bytes "link"
    ∷ bytes "add"
    ∷ bytes "name"
    ∷ dev
    ∷ bytes "type"
    ∷ kind
    ∷ bytes "local"
    ∷ local
    ∷ bytes "remote"
    ∷ remote
    ∷ []

-- the arguments that a GRE key adds
abbrev pub key_words : Option ℕ → List Text
key_words none = []
key_words (some k) = bytes "key" ∷ u32 k ∷ []

-- `IPIP.Lower`
unfoldable pub lower_ipip : Lowering
lower_ipip sp e = do
  outer ← layer sp 0
  (local, remote) ← endpoints outer
  (dev, e') ← alloc (bytes "ipip") e
  inner ← layer sp 1
  addr ← addr_on inner dev
  ok (
    command (bytes "IPv4 inside IPv4 is an ipip device") (link_add dev (bytes "ipip") local remote)
        ∷ addr,
    enter dev e',
  )

-- `GRE.Lower`
unfoldable pub lower_gre : Lowering
lower_gre sp e = do
  outer ← layer sp 0
  (local, remote) ← endpoints outer
  (dev, e') ← alloc (bytes "gre") e
  tunnel ← layer sp 1
  k ← get tunnel key
  inner ← layer sp 2
  addr ← addr_on inner dev
  ok (
    command (bytes "IPv4 inside GRE is a routed gre device")
          (link_add dev (bytes "gre") local remote ++ key_words (concrete_value k))
        ∷ addr,
    enter dev e',
  )

-- `GRETAP.Lower`
unfoldable pub lower_gretap : Lowering
lower_gretap sp e = do
  outer ← layer sp 0
  (local, remote) ← endpoints outer
  (dev, e') ← alloc (bytes "gretap") e
  tunnel ← layer sp 1
  k ← get tunnel key
  ok (
    command (bytes "Ethernet inside GRE is a bridged gretap device")
          (link_add dev (bytes "gretap") local remote ++ key_words (concrete_value k))
        ∷ [],
    enter dev e',
  )

abbrev pub ipip : Tile
ipip = record {
  name = bytes "IPIP";
  pattern = bytes "ipv4" ∷ bytes "ipv4" ∷ [];
  priority = pos 0;
  guard = none;
  lower = some lower_ipip;
}

abbrev pub gre : Tile
gre = record {
  name = bytes "GRE";
  pattern = bytes "ipv4" ∷ bytes "gre" ∷ bytes "ipv4" ∷ [];
  priority = pos 0;
  guard = none;
  lower = some lower_gre;
}

abbrev pub gretap : Tile
gretap = record {
  name = bytes "GRETAP";
  pattern = bytes "ipv4" ∷ bytes "gre" ∷ bytes "ethernet" ∷ [];
  priority = pos 0;
  guard = none;
  lower = some lower_gretap;
}
