-- ===== src/Linux/Wireguard.antt =====
-- tiles/linux/wireguard.go: a tunnel whose two ends differ.
use pktc.Common.{
  ℕ, Bool, false, ◌||◌, Text, bytes, Option, none, some, List, [], ◌∷◌, ◌++◌, if◌then◌else◌,
}
use pktc.Common.Int.{pos}
use pktc.Diag.{
  Pos, errorf, Message, missing_peer, missing_listen, missing_inner_src, Result, ok, err, fault,
  ◌>>=◌,
}
use pktc.Std.Strconv.{format_uint}
use pktc.Std.Netip
use pktc.Std.Netip.{Addr, is6, masked, prefix_string}
use pktc.Ast.{name_of, node_pos}
use pktc.Ast.Reading.{concrete_value, require, get}
use pktc.Ast.Props.{peer, src_port, dst_port, src_prefix}
use pktc.Env.{alloc, enter}
use pktc.Command.{Script, command}
use pktc.Tile.{Tile, Lowering}
use pktc.Linux.{layer, u16, addr_on}
use pktc.Linux.Endpoint.{Endpoint, read_endpoint}
use pktc.Linux.Vlan.{at_pos}

-- whatever `Require` says, the tile says `m`
unfoldable pub in_place {ℓ} : {A : Type ℓ} → Pos → Message → Result A → Result A
in_place p m (ok a) = ok a
in_place p m (err e) = err (errorf p m)
in_place p m (fault x) = fault x

abbrev pub value_or : ℕ → Option ℕ → ℕ
value_or n none = n
value_or n (some m) = m

abbrev pub parsed_is6 : Option Addr → Bool
parsed_is6 none = false
parsed_is6 (some a) = is6 a

-- `joinHostPort`
unfoldable pub join_host_port : Text → ℕ → Text
join_host_port addr port =
    if parsed_is6 (Netip.parse_addr addr)
    then b'[' ∷ addr ++ (bytes "]:" ++ format_uint port)
    else addr ++ (b':' ∷ format_uint port)

-- the peer's command: with an endpoint, or without one for a peer that is learned
unfoldable pub peer_command : List Text → Endpoint → ℕ → Text → Script
unfolding join_host_port
peer_command argv end port allowed =
    if end.dynamic || end.absent
    then command (bytes "no endpoint: this peer is learned from its first handshake")
        (argv ++ bytes "allowed-ips" ∷ allowed ∷ [])
      ∷ []
    else command (bytes "the peer's endpoint on the underlay") (
        argv
        ++ bytes "endpoint" ∷ join_host_port end.addr port ∷ bytes "allowed-ips" ∷ allowed ∷ [])
      ∷ []

-- `lowerWireGuard`
unfoldable pub lower_wireguard : Lowering
unfolding in_place peer_command
lower_wireguard sp e = do
  outer ← layer sp 0
  transport ← layer sp 1
  tunnel ← layer sp 2
  inner ← layer sp 3
  pr ← get tunnel peer
  peer_name ← in_place (node_pos tunnel) missing_peer (require (bytes "wireguard") pr)
  listen ← get transport src_port
  port ← in_place (node_pos transport) missing_listen (require (bytes "udp") listen)
  end ← read_endpoint outer (bytes "dst")
  end_port ← get transport dst_port
  pfx ← get inner src_prefix
  overlay ←
      in_place (node_pos inner) (missing_inner_src (name_of inner)) (require (name_of inner) pfx)
  (dev, e') ← at_pos (node_pos tunnel) (alloc (bytes "wg") e)
  addr ← addr_on inner dev
  ok (
    command (bytes "IP inside WireGuard is a wireguard device") (
            bytes "ip"
            ∷ bytes "link"
            ∷ bytes "add"
            ∷ bytes "name"
            ∷ dev
            ∷ bytes "type"
            ∷ bytes "wireguard"
            ∷ [])
          ∷ command (bytes "key material is machine state, not packet structure") (
              bytes "wg"
              ∷ bytes "set"
              ∷ dev
              ∷ bytes "listen-port"
              ∷ u16 port
              ∷ bytes "private-key"
              ∷ (e.key_dir ++ (b'/' ∷ dev ++ bytes ".key"))
              ∷ [])
          ∷ peer_command
              (bytes "wg"
                ∷ bytes "set"
                ∷ dev
                ∷ bytes "peer"
                ∷ (bytes "$(cat " ++ (e.key_dir ++ (b'/' ∷ peer_name ++ bytes ".pub)")))
                ∷ [])
              end (value_or port (concrete_value end_port)) (prefix_string (masked overlay))
        ++ addr,
    enter dev e',
  )

abbrev pub wireguard : Tile
wireguard = record {
  name = bytes "WireGuard";
  pattern = bytes "ipv4" ∷ bytes "udp" ∷ bytes "wireguard" ∷ bytes "ipv4" ∷ [];
  priority = pos 0;
  guard = none;
  lower = some lower_wireguard;
}
