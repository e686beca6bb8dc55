-- ===== src/Linux/Tiles.antt =====
-- tiles/linux/linux.go: `Registry`, and what its tile set is like.
use pktc.Common.{List, [], ◌∷◌, ◌≡◌, refl, bytes, text_eq, join}
use pktc.Diag.{Result, ok}
use pktc.Tile.{Tile, Registry, new_registry, tile_key, seen_as}
use pktc.Tile.Greedy.{PrefixFree}
use pktc.Tile.Apart.{all_apart-PrefixFree}
use pktc.Linux.{target}
use pktc.Linux.Tunnel.{ipip, gre, gretap}
use pktc.Linux.Vxlan.{vxlan}
use pktc.Linux.Vlan.{vlan}
use pktc.Linux.Wireguard.{wireguard}

abbrev pub tiles : List Tile
tiles = ipip ∷ gre ∷ gretap ∷ vxlan ∷ vlan ∷ wireguard ∷ []

-- `Registry`
unfoldable pub registry : Result Registry
registry = new_registry target tiles

abbrev pub linux : Registry
linux = record { target = target; tiles = tiles }

-- `NewRegistry` accepts the set, and no pattern of it begins another.
pub registry-apart : (registry ≡ ok linux) × PrefixFree tiles
unfolding registry new_registry tile_key seen_as bytes join text_eq
registry-apart = (refl, all_apart-PrefixFree tiles refl)
