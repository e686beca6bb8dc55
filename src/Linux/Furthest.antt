-- ===== src/Linux/Furthest.antt =====
-- How far `Cover` gets with the tile set of this target.
use pktc.Common.{ℕ, ◌≤◌, ◌≡◌, length}
use pktc.Diag.{ok}
use pktc.Spine.{Spine, slice}
use pktc.Env.{Env}
use pktc.Command.{Script}
use pktc.Tile.{Tile}
use pktc.Tile.Greedy.{Tiling, Greedy}
use pktc.Tile.Cover.{Covering, leftover}
use pktc.Linux.Tiles.{tiles}

-- The layers from `reached` on are what is placed as an address or left as payload, and no run of
-- fitting tiles from the outermost layer gets past `reached`.
pub record Furthest (sp : Spine) (c : Covering) (e' : Env) : Type 0 where
  pub reached : ℕ
  pub bound : (j : ℕ) → Tiling tiles sp 0 j → j ≤ reached
  pub script : Script
  pub rest : leftover e' (slice sp reached (length sp)) ≡ ok (script, c.payload)
