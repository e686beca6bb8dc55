-- ===== src/Cli/Both.antt =====
-- What a successful `pktc mirror` has printed.
use pktc.Common.{ℕ, ◌≡◌, Bool, false, Text, bytes, ◌++◌}
use pktc.Diag.{ok}
use pktc.Ast.{Node}
use pktc.Spine.{Spine, from_form}
use pktc.Env.{Env, new, reset}
use pktc.Tile.Cover.{Covering, cover}
use pktc.Linux.Tiles.{linux}
use pktc.Mirror.{Mirrored}
use pktc.Mirror.Far.{peer}
use pktc.Cli.{rendered}
use pktc.Cli.Mirror.{banner, ending}

-- One end, from its tree: the covering of its spine, and what is printed for it.
pub record End (heading : Text) (root : Node) (underlay : Text) (out : Text) : Type 0 where
  pub spine : Spine
  pub formed : from_form root ≡ ok spine
  pub covering : Covering
  pub later : Env
  pub covered : cover linux spine (reset (new underlay)) ≡ ok (covering, later)
  pub prints : out ≡ rendered heading spine covering false

module _ (printable : ℕ → Bool) where
  -- Both ends of one tunnel, as they are printed: the far end's tree is the one that `Peer` derives, and
  -- the scripts of both ends come from the same tiles in the same order.
  pub record BothEnds (root : Node) (underlay peer_underlay inner : Text) (out : Text)
      : Type 0 where
    pub mirrored : Mirrored
    pub derived : peer root inner ≡ ok mirrored
    pub near_out : Text
    pub near : End (bytes "near end") root underlay near_out
    pub far_out : Text
    pub far : End (bytes "far end") mirrored.tree peer_underlay far_out
    pub same_tiles : near.covering.applied ≡ far.covering.applied
    pub prints :
        out ≡ near_out ++ (banner printable mirrored ++ (far_out ++ ending mirrored.missing))
