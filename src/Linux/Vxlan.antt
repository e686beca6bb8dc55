-- ===== src/Linux/Vxlan.antt =====
-- tiles/linux/vxlan.go: one device for a class of frames.
use pktc.Common.{ℕ, Text, bytes, Option, none, some, List, [], ◌∷◌, ◌++◌, if◌then◌else◌, not}
use pktc.Common.Int.{pos}
use pktc.Diag.{
  errorf, missing_vni, dynamic_port, missing_port, missing_src, missing_dst, Result, ok, err, ◌>>=◌,
  ◌>>◌,
}
use pktc.Std.Strconv.{format_uint}
use pktc.Ast.{Node, name_of, node_pos}
use pktc.Ast.Reading.{Reading, is_absent, is_dynamic, is_concrete, state, concrete_value, get}
use pktc.Ast.Props.{vni, dst_port}
use pktc.Env.{Env, claim, alloc, enter}
use pktc.Command.{command}
use pktc.Tile.{Tile, Lowering}
use pktc.Linux.{layer, refuse, u16, u32, is_absent_state}
use pktc.Linux.Endpoint.{Endpoint, read_endpoint, is_multicast, underlay_address}
use pktc.Linux.Vlan.{at_pos}

-- the port that the device listens on
unfoldable pub listening_port : Node → Reading ℕ → Result ℕ
listening_port transport (is_dynamic p k) = err (errorf p dynamic_port)
listening_port transport (is_absent p k) = err (errorf (node_pos transport) missing_port)
listening_port transport (is_concrete n p k) = ok n

-- the name of the device: its VNI's, or one that is free
unfoldable pub name_device : Option ℕ → Env → Result (Text × Env)
name_device (some n) e = claim (bytes "vxlan" ++ format_uint n) e
name_device none e = alloc (bytes "vxlan") e

-- the arguments that each property gives, and what they add to the reason
unfoldable pub vni_words : Option ℕ → List Text
vni_words (some n) = bytes "id" ∷ u32 n ∷ []
vni_words none = bytes "external" ∷ []

unfoldable pub vni_why : Option ℕ → Text
vni_why (some n) = []
vni_why none = bytes "; :vni '*' means one device for every VNI, driven by route metadata"

unfoldable pub local_words : Endpoint → List Text
local_words l = if not l.dynamic then bytes "local" ∷ l.addr ∷ [] else []

unfoldable pub local_why : Endpoint → Text
local_why l =
    if not l.dynamic
    then []
    else bytes "; :src '*' leaves the source address to the underlay device"

unfoldable pub remote_words : Endpoint → List Text
remote_words r =
    if not r.dynamic
    then (if is_multicast r then bytes "group" ∷ r.addr ∷ [] else bytes "remote" ∷ r.addr ∷ [])
    else []

unfoldable pub remote_why : Endpoint → Text
remote_why r =
    if not r.dynamic
    then (if is_multicast r
        then bytes "; a multicast outer destination becomes a group rather than a remote"
        else [])
    else bytes "; :dst '*' means peers are learned rather than configured"

-- `argv` when all of it is there
unfoldable pub vxlan_words : Text → Option ℕ → Endpoint → Endpoint → ℕ → Text → List Text
unfolding vni_words local_words remote_words
vxlan_words dev n l r port under =
    (bytes "ip"
      ∷ bytes "link"
      ∷ bytes "add"
      ∷ bytes "name"
      ∷ dev
      ∷ bytes "type"
      ∷ bytes "vxlan"
      ∷ [])
    ++ (vni_words n
        ++ (local_words l
            ++ (remote_words r ++ (bytes "dstport" ∷ u16 port ∷ bytes "dev" ∷ under ∷ []))))

-- `why` when all of it is there
unfoldable pub vxlan_why : Option ℕ → Endpoint → Endpoint → Text
unfolding vni_why local_why remote_why
vxlan_why n l r =
    bytes "Ethernet inside VXLAN is a vxlan device" ++ (vni_why n ++ (local_why l ++ remote_why r))

-- `lowerVXLAN`
unfoldable pub lower_vxlan : Lowering
unfolding listening_port name_device vxlan_words vxlan_why
lower_vxlan sp e = do
  outer ← layer sp 0
  transport ← layer sp 1
  tunnel ← layer sp 2
  v ← get tunnel vni
  refuse (is_absent_state (state v)) (errorf (node_pos tunnel) missing_vni)
  d ← get transport dst_port
  p ← listening_port transport d
  l ← read_endpoint outer (bytes "src")
  refuse l.absent (errorf (node_pos outer) (missing_src (name_of outer)))
  r ← read_endpoint outer (bytes "dst")
  refuse r.absent (errorf (node_pos outer) (missing_dst (name_of outer)))
  let n = concrete_value v
  (dev, e') ← at_pos (node_pos tunnel) (name_device n e)
  ok (
    underlay_address l e.dev ++ command (vxlan_why n l r) (vxlan_words dev n l r p e.dev) ∷ [],
    enter dev e',
  )

abbrev pub vxlan : Tile
vxlan = record {
  name = bytes "VXLAN";
  pattern = bytes "ipv4" ∷ bytes "udp" ∷ bytes "vxlan" ∷ bytes "ethernet" ∷ [];
  priority = pos 0;
  guard = none;
  lower = some lower_vxlan;
}
