-- ===== src/Linux/Devices.antt =====
-- tiles/linux: what the lowerings of VXLAN, VLAN and WireGuard do to the environment.
use pktc.Common.{refl, inl, inr, ℕ, ◌<◌, Text, bytes, Option, none, some, length, arith}
use pktc.Diag.{Pos, Message, Result, Returns, returns, fails, Returns-bind, Returns-map}
use pktc.Ast.{Node, name_of, node_pos}
use pktc.Ast.Reading.{Reading, is_absent, is_dynamic, is_concrete, concrete_value}
use pktc.Ast.Props.{vni, dst_port, src_port, vlan_id, peer, src_prefix}
use pktc.Ast.Total.{
  Returning, parse_prefix-Returning, parse_u16-Returning, parse_vni-Returning,
  parse_vlan_id-Returning, parse_text-Returning, get-Returning, require-Returning,
}
use pktc.Spine.{Spine}
use pktc.Env.{Env, claim, enter}
use pktc.Env.Alloc.{Given, claim-Given}
use pktc.Linux.Endpoint.{underlay_address}
use pktc.Linux.Vxlan.{listening_port, name_device, lower_vxlan}
use pktc.Linux.Vlan.{vlan_name, lower_vlan}
use pktc.Linux.Wireguard.{in_place, lower_wireguard}
use pktc.Linux.Creates.{Creates-append_right, first-Creates}
use pktc.Linux.Grown.{
  Grows, enter-Grown, alloc-Given, at_pos-Returns, layer-Returning, refuse-Returning,
  addr_on-Returning, read_endpoint-Returning,
}

claimed-Given : (name : Text) (e : Env) → Returns (λ (n, e'). Given e n e') (claim name e)
claimed-Given name e = Returns-map (claim-Given name e) λ _ (_, given). given

name_device-Given :
    (n : Option ℕ) (e : Env) → Returns (λ (name, e'). Given e name e') (name_device n e)
unfolding name_device
name_device-Given (some n) e = claimed-Given _ e
name_device-Given none e = alloc-Given (bytes "vxlan") e

listening_port-Returning :
    (transport : Node) (d : Reading ℕ) → Returning (listening_port transport d)
unfolding listening_port
listening_port-Returning transport (is_dynamic p k) = fails _
listening_port-Returning transport (is_absent p k) = fails _
listening_port-Returning transport (is_concrete n p k) = returns tt

in_place-Returning :
    {A : Type 0} (p : Pos) (m : Message) {r : Result A} → Returning r → Returning (in_place p m r)
unfolding in_place
in_place-Returning p m (returns h) = returns tt
in_place-Returning p m (fails e) = fails _

module _ (sp : Spine) (e : Env) where
  pub lower_vlan-Grows : 1 < length sp → Grows e (lower_vlan sp e)
  unfolding lower_vlan enter
  lower_vlan-Grows h = Returns-bind (layer-Returning sp 1 h) λ tag _.
      Returns-bind (get-Returning tag vlan_id parse_vlan_id-Returning) λ id _.
        Returns-bind (refuse-Returning _ _) λ _ _.
          Returns-bind (require-Returning (bytes "vlan") id) λ n _.
            Returns-bind (at_pos-Returns (node_pos tag) (claimed-Given (vlan_name e.dev n) e))
              λ (dev, e') given.
                returns (enter-Grown given, first-Creates dev _ _ _ (inr (inr (inr (inl refl)))))

  pub lower_vxlan-Grows : 2 < length sp → Grows e (lower_vxlan sp e)
  unfolding lower_vxlan enter
  lower_vxlan-Grows h = Returns-bind (layer-Returning sp 0 (omega arith)) λ outer _.
      Returns-bind (layer-Returning sp 1 (omega arith)) λ transport _.
        Returns-bind (layer-Returning sp 2 h) λ tunnel _.
          Returns-bind (get-Returning tunnel vni parse_vni-Returning) λ v _.
            Returns-bind (refuse-Returning _ _) λ _ _.
              Returns-bind (get-Returning transport dst_port parse_u16-Returning) λ d _.
                Returns-bind (listening_port-Returning transport d) λ p _.
                  Returns-bind (read_endpoint-Returning outer (bytes "src")) λ l _.
                    Returns-bind (refuse-Returning _ _) λ _ _.
                      Returns-bind (read_endpoint-Returning outer (bytes "dst")) λ r _.
                        Returns-bind (refuse-Returning _ _) λ _ _.
                          Returns-bind
                            (at_pos-Returns (node_pos tunnel)
                              (name_device-Given (concrete_value v) e))
                            λ (dev, e') given. returns (
                              enter-Grown given,
                              Creates-append_right (underlay_address l e.dev) _
                                  (first-Creates dev _ _ _ (inr (inl refl))),
                            )

  pub lower_wireguard-Grows : 3 < length sp → Grows e (lower_wireguard sp e)
  unfolding lower_wireguard enter
  lower_wireguard-Grows h = Returns-bind (layer-Returning sp 0 (omega arith)) λ outer _.
      Returns-bind (layer-Returning sp 1 (omega arith)) λ transport _.
        Returns-bind (layer-Returning sp 2 (omega arith)) λ tunnel _.
          Returns-bind (layer-Returning sp 3 h) λ inner _.
            Returns-bind (get-Returning tunnel peer parse_text-Returning) λ pr _.
              Returns-bind (in_place-Returning _ _ (require-Returning (bytes "wireguard") pr))
                λ name _.
                  Returns-bind (get-Returning transport src_port parse_u16-Returning) λ listen _.
                    Returns-bind (in_place-Returning _ _ (require-Returning (bytes "udp") listen))
                      λ port _. Returns-bind (read_endpoint-Returning outer (bytes "dst")) λ end _.
                        Returns-bind (get-Returning transport dst_port parse_u16-Returning)
                          λ end_port _.
                            Returns-bind (get-Returning inner src_prefix parse_prefix-Returning)
                              λ pfx _.
                                Returns-bind
                                  (in_place-Returning _ _ (require-Returning (name_of inner) pfx))
                                  λ overlay _.
                                    Returns-bind
                                      (at_pos-Returns (node_pos tunnel)
                                        (alloc-Given (bytes "wg") e))
                                      λ (dev, e') given.
                                        Returns-bind (addr_on-Returning inner dev) λ addr _.
                                          returns (
                                            enter-Grown given,
                                            first-Creates dev _ _ _ (inr (inl refl)),
                                          )
