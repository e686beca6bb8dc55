-- ===== src/Linux/Grown.antt =====
-- What every lowering of this target does to the environment.
use pktc.Common.{
  inl, inr, ℕ, zero, suc, ◌<◌, ◌≡◌, refl, ap, Bool, true, false, Text, bytes, contains_byte, Option,
  none, some, [], ◌∷◌, ◌++◌, length, not, arith,
}
use pktc.Diag.{Error, Pos, Result, Returns, returns, fails, Returns-bind, Returns-if, Returns-map}
use pktc.Sexp.Kind.{k_star, ◌≟◌}
use pktc.Sexp.Value.{Value, kind_of, text_of}
use pktc.Ast.{Prop, Node, name_of, lookup}
use pktc.Ast.Reading.{state}
use pktc.Ast.Props.{src, dst, src_prefix, key}
use pktc.Ast.Total.{
  Returning, parse_addr-Returning, parse_prefix-Returning, parse_u32-Returning, get-Returning,
  require-Returning,
}
use pktc.Spine.{Spine}
use pktc.Env.{Env, is_used, alloc, enter}
use pktc.Env.Names.{IsName}
use pktc.Env.Alloc.{Given, alloc-First}
use pktc.Command.{Script}
use pktc.Linux.Creates.{Creates, first-Creates}
use pktc.Tile.Address.{is_ip, address_from, address_of}
use pktc.Linux.{layer, refuse, endpoints, is_dynamic_state, addr_on}
use pktc.Linux.Endpoint.{explained, concrete_endpoint, endpoint_of, read_endpoint}
use pktc.Linux.Vlan.{at_pos}
use pktc.Linux.Tunnel.{lower_ipip, lower_gre, lower_gretap}

-- One device was made: its name is valid and was free, it is in use now, it is the last created
-- and the one that what follows is built on; the root and the key directory are as they were.
pub record Grown (e e' : Env) : Type 0 where
  pub device : Text
  pub valid : IsName device
  pub free : is_used device e.used ≡ false
  pub used : e'.used ≡ device ∷ e.used
  pub created : e'.created ≡ e.created ++ device ∷ []
  pub dev : e'.dev ≡ device
  pub root : e'.root ≡ e.root
  pub key_dir : e'.key_dir ≡ e.key_dir

pub enter-Grown : {e e' : Env} {name : Text} → Given e name e' → Grown e (enter name e')
unfolding enter
enter-Grown {name} g = record {
  device = name;
  valid = g.valid;
  free = g.free;
  used = g.used;
  created = ap (λ ns. ns ++ name ∷ []) g.created;
  dev = refl;
  root = g.root;
  key_dir = g.key_dir;
}

pub alloc-Given :
    (prefix : Text) (e : Env) → Returns (λ (name, e'). Given e name e') (alloc prefix e)
alloc-Given prefix e = Returns-map (alloc-First prefix e) λ _ first. first.given

pub at_pos-Returns :
    {A : Type 0} {P : A → Type 0} (p : Pos) {r : Result A} → Returns P r → Returns P (at_pos p r)
unfolding at_pos
at_pos-Returns p (returns h) = returns h
at_pos-Returns p (fails e) = fails _

-- a layer that is there
pub layer-Returning : (sp : Spine) (i : ℕ) → i < length sp → Returning (layer sp i)
unfolding layer
layer-Returning [] i h = absurd (omega arith)
layer-Returning (n ∷ sp) zero h = returns tt
layer-Returning (n ∷ sp) (suc i) h = layer-Returning sp i (omega arith)

pub refuse-Returning : (bad : Bool) (e : Error) → Returning (refuse bad e)
unfolding refuse
refuse-Returning true e = fails e
refuse-Returning false e = returns tt

pub endpoints-Returning : (outer : Node) → Returning (endpoints outer)
unfolding endpoints
endpoints-Returning outer = Returns-bind (get-Returning outer src parse_addr-Returning) λ s _.
    Returns-bind (require-Returning (name_of outer) s) λ l _.
      Returns-bind (get-Returning outer dst parse_addr-Returning) λ d _.
        Returns-if (is_dynamic_state (state d)) (λ _. fails _)
          λ _. Returns-bind (require-Returning (name_of outer) d) λ r _. returns tt

address_from-Returning : (n : Node) (found : Option Prop) → Returning (address_from n found)
unfolding address_from
address_from-Returning n none = returns tt
address_from-Returning n (some p) =
    Returns-bind (get-Returning n src_prefix parse_prefix-Returning) λ a _. returns tt

pub address_of-Returning : (n : Node) → Returning (address_of n)
unfolding address_of
address_of-Returning n =
    Returns-if (not (is_ip n)) (λ _. returns tt)
      λ _. address_from-Returning n (lookup n (bytes "src"))

pub addr_on-Returning : (n : Node) (dev : Text) → Returning (addr_on n dev)
unfolding addr_on
addr_on-Returning n dev = Returns-bind (address_of-Returning n) λ a _. returns tt

explained-Returning :
    {A : Type 0} (n : Node) (k : Text) (v : Value) {r : Result A}
    → Returning r
    → Returning (explained n k v r)
unfolding explained
explained-Returning n k v (returns _) = returns tt
explained-Returning n k v (fails e) = fails _

endpoint_of-Returning :
    (n : Node) (k : Text) (found : Option Prop) → Returning (endpoint_of n k found)
unfolding endpoint_of concrete_endpoint
endpoint_of-Returning n k none = returns tt
endpoint_of-Returning n k (some p) =
    Returns-if (kind_of p.val ≟ k_star) (λ _. returns tt)
      λ _.
        Returns-if (contains_byte b'/' (text_of p.val))
          (λ _.
            Returns-bind (explained-Returning n k p.val (parse_prefix-Returning p.val))
              λ a _. returns tt)
          (λ _.
            Returns-bind (explained-Returning n k p.val (parse_addr-Returning p.val))
              λ a _. returns tt)

pub read_endpoint-Returning : (n : Node) (k : Text) → Returning (read_endpoint n k)
unfolding read_endpoint
read_endpoint-Returning n k = endpoint_of-Returning n k (lookup n k)

-- what a lowering promises: one device more, which its script makes
abbrev pub Grows : Env → Result (Script × Env) → Type 0
Grows e r = Returns (λ (cmds, e'). Grown e e' × Creates e'.dev cmds) r

module _ (sp : Spine) (e : Env) where
  pub lower_ipip-Grows : 1 < length sp → Grows e (lower_ipip sp e)
  unfolding lower_ipip enter
  lower_ipip-Grows h = Returns-bind (layer-Returning sp 0 (omega arith)) λ outer _.
      Returns-bind (endpoints-Returning outer) λ _ _.
        Returns-bind (alloc-Given (bytes "ipip") e) λ (dev, e') given.
          Returns-bind (layer-Returning sp 1 h) λ inner _.
            Returns-bind (addr_on-Returning inner dev)
              λ a _. returns (enter-Grown given, first-Creates dev _ _ _ (inr (inl refl)))

  pub lower_gre-Grows : 2 < length sp → Grows e (lower_gre sp e)
  unfolding lower_gre enter
  lower_gre-Grows h = Returns-bind (layer-Returning sp 0 (omega arith)) λ outer _.
      Returns-bind (endpoints-Returning outer) λ _ _.
        Returns-bind (alloc-Given (bytes "gre") e) λ (dev, e') given.
          Returns-bind (layer-Returning sp 1 (omega arith)) λ tunnel _.
            Returns-bind (get-Returning tunnel key parse_u32-Returning) λ k _.
              Returns-bind (layer-Returning sp 2 h) λ inner _.
                Returns-bind (addr_on-Returning inner dev)
                  λ a _. returns (enter-Grown given, first-Creates dev _ _ _ (inr (inl refl)))

  pub lower_gretap-Grows : 2 < length sp → Grows e (lower_gretap sp e)
  unfolding lower_gretap enter
  lower_gretap-Grows h = Returns-bind (layer-Returning sp 0 (omega arith)) λ outer _.
      Returns-bind (endpoints-Returning outer) λ _ _.
        Returns-bind (alloc-Given (bytes "gretap") e) λ (dev, e') given.
          Returns-bind (layer-Returning sp 1 (omega arith)) λ tunnel _.
            Returns-bind (get-Returning tunnel key parse_u32-Returning)
              λ k _. returns (enter-Grown given, first-Creates dev _ _ _ (inr (inl refl)))
