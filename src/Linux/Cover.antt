-- ===== src/Linux/Cover.antt =====
-- `Cover` over the tile set of this target.
use pktc.Common.{
  All-append, subst, ℕ, zero, suc, ◌+◌, ◌-◌, ◌≤◌, ◌==◌, ◌≡◌, refl, ap, sym, ◌∙◌, false, Text, some,
  List, [], ◌∷◌, ◌++◌, length, drop, take, length-drop, drop-append, length-append, All,
  append_assoc, append-nil, arith,
}
use pktc.Diag.{Returns, returns, fails, Returns-bind, Returns-if, Returns-map}
use pktc.Ast.{Node}
use pktc.Ast.Total.{Returning}
use pktc.Spine.{Spine, slice}
use pktc.Env.{Env}
use pktc.Command.{Script}
use pktc.Tile.{Tile, is_empty}
use pktc.Tile.Choice.{All-Among}
use pktc.Tile.Order.{choice, choice_sound}
use pktc.Tile.Loop.{HasPatterns, fits-le, cover_loop-Inv}
use pktc.Tile.Cover.{
  Covering, State, run_lower, advance, bring_all_up, leftover, finish, start, cover,
}
use pktc.Linux.Tiles.{tiles, linux}
use pktc.Linux.Creates.{Creates, Creates-append_right, All-Creates-append_left}
use pktc.Linux.Grown.{
  Grown, Grows, address_of-Returning, lower_ipip-Grows, lower_gre-Grows, lower_gretap-Grows,
}
use pktc.Linux.Devices.{lower_vlan-Grows, lower_vxlan-Grows, lower_wireguard-Grows}
use pktc.Linux.Sound.{Sound, Grown-Sound}

length-take : (n : ℕ) (sp : Spine) → n ≤ length sp → length (take n sp) ≡ n
length-take zero sp h = refl
length-take (suc n) [] h = omega arith
length-take (suc n) (x ∷ sp) h = omega (arith, length-take n sp)

pub length-slice : (sp : Spine) (i n : ℕ) → i + n ≤ length sp → length (slice sp i (i + n)) ≡ n
unfolding slice
length-slice sp i n h =
    length-take (i + n - i) (drop i sp) (omega (arith, length-drop i sp)) ∙ (omega arith)

pub tiles-HasPatterns : HasPatterns tiles
tiles-HasPatterns t m =
    All-Among (λ u. is_empty u.pattern ≡ false) t tiles
      (refl, (refl, (refl, (refl, (refl, (refl, tt)))))) m

-- what is asked of a tile: given as many layers as its pattern has, it makes one device
abbrev pub TileGrows : Tile → Type 0
TileGrows t =
    (sub : Spine) (e : Env) → length sub ≡ length t.pattern → Grows e (run_lower t.lower sub e)

pub tiles-Grow : All TileGrows tiles
tiles-Grow = (
  λ sub e h. lower_ipip-Grows sub e (omega arith),
  (
    λ sub e h. lower_gre-Grows sub e (omega arith),
    (
      λ sub e h. lower_gretap-Grows sub e (omega arith),
      (
        λ sub e h. lower_vxlan-Grows sub e (omega arith),
        (
          λ sub e h. lower_vlan-Grows sub e (omega arith),
          (λ sub e h. lower_wireguard-Grows sub e (omega arith), tt),
        ),
      ),
    ),
  ),
)

-- what holds of the loop's state: the environment is sound, and each tile applied made a device
record Kept (e : Env) (s : State) : Type 0 where
  sound : Sound s.env
  root : s.env.root ≡ e.root
  devices : List Text
  created : s.env.created ≡ e.created ++ devices
  counted : length devices ≡ length s.applied
  made : All (λ d. Creates d s.script) devices

advance-Kept :
    (e : Env) (s : State) (t : Tile) (cmds : Script) (e' : Env)
    → Kept e s
    → Grown s.env e'
    → Creates e'.dev cmds
    → Kept e (advance t s (cmds, e'))
advance-Kept e s t cmds e' k g c = record {
  sound = Grown-Sound g k.sound;
  root = g.root ∙ k.root;
  devices = k.devices ++ g.device ∷ [];
  created =
      g.created
      ∙ ap (λ ns. ns ++ g.device ∷ []) k.created
      ∙ append_assoc e.created k.devices (g.device ∷ []);
  counted = omega (
    arith,
    length-append k.devices (g.device ∷ []),
    length-append s.applied (t.name ∷ []),
    k.counted,
  );
  made =
      All-append (λ d. Creates d (s.script ++ cmds)) k.devices (g.device ∷ [])
        (All-Creates-append_left k.devices s.script cmds k.made)
        (
          subst (λ d. Creates d (s.script ++ cmds)) g.dev (Creates-append_right s.script cmds c),
          tt,
        );
}

keep-Kept :
    (e : Env) (sp : Spine) (s : State) (t : Tile)
    → Kept e s
    → choice tiles sp s.i ≡ some t
    → Returns
        (λ r. Kept e (advance t s r))
        (run_lower t.lower (slice sp s.i (s.i + length t.pattern)) s.env)
keep-Kept e sp s t k chosen =
    let ((among, fit), _) = choice_sound tiles sp s.i t chosen in
    Returns-map
      (All-Among TileGrows t tiles tiles-Grow among (slice sp s.i (s.i + length t.pattern)) s.env
        (length-slice sp s.i (length t.pattern) (fits-le t sp s.i fit)))
      λ (cmds, e') (g, c). advance-Kept e s t cmds e' k g c

-- What `Cover` leaves: a sound environment with the root that it had, one new device for each tile
-- applied, and a script that makes each of them by an `ip link add` and ends by bringing them up in
-- the order in which they were made.
pub record Covered (e : Env) (c : Covering) (e' : Env) : Type 0 where
  pub sound : Sound e'
  pub root : e'.root ≡ e.root
  pub devices : List Text
  pub created : e'.created ≡ e.created ++ devices
  pub counted : length devices ≡ length c.applied
  pub made : All (λ d. Creates d c.script) devices
  pub before : Script
  pub ends_up : c.script ≡ before ++ bring_all_up devices

pub leftover-Returning : (e : Env) (sp : Spine) → Returning (leftover e sp)
unfolding leftover
leftover-Returning e [] = returns tt
leftover-Returning e (n ∷ rest) = Returns-bind (address_of-Returning n) λ a _. returns tt

finish-Covered :
    (n : Node) (sp : Spine) (e : Env) (s : State)
    → Kept e s
    → Returns (λ (c, e'). Covered e c e') (finish linux (n ∷ sp) (length e.created) s)
unfolding finish
finish-Covered n sp e s k =
    Returns-if (s.i == 0) (λ _. fails _)
      λ _.
        Returns-bind (leftover-Returning s.env (slice (n ∷ sp) s.i (length (n ∷ sp))))
          λ (addr, payload) _. returns (record {
            sound = k.sound;
            root = k.root;
            devices = k.devices;
            created = k.created;
            counted = k.counted;
            made = All-Creates-append_left k.devices s.script _ k.made;
            before = s.script ++ addr;
            ends_up =
                ap (λ ds. s.script ++ (addr ++ bring_all_up ds))
                  (ap (drop (length e.created)) k.created ∙ drop-append e.created k.devices)
                ∙ sym (append_assoc s.script addr (bring_all_up k.devices));
          })

-- On every spine that has a layer, and from every sound environment, `Cover` over this tile set
-- returns: it panics on no layer and its loop ends. Where it succeeds, the devices made have valid
-- and pairwise different names, one for each tile applied, the script has an `ip link add` for each,
-- and it ends by bringing them up in the order in which they were made.
pub cover-Covered :
    (n : Node) (sp : Spine) (e : Env)
    → Sound e
    → Returns (λ (c, e'). Covered e c e') (cover linux (n ∷ sp) e)
unfolding cover
cover-Covered n sp e sound =
    Returns-bind
      (cover_loop-Inv tiles (n ∷ sp) tiles-HasPatterns (Kept e) (keep-Kept e (n ∷ sp))
        (suc (length (n ∷ sp))) (start e) (omega arith)
        (record {
          sound = sound;
          root = refl;
          devices = [];
          created = sym (append-nil e.created);
          counted = refl;
          made = tt;
        }))
      λ s (k, _). finish-Covered n sp e s k
