-- ===== src/Cli/Lower.antt =====
-- cmd/pktc/main.go: `cmdLower` on any file.
use pktc.Common.{ap, ◌≡◌, refl, sym, subst, ◌∙◌, Bool, Text, List, [], ◌∷◌, ◌++◌, All}
use pktc.Diag.{Returns, returns, fails, Returns-bind, Returns-map}
use pktc.Sexp.Value.{Value}
use pktc.Sexp.Total.{read-Located}
use pktc.Ast.{Node}
use pktc.Ast.Distinct.{WellFormed, build-WellFormed}
use pktc.Spine.{Spine}
use pktc.Spine.Chain.{Chain, innermost, below, from_form-Configures}
use pktc.Env.{Env, reset}
use pktc.Tile.Cover.{cover}
use pktc.Linux.Tiles.{linux, registry, registry-apart}
use pktc.Linux.Sound.{Sound}
use pktc.Linux.Cover.{cover-Covered}
use pktc.Cli.{build_all, build_forms, read_trees, render}

build_all-WellFormed : (vs : List Value) → Returns (All WellFormed) (build_all vs)
unfolding build_all
build_all-WellFormed [] = returns tt
build_all-WellFormed (v ∷ vs) =
    Returns-bind (build-WellFormed v)
      λ n w. Returns-bind (build_all-WellFormed vs) λ ns ws. returns (w, ws)

build_forms-WellFormed :
    (path : Text) (vs : List Value) → Returns (All WellFormed) (build_forms path vs)
unfolding build_forms
build_forms-WellFormed path [] = fails _
build_forms-WellFormed path (v ∷ vs) = build_all-WellFormed (v ∷ vs)

pub read_trees-WellFormed : (path src : Text) → Returns (All WellFormed) (read_trees path src)
unfolding read_trees
read_trees-WellFormed path src =
    Returns-bind (read-Located path src) λ forms _. build_forms-WellFormed path forms

-- What rules leave of the environment: it is sound, its root is the same, and the devices made
-- before are still there, in front of the new ones.
pub record Kept (e e' : Env) : Type 0 where
  pub sound : Sound e'
  pub root : e'.root ≡ e.root
  pub devices : List Text
  pub created : e'.created ≡ e.created ++ devices

pub reset-Sound : {e : Env} → Sound e → Sound (reset e)
unfolding reset
reset-Sound s = record {
  valid = s.valid;
  in_use = s.in_use;
  distinct = s.distinct;
  root_used = s.root_used;
  root_apart = s.root_apart;
}

reset-root : (e : Env) → (reset e).root ≡ e.root
unfolding reset
reset-root e = refl

reset-created : (e : Env) → (reset e).created ≡ e.created
unfolding reset
reset-created e = refl

pub registry-linux : Returns (λ reg. reg ≡ linux) registry
registry-linux = subst (Returns (λ reg. reg ≡ linux)) (sym registry-apart.0) (returns refl)

cover_from-Kept :
    (n : Node) (sp : Spine) (e : Env)
    → Sound e
    → Returns (λ (c, e'). Kept e e') (cover linux (n ∷ sp) (reset e))
cover_from-Kept n sp e s = Returns-map (cover-Covered n sp (reset e) (reset-Sound s)) λ _ covered.
    record {
      sound = covered.sound;
      root = covered.root ∙ reset-root e;
      devices = covered.devices;
      created = covered.created ∙ ap (λ ns. ns ++ covered.devices) (reset-created e);
    }

cover-Kept :
    {n : Node} {sp : Spine} (e : Env)
    → Chain n sp
    → Sound e
    → Returns (λ (c, e'). Kept e e') (cover linux sp (reset e))
cover-Kept e (innermost {n} k) s = cover_from-Kept n [] e s
cover-Kept e (below {n} {sp} k chain) s = cover_from-Kept n sp e s

-- an environment that differs from a sound one in the key directory alone
pub keyed-Sound : {e : Env} (key_dir : Text) → Sound e → Sound (record e { key_dir = key_dir })
keyed-Sound key_dir s = record {
  valid = s.valid;
  in_use = s.in_use;
  distinct = s.distinct;
  root_used = s.root_used;
  root_apart = s.root_apart;
}

pub render-Kept :
    (heading : Text) (root : Node) (e : Env) (quiet : Bool)
    → Sound e
    → Returns (λ (t, e'). Kept e e') (render heading root e quiet)
unfolding render
render-Kept heading root e quiet s = Returns-bind (from_form-Configures root) λ sp conf.
    Returns-bind registry-linux λ reg same.
      Returns-bind
        (subst (λ r. Returns (λ (c, e'). Kept e e') (cover r sp (reset e))) (sym same)
          (cover-Kept e conf.chain s))
        λ _ kept. returns kept
