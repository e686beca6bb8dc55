-- ===== src/Wire/Tunnels.antt =====
-- wire/wire.go against tiles/linux/linux.go: the tunnels that carry no UDP.
use pktc.Common.{
  ◌≡◌, refl, ap, sym, ◌∙◌, Text, bytes, text_eq, some, List, [], ◌∷◌, ◌++◌, if◌then◌else◌,
}
use pktc.Diag.{ok, err, errorf, dynamic_remote, Result, ◌>>=◌, >>=-eq-ok, ok-injective}
use pktc.Std.Netip.{Addr, addr_string}
use pktc.Ast.{Node, name_of}
use pktc.Ast.Reading.{
  Reading, is_absent, is_dynamic, is_concrete, concrete_value, state, reading_pos, require, get,
}
use pktc.Ast.Props.{src, dst, key}
use pktc.Spine.{Spine}
use pktc.Env.{Env, alloc}
use pktc.Command.{Script, command}
use pktc.Tile.{Lowering}
use pktc.Linux.{is_dynamic_state, layer, endpoints, addr_on}
use pktc.Linux.Tunnel.{link_add, key_words, lower_ipip, lower_gre, lower_gretap}
use pktc.Wire.{
  Fact, fact, Expectation, source_facts, address_text, expect_under, expect, plain_expectation,
}
use pktc.Wire.Port.{expect-ipv4}

require-concrete :
    {T : Type 0} (form : Text) (r : Reading T) (t : T)
    → require form r ≡ ok t
    → concrete_value r ≡ some t
unfolding require
require-concrete form (is_concrete v p k) t h = ap some (ok-injective h)
require-concrete form (is_dynamic p k) t h = cc h
require-concrete form (is_absent p k) t h = cc h

-- the two addresses that `endpoints` reads
record Ends (outer : Node) (near far : Text) : Type 0 where
  s : Reading Addr
  src_read : get outer src ≡ ok s
  a : Addr
  src_given : concrete_value s ≡ some a
  near_text : near ≡ addr_string a
  d : Reading Addr
  dst_read : get outer dst ≡ ok d
  b : Addr
  dst_given : concrete_value d ≡ some b
  far_text : far ≡ addr_string b

-- the second half of `endpoints`, from the reading of `:dst`
far_end :
    (outer : Node) (l : Addr) (d : Reading Addr) (near far : Text)
    → if◌then◌else◌ {A = Result (Text × Text)}
        (is_dynamic_state (state d))
        (err (errorf (reading_pos d) (dynamic_remote (name_of outer))))
        (require (name_of outer) d >>= λ r. ok (addr_string l, addr_string r))
      ≡ ok (near, far)
    → (b : Addr) × (concrete_value d ≡ some b) × (near ≡ addr_string l) × (far ≡ addr_string b)
unfolding require
far_end outer l (is_concrete v p k) near far h = (v, refl, cc h, cc h)
far_end outer l (is_dynamic p k) near far h = cc h
far_end outer l (is_absent p k) near far h = cc h

endpoints-Ends :
    (outer : Node) (near far : Text) → endpoints outer ≡ ok (near, far) → Ends outer near far
unfolding endpoints
endpoints-Ends outer near far h =
    let (s, src_read, h1) = >>=-eq-ok (get outer src) _ h in
    let (a, given, h2) = >>=-eq-ok (require (name_of outer) s) _ h1 in
    let (d, dst_read, h3) = >>=-eq-ok (get outer dst) _ h2 in
    let (b, dst_given, near_text, far_text) = far_end outer a d near far h3 in
    record {
      s = s;
      src_read = src_read;
      a = a;
      src_given = require-concrete (name_of outer) s a given;
      near_text = near_text;
      d = d;
      dst_read = dst_read;
      b = b;
      dst_given = dst_given;
      far_text = far_text;
    }

-- What a tunnel's tile calls the device, what layer it stands on, and what the wire shows of it.
pub data PointToPoint : Lowering → Text → Text → Text → Text → Text → Type 0 where
  ipip_tunnel :
      PointToPoint lower_ipip
        (bytes "ipv4")
        (bytes "ipip")
        (bytes "proto 4")
        (bytes "IP-in-IP")
        (bytes "IP")
  gre_tunnel :
      PointToPoint lower_gre
        (bytes "gre")
        (bytes "gre")
        (bytes "proto gre")
        (bytes "GRE")
        (bytes "GREv0")
  gretap_tunnel :
      PointToPoint lower_gretap
        (bytes "gre")
        (bytes "gretap")
        (bytes "proto gre")
        (bytes "GRE")
        (bytes "GREv0")

-- the device that the script makes first, and its two ends
record Made (outer : Node) (kind : Text) (script : Script) : Type 0 where
  near : Text
  far : Text
  read : endpoints outer ≡ ok (near, far)
  why : Text
  dev : Text
  words : List Text
  more : Script
  emitted : script ≡ command why (link_add dev kind near far ++ words) ∷ more

lower-Made :
    {lower : Lowering} {name kind filter value match : Text} (outer : Node) (rest : Spine)
    (e e' : Env) (script : Script)
    → PointToPoint lower name kind filter value match
    → lower (outer ∷ rest) e ≡ ok (script, e')
    → Made outer kind script
unfolding lower_ipip lower_gre lower_gretap layer
lower-Made outer rest e e' script ipip_tunnel h =
    let ((near, far), read, h1) = >>=-eq-ok (endpoints outer) _ h in
    let ((dev, _), _, h2) = >>=-eq-ok (alloc (bytes "ipip") e) _ h1 in
    let (inner, _, h3) = >>=-eq-ok (layer (outer ∷ rest) 1) _ h2 in
    let (addr, _, h4) = >>=-eq-ok (addr_on inner dev) _ h3 in
    record {
      near = near;
      far = far;
      read = read;
      why = bytes "IPv4 inside IPv4 is an ipip device";
      dev = dev;
      words = [];
      more = addr;
      emitted = sym (ap (λ (q : Script × Env). q.0) (ok-injective h4));
    }
lower-Made outer rest e e' script gre_tunnel h =
    let ((near, far), read, h1) = >>=-eq-ok (endpoints outer) _ h in
    let ((dev, _), _, h2) = >>=-eq-ok (alloc (bytes "gre") e) _ h1 in
    let (tunnel, _, h3) = >>=-eq-ok (layer (outer ∷ rest) 1) _ h2 in
    let (k, _, h4) = >>=-eq-ok (get tunnel key) _ h3 in
    let (inner, _, h5) = >>=-eq-ok (layer (outer ∷ rest) 2) _ h4 in
    let (addr, _, h6) = >>=-eq-ok (addr_on inner dev) _ h5 in
    record {
      near = near;
      far = far;
      read = read;
      why = bytes "IPv4 inside GRE is a routed gre device";
      dev = dev;
      words = key_words (concrete_value k);
      more = addr;
      emitted = sym (ap (λ (q : Script × Env). q.0) (ok-injective h6));
    }
lower-Made outer rest e e' script gretap_tunnel h =
    let ((near, far), read, h1) = >>=-eq-ok (endpoints outer) _ h in
    let ((dev, _), _, h2) = >>=-eq-ok (alloc (bytes "gretap") e) _ h1 in
    let (tunnel, _, h3) = >>=-eq-ok (layer (outer ∷ rest) 1) _ h2 in
    let (k, _, h4) = >>=-eq-ok (get tunnel key) _ h3 in
    record {
      near = near;
      far = far;
      read = read;
      why = bytes "Ethernet inside GRE is a bridged gretap device";
      dev = dev;
      words = key_words (concrete_value k);
      more = [];
      emitted = sym (ap (λ (q : Script × Env). q.0) (ok-injective h4));
    }

-- the facts that are expected of a tunnel between two addresses
abbrev pub shown : Text → Text → Text → Text → Text → Expectation
shown near far filter value match =
    plain_expectation (fact (bytes "outer source") near (near ++ bytes ".") ∷ []) far filter value
      match

expect_under-tunnel :
    {lower : Lowering} {name kind filter value match : Text} (facts : List Fact) (far : Text)
    (next : Node) (rest : Spine)
    → PointToPoint lower name kind filter value match
    → name_of next ≡ name
    → expect_under facts far (next ∷ rest) ≡ ok (plain_expectation facts far filter value match)
unfolding expect_under bytes text_eq
expect_under-tunnel facts far next rest ipip_tunnel n = rw n refl
expect_under-tunnel facts far next rest gre_tunnel n = rw n refl
expect_under-tunnel facts far next rest gretap_tunnel n = rw n refl

expect-Ends :
    {lower : Lowering} {name kind filter value match near far : Text} (outer next : Node)
    (rest : Spine)
    → PointToPoint lower name kind filter value match
    → name_of outer ≡ bytes "ipv4"
    → name_of next ≡ name
    → Ends outer near far
    → expect (outer ∷ next ∷ rest) ≡ ok (shown near far filter value match)
unfolding source_facts
expect-Ends outer next rest p ipv4 n ends =
    expect-ipv4 outer (next ∷ rest) ends.s ends.d ipv4 ends.src_read ends.dst_read
    ∙ expect_under-tunnel (source_facts (concrete_value ends.s))
        (address_text (concrete_value ends.d)) next rest p n
    ∙ rw (ends.src_given, ends.dst_given, ends.near_text, ends.far_text) refl

-- Where the tile of an IPIP, GRE or GRETAP tunnel is lowered, `Expect` predicts its wire: the capture is
-- filtered by the tunnel's protocol, and the outer addresses that it should show are those between
-- which the script makes the device.
pub lower_tunnel-expect :
    {lower : Lowering} {name kind filter value match : Text} (outer next : Node) (rest : Spine)
    (e e' : Env) (script : Script)
    → PointToPoint lower name kind filter value match
    → name_of outer ≡ bytes "ipv4"
    → name_of next ≡ name
    → lower (outer ∷ next ∷ rest) e ≡ ok (script, e')
    → (near : Text) × (far : Text) × (why : Text) × (dev : Text) × (words : List Text)
      × (more : Script) × (script ≡ command why (link_add dev kind near far ++ words) ∷ more)
      × (expect (outer ∷ next ∷ rest) ≡ ok (shown near far filter value match))
lower_tunnel-expect outer next rest e e' script p ipv4 n h =
    let made = lower-Made outer (next ∷ rest) e e' script p h in
    (
      made.near,
      made.far,
      made.why,
      made.dev,
      made.words,
      made.more,
      made.emitted,
      expect-Ends outer next rest p ipv4 n (endpoints-Ends outer made.near made.far made.read),
    )
