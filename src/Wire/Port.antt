-- ===== src/Wire/Port.antt =====
-- wire/wire.go against tiles/linux/vxlan.go: the port of a VXLAN device.
use pktc.Common.{
  ◌≡◌, refl, ap, sym, ◌∙◌, ℕ, Text, bytes, text_eq, text_eq_self, Option, some, List, [], ◌∷◌, ◌++◌,
  append_assoc,
}
use pktc.Diag.{ok, >>=-eq-ok, ok-injective}
use pktc.Std.Netip.{Addr}
use pktc.Std.Strconv.{format_uint}
use pktc.Ast.{Node, name_of, node_pos}
use pktc.Ast.Reading.{Reading, is_absent, is_dynamic, is_concrete, concrete_value, get}
use pktc.Ast.Props.{src, dst, dst_port, vni}
use pktc.Spine.{Spine}
use pktc.Env.{Env}
use pktc.Command.{Script, command}
use pktc.Linux.{layer, refuse, u16}
use pktc.Linux.Endpoint.{Endpoint, read_endpoint, underlay_address}
use pktc.Linux.Vlan.{at_pos}
use pktc.Linux.Vxlan.{
  listening_port, name_device, vxlan_words, vni_words, local_words, remote_words, vxlan_why,
  lower_vxlan,
}
use pktc.Wire.{
  Fact, fact, destination_facts, Expectation, source_facts, address_text, vni_facts, tunnel_facts,
  expect_under, expect,
}

-- The script's last command ends in the port, and in the device that the tunnel is built on.
pub record EndsWithPort (e : Env) (port : ℕ) (script : Script) : Type 0 where
  pub before : Script
  pub why : Text
  pub words : List Text
  pub emitted :
      script
      ≡ before ++ command why (words ++ bytes "dstport" ∷ u16 port ∷ bytes "dev" ∷ e.dev ∷ []) ∷ []

-- what a successful lowering went through
record Lowered (outer transport tunnel : Node) (e : Env) (script : Script) : Type 0 where
  v : Reading ℕ
  vni_read : get tunnel vni ≡ ok v
  d : Reading ℕ
  port_read : get transport dst_port ≡ ok d
  port : ℕ
  listens : listening_port transport d ≡ ok port
  before : Script
  why : Text
  words : List Text
  emitted :
      script
      ≡ before ++ command why (words ++ bytes "dstport" ∷ u16 port ∷ bytes "dev" ∷ e.dev ∷ []) ∷ []

-- the words in front of the port
abbrev words_before : Text → Option ℕ → Endpoint → Endpoint → List Text
words_before dev n l r =
    (bytes "ip"
      ∷ bytes "link"
      ∷ bytes "add"
      ∷ bytes "name"
      ∷ dev
      ∷ bytes "type"
      ∷ bytes "vxlan"
      ∷ [])
    ++ (vni_words n ++ (local_words l ++ remote_words r))

vxlan_words-words_before :
    (dev : Text) (n : Option ℕ) (l r : Endpoint) (port : ℕ) (under : Text)
    → vxlan_words dev n l r port under
      ≡ words_before dev n l r ++ bytes "dstport" ∷ u16 port ∷ bytes "dev" ∷ under ∷ []
unfolding vxlan_words
vxlan_words-words_before dev n l r port under = simp append_assoc

lower_vxlan-Lowered :
    (outer transport tunnel : Node) (rest : Spine) (e e' : Env) (script : Script)
    → lower_vxlan (outer ∷ transport ∷ tunnel ∷ rest) e ≡ ok (script, e')
    → Lowered outer transport tunnel e script
unfolding lower_vxlan layer
lower_vxlan-Lowered outer transport tunnel rest e e' script h =
    let (v, vni_read, h1) = >>=-eq-ok (get tunnel vni) _ h in
    let (_, _, h2) = >>=-eq-ok (refuse _ _) _ h1 in
    let (d, port_read, h3) = >>=-eq-ok (get transport dst_port) _ h2 in
    let (port, listens, h4) = >>=-eq-ok (listening_port transport d) _ h3 in
    let (l, _, h5) = >>=-eq-ok (read_endpoint outer (bytes "src")) _ h4 in
    let (_, _, h6) = >>=-eq-ok (refuse _ _) _ h5 in
    let (r, _, h7) = >>=-eq-ok (read_endpoint outer (bytes "dst")) _ h6 in
    let (_, _, h8) = >>=-eq-ok (refuse _ _) _ h7 in
    let ((dev, _), _, h9) =
      >>=-eq-ok (at_pos (node_pos tunnel) (name_device (concrete_value v) e)) _ h8 in
    record {
      v = v;
      vni_read = vni_read;
      d = d;
      port_read = port_read;
      port = port;
      listens = listens;
      before = underlay_address l e.dev;
      why = vxlan_why (concrete_value v) l r;
      words = words_before dev (concrete_value v) l r;
      emitted =
          sym (ap (λ q. q.0) (ok-injective h9))
          ∙ ap
              (λ ws. underlay_address l e.dev ++ command (vxlan_why (concrete_value v) l r) ws ∷ [])
              (vxlan_words-words_before dev (concrete_value v) l r port e.dev);
    }

listening_port-concrete :
    (transport : Node) (d : Reading ℕ) (port : ℕ)
    → listening_port transport d ≡ ok port
    → concrete_value d ≡ some port
unfolding listening_port
listening_port-concrete transport (is_dynamic p k) port h = cc
listening_port-concrete transport (is_absent p k) port h = cc
listening_port-concrete transport (is_concrete n p k) port h = ap some (ok-injective h)

-- what `tunnelFacts` says of a VXLAN layer
abbrev tunnel_says : Reading ℕ → List Fact
tunnel_says v =
    fact (bytes "encapsulation") (bytes "VXLAN") (bytes "VXLAN") ∷ vni_facts (concrete_value v)

tunnel_facts-vxlan :
    (tunnel : Node) (v : Reading ℕ)
    → name_of tunnel ≡ bytes "vxlan"
    → get tunnel vni ≡ ok v
    → tunnel_facts tunnel ≡ ok (tunnel_says v)
unfolding tunnel_facts
tunnel_facts-vxlan tunnel v name read = rw (name, text_eq_self (bytes "vxlan"), read) refl

-- the expectation for a port
abbrev pub for_port : List Fact → Text → List Fact → ℕ → Expectation
for_port facts dst_addr more port = record {
  filter = bytes "udp port " ++ format_uint port;
  facts =
      facts
      ++ (fact (bytes "UDP destination port") (format_uint port) (format_uint port)
          ∷ (destination_facts dst_addr (bytes "> " ++ (dst_addr ++ (b'.' ∷ format_uint port)))
              ++ more));
}

expect_under-vxlan :
    (facts : List Fact) (dst_addr : Text) (transport tunnel : Node) (rest : Spine) (v d : Reading ℕ)
    (port : ℕ)
    → name_of transport ≡ bytes "udp"
    → name_of tunnel ≡ bytes "vxlan"
    → get tunnel vni ≡ ok v
    → get transport dst_port ≡ ok d
    → concrete_value d ≡ some port
    → expect_under facts dst_addr (transport ∷ tunnel ∷ rest)
      ≡ ok (for_port facts dst_addr (tunnel_says v) port)
unfolding expect_under
expect_under-vxlan facts dst_addr transport tunnel rest v d port udp vxlan vni_read port_read
      concrete =
    rw
      (
        udp,
        text_eq_self (bytes "udp"),
        port_read,
        concrete,
        tunnel_facts-vxlan tunnel v vxlan vni_read,
      )
      refl

-- `Expect` under an IPv4 header whose addresses are read
pub expect-ipv4 :
    (outer : Node) (rest : Spine) (s t : Reading Addr)
    → name_of outer ≡ bytes "ipv4"
    → get outer src ≡ ok s
    → get outer dst ≡ ok t
    → expect (outer ∷ rest)
      ≡ expect_under (source_facts (concrete_value s)) (address_text (concrete_value t)) rest
unfolding expect bytes text_eq
expect-ipv4 outer rest s t name src_read dst_read = rw (name, src_read, dst_read) refl

-- Where a VXLAN device is lowered, and the outer addresses are bare or `*`, the capture that
-- `Expect` asks for filters the UDP port that the device is made for.
pub lower_vxlan-expect :
    (outer transport tunnel : Node) (rest : Spine) (s t : Reading Addr) (e e' : Env)
    (script : Script)
    → name_of outer ≡ bytes "ipv4"
    → name_of transport ≡ bytes "udp"
    → name_of tunnel ≡ bytes "vxlan"
    → get outer src ≡ ok s
    → get outer dst ≡ ok t
    → lower_vxlan (outer ∷ transport ∷ tunnel ∷ rest) e ≡ ok (script, e')
    → (port : ℕ) × (expectation : Expectation) × (expect (outer ∷ transport ∷ tunnel ∷ rest)
        ≡ ok expectation)
      × (expectation.filter ≡ bytes "udp port " ++ format_uint port)
      × EndsWithPort e port script
lower_vxlan-expect outer transport tunnel rest s t e e' script ipv4 udp vxlan src_read dst_read h =
    let low = lower_vxlan-Lowered outer transport tunnel rest e e' script h in
    (
      low.port,
      for_port (source_facts (concrete_value s)) (address_text (concrete_value t))
          (tunnel_says low.v) low.port,
      expect-ipv4 outer (transport ∷ tunnel ∷ rest) s t ipv4 src_read dst_read
          ∙ expect_under-vxlan (source_facts (concrete_value s)) (address_text (concrete_value t))
              transport tunnel rest low.v low.d low.port udp vxlan low.vni_read low.port_read
              (listening_port-concrete transport low.d low.port low.listens),
      refl,
      record { before = low.before; why = low.why; words = low.words; emitted = low.emitted },
    )
