-- ===== src/Wire.antt =====
-- wire/wire.go: what a tree predicts of the underlay.
pub mod Check
pub mod Port
pub mod Tunnels
pub mod Guard
use pktc.Common.{
  ℕ, zero, suc, ◌-◌, ltb, not, ◌&&◌, Bool, Text, bytes, text_eq, contains_text, Option, none, some,
  List, [], ◌∷◌, ◌++◌, length, if◌then◌else◌,
}
use pktc.Diag.{
  plain, empty_spine, ethernet_outermost, unpredictable_port, vlan_prediction, not_ip_underlay,
  no_prediction, Result, ok, err, ◌>>=◌,
}
use pktc.Std.Strconv.{format_uint}
use pktc.Std.Netip.{Addr, addr_string}
use pktc.Ast.{Node, name_of}
use pktc.Ast.Reading.{concrete_value, get}
use pktc.Ast.Props.{src, dst, dst_port, vni}
use pktc.Spine.{Spine}

pub record Fact : Type 0 where
  pub label : Text
  pub value : Text
  pub match : Text

pub record Expectation : Type 0 where
  pub filter : Text
  pub facts : List Fact

-- the literal `Fact{label, value, match}`
abbrev pub fact : Text → Text → Text → Fact
fact label value match = record { label = label; value = value; match = match }

-- `name` is the name of the layer
abbrev pub named : Node → Text → Bool
named n name = text_eq (name_of n) name

-- the width of the labels, over the loop
unfoldable pub widest : ℕ → List Fact → ℕ
widest w [] = w
widest w (f ∷ fs) = widest (if ltb w (length f.label) then length f.label else w) fs

unfoldable pub blanks : ℕ → Text
blanks zero = []
blanks (suc n) = b' ' ∷ blanks n

unfoldable pub fact_lines : ℕ → List Fact → Text
fact_lines w [] = []
fact_lines w (f ∷ fs) =
    bytes "  "
    ++ (f.label
        ++ (blanks (w - length f.label)
            ++ (bytes "  " ++ (f.value ++ (bytes "\n" ++ fact_lines w fs)))))

-- `Expectation.String`
unfoldable pub expectation_string : Expectation → Text
expectation_string e =
    bytes "filter: "
    ++ (e.filter
        ++ (bytes "\n\nexpect on the underlay:\n" ++ fact_lines (widest 0 e.facts) e.facts))

unfoldable pub source_facts : Option Addr → List Fact
source_facts none = []
source_facts (some a) =
    fact (bytes "outer source") (addr_string a) (addr_string a ++ bytes ".") ∷ []

abbrev pub address_text : Option Addr → Text
address_text none = []
address_text (some a) = addr_string a

-- the fact on the outer destination, if that is known
unfoldable pub destination_facts : Text → Text → List Fact
destination_facts addr match =
    if not (text_eq addr []) then fact (bytes "outer destination") addr match ∷ [] else []

unfoldable pub vni_facts : Option ℕ → List Fact
vni_facts none = []
vni_facts (some v) = fact (bytes "VXLAN VNI") (format_uint v) (bytes "vni " ++ format_uint v) ∷ []

-- `tunnelFacts`: the facts that it appends
unfoldable pub tunnel_facts : Node → Result (List Fact)
unfolding vni_facts
tunnel_facts n =
    let vxlan =
      (get n vni >>= λ v. ok (
        fact (bytes "encapsulation") (bytes "VXLAN") (bytes "VXLAN")
        ∷ vni_facts (concrete_value v))) in
    if named n (bytes "vxlan")
    then vxlan
    else if named n (bytes "geneve")
    then ok (fact (bytes "encapsulation") (bytes "Geneve") (bytes "Geneve") ∷ [])
    else if named n (bytes "wireguard")
    then ok (fact (bytes "encapsulation") (bytes "WireGuard (opaque UDP)") (bytes "UDP") ∷ [])
    else ok []

unfoldable pub third_facts : Spine → Result (List Fact)
third_facts [] = ok []
third_facts (n ∷ sp) = tunnel_facts n

-- the port that the prediction needs
unfoldable pub predicted_port : Option ℕ → Result ℕ
predicted_port none = err (plain unpredictable_port)
predicted_port (some p) = ok p

unfoldable pub udp_expectation : List Fact → Text → Node → Spine → Result Expectation
unfolding predicted_port third_facts destination_facts
udp_expectation facts dst_addr next rest = do
  d ← get next dst_port
  p ← predicted_port (concrete_value d)
  more ← third_facts rest
  ok (record {
    filter = bytes "udp port " ++ format_uint p;
    facts =
        facts
        ++ (fact (bytes "UDP destination port") (format_uint p) (format_uint p)
            ∷ (destination_facts dst_addr (bytes "> " ++ (dst_addr ++ (b'.' ∷ format_uint p)))
                ++ more));
  })

-- a shape that has nothing but its encapsulation to show
abbrev pub plain_expectation : List Fact → Text → Text → Text → Text → Expectation
plain_expectation facts dst_addr filter value match = record {
  filter = filter;
  facts =
      facts
      ++ (fact (bytes "encapsulation") value match
          ∷ destination_facts dst_addr (bytes "> " ++ dst_addr));
}

-- the layer under the outer header decides the shape
unfoldable pub expect_under : List Fact → Text → Spine → Result Expectation
unfolding udp_expectation
expect_under facts dst_addr [] = ok (record { filter = bytes "ip"; facts = facts })
expect_under facts dst_addr (next ∷ rest) =
    if named next (bytes "udp")
    then udp_expectation facts dst_addr next rest
    else if named next (bytes "vlan")
    then err (plain vlan_prediction)
    else if named next (bytes "gre")
    then ok (plain_expectation facts dst_addr (bytes "proto gre") (bytes "GRE") (bytes "GREv0"))
    else if named next (bytes "ipv4")
    then ok (plain_expectation facts dst_addr (bytes "proto 4") (bytes "IP-in-IP") (bytes "IP"))
    else err (plain (no_prediction (name_of next)))

-- `Expect`
unfoldable pub expect : Spine → Result Expectation
unfolding expect_under source_facts
expect [] = err (plain empty_spine)
expect (outer ∷ rest) =
    let predicted =
      (get outer src >>= λ s. get outer dst >>= λ d.
      expect_under (source_facts (concrete_value s)) (address_text (concrete_value d)) rest) in
    if named outer (bytes "ethernet")
    then err (plain ethernet_outermost)
    else if not (named outer (bytes "ipv4")) && not (named outer (bytes "ipv6"))
    then err (plain (not_ip_underlay (name_of outer)))
    else predicted

-- `Check`: the facts that the capture does not show
unfoldable pub check : List Fact → Text → List Fact
check [] captured = []
check (f ∷ fs) captured =
    let later = check fs captured in
    if not (contains_text captured f.match) then f ∷ later else later
