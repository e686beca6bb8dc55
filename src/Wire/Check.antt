-- ===== src/Wire/Check.antt =====
-- wire/wire.go: `Check`, and how `Expect` ends.
use pktc.Common.{
  ℕ, ◌≢◌, ◌≡◌, ◌↔◌, inl, inr, false, not, ◌&&◌, Text, bytes, contains_text, Option, none, some,
  List, [], ◌∷◌, Bool-cases,
}
use pktc.Diag.{Returns, returns, fails, Returns-bind, Returns-if}
use pktc.Ast.{Node}
use pktc.Ast.Reading.{concrete_value}
use pktc.Ast.Props.{src, dst, dst_port, vni}
use pktc.Ast.Total.{
  Returning, parse_addr-Returning, parse_u16-Returning, parse_vni-Returning, get-Returning,
}
use pktc.Spine.{Spine}
use pktc.Tile.Choice.{Among}
use pktc.Wire.{
  Fact, Expectation, named, source_facts, address_text, tunnel_facts, third_facts, predicted_port,
  udp_expectation, expect_under, expect, check,
}

-- `Check` reports exactly the facts of the expectation whose text the capture does not hold.
pub check_iff :
    (f : Fact) (fs : List Fact) (captured : Text)
    → Among f (check fs captured) ↔ (Among f fs × (contains_text captured f.match ≡ false))
unfolding check
check_iff f [] captured = (λ m. absurd m, λ (m, _). absurd m)
check_iff f (g ∷ gs) captured =
    let later = check_iff f gs captured in
    elim (Bool-cases (contains_text captured g.match)) [
      | inl seen ↦ rw seen (
        λ m. (inr (later.0 m).0, (later.0 m).1),
        λ (m, missing). elim m [ inl here ↦ cc | inr there ↦ later.1 (there, missing) ],
      )
      | inr unseen ↦ rw unseen (
        λ m. elim m [
          | inl here ↦ (inl here, cc)
          | inr there ↦ (inr (later.0 there).0, (later.0 there).1)
        ],
        λ (m, missing). elim m [ inl here ↦ inl here | inr there ↦ inr (later.1 (there, missing)) ],
      )
    ]

predicted_port-Returning : (o : Option ℕ) → Returning (predicted_port o)
unfolding predicted_port
predicted_port-Returning none = fails _
predicted_port-Returning (some p) = returns tt

tunnel_facts-Returning : (n : Node) → Returning (tunnel_facts n)
unfolding tunnel_facts
tunnel_facts-Returning n =
    Returns-if (named n (bytes "vxlan"))
      (λ _. Returns-bind (get-Returning n vni parse_vni-Returning) λ v _. returns tt)
      λ _.
        Returns-if (named n (bytes "geneve")) (λ _. returns tt)
          λ _. Returns-if (named n (bytes "wireguard")) (λ _. returns tt) λ _. returns tt

third_facts-Returning : (sp : Spine) → Returning (third_facts sp)
unfolding third_facts
third_facts-Returning [] = returns tt
third_facts-Returning (n ∷ sp) = tunnel_facts-Returning n

-- a filter to capture with
abbrev pub Filters : Expectation → Type 0
Filters x = x.filter ≢ []

udp_expectation-Filters :
    (facts : List Fact) (dst_addr : Text) (next : Node) (rest : Spine)
    → Returns Filters (udp_expectation facts dst_addr next rest)
unfolding udp_expectation bytes
udp_expectation-Filters facts dst_addr next rest =
    Returns-bind (get-Returning next dst_port parse_u16-Returning) λ d _.
      Returns-bind (predicted_port-Returning (concrete_value d))
        λ p _. Returns-bind (third_facts-Returning rest) λ more _. returns (λ e. cc e)

expect_under-Filters :
    (facts : List Fact) (dst_addr : Text) (sp : Spine)
    → Returns Filters (expect_under facts dst_addr sp)
unfolding expect_under bytes
expect_under-Filters facts dst_addr [] = returns (λ e. cc e)
expect_under-Filters facts dst_addr (next ∷ rest) =
    Returns-if (named next (bytes "udp")) (λ _. udp_expectation-Filters facts dst_addr next rest)
      λ _.
        Returns-if (named next (bytes "vlan")) (λ _. fails _)
          λ _.
            Returns-if (named next (bytes "gre")) (λ _. returns (λ e. cc e))
              λ _. Returns-if (named next (bytes "ipv4")) (λ _. returns (λ e. cc e)) λ _. fails _

-- `Expect` returns on every spine, the empty one included, and whatever it predicts has a filter to
-- capture with.
pub expect-Filters : (sp : Spine) → Returns Filters (expect sp)
unfolding expect
expect-Filters [] = fails _
expect-Filters (outer ∷ rest) =
    Returns-if (named outer (bytes "ethernet")) (λ _. fails _)
      λ _.
        Returns-if (not (named outer (bytes "ipv4")) && not (named outer (bytes "ipv6")))
          (λ _. fails _)
          λ _. Returns-bind (get-Returning outer src parse_addr-Returning) λ s _.
            Returns-bind (get-Returning outer dst parse_addr-Returning) λ d _.
              expect_under-Filters (source_facts (concrete_value s))
                (address_text (concrete_value d)) rest
