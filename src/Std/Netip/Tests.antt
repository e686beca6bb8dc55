-- ===== src/Std/Netip/Tests.antt =====
-- Documented behaviour of net/netip at some texts.
use pktc.Common.{
  ◌≡◌, refl, Text, bytes, Option, none, some, [], ◌∷◌, map, true, false, join, has_prefix,
}
use pktc.Std.Strconv.{format_uint, digit_value, parse_uint}
use pktc.Std.Netip.{
  parse_addr, addr_string, parse_prefix, prefix_string, masked, is_multicast, option_map,
}

abbrev again : Text → Option Text
again s = option_map addr_string (parse_addr s)

parse_addr_accepts :
    map again (
      bytes "192.168.1.10"
      ∷ bytes "fe80::1%eth0"
      ∷ bytes "2001:db8:0:0:1:0:0:1"
      ∷ bytes "::"
      ∷ bytes "::ffff:1.2.3.4"
      ∷ bytes "1::"
      ∷ [])
    ≡ some (bytes "192.168.1.10")
      ∷ some (bytes "fe80::1%eth0")
      ∷ some (bytes "2001:db8::1:0:0:1")
      ∷ some (bytes "::")
      ∷ some (bytes "::ffff:1.2.3.4")
      ∷ some (bytes "1::")
      ∷ []
unfolding parse_addr addr_string bytes join format_uint digit_value has_prefix
parse_addr_accepts = refl

parse_addr_refuses :
    map again
      (bytes "1.2.3" ∷ bytes "1.2.3.256" ∷ bytes "01.2.3.4" ∷ bytes "1:2" ∷ bytes "eth0" ∷ [])
    ≡ none ∷ none ∷ none ∷ none ∷ none ∷ []
unfolding parse_addr bytes digit_value has_prefix
parse_addr_refuses = refl

parse_prefix-masked :
    map
      (λ s. option_map (λ p. prefix_string (masked p)) (parse_prefix s))
      (bytes "10.100.7.1/20"
        ∷ bytes "2001:db8:ffff::/36"
        ∷ bytes "10.0.0.1/33"
        ∷ bytes "10.0.0.1/08"
        ∷ [])
    ≡ some (bytes "10.100.0.0/20") ∷ some (bytes "2001:db8:f000::/36") ∷ none ∷ none ∷ []
unfolding parse_prefix masked prefix_string addr_string bytes join format_uint digit_value
    has_prefix parse_uint
parse_prefix-masked = refl

is_multicast_tests :
    map
      (λ s. option_map is_multicast (parse_addr s))
      (bytes "239.1.1.1" ∷ bytes "192.168.1.1" ∷ bytes "ff02::1" ∷ bytes "::ffff:224.0.0.1" ∷ [])
    ≡ some true ∷ some false ∷ some true ∷ some true ∷ []
unfolding is_multicast parse_addr bytes digit_value has_prefix
is_multicast_tests = refl
