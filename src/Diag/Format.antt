-- ===== src/Diag/Format.antt =====
-- The text of a diagnostic: `Pos.String` and `Error.Error` of sexp/pos.go, and what `fmt` makes of
-- the format strings of all packages. `printable` is that of `%q`.
use pktc.Common.{ℕ, Bool, Text, bytes, utf8, text_eq, List, [], ◌++◌, join, if◌then◌else◌}
use pktc.Std.Strconv.{format_uint, format_int}
use pktc.Std.Quote.{quoted}
use pktc.Sexp.Kind.{kind_string}
use pktc.Diag.{
  Pos, Error, errorf, plain, Message, unexpected_close, unclosed_paren, unterminated_string,
  expected_value, empty_name, unknown_escape, empty_form, expected_form, bad_head, expected_nested,
  no_value, late_property, duplicate_property, not_concrete, missing_required, bad_value,
  expected_address, expected_prefix, expected_text, expected_number, not_address, no_prefix_length,
  not_prefix, does_not_fit, outside_vlan_range, exceeds_vni_range, too_many_children,
  expected_configure, configure_props, configure_children, name_taken, name_illegal, name_empty,
  name_too_long, empty_pattern, no_lower, shared_pattern, no_lowering, wrapped, dynamic_remote,
  missing_src, missing_dst, missing_inner_src, missing_vni, dynamic_port, missing_port,
  dynamic_vlan, missing_peer, missing_listen, empty_spine, ethernet_outermost, unpredictable_port,
  vlan_prediction, not_ip_underlay, no_prediction, bad_peer_inner, nothing_to_mirror, one_ended,
  no_forms, one_form_only, outside,
}

-- `Pos.String`
unfoldable pub pos_string : Pos → Text
pos_string p =
    let at = format_uint p.line ++ (bytes ":" ++ format_uint p.col) in
    if text_eq p.file [] then at else p.file ++ (bytes ":" ++ at)

-- `(%s ...)`, and the rest of the text
unfoldable pub form : Text → Text → Text
form name rest = bytes "(" ++ (name ++ (bytes " ...)" ++ rest))

-- the names of a pattern or of a spine
unfoldable pub dotted : List Text → Text
dotted names = join names (bytes " · ")

unfoldable pub lacks : Text → Text → Text
unfolding form
lacks name rest = form name (bytes ": missing required property :" ++ rest)

module _ (printable : ℕ → Bool) where
  unfoldable mutual
    unfolding form dotted lacks

    -- `Error.Error`, or the text of a plain error
    pub error_string : Error → Text
    error_string (errorf p m) = pos_string p ++ (bytes ": " ++ message_string m)
    error_string (plain m) = message_string m

    pub message_string : Message → Text
    message_string unexpected_close = bytes "unexpected ')'"
    message_string unclosed_paren = bytes "unclosed '(' — missing ')'"
    message_string unterminated_string = bytes "unterminated string"
    message_string expected_value = bytes "expected a value"
    message_string empty_name = bytes "property name is empty"
    message_string (unknown_escape e) = bytes "unknown escape \\" ++ utf8 e
    message_string empty_form = bytes "empty form '()'"
    message_string (expected_form k) = bytes "expected a form '(...)', got " ++ kind_string k
    message_string (bad_head k) =
        bytes "a form must start with a protocol name, got " ++ kind_string k
    message_string (expected_nested k) =
        bytes "expected a nested form '(...)', got " ++ kind_string k
    message_string (no_value p) = bytes "property " ++ (p ++ bytes " has no value")
    message_string (late_property p) =
        bytes "property " ++ (p ++ bytes " must come before any nested form")
    message_string (duplicate_property p name) =
        bytes "duplicate property " ++ (p ++ (bytes " on " ++ form name []))
    message_string (not_concrete name k) =
        form name (bytes ": :" ++ (k ++ bytes " must be a concrete value here, not '*'"))
    message_string (missing_required name k) = lacks name k
    message_string (bad_value name k e) =
        form name (bytes ": :" ++ (k ++ (bytes ": " ++ error_string e)))
    message_string (expected_address k) = bytes "expected an IP address, got " ++ kind_string k
    message_string (expected_prefix k) = bytes "expected address/length, got " ++ kind_string k
    message_string (expected_text k) = bytes "expected a name, got " ++ kind_string k
    message_string (expected_number k) = bytes "expected a number, got " ++ kind_string k
    message_string (not_address t) = quoted printable t ++ bytes " is not an IP address"
    message_string (no_prefix_length t) =
        quoted printable t
        ++ (bytes " needs a prefix length (for example "
            ++ (t ++ bytes "/24); a packet does not carry one"))
    message_string (not_prefix t) = quoted printable t ++ bytes " is not a valid address/length"
    message_string (does_not_fit t bits) =
        t ++ (bytes " does not fit in " ++ (format_uint bits ++ bytes " bits"))
    message_string (outside_vlan_range n) =
        format_uint n ++ bytes " is outside the usable VLAN range (1..4094)"
    message_string (exceeds_vni_range n) =
        format_uint n ++ bytes " exceeds the 24-bit VNI range (0..16777215)"
    message_string (too_many_children name n) = form name (
        bytes " contains "
        ++ (format_uint n ++ bytes " nested forms; an encapsulation stack carries exactly one"))
    message_string (expected_configure name) =
        bytes "expected a " ++ form (bytes "configure") (bytes " form, found " ++ form name [])
    message_string configure_props = form (bytes "configure") (bytes " takes no properties")
    message_string (configure_children n) =
        form (bytes "configure")
          (bytes " must contain exactly one packet form, found " ++ format_uint n)
    message_string (name_taken name) =
        bytes "interface name "
        ++ (quoted printable name ++ bytes " is already used by another rule")
    message_string (name_illegal name) =
        bytes "interface name " ++ (quoted printable name ++ bytes " contains an illegal character")
    message_string name_empty = bytes "interface name is empty"
    message_string (name_too_long name n) =
        bytes "interface name "
        ++ (quoted printable name
            ++ (bytes " is " ++ (format_uint n ++ bytes " characters; Linux allows 15")))
    message_string (empty_pattern t) = bytes "tile " ++ (t ++ bytes " has an empty pattern")
    message_string (no_lower t) = bytes "tile " ++ (t ++ bytes " has no Lower function")
    message_string (shared_pattern prev t names priority) =
        bytes "tiles "
        ++ (prev
            ++ (bytes " and "
                ++ (t
                    ++ (bytes " share pattern "
                        ++ (dotted names
                            ++ (bytes " at priority "
                                ++ (format_int priority
                                    ++ bytes "; give one a distinct priority")))))))
    message_string (no_lowering names target tiles) =
        bytes "no lowering exists for "
        ++ (dotted names
            ++ (bytes " on target "
                ++ (target ++ (bytes "\n       tiles available: " ++ join tiles (bytes ", ")))))
    message_string (wrapped e) = error_string e
    message_string (dynamic_remote name) = form name (
        bytes
          ": :dst '*' has no lowering for a point-to-point tunnel; only VXLAN-style devices serve many remotes")
    message_string (missing_src name) =
        lacks name (
          bytes
            "src; give the underlay address, or '*' to let the kernel choose it from the device")
    message_string (missing_dst name) = lacks name (
        bytes
          "dst; give the peer address, a multicast group, or '*' when remotes are learned rather than configured")
    message_string (missing_inner_src name) =
        lacks name (bytes "src; the inner prefix is what allowed-ips is derived from")
    message_string missing_vni =
        lacks (bytes "vxlan") (bytes "vni; give a VNI, or '*' for one device serving every VNI")
    message_string dynamic_port =
        form (bytes "udp")
          (bytes ": :dst-port '*' has no lowering; a VXLAN device listens on one port")
    message_string missing_port = lacks (bytes "udp") (
        bytes
          "dst-port; pktc will not guess, because the kernel default is 8472 and the IANA value is 4789")
    message_string dynamic_vlan = form (bytes "vlan") (
        bytes
          ": :id '*' has no lowering; a tagged interface carries one tag. An interface that carries every tag is the untagged parent itself")
    message_string missing_peer = lacks (bytes "wireguard") (
        bytes
          "peer; name the peer, and the name resolves to key material on the machine. Keys are not packet structure")
    message_string missing_listen =
        lacks (bytes "udp")
          (bytes "src-port; WireGuard listens on a fixed port, which is the port the peer sends to")
    message_string empty_spine = bytes "empty spine"
    message_string ethernet_outermost =
        bytes
          "the outermost layer is (ethernet ...); a tagged or bridged interface has no outer header of its own to predict"
    message_string unpredictable_port =
        form (bytes "udp") (bytes ": a dynamic or absent :dst-port cannot be predicted")
    message_string vlan_prediction =
        form (bytes "vlan") (bytes ": a tagged interface is predicted on its parent, not on itself")
    message_string (not_ip_underlay name) =
        bytes "the outermost layer is " ++ form name (bytes "; only IP underlays can be predicted")
    message_string (no_prediction name) =
        form name (bytes " under the outer header has no wire prediction yet")
    message_string (bad_peer_inner e) = bytes "peer inner address: " ++ error_string e
    message_string nothing_to_mirror = bytes "nothing to mirror"
    message_string (one_ended name) =
        form name
          (bytes ": mirroring needs a layer naming both :src and :dst; a tunnel has two ends")
    message_string (no_forms path) = path ++ bytes ": no forms found"
    message_string (outside text) = text
    message_string (one_form_only path n) =
        bytes "this command takes one (configure ...) form; "
        ++ (path ++ (bytes " holds " ++ (format_uint n ++ bytes ". Use 'lower' for a whole file")))
