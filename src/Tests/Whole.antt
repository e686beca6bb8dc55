-- ===== src/Tests/Whole.antt =====
-- A file of two rules, lowered and run.
use pktc.Common.{
  ℕ, ◌≡◌, refl, false, Text, bytes, text_eq, has_prefix, contains_byte, join, List, [], ◌∷◌, ◌++◌,
  ◌+◌, All,
}
use pktc.Diag.{ok, Pos}
use pktc.Std.Strconv.{format_uint, digit_value}
use pktc.Std.Netip
use pktc.Sexp.Kind.{k_string}
use pktc.Sexp.Value
use pktc.Sexp.Value.{atom}
use pktc.Sexp.Reader.{
  read, forms_loop, read_value, list_loop, skip_space, skip_loop, read_atom, atom_loop, is_delim,
  string_loop, classify, is_number, value_at, list_at, forms_at, advance_pos,
}
use pktc.Ast.{Node, node, none_below, child, find_prop, lookup}
use pktc.Ast.Build.{build, build_items, build_kids, check_prop, check_child, new_prop}
use pktc.Ast.Reading.{get, read_prop, require}
use pktc.Ast.Props.{parse_addr}
use pktc.Spine.{extract, from_form, slice}
use pktc.Env.{Env, new, reset, alloc, valid_name, enter, get_count, set_count, numbered}
use pktc.Command.{command}
use pktc.Tile.{match_at, fits, best}
use pktc.Tile.Address.{address_of}
use pktc.Tile.Cover.{Covering, bring_up, cover}
use pktc.Linux.{layer, endpoints}
use pktc.Linux.Tunnel.{link_add, lower_gretap}
use pktc.Cli.{read_trees, build_all, lower}
use pktc.Nettest.{run_script}
use pktc.Nettest.Lines.{command-Fits}
use pktc.Nettest.Script.{run_all}
use pktc.Nettest.Covered.{AllFit}
use pktc.Nettest.Whole.{coverings, all_commands, run_script-lower}
use pktc.Tests.Scripts.{quiet_host}

abbrev two_rules : Text
two_rules =
    bytes "(configure (ipv4 :src \"::1\" :dst \"::2\" (gre (ethernet))))"
    ++ bytes "(configure (ipv4 :src \"::1\" :dst \"::3\" (gre (ethernet))))"

abbrev pub at : ℕ → Pos
at col = record { file = bytes "t.lisp"; line = 1; col = col }

-- the tree of a rule that begins in column `c + 1`
abbrev pub rule : ℕ → Text → Node
rule c dst =
    node (bytes "configure") []
      (child
        (node (bytes "ipv4")
          (record {
            key = bytes "src";
            val = atom k_string (bytes "::1") (at (c + 23));
            pos = at (c + 18);
          }
            ∷ record { key = bytes "dst"; val = atom k_string dst (at (c + 34)); pos = at (c + 29) }
            ∷ [])
          (child
            (node (bytes "gre") []
              (child (node (bytes "ethernet") [] none_below (at (c + 45))) none_below)
              (at (c + 40)))
            none_below)
          (at (c + 12)))
        none_below)
      (at (c + 1))

abbrev roots : List Node
roots = rule 0 (bytes "::2") ∷ rule 57 (bytes "::3") ∷ []

roots-run : read_trees (bytes "t.lisp") two_rules ≡ ok roots
unfolding read_trees read forms_loop read_value list_loop skip_space skip_loop read_atom atom_loop
    is_delim classify is_number value_at list_at forms_at advance_pos build build_all build_items
    build_kids check_prop check_child Value.key new_prop find_prop lookup bytes text_eq string_loop
    has_prefix
roots-run = refl

abbrev made : Text → Text → Covering
made dev dst = record {
  script =
      command (bytes "Ethernet inside GRE is a bridged gretap device")
        (link_add dev (bytes "gretap") (bytes "::1") dst)
      ∷ bring_up dev;
  applied = bytes "GRETAP" ∷ [];
  payload = [];
}

abbrev covered : List Covering
covered = made (bytes "gretap1") (bytes "::2") ∷ made (bytes "gretap2") (bytes "::3") ∷ []

abbrev last : Env
last = record {
  root = bytes "eth0";
  dev = bytes "gretap2";
  key_dir = bytes "/keys";
  created = bytes "gretap1" ∷ bytes "gretap2" ∷ [];
  used = bytes "gretap2" ∷ bytes "gretap1" ∷ bytes "eth0" ∷ [];
  count = (bytes "gretap", 2) ∷ [];
}

covered-run :
    coverings roots (record (new (bytes "eth0")) { key_dir = bytes "/keys" }) ≡ ok (covered, last)
unfolding coverings from_form extract cover match_at fits slice bytes text_eq best lower_gretap new
    reset alloc valid_name format_uint digit_value has_prefix join get lookup layer endpoints
    parse_addr Netip.parse_addr Netip.addr_string enter address_of read_prop get_count set_count
    numbered require
covered-run = refl

all-AllFit : All AllFit covered
unfolding contains_byte bytes
all-AllFit = (
  (command-Fits _ _ _ refl refl, (command-Fits _ _ _ refl refl, tt)),
  ((command-Fits _ _ _ refl refl, (command-Fits _ _ _ refl refl, tt)), tt),
)

run_script-lower_example :
    (out : Text) × (lower (bytes "eth0") (bytes "/keys") false (bytes "t.lisp") two_rules
      ≡ (out, ok last))
    × (run_script quiet_host (bytes "ns") out
        ≡ run_all quiet_host (bytes "ns") (all_commands covered))
run_script-lower_example =
    run_script-lower quiet_host (bytes "ns") (bytes "eth0") (bytes "/keys") false (bytes "t.lisp")
      two_rules roots last covered roots-run covered-run all-AllFit
