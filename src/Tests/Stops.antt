-- ===== src/Tests/Stops.antt =====
-- A file whose second rule cannot be lowered.
use pktc.Common.{
  ℕ, ◌≡◌, refl, Bool, false, Text, bytes, text_eq, has_prefix, join, List, [], ◌∷◌, ◌++◌,
}
use pktc.Diag.{Error, plain, empty_spine, Result, ok, err}
use pktc.Diag.Format.{error_string}
use pktc.Std.Strconv.{format_uint, digit_value}
use pktc.Std.Netip
use pktc.Sexp.Value
use pktc.Sexp.Reader.{
  read, forms_loop, read_value, list_loop, skip_space, skip_loop, read_atom, atom_loop, is_delim,
  string_loop, classify, is_number, value_at, list_at, forms_at, advance_pos,
}
use pktc.Ast.{Node, node, none_below, child, find_prop, lookup}
use pktc.Ast.Build.{build, build_items, build_kids, check_prop, check_child, new_prop}
use pktc.Ast.Reading.{get, read_prop, require}
use pktc.Ast.Props.{parse_addr}
use pktc.Spine.{extract, from_form, slice}
use pktc.Env.{Env, new, reset, alloc, valid_name, enter, get_count, set_count, numbered}
use pktc.Tile.{match_at, fits, best, new_registry, tile_key, seen_as}
use pktc.Tile.Address.{address_of}
use pktc.Tile.Cover.{cover}
use pktc.Linux.{layer, endpoints}
use pktc.Linux.Tunnel.{lower_gretap}
use pktc.Linux.Tiles.{registry}
use pktc.Cli.{read_trees, build_all, lower_rules, render, heading_for}
use pktc.Cli.Main.{File, contents, main}
use pktc.Cli.Args.{lower_args}
use pktc.Cli.Stops.{gap_before, main-lower_stops}
use pktc.Tests.Whole.{at, rule}

abbrev no_tables : ℕ → Bool
no_tables r = false

abbrev source : Text
source =
    bytes "(configure (ipv4 :src \"::1\" :dst \"::2\" (gre (ethernet))))"
    ++ bytes "(configure (udp))"

abbrev one_file : Text → File
one_file path = contents source

abbrev good : List Node
good = rule 0 (bytes "::2") ∷ []

-- no tile begins with `udp`
abbrev bad : Node
bad =
    node (bytes "configure") [] (child (node (bytes "udp") [] none_below (at 69)) none_below)
      (at 58)

trees-run : read_trees (bytes "t.lisp") source ≡ ok (good ++ bad ∷ [])
unfolding read_trees read forms_loop read_value list_loop skip_space skip_loop read_atom atom_loop
    is_delim classify is_number value_at list_at forms_at advance_pos build build_all build_items
    build_kids check_prop check_child Value.key new_prop find_prop lookup bytes text_eq string_loop
    has_prefix
trees-run = refl

abbrev behind_good : Env
behind_good = record {
  root = bytes "eth0";
  dev = bytes "gretap1";
  key_dir = bytes "/keys";
  created = bytes "gretap1" ∷ [];
  used = bytes "gretap1" ∷ bytes "eth0" ∷ [];
  count = (bytes "gretap", 1) ∷ [];
}

abbrev good_out : Text
good_out = (lower_rules false 2 0 good (record (new (bytes "eth0")) { key_dir = bytes "/keys" })).0

good-run :
    lower_rules false 2 0 good (record (new (bytes "eth0")) { key_dir = bytes "/keys" })
    ≡ (good_out, ok behind_good)
unfolding lower_rules render registry new_registry tile_key seen_as from_form extract cover match_at
    fits slice bytes text_eq best lower_gretap new reset alloc valid_name format_uint digit_value
    has_prefix join get lookup layer endpoints parse_addr Netip.parse_addr Netip.addr_string enter
    address_of read_prop get_count set_count numbered require
good-run = refl

abbrev error_of : {A : Type 0} → Result A → Error
error_of r = elim r [ err x ↦ x | _ ↦ plain empty_spine ]

abbrev complaint : Error
complaint = error_of (render (heading_for 1 2) bad behind_good false)

bad-run : render (heading_for 1 2) bad behind_good false ≡ err complaint
unfolding render registry new_registry tile_key seen_as from_form extract cover match_at fits slice
    bytes text_eq reset best join
bad-run = refl

main-lower_stops_example :
    main no_tables one_file
      (lower_args (bytes "pktc") (bytes "eth0") (bytes "/keys") false (bytes "t.lisp"))
    ≡ ok (record {
      out = good_out ++ gap_before false 1;
      err_out = bytes "pktc: " ++ (error_string no_tables complaint ++ bytes "\n");
      status = 1;
    })
main-lower_stops_example =
    main-lower_stops no_tables one_file (bytes "pktc") (bytes "eth0") (bytes "/keys") false
      (bytes "t.lisp") source good bad [] behind_good good_out complaint refl trees-run good-run
      bad-run
