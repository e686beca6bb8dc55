-- ===== src/Cli.antt =====
-- cmd/pktc/main.go: reading a file's trees, `render`, and the command `lower` on a file whose text has
-- been read. What a command prints is a text, next to how it ends.
pub mod Lower
pub mod Views
pub mod Parse
pub mod Mirror
pub mod Main
pub mod Exits
pub mod Args
pub mod Both
pub mod Stops
pub mod Names
use pktc.Common.{
  ℕ, suc, ◌+◌, ltb, ◌==◌, ◌&&◌, not, Bool, Text, bytes, text_eq, List, [], ◌∷◌, ◌++◌, length, join,
  if◌then◌else◌,
}
use pktc.Diag
use pktc.Diag.{Error, errorf, no_forms, one_form_only, Result, ok, err, fault, panic, ◌>>=◌}
use pktc.Std.Strconv.{format_uint}
use pktc.Sexp.Value.{Value}
use pktc.Sexp.Reader.{read}
use pktc.Ast.{Node, node_pos}
use pktc.Ast.Build.{build}
use pktc.Spine.{Spine, spine_string, from_form}
use pktc.Env.{Env, new, reset}
use pktc.Command.{shell, plain}
use pktc.Tile.Cover.{Covering, cover}
use pktc.Linux.Tiles.{registry}

-- the loop of `readTrees`
unfoldable pub build_all : List Value → Result (List Node)
build_all [] = ok []
build_all (v ∷ vs) = build v >>= λ n. build_all vs >>= λ ns. ok (n ∷ ns)

unfoldable pub build_forms : Text → List Value → Result (List Node)
build_forms path [] = err (Diag.plain (no_forms path))
build_forms path (v ∷ vs) = build_all (v ∷ vs)

-- `readTrees`, on a file's path and text
unfoldable pub read_trees : Text → Text → Result (List Node)
unfolding build_forms
read_trees path src = read path src >>= λ forms. build_forms path forms

unfoldable pub single : Text → List Node → Result Node
single path (n ∷ []) = ok n
single path (n ∷ m ∷ ns) = err (errorf (node_pos m) (one_form_only path (length ns + 2)))
single path [] = fault panic

-- `readTree` and `readSpine`
unfoldable pub read_tree : Text → Text → Result Node
unfolding single
read_tree path src = read_trees path src >>= λ trees. single path trees

unfoldable pub read_spine : Text → Text → Result Spine
read_spine path src = read_tree path src >>= λ root. from_form root

-- what `render` prints
unfoldable pub rendered : Text → Spine → Covering → Bool → Text
rendered heading sp c quiet =
    if quiet
    then plain c.script ++ bytes "\n"
    else bytes "#!/bin/sh\n"
      ++ ((if not (text_eq heading []) then bytes "# " ++ (heading ++ bytes "\n") else [])
          ++ (bytes "# "
              ++ (spine_string sp
                  ++ (bytes "\n# tiles: "
                      ++ (join c.applied (bytes " → ")
                          ++ (bytes "\n\n"
                              ++ (shell c.script
                                  ++ (if ltb 0 (length c.payload)
                                      then bytes "\n# "
                                        ++ (spine_string c.payload
                                            ++ bytes
                                                " below the tunnel is traffic, not configuration\n")
                                      else []))))))))

-- `render`: it prints where it succeeds, and the environment is passed on
unfoldable pub render : Text → Node → Env → Bool → Result (Text × Env)
unfolding rendered
render heading root e quiet = from_form root >>= λ sp.
    registry >>= λ reg. cover reg sp (reset e) >>= λ (c, e'). ok (rendered heading sp c quiet, e')

-- `rule %d of %d`, if there are several
unfoldable pub heading_for : ℕ → ℕ → Text
heading_for i n =
    if ltb 1 n
    then bytes "rule " ++ (format_uint (i + 1) ++ (bytes " of " ++ format_uint n))
    else []

-- what was printed before, in front of what the rest prints
abbrev pub after : {A : Type 0} → Text → Text × A → Text × A
after t (u, a) = (t ++ u, a)

-- what follows the rendering of one rule: what was printed stays printed when a later rule fails
unfoldable pub lower_next :
    (Env → Text × Result Env) → Text → Result (Text × Env) → Text × Result Env
lower_next later gap (ok (t, e)) = after (gap ++ t) (later e)
lower_next later gap (err x) = (gap, err x)
lower_next later gap (fault x) = (gap, fault x)

-- the loop of `cmdLower`, from rule `i` of `n` on
unfoldable pub lower_rules : Bool → ℕ → ℕ → List Node → Env → Text × Result Env
unfolding lower_next
lower_rules quiet n i [] e = ([], ok e)
lower_rules quiet n i (root ∷ roots) e =
    lower_next (lower_rules quiet n (suc i) roots) (if ltb 0 i && not quiet then bytes "\n" else [])
      (render (heading_for i n) root e quiet)

unfoldable pub lower_trees : Bool → Env → Result (List Node) → Text × Result Env
lower_trees quiet e (ok trees) = lower_rules quiet (length trees) 0 trees e
lower_trees quiet e (err x) = ([], err x)
lower_trees quiet e (fault x) = ([], fault x)

-- `cmdLower`, on its flags and the file
unfoldable pub lower : Text → Text → Bool → Text → Text → Text × Result Env
unfolding lower_trees
lower underlay key_dir quiet path src =
    lower_trees quiet (record (new underlay) { key_dir = key_dir }) (read_trees path src)
