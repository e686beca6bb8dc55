-- ===== src/Cli/Views.antt =====
-- cmd/pktc/main.go: `cmdExpect` and `cmdExplain`, on a file whose text has been read.
use pktc.Common.{
  ap, arith, ◌<◌, ℕ, suc, ◌+◌, ltb, Text, bytes, List, [], ◌∷◌, ◌++◌, length, refl, ◌≡◌, sym, subst,
  if◌then◌else◌,
}
use pktc.Diag.{Result, ok, err, fault, ◌>>=◌, Returns, returns, fails, Returns-bind, Returns-map}
use pktc.Std.Strconv.{format_uint}
use pktc.Ast.{Node}
use pktc.Sexp.Value.{Value}
use pktc.Sexp.Total.{read-Located}
use pktc.Wire.Check.{expect-Filters}
use pktc.Ast.Distinct.{build-WellFormed}
use pktc.Ast.Total.{Returning}
use pktc.Spine.{from_form}
use pktc.Spine.Chain.{from_form-Configures}
use pktc.Tile.{Registry}
use pktc.Tile.Explain.{explain}
use pktc.Tile.Report.{explanation_string, explain-AtLayers}
use pktc.Linux.Tiles.{linux, registry}
use pktc.Linux.Cover.{tiles-HasPatterns}
use pktc.Wire.{expect, expectation_string}
use pktc.Cli.{build_all, build_forms, single, read_trees, read_tree, read_spine, after}
use pktc.Cli.Lower.{read_trees-WellFormed, registry-linux}

-- `cmdExpect`: what it prints
unfoldable pub expect_command : Text → Text → Result Text
expect_command path src = read_spine path src >>= λ sp. expect sp >>= λ x. ok (expectation_string x)

-- what the loop of `cmdExplain` prints in front of a rule
unfoldable pub rule_heading : ℕ → ℕ → Text
rule_heading i n =
    (if ltb 0 i then bytes "\n" else [])
    ++ (if ltb 1 n
        then bytes "=== rule "
          ++ (format_uint (i + 1) ++ (bytes " of " ++ (format_uint n ++ bytes " ===\n")))
        else [])

unfoldable pub explain_rule : Registry → Node → Result Text
explain_rule reg root = from_form root >>= λ sp. explain reg sp >>= λ x. ok (explanation_string x)

-- what follows one rule: what was printed stays printed when a later rule fails
unfoldable pub explain_next :
    Text × Result (Unit {0}) → Text → Result Text → Text × Result (Unit {0})
explain_next later heading (ok t) = after (heading ++ t) later
explain_next later heading (err e) = (heading, err e)
explain_next later heading (fault x) = (heading, fault x)

unfoldable pub explain_rules : Registry → ℕ → ℕ → List Node → Text × Result (Unit {0})
unfolding explain_next rule_heading
explain_rules reg n i [] = ([], ok tt)
explain_rules reg n i (root ∷ roots) =
    let later = explain_rules reg n (suc i) roots in
    explain_next later (rule_heading i n) (explain_rule reg root)

unfoldable pub explain_trees : Result (Registry × List Node) → Text × Result (Unit {0})
unfolding explain_rules
explain_trees (ok (reg, trees)) = explain_rules reg (length trees) 0 trees
explain_trees (err e) = ([], err e)
explain_trees (fault x) = ([], fault x)

-- `cmdExplain`
unfoldable pub explain_command : Text → Text → Text × Result (Unit {0})
unfolding explain_trees
explain_command path src =
    explain_trees (read_trees path src >>= λ trees. registry >>= λ reg. ok (reg, trees))

explain_rule-Returning : (root : Node) → Returning (explain_rule linux root)
unfolding explain_rule
explain_rule-Returning root =
    Returns-bind (from_form-Configures root)
      λ sp _. Returns-bind (explain-AtLayers linux sp tiles-HasPatterns) λ x _. returns tt

explain_next-Returning :
    (later : Text × Result (Unit {0})) (heading : Text) {r : Result Text}
    → Returning r
    → Returning later.1
    → Returning (explain_next later heading r).1
unfolding explain_next
explain_next-Returning later heading (returns h) more = more
explain_next-Returning later heading (fails e) more = fails e

explain_rules-Returning :
    (n i : ℕ) (roots : List Node) → Returning (explain_rules linux n i roots).1
unfolding explain_rules
explain_rules-Returning n i [] = returns tt
explain_rules-Returning n i (root ∷ roots) =
    explain_next-Returning (explain_rules linux n (suc i) roots) (rule_heading i n)
      (explain_rule-Returning root) (explain_rules-Returning n (suc i) roots)

explain_trees-Returning :
    {r : Result (Registry × List Node)}
    → Returns (λ p. p.0 ≡ linux) r
    → Returning (explain_trees r).1
unfolding explain_trees
explain_trees-Returning (returns {a} same) =
    subst (λ reg. Returning (explain_rules reg (length a.1) 0 a.1).1) (sym same)
      (explain_rules-Returning (length a.1) 0 a.1)
explain_trees-Returning (fails e) = fails e

-- `pktc explain` ends on every file, with an error or with every rule explained.
pub explain_command-Returning : (path src : Text) → Returning (explain_command path src).1
unfolding explain_command
explain_command-Returning path src = explain_trees-Returning (
    Returns-bind (read_trees-WellFormed path src)
      λ trees _. Returns-bind registry-linux λ reg same. returns same)

build_all-length : (vs : List Value) → Returns (λ ns. length ns ≡ length vs) (build_all vs)
unfolding build_all
build_all-length [] = returns refl
build_all-length (v ∷ vs) =
    Returns-bind (build-WellFormed v)
      λ n _. Returns-bind (build_all-length vs) λ ns same. returns (ap suc same)

-- a file that is read has a tree
build_forms-full :
    (path : Text) (vs : List Value) → Returns (λ ns. 0 < length ns) (build_forms path vs)
unfolding build_forms
build_forms-full path [] = fails _
build_forms-full path (v ∷ vs) = Returns-map (build_all-length (v ∷ vs)) λ ns same. omega arith

single-Returning : (path : Text) (ns : List Node) → 0 < length ns → Returning (single path ns)
unfolding single
single-Returning path [] h = absurd (omega arith)
single-Returning path (n ∷ []) h = returns tt
single-Returning path (n ∷ m ∷ ns) h = fails _

pub read_tree-Returning : (path src : Text) → Returning (read_tree path src)
unfolding read_tree read_trees
read_tree-Returning path src =
    Returns-bind (Returns-bind (read-Located path src) λ forms _. build_forms-full path forms)
      λ trees full. single-Returning path trees full

pub read_spine-Returning : (path src : Text) → Returning (read_spine path src)
unfolding read_spine
read_spine-Returning path src =
    Returns-bind (read_tree-Returning path src)
      λ root _. Returns-map (from_form-Configures root) λ _ _. tt

-- `pktc expect` ends on every file, with an error or with a prediction: the index of the second
-- tree, which its diagnostic takes, is never out of range.
pub expect_command-Returning : (path src : Text) → Returning (expect_command path src)
unfolding expect_command
expect_command-Returning path src =
    Returns-bind (read_spine-Returning path src)
      λ sp _. Returns-bind (expect-Filters sp) λ x _. returns tt
