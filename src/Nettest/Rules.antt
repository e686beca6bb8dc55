-- ===== src/Nettest/Rules.antt =====
-- cmd/pktc/main.go: what the loop of `cmdLower` prints, in lines.
use pktc.Common.{
  ℕ, suc, ◌+◌, ◌&&◌, ltb, ◌≡◌, refl, ap, Bool, true, false, not, Text, bytes, contains_byte, List,
  [], ◌∷◌, ◌++◌, append_assoc, All, if_intro, is_digit, arith, if◌then◌else◌,
}
use pktc.Std.Strconv.{format_uint}
use pktc.Std.Decimal.{format_uint-digits}
use pktc.Std.Trim.{OneLine, OneLine-append, lined}
use pktc.Diag.{ok}
use pktc.Ast.{Node}
use pktc.Spine.{Spine, from_form}
use pktc.Env.{Env, reset}
use pktc.Tile.Cover.{Covering, cover}
use pktc.Linux.Tiles.{linux, registry-apart}
use pktc.Cli.{rendered, render, heading_for, lower_next, lower_rules}
use pktc.Nettest.Script.{Shows, over, empty-Shows}

digits-OneLine : (s : Text) → All (λ c. is_digit c ≡ true) s → OneLine s
unfolding contains_byte
digits-OneLine [] h = refl
digits-OneLine (c ∷ s) (d, h) =
    let behind : contains_byte b'\n' s ≡ false = digits-OneLine s h in ground arith

number-OneLine : (n : ℕ) → OneLine (format_uint n)
number-OneLine n = digits-OneLine (format_uint n) (format_uint-digits n)

pub heading_for-OneLine : (i n : ℕ) → OneLine (heading_for i n)
unfolding heading_for bytes contains_byte
heading_for-OneLine i n =
    if_intro OneLine (ltb 1 n)
      (λ _.
        OneLine-append (bytes "rule ") (format_uint (i + 1) ++ (bytes " of " ++ format_uint n)) refl
          (OneLine-append (format_uint (i + 1)) (bytes " of " ++ format_uint n)
            (number-OneLine (i + 1))
            (OneLine-append (bytes " of ") (format_uint n) refl (number-OneLine n))))
      (λ _. refl)

-- what stands between two rules: an empty line, or nothing
abbrev pub is_gap : Bool → ℕ → Bool
is_gap quiet i = ltb 0 i && not quiet

abbrev pub gap : Bool → ℕ → Text
gap quiet i = if is_gap quiet i then bytes "\n" else []

abbrev pub gap_lines : Bool → List Text
gap_lines b = if b then [] ∷ [] else []

pub gap-lined : (b : Bool) → (if b then bytes "\n" else []) ≡ lined (gap_lines b)
unfolding lined bytes
gap-lined true = refl
gap-lined false = refl

pub gap-OneLine : (b : Bool) → All OneLine (gap_lines b)
unfolding contains_byte
gap-OneLine true = (refl, tt)
gap-OneLine false = tt

pub gap-Shows : (b : Bool) → Shows (gap_lines b) []
gap-Shows true = empty-Shows over
gap-Shows false = over

pub render-ok :
    (heading : Text) (root : Node) (quiet : Bool) (e e' : Env) (sp : Spine) (c : Covering)
    → from_form root ≡ ok sp
    → cover linux sp (reset e) ≡ ok (c, e')
    → render heading root e quiet ≡ ok (rendered heading sp c quiet, e')
unfolding render
render-ok heading root quiet e e' sp c formed covered = rw (formed, registry-apart.0, covered) refl

-- one rule in front of others
pub lower_rules-first :
    (quiet : Bool) (n i : ℕ) (root : Node) (roots : List Node) (e e' last : Env) (t u : Text)
    → render (heading_for i n) root e quiet ≡ ok (t, e')
    → lower_rules quiet n (suc i) roots e' ≡ (u, ok last)
    → lower_rules quiet n i (root ∷ roots) e ≡ (gap quiet i ++ (t ++ u), ok last)
unfolding lower_rules lower_next
lower_rules-first quiet n i root roots e e' last t u shown later =
    rw (shown, later) (ap (λ w. (w, ok last)) (append_assoc (gap quiet i) t u))
