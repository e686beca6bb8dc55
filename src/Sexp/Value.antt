-- ===== src/Sexp/Value.antt =====
-- sexp/sexp.go: the generic value tree. A Go struct with four fields; `Values` is its `Items`.
use pktc.Common.{Text, bytes, [], ◌∷◌, has_prefix, if◌then◌else◌}
use pktc.Sexp.Kind.{Kind, k_list}
use pktc.Diag.{Pos}

mutual
  pub data Value : Type 0 where
    value : Kind → Text → Values → Pos → Value

  pub data Values : Type 0 where
    nil : Values
    cons : Value → Values → Values

abbrev pub kind_of : Value → Kind
kind_of (value k t is p) = k

abbrev pub text_of : Value → Text
text_of (value k t is p) = t

abbrev pub pos_of : Value → Pos
pos_of (value k t is p) = p

-- the literals `Value{Kind: k, Text: t, Pos: p}` and `Value{Kind: KList, Items: is, Pos: p}`
abbrev pub atom : Kind → Text → Pos → Value
atom k t p = value k t nil p

abbrev pub list : Values → Pos → Value
list is p = value k_list [] is p

-- `append(items, v)` over the whole loop: the items as they are collected
abbrev pub snoc : Values → Value → Values
snoc nil v = cons v nil
snoc (cons w ws) v = cons w (snoc ws v)

-- `strings.TrimPrefix(v.Text, ":")`
abbrev pub trim_colon : Text → Text
trim_colon [] = []
trim_colon (c ∷ s) = if has_prefix (c ∷ s) (bytes ":") then s else c ∷ s

-- `Value.Key`
unfoldable pub key : Value → Text
key v = trim_colon (text_of v)
