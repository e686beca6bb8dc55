-- ===== src/Sexp/Kind.antt =====
-- sexp/sexp.go: the kinds of a value.
use pktc.Common.{Text, bytes, Bool, true, false}

pub data Kind : Type 0 where
  k_list k_symbol k_keyword k_string k_number k_star : Kind

-- `==` on kinds
infix 50 ◌≟◌
abbrev pub ◌≟◌ : Kind → Kind → Bool
k_list ≟ k_list = true
k_symbol ≟ k_symbol = true
k_keyword ≟ k_keyword = true
k_string ≟ k_string = true
k_number ≟ k_number = true
k_star ≟ k_star = true
_ ≟ _ = false

-- `Kind.String`
unfoldable pub kind_string : Kind → Text
kind_string k_list = bytes "form"
kind_string k_symbol = bytes "symbol"
kind_string k_keyword = bytes "property name"
kind_string k_string = bytes "string"
kind_string k_number = bytes "number"
kind_string k_star = bytes "'*'"
