-- ===== src/Diag.antt =====
-- sexp/pos.go, and the diagnostics of every package. A `Message` has one constructor for each
-- format string of the program, with the values that the call hands to it.
pub mod Format
use pktc.Common.{ℕ, ◌≡◌, ◌≢◌, refl, subst, Text, List, Bool, true, false, if◌then◌else◌}
use pktc.Common.Int.{ℤ}
use pktc.Sexp.Kind.{Kind}

pub record Pos : Type 0 where
  pub file : Text
  pub line : ℕ
  pub col : ℕ

mutual
  -- An `error`: a `*sexp.Error`, anchored to a position, or the plain error of `fmt.Errorf`.
  pub data Error : Type 0 where
    errorf : Pos → Message → Error
    plain : Message → Error

  pub data Message : Type 0 where
    -- sexp/reader.go
    unexpected_close unclosed_paren unterminated_string expected_value empty_name : Message
    unknown_escape : ℕ → Message
    -- ast/node.go
    empty_form : Message
    expected_form bad_head expected_nested : Kind → Message
    no_value late_property : Text → Message
    duplicate_property : Text → Text → Message
    -- ast/value.go
    not_concrete missing_required : Text → Text → Message
    bad_value : Text → Text → Error → Message
    -- ast/props.go
    expected_address expected_prefix expected_text expected_number : Kind → Message
    not_address no_prefix_length not_prefix : Text → Message
    does_not_fit : Text → ℕ → Message
    outside_vlan_range exceeds_vni_range : ℕ → Message
    -- spine/spine.go
    too_many_children : Text → ℕ → Message
    expected_configure : Text → Message
    configure_props : Message
    configure_children : ℕ → Message
    -- env/env.go
    name_taken name_illegal : Text → Message
    name_empty : Message
    name_too_long : Text → ℕ → Message
    -- tile/tile.go and tile/cover.go
    empty_pattern no_lower : Text → Message
    shared_pattern : Text → Text → List Text → ℤ → Message
    no_lowering : List Text → Text → List Text → Message
    -- tiles/linux
    wrapped : Error → Message
    dynamic_remote missing_src missing_dst missing_inner_src : Text → Message
    missing_vni dynamic_port missing_port dynamic_vlan missing_peer missing_listen : Message
    -- wire/wire.go
    empty_spine ethernet_outermost unpredictable_port vlan_prediction : Message
    not_ip_underlay no_prediction : Text → Message
    -- mirror/mirror.go
    bad_peer_inner : Error → Message
    nothing_to_mirror : Message
    one_ended : Text → Message
    -- cmd/pktc/main.go
    no_forms : Text → Message
    -- what the operating system says of a file
    outside : Text → Message
    one_form_only : Text → ℕ → Message

-- `panic` is an index out of range in the program; `out_of_fuel` a loop that the model cut short.
pub data Fault : Type 0 where
  panic out_of_fuel : Fault

-- What a call returns: its value, its error, or neither.
pub data Result {ℓ} (A : Type ℓ) : Type ℓ where
  ok : A → Result A
  err : Error → Result A
  fault : Fault → Result A

module _ {ℓ κ} {A : Type ℓ} {B : Type κ} where
  infixl 5 ◌>>=◌ ◌>>◌
  abbrev pub ◌>>=◌ : Result A → (A → Result B) → Result B
  ok a >>= f = f a
  err e >>= f = err e
  fault x >>= f = fault x

  abbrev pub ◌>>◌ : Result A → Result B → Result B
  m >> k = m >>= λ _. k

  -- inversion of a successful call
  pub >>=-eq-ok :
      (call : Result A) (next : A → Result B) {y : B}
      → (call >>= next) ≡ ok y
      → (x : A) × (call ≡ ok x) × (next x ≡ ok y)
  >>=-eq-ok (fault x) next e = cc
  >>=-eq-ok (err x) next e = cc
  >>=-eq-ok (ok x) next e = (x, refl, e)

module _ {ℓ} {A : Type ℓ} where
  pub ok-injective : {a b : A} → ok a ≡ ok b → a ≡ b
  ok-injective e = cc

-- The call returns: with a value of which `P` holds, or with an error.
pub data Returns {ℓ κ} {A : Type ℓ} (P : A → Type κ) : Result A → Type (ℓ ⊔ κ) where
  returns : {a : A} → P a → Returns P (ok a)
  fails : (e : Error) → Returns P (err e)

module _ {ℓ κ} {A : Type ℓ} {P : A → Type κ} where
  pub Returns-ok : {r : Result A} {a : A} → Returns P r → r ≡ ok a → P a
  Returns-ok (returns h) e = subst P (cc) h
  Returns-ok (fails x) e = cc

  pub Returns-ne-fault : {r : Result A} → Returns P r → (x : Fault) → r ≢ fault x
  Returns-ne-fault (returns h) x = cc
  Returns-ne-fault (fails e) x = cc

  pub Returns-bind {ℓ' κ'} :
      {B : Type ℓ'} {Q : B → Type κ'} {r : Result A} {f : A → Result B}
      → Returns P r
      → ((a : A) → P a → Returns Q (f a))
      → Returns Q (r >>= f)
  Returns-bind (returns {a} h) k = k a h
  Returns-bind (fails e) k = fails e

  pub Returns-if :
      (b : Bool) {x y : Result A}
      → (b ≡ true → Returns P x)
      → (b ≡ false → Returns P y)
      → Returns P (if b then x else y)
  Returns-if true hx hy = hx refl
  Returns-if false hx hy = hy refl

  pub Returns-map {κ'} :
      {Q : A → Type κ'} {r : Result A} → Returns P r → ((a : A) → P a → Q a) → Returns Q r
  Returns-map (returns {a} h) k = returns (k a h)
  Returns-map (fails e) k = fails e

  -- what the call returns, where it does
  pub Returns-eq : {r : Result A} → Returns P r → Returns (λ a. r ≡ ok a) r
  Returns-eq (returns h) = returns refl
  Returns-eq (fails e) = fails e

-- Where the call gives a value, `P` holds of it; it may also fail, or not end.
pub data Gives {ℓ κ} {A : Type ℓ} (P : A → Type κ) : Result A → Type (ℓ ⊔ κ) where
  gives : {a : A} → P a → Gives P (ok a)
  refuses : (e : Error) → Gives P (err e)
  breaks : (x : Fault) → Gives P (fault x)

module _ {ℓ κ} {A : Type ℓ} {P : A → Type κ} where
  pub Gives-ok : {r : Result A} {a : A} → Gives P r → r ≡ ok a → P a
  Gives-ok (gives h) e = subst P (cc) h
  Gives-ok (refuses x) e = cc
  Gives-ok (breaks x) e = cc

  pub Gives-bind {ℓ' κ'} :
      {B : Type ℓ'} {Q : B → Type κ'} {r : Result A} {f : A → Result B}
      → Gives P r
      → ((a : A) → P a → Gives Q (f a))
      → Gives Q (r >>= f)
  Gives-bind (gives {a} h) k = k a h
  Gives-bind (refuses e) k = refuses e
  Gives-bind (breaks x) k = breaks x

  pub Gives-if :
      (b : Bool) {x y : Result A}
      → (b ≡ true → Gives P x)
      → (b ≡ false → Gives P y)
      → Gives P (if b then x else y)
  Gives-if true hx hy = hx refl
  Gives-if false hx hy = hy refl

  pub Gives-any : (r : Result A) → ((a : A) → P a) → Gives P r
  Gives-any (ok a) h = gives (h a)
  Gives-any (err e) h = refuses e
  Gives-any (fault x) h = breaks x
