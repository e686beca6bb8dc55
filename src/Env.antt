-- ===== src/Env.antt =====
-- env/env.go: the deployment's facts, and the interface names given out. `*Env` is passed on as a
-- state; `used` holds the names taken, and `count` the last number of each prefix.
pub mod Names
pub mod Alloc
use pktc.Common.{
  ℕ, zero, suc, ltb, ◌==◌, Text, bytes, text_eq, List, [], ◌∷◌, ◌++◌, length, any, Bool, ◌||◌,
  if◌then◌else◌,
}
use pktc.Diag.{
  plain, name_taken, name_empty, name_too_long, name_illegal, Result, ok, err, fault, out_of_fuel,
  ◌>>◌,
}
use pktc.Std.Strconv.{format_uint}

abbrev pub default_key_dir : Text
default_key_dir = bytes "/etc/wireguard"

abbrev pub max_if_name : ℕ
max_if_name = 15

pub record Env : Type 0 where
  pub root : Text
  pub dev : Text
  pub key_dir : Text
  pub created : List Text
  pub used : List Text
  pub count : List (Text × ℕ)

-- `New`
unfoldable pub new : Text → Env
new root = record {
  root = root;
  dev = root;
  key_dir = default_key_dir;
  created = [];
  used = root ∷ [];
  count = [];
}

-- `e.used[name]`
abbrev pub is_used : Text → List Text → Bool
is_used name used = any (λ u. text_eq u name) used

abbrev pub is_illegal : ℕ → Bool
is_illegal c = c == b' ' || c == b'/' || c == b'\t' || c == b'\n'

-- `validName`
unfoldable pub valid_name : Text → Result (Unit {0})
valid_name name =
    if text_eq name []
    then err (plain name_empty)
    else if ltb max_if_name (length name)
    then err (plain (name_too_long name (length name)))
    else if any is_illegal name
    then err (plain (name_illegal name))
    else ok tt

-- `Claim`
unfoldable pub claim : Text → Env → Result (Text × Env)
claim name e =
    valid_name name
    >> (if is_used name e.used
        then err (plain (name_taken name))
        else ok (name, record e { used = name ∷ e.used }))

-- `e.count[prefix]`, 0 where there is none
unfoldable pub get_count : Text → List (Text × ℕ) → ℕ
get_count k [] = 0
get_count k ((j, n) ∷ m) = if text_eq j k then n else get_count k m

unfoldable pub set_count : Text → ℕ → List (Text × ℕ) → List (Text × ℕ)
set_count k n [] = (k, n) ∷ []
set_count k n ((j, m) ∷ r) = if text_eq j k then (k, n) ∷ r else (j, m) ∷ set_count k n r

-- `fmt.Sprintf("%s%d", prefix, n)`
unfoldable pub numbered : Text → ℕ → Text
numbered prefix n = prefix ++ format_uint n

-- The loop of `Alloc`, with the last number tried.
unfoldable pub alloc_loop : ℕ → Text → ℕ → Env → Result (Text × Env)
alloc_loop zero prefix n e = fault out_of_fuel
alloc_loop (suc f) prefix n e =
    let name = numbered prefix (suc n) in
    let again = alloc_loop f prefix (suc n) e in
    let done =
      ok (name, record e { used = name ∷ e.used; count = set_count prefix (suc n) e.count }) in
    valid_name name >> (if is_used name e.used then again else done)

-- `Alloc`: of the names tried only those in use are passed over, so their number bounds the
-- rounds.
unfoldable pub alloc : Text → Env → Result (Text × Env)
unfolding alloc_loop
alloc prefix e = alloc_loop (suc (length e.used)) prefix (get_count prefix e.count) e

-- `Reset`
unfoldable pub reset : Env → Env
reset e = record e { dev = e.root }

-- `Enter`
unfoldable pub enter : Text → Env → Env
enter dev e = record e { created = e.created ++ dev ∷ []; dev = dev }
