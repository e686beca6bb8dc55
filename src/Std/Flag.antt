-- ===== src/Std/Flag.antt =====
-- flag: what `FlagSet.Parse` of Go makes of arguments. The flags of a set, with their values, are an
-- association list, text flags and switches.
use pktc.Common.{
  ◌==◌, ◌||◌, Bool, true, false, Text, bytes, text_eq, Option, none, some, List, [], ◌∷◌, ◌++◌,
  if◌then◌else◌, ◌≡◌, refl, ℕ,
}
use pktc.Std.Quote.{quoted}

pub data Setting : Type 0 where
  text : Text → Setting
  switch : Bool → Setting

abbrev pub Settings : Type 0
Settings = List (Text × Setting)

unfoldable pub get_setting : Text → Settings → Option Setting
get_setting name [] = none
get_setting name ((k, v) ∷ rest) = if text_eq k name then some v else get_setting name rest

unfoldable pub put_setting : Text → Setting → Settings → Settings
put_setting name v [] = []
put_setting name v ((k, w) ∷ rest) =
    if text_eq k name then (k, v) ∷ rest else (k, w) ∷ put_setting name v rest

-- the flag's part before the first `=` behind its first byte, and the value behind it
unfoldable pub split_value : Text → Text × Option Text
split_value [] = ([], none)
split_value (c ∷ s) =
    let (name, v) = split_value s in if c == b'=' then ([], some s) else (c ∷ name, v)

-- `strconv.ParseBool`
unfoldable pub parse_bool : Text → Option Bool
parse_bool s =
    if text_eq s (bytes "1")
      || text_eq s (bytes "t")
      || text_eq s (bytes "T")
      || text_eq s (bytes "true")
      || text_eq s (bytes "TRUE")
      || text_eq s (bytes "True")
    then some true
    else if text_eq s (bytes "0")
        || text_eq s (bytes "f")
        || text_eq s (bytes "F")
        || text_eq s (bytes "false")
        || text_eq s (bytes "FALSE")
        || text_eq s (bytes "False")
    then some false
    else none

-- What one argument is: the first operand, the `--` in front of the operands, a flag with its value
-- or one whose value is the next argument, `-h`, or an error with its text.
pub data Token : Type 0 where
  operand end_mark asks_help : Token
  assigns : Text → Setting → Token
  wants : Text → Token
  refused : Text → Token

-- What a flag set makes of the arguments: the settings and the operands, or an exit.
pub data Parsed : Type 0 where
  parsed : Settings → List Text → Parsed
  help : Parsed
  failed : Text → Parsed

module _ (printable : ℕ → Bool) where
  -- a switch with the value `s`
  unfoldable pub bool_token : Text → Text → Option Bool → Token
  bool_token name s (some b) = assigns name (switch b)
  bool_token name s none = refused (
      bytes "invalid boolean value "
      ++ (quoted printable s ++ (bytes " for -" ++ (name ++ bytes ": parse error"))))

  -- the flag `name`, with the value behind its `=` and what the set has under the name
  unfoldable pub found_token : Text → Option Text → Option Setting → Token
  unfolding bool_token parse_bool
  found_token name v none =
      if text_eq name (bytes "help") || text_eq name (bytes "h")
      then asks_help
      else refused (bytes "flag provided but not defined: -" ++ name)
  found_token name none (some (switch b)) = assigns name (switch true)
  found_token name (some s) (some (switch b)) = bool_token name s (parse_bool s)
  found_token name (some s) (some (text t)) = assigns name (text s)
  found_token name none (some (text t)) = wants name

  -- what stands behind the dashes of the argument `arg`
  unfoldable pub named_token : Settings → Text → Text → Token
  unfolding found_token split_value
  named_token st arg [] = refused (bytes "bad flag syntax: " ++ arg)
  named_token st arg (c ∷ s) =
      let (name, v) = split_value s in
      if c == b'-' || c == b'='
      then refused (bytes "bad flag syntax: " ++ arg)
      else found_token (c ∷ name) v (get_setting (c ∷ name) st)

  -- behind the first dash
  unfoldable pub dashed_token : Settings → Text → Text → Token
  unfolding named_token
  dashed_token st arg [] = operand
  dashed_token st arg (c ∷ []) = if c == b'-' then end_mark else named_token st arg (c ∷ [])
  dashed_token st arg (c ∷ d ∷ s) =
      if c == b'-' then named_token st arg (d ∷ s) else named_token st arg (c ∷ d ∷ s)

  -- `parseOne`, up to the value that is the next argument
  unfoldable pub token : Settings → Text → Token
  unfolding dashed_token
  token st [] = operand
  token st (c ∷ s) = if c == b'-' then dashed_token st (c ∷ s) s else operand

  -- The loop of `Parse`; a flag may wait for its value.
  unfoldable pub parse_from : Option Text → List Text → Settings → Parsed
  unfolding token
  parse_from none [] st = parsed st []
  parse_from (some name) [] st = failed (bytes "flag needs an argument: -" ++ name)
  parse_from (some name) (v ∷ rest) st = parse_from none rest (put_setting name (text v) st)
  parse_from none (arg ∷ rest) st = elim (token st arg) [
    | operand ↦ parsed st (arg ∷ rest)
    | end_mark ↦ parsed st rest
    | asks_help ↦ help
    | assigns name v ↦ parse_from none rest (put_setting name v st)
    | wants name ↦ parse_from (some name) rest st
    | refused m ↦ failed m
  ]

  -- `Parse`
  unfoldable pub parse : List Text → Settings → Parsed
  unfolding parse_from
  parse args st = parse_from none args st

abbrev two_flags : Settings
two_flags = (bytes "name", text (bytes "x")) ∷ (bytes "q", switch false) ∷ []

parse_run :
    parse
      (λ r. false)
      (bytes "--name=a=b" ∷ bytes "-q" ∷ bytes "-name" ∷ bytes "-q" ∷ bytes "f" ∷ bytes "-q" ∷ [])
      two_flags
    ≡ parsed
        ((bytes "name", text (bytes "-q")) ∷ (bytes "q", switch true) ∷ [])
        (bytes "f" ∷ bytes "-q" ∷ [])
unfolding parse put_setting get_setting bytes text_eq
parse_run = refl
