-- ===== src/Nettest.antt =====
-- internal/nettest/nettest.go: the test harness, on a host that runs commands. `Host` stands for the
-- operating system; a test keeps the clean-ups it has registered, the last one first, and `ran` records
-- the commands run and whether they succeeded.
pub mod Pair
pub mod Capture
pub mod Undo
pub mod Tidy
pub mod Lines
pub mod Script
pub mod Printed
pub mod Quiet
pub mod Heads
pub mod Rendered
pub mod Covered
pub mod Rules
pub mod Whole
pub mod Banner
pub mod Ends
use pktc.Common.{
  ℕ, ◌==◌, ◌&&◌, ◌||◌, not, Bool, true, false, Text, bytes, text_eq, has_prefix, contains_text,
  Option, none, some, List, [], ◌∷◌, ◌++◌, join, if◌then◌else◌,
}
use pktc.Std.Strconv.{format_uint}
use pktc.Std.Strings.{trim_space, split_lines}

-- `CombinedOutput`: what a command wrote, and its error, if it failed
pub record Run : Type 0 where
  pub out : Text
  pub failure : Option Text

-- What the harness uses of the operating system, whose state is a `W`.
pub record Host (W : Type 0) : Type 0 where
  pub exec : List Text → W → Run × W
  pub has_program : Text → Bool
  pub euid : ℕ
  pub pid : ℕ

pub record Test (W : Type 0) : Type 0 where
  pub world : W
  pub cleanups : List (List Text)
  pub ran : List (List Text × Bool)

-- How a step of a test ends: with its value, or by `t.Skip` or `t.Fatal`, behind which the
-- clean-ups run.
pub data Verdict (W A : Type 0) : Type 0 where
  goes_on : A → Test W → Verdict W A
  skips : Text → Test W → Verdict W A
  fatal : Text → Test W → Verdict W A

abbrev pub M : Type 0 → Type 0 → Type 0
M W A = Test W → Verdict W A

infixl 5 ◌>>=◌ ◌>>◌
abbrev pub ◌>>=◌ : {W A B : Type 0} → M W A → (A → M W B) → M W B
◌>>=◌ m f t = elim (m t) [
  | goes_on a t' ↦ f a t'
  | skips s t' ↦ skips s t'
  | fatal s t' ↦ fatal s t'
]

abbrev pub ◌>>◌ : {W A B : Type 0} → M W A → M W B → M W B
m >> k = m >>= λ _. k

abbrev pub succeeded : Option Text → Bool
succeeded none = true
succeeded (some e) = false

-- `%v` of an error
abbrev pub failure_text : Option Text → Text
failure_text none = bytes "<nil>"
failure_text (some e) = e

abbrev pub words : List Text → Text
words argv = join argv (bytes " ")

-- `what: %v: %s`
abbrev pub because : Text → Run → Text
because what r = what ++ (bytes ": " ++ (failure_text r.failure ++ (bytes ": " ++ r.out)))

-- `argv: %v\n%s`
abbrev pub failed_text : List Text → Run → Text
failed_text argv r = words argv ++ (bytes ": " ++ (failure_text r.failure ++ (bytes "\n" ++ r.out)))

-- does the loop of `RunScript` pass over the line?
unfoldable pub is_passed : Text → Bool
is_passed line = text_eq line [] || has_prefix line (bytes "#")

module _ {W : Type 0} where
  abbrev pub pure : {A : Type 0} → A → M W A
  pure a t = goes_on a t

  abbrev pub skip : {A : Type 0} → Text → M W A
  skip m t = skips m t

  abbrev pub fail : {A : Type 0} → Text → M W A
  fail m t = fatal m t

  -- `t.Cleanup`
  abbrev pub cleanup : List Text → M W (Unit {0})
  cleanup argv t = goes_on tt (record t { cleanups = argv ∷ t.cleanups })

  module _ (h : Host W) where
    -- `exec.Command(...).CombinedOutput()`
    unfoldable pub exec : List Text → M W Run
    exec argv t =
        let (r, w) = h.exec argv t.world in
        goes_on r (record t { world = w; ran = (argv, succeeded r.failure) ∷ t.ran })

    -- a command that must succeed, with what is done if it does not
    unfoldable pub exec_or : List Text → (Run → M W (Unit {0})) → M W (Unit {0})
    unfolding exec
    exec_or argv otherwise = do r ← exec argv; if succeeded r.failure then pure tt else otherwise r

    -- `Require`
    unfoldable pub require : M W (Unit {0})
    unfolding exec_or
    require =
        if not (h.euid == 0)
        then skip (bytes "netns tests need root (CAP_NET_ADMIN)")
        else if not (h.has_program (bytes "ip"))
        then skip (bytes "netns tests need iproute2")
        else exec_or (bytes "ip" ∷ bytes "netns" ∷ bytes "list" ∷ [])
            (λ r. skip (because (bytes "namespaces unavailable") r))

    -- `NS.Run`, in the namespace `ns`
    unfoldable pub run : Text → List Text → M W Run
    unfolding exec
    run ns argv = exec (bytes "ip" ∷ bytes "netns" ∷ bytes "exec" ∷ ns ∷ argv)

    -- `NS.MustRun`
    unfoldable pub must_run : Text → List Text → M W Text
    unfolding run
    must_run ns argv = do
      r ← run ns argv
      if succeeded r.failure then pure r.out else fail (failed_text argv r)

    -- One command line through a shell: its error ends the loop of `RunScript`, or the rest is run.
    unfoldable pub run_line : Text → Text → M W (Option Text) → M W (Option Text)
    unfolding run trim_space
    run_line ns line later = run ns (bytes "sh" ∷ bytes "-c" ∷ line ∷ []) >>= λ r.
        if succeeded r.failure
        then later
        else pure (
            some (
              line ++ (bytes ": " ++ (failure_text r.failure ++ (bytes "\n" ++ trim_space r.out)))))

    -- the loop of `RunScript`: the error of the first line that fails
    unfoldable pub run_lines : Text → List Text → M W (Option Text)
    unfolding run_line is_passed trim_space
    run_lines ns [] = pure none
    run_lines ns (l ∷ rest) =
        let line = trim_space l in
        let later = run_lines ns rest in
        let this = run_line ns line later in if is_passed line then later else this

    -- `NS.RunScript`
    unfoldable pub run_script : Text → Text → M W (Option Text)
    unfolding run_lines split_lines trim_space
    run_script ns script = run_lines ns (split_lines (trim_space script))

    -- `NS.Show`
    unfoldable pub show : Text → Text → M W Run
    unfolding run
    show ns dev = run ns (bytes "ip" ∷ bytes "-details" ∷ bytes "link" ∷ bytes "show" ∷ dev ∷ [])

    abbrev probe : Text
    probe = bytes "pktc-probe0"

    -- `NS.SupportsType`
    unfoldable pub supports_type : Text → Text → M W Bool
    unfolding run
    supports_type ns kind = do
      r ← run ns (
          bytes "ip" ∷ bytes "link" ∷ bytes "add" ∷ bytes "name" ∷ probe ∷ bytes "type" ∷ kind ∷ [])
      if not (succeeded r.failure)
          then pure (
              not (contains_text r.out (bytes "Unknown device type"))
              && not (contains_text r.out (bytes "not supported")))
          else (run ns (bytes "ip" ∷ bytes "link" ∷ bytes "del" ∷ probe ∷ []) >>= λ _. pure true)

    -- `NS.RequireType`
    unfoldable pub require_type : Text → Text → M W (Unit {0})
    unfolding supports_type
    require_type ns kind = do
      b ← supports_type ns kind
      if not b
          then skip (bytes "kernel has no " ++ (kind ++ bytes " device support here"))
          else pure tt

    -- the loop of `Attrs`
    unfoldable pub attrs_line : Text → List Text → Option Text
    unfolding trim_space
    attrs_line kind [] = none
    attrs_line kind (l ∷ rest) =
        let line = trim_space l in
        let later = attrs_line kind rest in
        if has_prefix line (kind ++ bytes " ") then some line else later

    -- `NS.Attrs`: the line, or the text of its error
    unfoldable pub attrs : Text → Text → Text → M W (Text × Option Text)
    unfolding show attrs_line split_lines
    attrs ns dev kind = do
      r ← show ns dev
      if not (succeeded r.failure)
          then pure ([], some (failure_text r.failure ++ (bytes "\n" ++ r.out)))
          else elim (attrs_line kind (split_lines r.out)) [
            | some line ↦ pure (line, none)
            | none ↦ pure (
              [],
              some (
                  bytes "no "
                  ++ (kind
                      ++ (bytes " attribute line for " ++ (dev ++ (bytes " in:\n" ++ r.out))))),
            )
          ]

    -- `NS.SendUDP`: its error, if it has one
    unfoldable pub send_udp : Text → Text → ℕ → ℕ → M W (Option Text)
    unfolding run
    send_udp ns addr port times =
        if not (h.has_program (bytes "bash"))
        then skip (bytes "traffic generation needs bash")
        else do
          r ← run ns (
              bytes "bash"
              ∷ bytes "-c"
              ∷ (bytes "for i in $(seq "
                  ++ (format_uint times
                      ++ (bytes "); do echo pktc > /dev/udp/"
                          ++ (addr
                              ++ (bytes "/"
                                  ++ (format_uint port
                                      ++ bytes " 2>/dev/null || true; sleep 0.2; done"))))))
              ∷ [])
          if succeeded r.failure
              then pure none
              else pure (some (failure_text r.failure ++ (bytes ": " ++ r.out)))
