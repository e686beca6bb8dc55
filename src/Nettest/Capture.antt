-- ===== src/Nettest/Capture.antt =====
-- internal/nettest/nettest.go: a capture, which is tcpdump running in the background. `Processes` is what
-- the harness uses of processes of the operating system; a process is known by its number.
use pktc.Common.{ℕ, Bool, not, Text, bytes, List, [], ◌∷◌, ◌++◌, if◌then◌else◌}
use pktc.Std.Strconv.{format_uint}
use pktc.Nettest.{Host, M, goes_on, skips, skip}

-- `cmd.Start`: the process, or the text of the error
pub data Started : Type 0 where
  started : ℕ → Started
  not_started : Text → Started

pub record Processes (W : Type 0) : Type 0 where
  pub start : List Text → W → Started × W
  -- time passes, in milliseconds
  pub sleep : ℕ → W → W
  -- does the process end within so many milliseconds?
  pub ends_within : ℕ → ℕ → W → Bool × W
  -- the process is killed, and its end waited for
  pub kill : ℕ → W → W
  -- what the process has written to both outputs
  pub written : ℕ → W → Text

module _ {W : Type 0} (h : Host W) (p : Processes W) where
  unfoldable pub capture_args : Text → Text → Text → ℕ → List Text
  capture_args ns dev filter count =
      bytes "ip"
      ∷ bytes "netns"
      ∷ bytes "exec"
      ∷ ns
      ∷ bytes "tcpdump"
      ∷ bytes "-i"
      ∷ dev
      ∷ bytes "-c"
      ∷ format_uint count
      ∷ bytes "-nn"
      ∷ bytes "-l"
      ∷ bytes "-U"
      ∷ filter
      ∷ []

  -- what follows `cmd.Start`
  unfoldable pub attached : Started × W → M W ℕ
  attached (started n, w) t = goes_on n (record t { world = p.sleep 700 w })
  attached (not_started e, w) t =
      skips (bytes "cannot start tcpdump: " ++ e) (record t { world = w })

  -- `NS.StartCapture`, in the namespace `ns`
  unfoldable pub start_capture : Text → Text → Text → ℕ → M W ℕ
  unfolding capture_args attached
  start_capture ns dev filter count =
      if not (h.has_program (bytes "tcpdump"))
      then skip (bytes "wire verification needs tcpdump")
      else λ t. attached (p.start (capture_args ns dev filter count) t.world) t

  -- `Capture.Wait`
  unfoldable pub wait : ℕ → ℕ → M W Text
  wait n d t =
      let (ended, w) = p.ends_within n d t.world in
      let w' = if ended then w else p.kill n w in goes_on (p.written n w') (record t { world = w' })
