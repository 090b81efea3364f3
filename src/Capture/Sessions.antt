-- ===== src/Capture/Sessions.antt =====
-- Whole runs of the capture process: any order of starting, reading and stopping.
use shiori.Base.{ℕ, ◌≡◌, false, Option, List, [], ◌∷◌}
use shiori.Config.{Config}
use shiori.Os.{Os}
use shiori.Os.Table.{Table}
use shiori.Os.Posix.{IsPosix, Uninterrupted}
use shiori.Capture.{Capture, audio_capture_start, audio_capture_read, audio_capture_stop}
use shiori.Capture.Accounts.{Balanced, Balanced-idle}
use shiori.Capture.Stop.{audio_capture_stop-Balanced}
use shiori.Capture.Starting.{audio_capture_start-Balanced, audio_capture_read-Balanced}

-- One call of the module.
pub data Call : Type 0 where
  starting : Config → Call
  reading : Option (List ℕ) → ℕ → Call
  stopping : Call

module _ {W : Type 0} (os : Os W) where
  unfoldable pub perform : Call → Capture × W → Capture × W
  perform (starting config) (capture, w) = (audio_capture_start os w capture config).1
  perform (reading buffer capacity) (capture, w) =
      (audio_capture_read os w capture buffer capacity).1.1
  perform stopping (capture, w) = (audio_capture_stop os w capture).1

  unfoldable pub perform_all : List Call → Capture × W → Capture × W
  perform_all [] s = s
  perform_all (call ∷ calls) s = perform_all calls (perform call s)

  module _ (files children : W → Table) (posix : IsPosix os files children)
      (calm : Uninterrupted os) (files0 children0 : Table) where
    abbrev Kept : Capture × W → Type 0
    Kept (capture, w) = Balanced files children files0 children0 capture w

    perform-Balanced : (call : Call) (s : Capture × W) → Kept s → Kept (perform call s)
    unfolding perform
    perform-Balanced (starting config) (capture, w) b =
        audio_capture_start-Balanced os files children posix calm files0 children0 w capture config
          b
    perform-Balanced (reading buffer capacity) (capture, w) b =
        audio_capture_read-Balanced os files children posix calm files0 children0 w capture buffer
          capacity b
    perform-Balanced stopping (capture, w) b =
        let (off, f, c) =
          audio_capture_stop-Balanced os files children posix calm files0 children0 w capture b in
        let (capture', w') = (audio_capture_stop os w capture).1 in
        Balanced-idle files children files0 children0 capture' w' off f c

    -- After any calls, whatever fails in them, an active capture owns one open descriptor and one
    -- child that is not reaped, and an inactive one owns none: what was open and running besides is
    -- as before the first call. It is given what POSIX documents of the calls, that no handler interrupts
    -- a blocking `waitpid`, and that the capture was balanced at first, as a struct is that is not
    -- active.
    pub perform_all-Balanced :
        (calls : List Call) (s : Capture × W) → Kept s → Kept (perform_all calls s)
    unfolding perform_all
    perform_all-Balanced [] s b = b
    perform_all-Balanced (call ∷ calls) s b =
        perform_all-Balanced calls (perform call s) (perform-Balanced call s b)

    -- From an inactive capture, any calls with a stop after them leave no descriptor open and no
    -- child unreaped that was not there before, whatever fails. It is given what POSIX documents of
    -- the calls, and that no handler interrupts a blocking `waitpid`.
    pub stop-perform_all_leaks_nothing :
        (calls : List Call) (capture : Capture) (w : W)
        → capture.active ≡ false
        → files w ≡ files0
        → children w ≡ children0
        → let (capture', w') = perform stopping (perform_all calls (capture, w)) in
          (capture'.active ≡ false) × (files w' ≡ files0) × (children w' ≡ children0)
    unfolding perform
    stop-perform_all_leaks_nothing calls capture w off f c =
        let (capture', w') = perform_all calls (capture, w) in
        audio_capture_stop-Balanced os files children posix calm files0 children0 w' capture' (
          perform_all-Balanced calls (capture, w)
            (Balanced-idle files children files0 children0 capture w off f c))
