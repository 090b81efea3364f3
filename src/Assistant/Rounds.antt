-- ===== src/Assistant/Rounds.antt =====
-- A round of the assistant's run loop.
use shiori.Base.{
  ℕ, ◌+◌, ◌≤◌, ◌<◌, ◌∙◌, ap, arith, length, replicate, length-replicate, size_mod, bytes_of,
}
use shiori.Os.Table.{Table}
use shiori.Os.Posix.{IsPosix}
use shiori.Capture.{Capture}
use shiori.Capture.Reading.{audio_capture_read-InBounds}
use shiori.Supervisor.{Supervisor}
use shiori.Supervisor.Round.{run_once}
use shiori.Supervisor.Sound.{IsRealloc, Sound, SoundAfter}
use shiori.Supervisor.Turn.{run_once-Sound}
use shiori.Assistant.{Platform, assistant_adapters, assistant_env}

module _ (platform : Platform) (files children : platform.outside.World → Table)
    (posix : IsPosix platform.os files children) where
  open platform use {outside, os}

  -- The capture never claims more bytes than the array has.
  bounded :
      (w : outside.World) (c : Capture)
      → let (status, ((chunk, bytes_read), _)) =
          (assistant_adapters platform).capture_read w c 640 in
        (bytes_read ≤ length chunk) × (bytes_read ≤ 640)
  bounded w c =
      let zeros = replicate 640 0 in
      let b =
        audio_capture_read-InBounds os files children posix w c zeros 640
          (omega (arith, length-replicate {A = ℕ} 640 0)) in
      let long = ap length (ap bytes_of b.filled) ∙ b.whole ∙ length-replicate {A = ℕ} 640 0 in
      (omega (arith, b.within, long), b.within)

  -- The whole assistant, with the capture process, the two servers' adapters and the supervisor: a
  -- round of the run loop, whatever fails in it, keeps the supervisor sound. It is given what POSIX
  -- documents of the calls and what `realloc` documents, that the next number has room for 100 more,
  -- and that the ring's counter has room for 640 bytes.
  pub assistant_round-Sound :
      (memory : IsRealloc outside.realloc) (s : Supervisor (assistant_env platform))
      → Sound (assistant_env platform) 100 s
      → s.capture_ring.head + 640 < size_mod
      → SoundAfter (assistant_env platform) 0 (run_once (assistant_env platform) s)
  assistant_round-Sound memory s v room =
      run_once-Sound (assistant_env platform) memory bounded s v room
