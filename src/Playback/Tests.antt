-- ===== src/Playback/Tests.antt =====
-- Runs of the playback on a small operating system.
use shiori.Base.{◌≡◌, refl, some}
use shiori.Status.{ok}
use shiori.Text.{bytes}
use shiori.Config.{init_defaults}
use shiori.Os.Table.{add}
use shiori.Os.Samples.{
  machine_os, machine_files, machine_kids, machine_os-IsPosix, machine_os-Uninterrupted,
  quiet_machine,
}
use shiori.Playback.{poll_playback, playback_wait, play_wav}
use shiori.Playback.Reap.{Restored, play_wav-Restored}

-- The child of the small system ends at the third poll.
played : (play_wav machine_os quiet_machine init_defaults (some (bytes "/tmp/a.wav"))).0 ≡ ok
unfolding play_wav init_defaults playback_wait poll_playback add
played = refl

play_wav-Restored_example :
    Restored machine_os machine_files machine_kids machine_os-IsPosix machine_os-Uninterrupted
      quiet_machine
      (play_wav machine_os quiet_machine init_defaults (some (bytes "/tmp/a.wav"))).1
play_wav-Restored_example =
    play_wav-Restored machine_os machine_files machine_kids machine_os-IsPosix
      machine_os-Uninterrupted (λ w pid h. refl) quiet_machine init_defaults
      (some (bytes "/tmp/a.wav"))
