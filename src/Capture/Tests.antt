-- ===== src/Capture/Tests.antt =====
-- Runs of the capture process on a small operating system.
use shiori.Base.{◌≡◌, refl, arith, true, false, some, List, [], ◌∷◌, replicate, memcpy}
use shiori.Base.Int.{pos}
use shiori.Status.{err_child_process}
use shiori.Config.{init_defaults}
use shiori.Os.Table.{remove}
use shiori.Os.Samples.{
  machine_os, machine_files, machine_kids, machine_os-IsPosix, machine_os-Uninterrupted,
  quiet_machine, no_entries,
}
use shiori.Capture.{
  Capture, capture_reset, poll_exit, wait_for_exit, audio_capture_start, audio_capture_read, spawn,
  adopt, reap_child, close_fd,
}
use shiori.Capture.Accounts.{Balanced, Balanced-idle}
use shiori.Capture.Wait.{wait_for_exit-ends}
use shiori.Capture.Sessions.{
  Call, starting, reading, stopping, perform, perform_all, stop-perform_all_leaks_nothing,
}
use shiori.Capture.Reading.{InBounds, audio_capture_read-InBounds}

-- A start, a read of 4 bytes, and a second start.
abbrev calls : List Call
calls = starting init_defaults ∷ reading (some (replicate 4 0)) 4 ∷ starting init_defaults ∷ []

abbrev running : Capture
running = record { child_pid = pos 7; stdout_fd = pos 3; active = true }

started : (perform_all machine_os calls (capture_reset, quiet_machine)).0 ≡ running
unfolding perform_all perform audio_capture_start init_defaults audio_capture_read spawn adopt
started = refl

-- Only the two bytes that came are overwritten.
two_arrived :
    (audio_capture_read machine_os quiet_machine running (some (1 ∷ 2 ∷ 3 ∷ [])) 3).1.0
    ≡ (some (9 ∷ 9 ∷ 3 ∷ []), 2)
unfolding audio_capture_read memcpy
two_arrived = refl

-- Where there is no such child, the capture is inactive and its descriptor closed.
reaped : reap_child machine_os quiet_machine running ≡ (
  err_child_process,
  (
    capture_reset,
    record { open_files = remove (pos 3) no_entries; kids = no_entries; polls_left = 2 },
  ),
)
unfolding reap_child close_fd
reaped = refl

idle_start : Balanced machine_files machine_kids no_entries no_entries capture_reset quiet_machine
idle_start =
    Balanced-idle machine_files machine_kids no_entries no_entries capture_reset quiet_machine refl
      refl refl

wait_for_exit-ends_example :
    poll_exit machine_os 52 quiet_machine (pos 7) 0 1000
    ≡ some (wait_for_exit machine_os quiet_machine (pos 7) 1000)
wait_for_exit-ends_example = wait_for_exit-ends machine_os quiet_machine (pos 7) 1000 refl

stop-perform_all_leaks_nothing_example :
    let (capture, m) =
      perform machine_os stopping (perform_all machine_os calls (capture_reset, quiet_machine)) in
    (capture.active ≡ false) × (m.open_files ≡ no_entries) × (m.kids ≡ no_entries)
stop-perform_all_leaks_nothing_example =
    stop-perform_all_leaks_nothing machine_os machine_files machine_kids machine_os-IsPosix
      machine_os-Uninterrupted no_entries no_entries calls capture_reset quiet_machine refl refl
      refl

audio_capture_read-InBounds_example :
    InBounds
      (1 ∷ 2 ∷ 3 ∷ [])
      3
      (audio_capture_read machine_os quiet_machine running (some (1 ∷ 2 ∷ 3 ∷ [])) 3)
audio_capture_read-InBounds_example =
    audio_capture_read-InBounds machine_os machine_files machine_kids machine_os-IsPosix
      quiet_machine running (1 ∷ 2 ∷ 3 ∷ []) 3 (omega arith)
