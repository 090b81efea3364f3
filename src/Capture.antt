-- ===== src/Capture.antt =====
-- The capture process of src/assistantd/audio_capture.c over the struct of
-- include/assistantd/audio_capture.h. The operating system is a parameter. The calls of the logger
-- are left out; `capture`, `config` and `bytes_read` are never NULL.
pub mod Wait
mod Tests
pub mod Reading
pub mod Sessions
pub mod Starting
pub mod Stop
pub mod Accounts
use shiori.Base.{
  ℕ, zero, suc, ◌+◌, ◌/◌, Bool, true, false, Option, none, some, List, [], ◌∷◌, ◌==◌, ltb, not,
  ◌&&◌, ◌||◌, if◌then◌else◌, memcpy,
}
use shiori.Base.Int.{ℤ, pos, negsuc, pos_part, ltb_ℤ, eq_int}
use shiori.Status.{
  Status, ok, err_invalid_argument, err_config, err_io, err_child_process, err_unimplemented,
  case_ok,
}
use shiori.Text.{bytes}
use shiori.Config.{Config, is_empty}
use shiori.Os.{Os, Child, executes, exits, Signal, sigterm, sigkill, is_echild, is_esrch, is_retry}

-- `assistantd_audio_capture_t`
pub record Capture : Type 0 where
  pub child_pid : ℤ
  pub stdout_fd : ℤ
  pub active : Bool

-- ASSISTANTD_ARECORD_PATH, ASSISTANTD_CAPTURE_TERM_WAIT_MS, ASSISTANTD_CAPTURE_TERM_POLL_MS
abbrev pub arecord_path : List ℕ
arecord_path = bytes "/usr/bin/arecord"

abbrev pub term_wait_ms : ℕ
term_wait_ms = 1000

abbrev pub term_poll_ms : ℕ
term_poll_ms = 20

-- `assistantd_capture_reset`, whatever the struct holds.
abbrev pub capture_reset : Capture
capture_reset = record { child_pid = negsuc 0; stdout_fd = negsuc 0; active = false }

module _ {World : Type 0} (os : Os World) where
  open os use {
    access_x, pipe, fork, close, dup2, get_flags, set_nonblocking, kill, waitpid_now, waitpid,
    nanosleep, read,
  }

  -- `assistantd_capture_close_fd`
  unfoldable pub close_fd : World → Capture → Capture × World
  close_fd w capture =
      if ltb_ℤ capture.stdout_fd (pos 0)
      then (capture, w)
      else (record capture { stdout_fd = negsuc 0 }, close w capture.stdout_fd)

  -- The loop of `assistantd_capture_wait_for_exit`, with the answer where it returns; `none` is a
  -- loop that has not ended within the fuel.
  unfoldable pub poll_exit : ℕ → World → ℤ → ℕ → ℕ → Option (Bool × World)
  poll_exit zero w pid waited_ms timeout_ms = none
  poll_exit (suc fuel) w pid waited_ms timeout_ms = elim (ltb waited_ms timeout_ms) [
    | false ↦ some (false, w)
    | true ↦
        let (waited, w') = waitpid_now w pid in
        elim (eq_int waited.result pid) [
          | true ↦ some (true, w')
          | false ↦ elim (eq_int waited.result (negsuc 0)) [
            | true ↦ some (is_echild waited.errno, w')
            | false ↦
                poll_exit fuel (nanosleep w' term_poll_ms) pid (waited_ms + term_poll_ms) timeout_ms
          ]
        ]
  ]

  -- `assistantd_capture_wait_for_exit`; `timeout_ms` is not negative in its only call.
  unfoldable pub wait_for_exit : World → ℤ → ℕ → Bool × World
  wait_for_exit w pid timeout_ms =
      if not (ltb_ℤ (pos 0) pid)
      then (true, w)
      else elim (poll_exit (suc (suc (timeout_ms / term_poll_ms))) w pid 0 timeout_ms) [
        | none ↦ (false, w)
        | some out ↦ out
      ]

  -- `assistantd_capture_reap_child`
  unfoldable pub reap_child : World → Capture → Status × (Capture × World)
  reap_child w capture =
      if not (ltb_ℤ (pos 0) capture.child_pid)
      then (ok, (capture, w))
      else (let (waited, w') = waitpid_now w capture.child_pid in
          if eq_int waited.result (pos 0)
          then (ok, (capture, w'))
          else if eq_int waited.result (negsuc 0) && not (is_echild waited.errno)
          then (err_child_process, (capture, w'))
          else (
            err_child_process,
            close_fd w' (record capture { child_pid = negsuc 0; active = false }),
          ))

  -- The block under `child_pid == 0`: what the child does with its copies of the two ends.
  unfoldable pub capture_child : List ℕ → ℤ → ℤ → World → Child × World
  capture_child device read_end write_end w =
      let (copied, w') = dup2 (close w read_end) write_end (pos 1) in
      if ltb_ℤ copied (pos 0) then (exits 127, w') else (
        executes arecord_path
            (bytes "arecord"
              ∷ bytes "-D"
              ∷ device
              ∷ bytes "-f"
              ∷ bytes "S16_LE"
              ∷ bytes "-c"
              ∷ bytes "1"
              ∷ bytes "-r"
              ∷ bytes "16000"
              ∷ bytes "-t"
              ∷ bytes "raw"
              ∷ [])
            127,
        close w' write_end,
      )

  -- The block of `start` where the read end cannot be set up.
  unfoldable pub abandon : World → ℤ → ℤ → World
  abandon w child_pid read_end = close (waitpid (kill w child_pid sigterm).1 child_pid).1 read_end

  -- The end of `start`, in the parent, with the child's number and the read end.
  unfoldable pub adopt : World → Capture → ℤ → ℤ → Status × (Capture × World)
  adopt w capture child_pid read_end =
      let (flags, w1) = get_flags w read_end in
      let (result, w2) = set_nonblocking w1 read_end flags in
      if ltb_ℤ flags (pos 0)
      then (err_io, (capture, abandon w1 child_pid read_end))
      else if ltb_ℤ result (pos 0)
      then (err_io, (capture, abandon w2 child_pid read_end))
      else (ok, (record { child_pid = child_pid; stdout_fd = read_end; active = true }, w2))

  -- The part of `start` from `fork` on, with the two ends of the pipe.
  unfoldable pub spawn : World → Capture → List ℕ → ℤ → ℤ → Status × (Capture × World)
  spawn w capture device read_end write_end =
      let (child_pid, w') = fork w (capture_child device read_end write_end) in
      if ltb_ℤ child_pid (pos 0)
      then (err_child_process, (capture, close (close w' read_end) write_end))
      else adopt (close w' write_end) capture child_pid read_end

  -- `assistantd_audio_capture_start`
  unfoldable pub audio_capture_start : World → Capture → Config → Status × (Capture × World)
  audio_capture_start w capture config =
      if is_empty config.audio_capture_device
      then (err_config, (capture, w))
      else if capture.active
      then (ok, (capture, w))
      else (let (access_result, w1) = access_x w arecord_path in
          let (pipe_result, ((read_end, write_end), w2)) = pipe w1 in
          if not (eq_int access_result (pos 0))
          then (err_unimplemented, (capture_reset, w1))
          else if not (eq_int pipe_result (pos 0))
          then (err_io, (capture_reset, w2))
          else spawn w2 capture_reset config.audio_capture_device read_end write_end)

  -- `assistantd_audio_capture_read`: the buffer and `*bytes_read` after it. `buffer` may be NULL.
  unfoldable pub audio_capture_read :
      World → Capture → Option (List ℕ) → ℕ → Status × ((Option (List ℕ) × ℕ) × (Capture × World))
  audio_capture_read w capture none capacity = (err_invalid_argument, ((none, 0), (capture, w)))
  audio_capture_read w capture (some buffer) capacity =
      let (r, w') = read w capture.stdout_fd capacity in
      let filled = some (memcpy buffer 0 r.data_read (pos_part r.count)) in
      let (reaped, state) = reap_child w' capture in
      if capacity == 0
      then (err_invalid_argument, ((some buffer, 0), (capture, w)))
      else if not capture.active
          || ltb_ℤ capture.stdout_fd (pos 0)
          || not (ltb_ℤ (pos 0) capture.child_pid)
      then (err_child_process, ((some buffer, 0), (capture, w)))
      else if ltb_ℤ (pos 0) r.count
      then (ok, ((filled, pos_part r.count), (capture, w')))
      else if eq_int r.count (pos 0)
      then (err_child_process, ((some buffer, 0), state))
      else if is_retry r.errno
      then case_ok reaped (ok, ((some buffer, 0), state)) (λ e. (e, ((some buffer, 0), state)))
      else (err_io, ((some buffer, 0), (capture, w')))

  -- The part of `stop` under `child_pid > 0`, with the status so far.
  unfoldable pub terminate : World → ℤ → Status × World
  terminate w child_pid =
      let ((term_result, term_errno), w1) = kill w child_pid sigterm in
      let status =
        if not (eq_int term_result (pos 0)) && not (is_esrch term_errno)
        then err_child_process
        else ok in
      let (exited, w2) = wait_for_exit w1 child_pid term_wait_ms in
      let ((kill_result, kill_errno), w3) = kill w2 child_pid sigkill in
      if exited then (status, w2) else (
        (if not (eq_int kill_result (pos 0)) && not (is_esrch kill_errno)
            then err_child_process
            else status),
        (waitpid w3 child_pid).1,
      )

  -- `assistantd_audio_capture_stop`
  unfoldable pub audio_capture_stop : World → Capture → Status × (Capture × World)
  audio_capture_stop w capture =
      if not capture.active
      then (ok, (capture, w))
      else (let (closed, w1) = close_fd w capture in
          let (status, w2) =
            if ltb_ℤ (pos 0) capture.child_pid then terminate w1 capture.child_pid else (ok, w1) in
          (status, (record closed { active = false; child_pid = negsuc 0 }, w2)))
