-- ===== src/Playback.antt =====
-- The playback of src/assistantd/playback.c. The operating system is a parameter; the calls of the
-- logger are left out, and `config` is never NULL.
pub mod Wait
pub mod Reap
mod Tests
use shiori.Base.{
  ℕ, zero, suc, ◌+◌, ◌/◌, Bool, true, false, Option, none, some, List, [], ◌∷◌, ltb, if◌then◌else◌,
}
use shiori.Base.Int.{ℤ, pos, ltb_ℤ, eq_int}
use shiori.Status.{Status, ok, err_invalid_argument, err_child_process, case_ok}
use shiori.Text.{bytes}
use shiori.Config.{Config}
use shiori.Os.{Os, Child, executes, sigterm, is_echild, is_clean}

-- PLAYBACK_TIMEOUT_MS
abbrev pub playback_timeout_ms : ℕ
playback_timeout_ms = 30000

module _ {World : Type 0} (os : Os World) where
  open os use {fork, kill, waitpid_now, waitpid, nanosleep}

  -- The loop of `playback_wait`; `none` is a loop that has not ended within the fuel.
  unfoldable pub poll_playback : ℕ → World → ℤ → ℕ → ℕ → Option (Status × World)
  poll_playback zero w pid elapsed timeout_ms = none
  poll_playback (suc fuel) w pid elapsed timeout_ms = elim (ltb elapsed timeout_ms) [
    | false ↦ some (err_child_process, w)
    | true ↦
        let (waited, w') = waitpid_now w pid in
        elim (eq_int waited.result pid) [
          | true ↦ some ((if is_clean waited.status then ok else err_child_process), w')
          | false ↦ elim (ltb_ℤ waited.result (pos 0)) [
            | true ↦ some ((if is_echild waited.errno then ok else err_child_process), w')
            | false ↦ poll_playback fuel (nanosleep w' 50) pid (elapsed + 50) timeout_ms
          ]
        ]
  ]

  -- `playback_wait`
  unfoldable pub playback_wait : World → ℤ → ℕ → Status × World
  playback_wait w pid timeout_ms =
      elim (poll_playback (suc (suc (timeout_ms / 50))) w pid 0 timeout_ms) [
        | none ↦ (err_child_process, w)
        | some out ↦ out
      ]

  -- The block under `pid == 0`.
  unfoldable pub playback_child : List ℕ → List ℕ → World → Child × World
  playback_child device wav_path w =
      (executes (bytes "aplay") (bytes "aplay" ∷ bytes "-D" ∷ device ∷ wav_path ∷ []) 1, w)

  -- The block of `play_wav` where the wait did not end with ASSISTANTD_OK.
  unfoldable pub give_up : World → ℤ → World
  give_up w pid =
      let ((result, errno), w') = kill w pid sigterm in
      if eq_int result (pos 0) then (waitpid w' pid).1 else w'

  -- `assistantd_playback_play_wav`; `wav_path` may be NULL.
  unfoldable pub play_wav : World → Config → Option (List ℕ) → Status × World
  play_wav w config none = (err_invalid_argument, w)
  play_wav w config (some wav_path) =
      let (pid, w1) = fork w (playback_child config.audio_playback_device wav_path) in
      let (result, w2) = playback_wait w1 pid playback_timeout_ms in
      if ltb_ℤ pid (pos 0)
      then (err_child_process, w1)
      else case_ok result (ok, w2) (λ _. (err_child_process, give_up w2 pid))
