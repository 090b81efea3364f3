-- ===== src/Vad.antt =====
-- The detector of src/assistantd/vad_detector.c over the struct of
-- include/assistantd/vad_detector.h. The WebRTC VAD (`fvad_*`) is a parameter.
pub mod Invariant
pub mod Segments
mod Tests
use shiori.Base.{
  ℕ, ◌*◌, Bool, true, false, Option, none, some, List, [], ◌∷◌, ◌==◌, ◌&&◌, ◌||◌, not,
  if◌then◌else◌,
}
use shiori.Base.Int.{ℤ, pos, negsuc, pos_part, ltb_ℤ, eq_int, ◌+ℤ◌}
use shiori.Status.{Status, ok, err_invalid_argument, err_config, err_io}
use shiori.Config.{Config}

-- `assistantd_vad_event_t`
pub data Event : Type 0 where
  nothing speech_start speech_continue speech_end : Event

-- The calls of libfvad that the detector makes. A call on a handle gives its C result and the handle
-- as it is left. `new` is `fvad_new()`, `none` for NULL.
pub record Fvad : Type 1 where
  pub Handle : Type 0
  pub new : Option Handle
  pub set_mode : Handle → ℤ → ℤ × Handle
  pub set_sample_rate : Handle → ℕ → ℤ × Handle
  pub process : Handle → List ℤ → ℕ → ℤ × Handle
  pub reset : Handle → Handle

-- `assistantd_vad_detector_t`; `backend` is `none` for NULL.
pub record Detector (Handle : Type 0) : Type 0 where
  pub aggressiveness : ℤ
  pub silence_ms : ℤ
  pub accumulated_silence_ms : ℤ
  pub speech_active : Bool
  pub backend : Option Handle

-- ASSISTANTD_VAD_SAMPLE_RATE_HZ
abbrev pub sample_rate_hz : ℕ
sample_rate_hz = 16000

unfoldable pub is_valid_frame_duration : ℤ → Bool
is_valid_frame_duration ms = eq_int ms (pos 10) || eq_int ms (pos 20) || eq_int ms (pos 30)

-- The cast to `size_t`; the call stands behind `is_valid_frame_duration`, so `ms` is not negative.
unfoldable pub expected_sample_count : ℤ → ℕ
expected_sample_count ms = 16 * pos_part ms

-- The state machine of `process_frame`, below the call of `fvad_process`: what the frame does to the
-- detector, and the event that it reports.
unfoldable pub transition : {H : Type 0} → Detector H → Bool → ℤ → Event × Detector H
transition d frame_has_speech frame_duration_ms =
    if not d.speech_active
    then (if frame_has_speech
        then (speech_start, record d { speech_active = true; accumulated_silence_ms = pos 0 })
        else (nothing, d))
    else if frame_has_speech
    then (speech_continue, record d { accumulated_silence_ms = pos 0 })
    else (let accumulated = d.accumulated_silence_ms +ℤ frame_duration_ms in
        if ltb_ℤ accumulated d.silence_ms
        then (speech_continue, record d { accumulated_silence_ms = accumulated })
        else (speech_end, record d { speech_active = false; accumulated_silence_ms = pos 0 }))

-- What `process_frame` hands back: its status, what stands at `event` (`none` where it is not
-- written), and the detector.
pub record Frame (Handle : Type 0) : Type 0 where
  pub status : Status
  pub event : Option Event
  pub detector : Detector Handle

module _ (fvad : Fvad) where
  open fvad use {Handle, new, set_mode, set_sample_rate, process, reset}

  -- The steps of `init` after the four fields are set.
  init_backend : Detector Handle → Status × Detector Handle
  init_backend d = elim new [
    | none ↦ (err_io, d)
    | some vad ↦
        let (mode_result, vad1) = set_mode vad d.aggressiveness in
        let (rate_result, vad2) = set_sample_rate vad1 sample_rate_hz in
        if not (eq_int mode_result (pos 0))
        then (err_config, d)
        else if not (eq_int rate_result (pos 0))
        then (err_config, d)
        else (ok, record d { backend = some vad2 })
  ]

  unfoldable pub init : Detector Handle → Config → Status × Detector Handle
  unfolding init_backend
  init d config =
      if ltb_ℤ config.vad_aggressiveness (pos 0) || ltb_ℤ (pos 3) config.vad_aggressiveness
      then (err_config, d)
      else if not (ltb_ℤ (pos 0) config.vad_silence_ms)
      then (err_config, d)
      else init_backend (record d {
        aggressiveness = config.vad_aggressiveness;
        silence_ms = config.vad_silence_ms;
        accumulated_silence_ms = pos 0;
        speech_active = false;
      })

  -- The call of `fvad_process` and what follows it.
  unfoldable pub process_with : Handle → Detector Handle → List ℤ → ℕ → ℤ → Frame Handle
  process_with vad d pcm sample_count frame_duration_ms =
      let (speech_result, vad') = process vad pcm sample_count in
      let called = record d { backend = some vad' } in
      if ltb_ℤ speech_result (pos 0)
      then record { status = err_io; event = none; detector = called }
      else (let (event, d') = transition called (eq_int speech_result (pos 1)) frame_duration_ms in
          record { status = ok; event = some event; detector = d' })

  -- The pointer `pcm` may be NULL.
  unfoldable pub process_frame : Detector Handle → Option (List ℤ) → ℕ → ℤ → Frame Handle
  process_frame d none sample_count frame_duration_ms = record {
    status = err_invalid_argument;
    event = none;
    detector = d;
  }
  process_frame d (some pcm) sample_count frame_duration_ms =
      let refused : Frame Handle = record {
        status = err_invalid_argument;
        event = none;
        detector = d;
      } in
      if sample_count == 0
      then refused
      else if not (is_valid_frame_duration frame_duration_ms)
      then refused
      else if not (sample_count == expected_sample_count frame_duration_ms)
      then refused
      else elim d.backend [
        | none ↦ refused
        | some vad ↦ process_with vad d pcm sample_count frame_duration_ms
      ]

  -- `fvad_free` frees the handle.
  unfoldable pub shutdown : Detector Handle → Status × Detector Handle
  shutdown d =
      (ok, record d { backend = none; accumulated_silence_ms = pos 0; speech_active = false })

  -- The results of `set_mode` and `set_sample_rate` are only logged.
  restore : Detector Handle → Handle → Handle
  restore d vad =
      let (mode_result, vad1) = set_mode (reset vad) d.aggressiveness in
      let (rate_result, vad2) = set_sample_rate vad1 sample_rate_hz in vad2

  -- `assistantd_vad_reset`
  unfoldable pub reset_detector : Detector Handle → Detector Handle
  unfolding restore
  reset_detector d = record d {
    backend = elim d.backend [ none ↦ none | some vad ↦ some (restore d vad) ];
    accumulated_silence_ms = pos 0;
    speech_active = false;
  }
