-- ===== src/Vad/Invariant.antt =====
-- What holds of a detector between two frames.
use shiori.Base.{
  ℕ, ◌≡◌, Bool, true, false, Option, none, some, List, arith, inl, inr, Option-cases, Bool-cases,
  ◌==◌, ◌≢◌, ◌↔◌,
}
use shiori.Base.Int.{ℤ, eq_int, pos, ◌≤ℤ◌, ◌<ℤ◌, +ℤ_parts, ltb_ℤ}
use shiori.Status.{ok}
use shiori.Config.{Config}
use shiori.Vad.{
  Fvad, Detector, transition, init, process_with, process_frame, is_valid_frame_duration,
  expected_sample_count,
}

-- The silence that is counted has not reached the limit, and none is counted outside speech.
pub record IsValid {H : Type 0} (d : Detector H) : Type 0 where
  pub limit : (pos 1 ≤ℤ d.silence_ms)
  pub counted : (pos 0 ≤ℤ d.accumulated_silence_ms)
  pub below : d.accumulated_silence_ms <ℤ d.silence_ms
  pub idle : d.speech_active ≡ false → d.accumulated_silence_ms ≡ pos 0

pub transition-IsValid :
    {H : Type 0} (d : Detector H) (speech : Bool) (ms : ℤ)
    → pos 0 ≤ℤ ms
    → IsValid d
    → IsValid (transition d speech ms).1
unfolding transition
transition-IsValid d speech ms h v = ground (arith, v, +ℤ_parts d.accumulated_silence_ms ms)

duration_bounds : (ms : ℤ) → is_valid_frame_duration ms ≡ true → (pos 0 ≤ℤ ms) × (ms ≤ℤ pos 30)
unfolding is_valid_frame_duration
duration_bounds ms h = ground arith

module _ (fvad : Fvad) where
  open fvad use {Handle, new, set_mode, set_sample_rate, process, reset}

  IsValid-called :
      (d : Detector Handle) (vad : Handle) → IsValid d → IsValid (record d { backend = some vad })
  IsValid-called d vad v = record {
    limit = v.limit;
    counted = v.counted;
    below = v.below;
    idle = v.idle;
  }

  process_with-IsValid :
      (vad : Handle) (d : Detector Handle) (pcm : List ℤ) (n : ℕ) (ms : ℤ)
      → pos 0 ≤ℤ ms
      → IsValid d
      → IsValid (process_with fvad vad d pcm n ms).detector
  unfolding process_with
  process_with-IsValid vad d pcm n ms h v =
      elim (Bool-cases (ltb_ℤ (process vad pcm n).0 (pos 0))) [
        | inl e ↦ rw e (IsValid-called d (process vad pcm n).1 v)
        | inr e ↦ rw e (
            transition-IsValid (record d { backend = some (process vad pcm n).1 })
              (eq_int (process vad pcm n).0 (pos 1)) ms h
              (IsValid-called d (process vad pcm n).1 v))
      ]

  -- Every call of `process_frame`, accepted or refused, keeps the detector valid.
  pub process_frame-IsValid :
      (d : Detector Handle) (pcm : Option (List ℤ)) (n : ℕ) (ms : ℤ)
      → IsValid d
      → IsValid (process_frame fvad d pcm n ms).detector
  unfolding process_frame
  process_frame-IsValid d none n ms v = v
  process_frame-IsValid d (some pcm) n ms v = elim (Bool-cases (n == 0)) [
    | inl e ↦ rw e v
    | inr e ↦ rw e (elim (Bool-cases (is_valid_frame_duration ms)) [
      | inl valid ↦ rw valid (elim (Bool-cases (n == expected_sample_count ms)) [
        | inl whole ↦ rw whole (elim (Option-cases d.backend) [
          | inl null ↦ rw (null, process_frame) v
          | inr (vad, handle) ↦
              rw (handle, process_frame)
                (process_with-IsValid vad d pcm n ms (duration_bounds ms valid).0 v)
        ])
        | inr short ↦ rw short v
      ])
      | inr invalid ↦ rw invalid v
    ])
  ]

  -- A successful `init` leaves a valid idle detector with a backend, set up as the configuration says.
  pub init-ok_IsValid :
      (d : Detector Handle) (c : Config)
      → (init fvad d c).0 ≡ ok
      → let d' = (init fvad d c).1 in
        IsValid d'
        × (d'.speech_active ≡ false)
        × (d'.backend ≢ none)
        × (d'.aggressiveness ≡ c.vad_aggressiveness)
        × (d'.silence_ms ≡ c.vad_silence_ms)
  unfolding init
  init-ok_IsValid d c h = ground arith

  -- Where libfvad does as it documents (a new handle is given, `set_mode` accepts the modes 0 to 3,
  -- `set_sample_rate` accepts 16000), `init` succeeds exactly on the settings in range.
  pub init-ok_iff :
      (d : Detector Handle) (c : Config) (vad : Handle)
      → new ≡ some vad
      → ((h : Handle) (m : ℤ) → pos 0 ≤ℤ m → m ≤ℤ pos 3 → (set_mode h m).0 ≡ pos 0)
      → ((h : Handle) → (set_sample_rate h 16000).0 ≡ pos 0)
      → ((init fvad d c).0 ≡ ok) ↔ (
          (pos 0 ≤ℤ c.vad_aggressiveness)
          × (c.vad_aggressiveness ≤ℤ pos 3)
          × (pos 1 ≤ℤ c.vad_silence_ms))
  unfolding init
  init-ok_iff d c vad given modes rate = (
    λ h. ground arith,
    λ (lo, hi, long). ground (
      arith,
      given,
      modes vad c.vad_aggressiveness lo hi,
      rate (set_mode vad c.vad_aggressiveness).1,
    ),
  )
