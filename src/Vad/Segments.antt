-- ===== src/Vad/Segments.antt =====
-- The events of a run of frames: how they follow one another, and when speech ends.
use shiori.Base.{
  ℕ, zero, suc, ◌+◌, ◌*◌, ◌≤◌, ◌<◌, ◌≡◌, refl, ap, ◌∙◌, Bool, true, false, Option, none, some, List,
  [], ◌∷◌, ◌++◌, arith, replicate,
}
use shiori.Base.Int.{ℤ, pos, ◌+ℤ◌}
use shiori.Vad.{
  Event, nothing, speech_start, speech_continue, speech_end, Fvad, Detector, transition,
  process_with, process_frame,
}

-- The order of events: an utterance is a start, any continuations, and an end. `none` is a breach;
-- the flag is whether an utterance is under way.
abbrev pub follow : Bool → List Event → Option Bool
follow active [] = some active
follow false (nothing ∷ es) = follow false es
follow false (speech_start ∷ es) = follow true es
follow false (speech_continue ∷ es) = none
follow false (speech_end ∷ es) = none
follow true (nothing ∷ es) = none
follow true (speech_start ∷ es) = none
follow true (speech_continue ∷ es) = follow true es
follow true (speech_end ∷ es) = follow false es

pub transition-follow :
    {H : Type 0} (d : Detector H) (speech : Bool) (ms : ℤ) (es : List Event)
    → let (e, d') = transition d speech ms in
      follow d.speech_active (e ∷ es) ≡ follow d'.speech_active es
unfolding transition
transition-follow d speech ms es = ground arith

-- A call of `process_frame`.
pub record Call : Type 0 where
  pub pcm : Option (List ℤ)
  pub sample_count : ℕ
  pub frame_duration_ms : ℤ

abbrev pub push_event : Option Event → List Event → List Event
push_event none es = es
push_event (some e) es = e ∷ es

module _ (fvad : Fvad) where
  open fvad use {Handle, process}

  -- The events that a sequence of calls reports, refused and failed calls reporting none, and the
  -- detector after it.
  unfoldable pub run : Detector Handle → List Call → List Event × Detector Handle
  run d [] = ([], d)
  run d (c ∷ calls) =
      let f = process_frame fvad d c.pcm c.sample_count c.frame_duration_ms in
      let (es, d') = run f.detector calls in (push_event f.event es, d')

  process_frame-follow :
      (d : Detector Handle) (c : Call) (es : List Event)
      → let f = process_frame fvad d c.pcm c.sample_count c.frame_duration_ms in
        follow d.speech_active (push_event f.event es) ≡ follow f.detector.speech_active es
  unfolding process_frame process_with transition
  process_frame-follow d c es = ground arith

  -- The events of any calls are utterances one after the other: no speech ends twice, and none
  -- starts or goes on out of turn; the detector's flag is whether an utterance is under way.
  pub run-follow :
      (calls : List Call) (d : Detector Handle)
      → let (es, d') = run d calls in follow d.speech_active es ≡ some d'.speech_active
  unfolding run
  run-follow [] d = refl
  run-follow (c ∷ calls) d =
      let f = process_frame fvad d c.pcm c.sample_count c.frame_duration_ms in
      process_frame-follow d c (run f.detector calls).0 ∙ run-follow calls f.detector

-- The frames of one duration, by whether they hold speech.
unfoldable pub run_frames : {H : Type 0} → Detector H → ℤ → List Bool → List Event × Detector H
run_frames d ms [] = ([], d)
run_frames d ms (speech ∷ rest) =
    let (e, d1) = transition d speech ms in let (es, d2) = run_frames d1 ms rest in (e ∷ es, d2)

module _ {H : Type 0} (d : Detector H) (counted limit ms : ℕ) (active : d.speech_active ≡ true)
    (a : d.accumulated_silence_ms ≡ pos counted) (s : d.silence_ms ≡ pos limit) where
  transition_more :
      counted + ms < limit
      → transition d false (pos ms)
        ≡ (speech_continue, record d { accumulated_silence_ms = pos (counted + ms) })
  unfolding transition ◌+ℤ◌
  transition_more h = ground arith

  transition_end :
      limit ≤ counted + ms
      → transition d false (pos ms)
        ≡ (speech_end, record d { speech_active = false; accumulated_silence_ms = pos 0 })
  unfolding transition ◌+ℤ◌
  transition_end h = ground arith

-- While speech is active, it ends with the first silent frame that brings the counted silence to the
-- limit, and goes on with each silent frame before.
pub run_frames-silence :
    {H : Type 0} (k : ℕ) (d : Detector H) (counted limit ms : ℕ)
    → d.speech_active ≡ true
    → d.accumulated_silence_ms ≡ pos counted
    → d.silence_ms ≡ pos limit
    → counted + k * ms < limit
    → limit ≤ counted + suc k * ms
    → run_frames d (pos ms) (replicate (suc k) false) ≡ (
      replicate k speech_continue ++ speech_end ∷ [],
      record d { speech_active = false; accumulated_silence_ms = pos 0 },
    )
unfolding run_frames
run_frames-silence zero d counted limit ms active a s lo hi =
    rw (transition_end d counted limit ms active a s (omega arith))
run_frames-silence (suc k) d counted limit ms active a s lo hi =
    rw (transition_more d counted limit ms active a s (omega arith)) (
      ap (λ out. (speech_continue ∷ out.0, out.1))
        (run_frames-silence k (record d { accumulated_silence_ms = pos (counted + ms) })
          (counted + ms) limit ms active refl s (omega arith) (omega arith)))
