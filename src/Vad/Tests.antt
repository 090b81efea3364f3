-- ===== src/Vad/Tests.antt =====
-- Runs of vad_detector.c, and its theorems at concrete inputs.
use shiori.Base.{ℕ, suc, ◌≡◌, ◌++◌, refl, true, false, some, none, List, [], ◌∷◌, arith, replicate}
use shiori.Base.Int.{ℤ, pos, negsuc, ◌+ℤ◌}
use shiori.Status.{ok}
use shiori.Config.{init_defaults}
use shiori.Vad.{
  nothing, speech_start, speech_continue, speech_end, Fvad, Detector, init, process_frame,
  process_with, transition, is_valid_frame_duration, expected_sample_count,
}
use shiori.Vad.Invariant.{IsValid, process_frame-IsValid}
use shiori.Vad.Segments.{Call, follow, run, run-follow, run_frames, run_frames-silence}

-- A VAD that takes a frame for speech if its first sample is not 0; it counts its frames.
abbrev loud : List ℤ → ℤ
loud [] = pos 0
loud (pos n ∷ s) = pos (Prim.Native.Nat.min n 1)
loud (negsuc n ∷ s) = pos 1

abbrev fvad : Fvad
fvad = record {
  Handle = ℕ;
  new = some 0;
  set_mode = λ h m. (pos 0, h);
  set_sample_rate = λ h r. (pos 0, h);
  process = λ h pcm n. (loud pcm, suc h);
  reset = λ h. 0;
}

abbrev idle : Detector ℕ
idle = record {
  aggressiveness = pos 2;
  silence_ms = pos 50;
  accumulated_silence_ms = pos 0;
  speech_active = false;
  backend = some 0;
}

abbrev frame : ℤ → Call
frame sample = record {
  pcm = some (sample ∷ replicate 319 (pos 0));
  sample_count = 320;
  frame_duration_ms = pos 20;
}

abbrev calls : List Call
calls =
    frame (pos 0)
    ∷ frame (pos 9)
    ∷ record { pcm = none; sample_count = 320; frame_duration_ms = pos 20 }
    ∷ frame (pos 0)
    ∷ frame (pos 0)
    ∷ frame (pos 0)
    ∷ frame (pos 0)
    ∷ []

events :
    (run fvad idle calls).0
    ≡ nothing ∷ speech_start ∷ speech_continue ∷ speech_continue ∷ speech_end ∷ nothing ∷ []
unfolding run process_frame process_with transition is_valid_frame_duration expected_sample_count
    ◌+ℤ◌
events = refl

idle-IsValid : IsValid idle
idle-IsValid = ground arith

run-follow_example : let (es, d') = run fvad idle calls in follow false es ≡ some d'.speech_active
run-follow_example = run-follow fvad calls idle

process_frame-IsValid_example :
    IsValid (process_frame fvad idle (some (pos 1 ∷ [])) 160 (pos 10)).detector
process_frame-IsValid_example =
    process_frame-IsValid fvad idle (some (pos 1 ∷ [])) 160 (pos 10) idle-IsValid

init-ok : (init fvad idle init_defaults).0 ≡ ok
unfolding init init_defaults
init-ok = refl

abbrev speaking : Detector ℕ
speaking = record idle { speech_active = true; silence_ms = pos 700 }

-- 700 ms of silence end the speech with the 35th frame of 20 ms.
run_frames-silence_example : run_frames speaking (pos 20) (replicate 35 false) ≡ (
  replicate 34 speech_continue ++ speech_end ∷ [],
  record speaking { speech_active = false; accumulated_silence_ms = pos 0 },
)
run_frames-silence_example =
    run_frames-silence 34 speaking 0 700 20 refl refl refl (omega arith) (omega arith)
