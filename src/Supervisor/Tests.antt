-- ===== src/Supervisor/Tests.antt =====
-- The theorems on supervisor.c in a small concrete environment.
use shiori.Base.{
  ℕ, suc, ◌+◌, ◌≤◌, ◌<◌, ◌≡◌, refl, none, some, [], ◌∷◌, arith, length, replicate, length-replicate,
  memcpy, size_mod, if◌then◌else◌,
}
use shiori.Status.{ok, err_io}
use shiori.Text.{bytes}
use shiori.Config.{init_defaults}
use shiori.Ring.{available, init as ring_init}
use shiori.Queue.{
  Artifact, zero_artifact, artifact_queue_init, artifact_queue_enqueue, llm_response_queue_init,
  init as queue_init, enqueue,
}
use shiori.Queue.Fifo.{put}
use shiori.Ring.{used_snapshot}
use shiori.Ring.Bounds.{IsValid as RingValid}
use shiori.Queue.Invariant.{IsValid as QueueValid}
use shiori.Supervisor.Round.{run_once, drain}
use shiori.Supervisor.Drain.{drain_enough}
use shiori.Supervisor.Sound.{Sound, SoundAfter}
use shiori.Supervisor.Turn.{run_once-Sound}
use shiori.Supervisor.{Supervisor, state_ready, state_running, state_stopped}
use shiori.Ring.{read, read_bytes, copy_out}
use shiori.Vad.{
  process_frame, process_with, transition, is_valid_frame_duration, expected_sample_count,
  init as vad_init,
}
use shiori.Utterance.{append_utterance_pcm, reserve, store, grow_capacity}
use shiori.Utterance.Append.{IsValid as UtteranceValid}
use shiori.Supervisor.{samples, append_pcm}
use shiori.Supervisor.Round.{drain_frame, detect, follow_event, append_frame, process_stt_queue}
use shiori.Queue.Invariant.{enqueue-IsValid}
use shiori.Supervisor.Lifecycle.{
  init, start, stop, initialize_modules, start_vad, start_stt, start_llm, start_tts, start_ring,
}
use shiori.Supervisor.Starting.{start-Sound}
use shiori.Supervisor.Answers.{
  queued_artifacts, queued_responses, response_to, process_stt_queue-answered,
  process_stt_queue-failed,
}
use shiori.Supervisor.Cleanup.{unlink_all, stop_lem}
use shiori.Supervisor.History.{
  state_code, run_calls, call_start, call_run_once, call_stop, run_calls-forward,
}
use shiori.Artifacts.{wav_path_max, build_artifact_path, write_wav_file, write_frames}
use shiori.Artifacts.Paths.{build_artifact_path-ok_iff}
use shiori.Supervisor.{finalize_utterance}
use shiori.Supervisor.Finish.{finalize_utterance_lem}
use shiori.Supervisor.Samples.{
  env, outside, fresh, memory, artifacts-IsValid, responses-IsValid, fresh-Sound, chunk_bounded,
}

run_once-Sound_example : SoundAfter env 0 (run_once env fresh)
run_once-Sound_example = run_once-Sound env memory chunk_bounded fresh fresh-Sound (omega arith)

-- Seven hundred bytes in a ring of a thousand: a frame, and less than another.
abbrev loaded : Supervisor env
loaded = record fresh {
  capture_ring = record {
    storage = some (replicate 1000 9);
    capacity = 1000;
    head = 700;
    tail = 0;
    overflow = 0;
    underflow = 0;
  };
}

loaded-IsValid : RingValid loaded.capture_ring
loaded-IsValid = record {
  stored = refl;
  sized = length-replicate {A = ℕ} 1000 9;
  positive = omega arith;
  ordered = omega arith;
  fits = omega arith;
  counted = omega arith;
  over = omega arith;
  under = omega arith;
}

loaded-available : available loaded.capture_ring ≡ 700
unfolding available used_snapshot
loaded-available = refl

drain_enough_example : drain env 1 loaded ≡ drain env 5 loaded
drain_enough_example =
    drain_enough env 1 5 loaded loaded-IsValid (omega (arith, loaded-available))
      (omega (arith, loaded-available))

-- The loop takes the one frame and stops.
drain_runs : (drain env 1 loaded).0 ≡ ok
unfolding drain drain_frame detect follow_event append_frame append_pcm samples read read_bytes
    copy_out used_snapshot available memcpy process_frame process_with transition
    is_valid_frame_duration expected_sample_count append_utterance_pcm reserve store grow_capacity
drain_runs = refl

start-Sound_example :
    let s = (init env init_defaults 0).1 in
    let s' = (start env s).1 in
    (s.state ≡ state_ready) × (s'.state ≡ state_running) × Sound env 100 s'
start-Sound_example = start-Sound env (init env init_defaults 0).1 zero_utterance room started_ok
  where
    zero_utterance : UtteranceValid (init env init_defaults 0).1.utterance_metadata
    zero_utterance = unfold init in ground arith

    room : (init env init_defaults 0).1.next_artifact_sequence_id + 100 < size_mod
    room = unfold init in omega arith

    started_ok : (start env (init env init_defaults 0).1).0 ≡ ok
    started_ok =
        unfold init start initialize_modules start_vad start_stt start_llm start_tts start_ring
          vad_init init_defaults ring_init in
        refl

-- An utterance in its file, and one whose path is lost.
abbrev filed : Artifact
filed = record { sequence_id = 0; pcm_bytes = 640; wav_path = bytes "/run/a.wav" }

abbrev lost : Artifact
lost = record { sequence_id = 0; pcm_bytes = 640; wav_path = [] }

abbrev waiting : Artifact → Supervisor env
waiting a = record fresh {
  artifact_queue = (artifact_queue_enqueue artifact_queue_init (some a)).1;
  next_artifact_sequence_id = 1;
}

waiting-IsValid : (a : Artifact) → QueueValid 16 zero_artifact (waiting a).artifact_queue
waiting-IsValid a = enqueue-IsValid 16 zero_artifact artifact_queue_init (some a) artifacts-IsValid

waiting-first : (a : Artifact) → queued_artifacts (waiting a) ≡ a ∷ []
unfolding queue_init enqueue
waiting-first a = refl

process_stt_queue-answered_example :
    let (status, s') = process_stt_queue env (waiting filed) in
    (status ≡ ok)
    × (queued_artifacts s' ≡ [])
    × (queued_responses s'
        ≡ (put 16 (queued_responses (waiting filed)) (response_to 0 err_io [])).1)
process_stt_queue-answered_example =
    process_stt_queue-answered env (waiting filed) filed [] (waiting-IsValid filed)
      responses-IsValid (waiting-first filed) refl

process_stt_queue-failed_example :
    let (status, s') = process_stt_queue env (waiting lost) in
    (status ≡ err_io)
    × (queued_artifacts s' ≡ [])
    × (s'.llm_response_queue ≡ llm_response_queue_init)
    × (s'.world ≡ 0)
process_stt_queue-failed_example =
    process_stt_queue-failed env (waiting lost) lost [] (waiting-IsValid lost) responses-IsValid
      (waiting-first lost) (λ h. cc h)

stop_lem_example :
    let (status, s') = stop env (waiting filed) in
    (status ≡ ok)
    × (s'.state ≡ state_stopped)
    × (queued_artifacts s' ≡ [])
    × (queued_responses s' ≡ [])
    × (s'.capture_ring.storage ≡ none)
    × (s'.utterance_metadata.pcm ≡ none)
    × (s'.next_artifact_sequence_id ≡ 0)
    × (s'.vad.backend ≡ none)
    × (s'.world ≡ unlink_all env 1 (queued_artifacts (waiting filed)))
stop_lem_example = stop_lem env (waiting filed) (waiting-IsValid filed) responses-IsValid

run_calls-forward_example :
    state_code fresh.state
    ≤ state_code (run_calls env (call_run_once ∷ call_stop ∷ call_start ∷ []) fresh).state
run_calls-forward_example =
    run_calls-forward env (call_run_once ∷ call_stop ∷ call_start ∷ []) fresh

-- A sample of speech that ends.
abbrev spoken : Supervisor env
spoken = record fresh {
  utterance_metadata = record { pcm = some (1 ∷ 2 ∷ 0 ∷ []); size = 2; capacity = 3 };
}

finalize_utterance_lem_example :
    let path = (build_artifact_path init_defaults 0 wav_path_max).1 in
    let w = (write_wav_file outside 0 (some path) (some (1 ∷ 2 ∷ 0 ∷ [])) 2).1 in
    let (status, s') = finalize_utterance env spoken in
    let (room, queued) =
      put 16
        (queued_artifacts spoken)
        (record { sequence_id = 0; pcm_bytes = 2; wav_path = path }) in
    (status ≡ ok)
    × (queued_artifacts s' ≡ queued)
    × (s'.utterance_metadata.size ≡ 0)
    × (s'.next_artifact_sequence_id ≡ 1)
    × (s'.world ≡ (if room then w else suc w))
finalize_utterance_lem_example =
    finalize_utterance_lem env spoken (1 ∷ 2 ∷ 0 ∷ []) artifacts-IsValid refl (omega arith)
      (omega arith) path_ok file_ok
  where
    short : length init_defaults.runtime_dir ≤ 476
    short = unfold init_defaults in omega arith

    path_ok : (build_artifact_path init_defaults 0 wav_path_max).0 ≡ ok
    path_ok = (build_artifact_path-ok_iff init_defaults 0 (omega arith)).0.1 short

    file_ok :
        (write_wav_file outside 0
          (some (build_artifact_path init_defaults 0 wav_path_max).1)
          (some (1 ∷ 2 ∷ 0 ∷ []))
          2).0
        ≡ ok
    file_ok = unfold write_wav_file write_frames in refl
