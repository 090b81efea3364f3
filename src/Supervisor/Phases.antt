-- ===== src/Supervisor/Phases.antt =====
-- The lifecycle of supervisor.c: READY, RUNNING, STOPPED, and no way back.
use shiori.Base.{
  ℕ, zero, suc, ◌≡◌, ap, ◌∙◌, true, false, none, some, List, ltb, leb, not, if_both, option_both,
  if◌then◌else◌, replicate, ◌==◌,
}
use shiori.Base.Int.{pos}
use shiori.Status.{Status, ok, err_io, err_invalid_argument, then_ok}
use shiori.Status.Flow.{then_ok_keeps, case_ok_both}
use shiori.Config.{is_empty}
use shiori.Ring.{read, write, available}
use shiori.Queue.{Artifact, artifact_queue_dequeue}
use shiori.Vad.{Event, nothing, process_frame}
use shiori.Adapters.{Env}
use shiori.Supervisor.{
  Supervisor, SupervisorState, samples, unlink_artifact, enqueue_llm_response, llm_fallback_text,
}
use shiori.Supervisor.Round.{
  is_running, follow_event, detect, drain_frame, drain, answer, drain_capture_ring_into_vad,
  transcribe_artifact, process_stt_queue, drain_llm_response_queue, ensure_capture, read_capture,
  run_once,
}
use shiori.Supervisor.Keeps.{follow_event-Kept}

module _ (env : Env) (state : SupervisorState) where
  abbrev pub Stays : Supervisor env → Type 0
  Stays s = s.state ≡ state

  abbrev pub StaysAfter : Status × Supervisor env → Type 0
  StaysAfter t = Stays t.1

  detect-Stays : (s : Supervisor env) (frame : List ℕ) → Stays s → StaysAfter (detect env s frame)
  unfolding detect
  detect-Stays s frame h =
      let f = process_frame env.fvad s.vad (some (samples frame)) 320 (pos 20) in
      let event : Event = elim f.event [ none ↦ nothing | some e ↦ e ] in
      let heard = record s { vad = f.detector } in
      case_ok_both StaysAfter f.status (follow_event env heard event s.vad.speech_active frame)
        (λ e. (e, heard))
        (ap (λ k. k.0) (follow_event-Kept env heard event s.vad.speech_active frame) ∙ h) (λ e. h)

  drain_frame-Stays : (s : Supervisor env) → Stays s → StaysAfter (drain_frame env s)
  unfolding drain_frame
  drain_frame-Stays s h =
      let reading = read s.capture_ring (some (replicate 640 0)) 640 in
      let taken = record s { capture_ring = reading.buffer } in
      if_both StaysAfter (not (reading.count == 640)) (err_io, taken)
        (detect env taken reading.output) (λ _. h) (λ _. detect-Stays taken reading.output h)

  drain-Stays : (f : ℕ) (s : Supervisor env) → Stays s → StaysAfter (drain env f s)
  unfolding drain
  drain-Stays zero s h = h
  drain-Stays (suc f) s h =
      if_both StaysAfter (leb 640 (available s.capture_ring))
        (then_ok (drain_frame env s) (drain env f)) (ok, s)
        (λ _.
          then_ok_keeps Stays (drain_frame env s) (drain env f) (drain_frame-Stays s h)
            (drain-Stays f))
        (λ _. h)

  answer-Stays :
      (s : Supervisor env) (a : Artifact) (transcript : List ℕ)
      → Stays s
      → StaysAfter (answer env s a transcript)
  unfolding answer enqueue_llm_response
  answer-Stays s a transcript h =
      let out = env.adapters.llm_generate s.world s.llm transcript in
      let asked = record s { llm = out.1.1.0; world = out.1.1.1 } in
      case_ok_both StaysAfter out.0
        (enqueue_llm_response env asked a.sequence_id (some out.1.0) false)
        (λ e. enqueue_llm_response env asked a.sequence_id (some llm_fallback_text) true) h (λ e. h)

  process_stt_queue-Stays : (s : Supervisor env) → Stays s → StaysAfter (process_stt_queue env s)
  unfolding process_stt_queue transcribe_artifact unlink_artifact
  process_stt_queue-Stays s h =
      let (artifact, queue) = artifact_queue_dequeue s.artifact_queue in
      let taken = record s { artifact_queue = queue } in
      option_both StaysAfter artifact (ok, taken) (transcribe_artifact env taken) h
        (λ a.
          let out = env.adapters.stt_transcribe taken.world taken.stt a.wav_path in
          let heard = record taken { stt = out.1.1.0; world = out.1.1.1 } in
          case_ok_both StaysAfter out.0 (answer env (unlink_artifact env heard a) a out.1.0)
            (λ e. (e, heard))
            (answer-Stays (unlink_artifact env heard a) a out.1.0 (
              if_both Stays (is_empty a.wav_path) heard
                (record heard { world = (env.outside.unlink heard.world a.wav_path).1 }) (λ _. h)
                (λ _. h)))
            (λ e. h))

  ensure_capture-Stays : (s : Supervisor env) → Stays s → StaysAfter (ensure_capture env s)
  unfolding ensure_capture
  ensure_capture-Stays s h =
      let out = env.adapters.capture_start s.world s.capture s.config in
      if_both StaysAfter (env.adapters.active s.capture) (ok, s)
        (out.0, record s { capture = out.1.0; world = out.1.1 }) (λ _. h) (λ _. h)

  read_capture-Stays : (s : Supervisor env) → Stays s → StaysAfter (read_capture env s)
  unfolding read_capture
  read_capture-Stays s h =
      let out = env.adapters.capture_read s.world s.capture 640 in
      let n = out.1.0.1 in
      let got = record s { capture = out.1.1.0; world = out.1.1.1 } in
      let grown = record got { capture_ring = (write s.capture_ring (some out.1.0.0) n).1 } in
      case_ok_both StaysAfter out.0 (ok, if ltb 0 n then grown else got) (λ e. (e, got))
        (if_both Stays (ltb 0 n) grown got (λ _. h) (λ _. h)) (λ e. h)

  pub run_once-Stays : (s : Supervisor env) → Stays s → StaysAfter (run_once env s)
  unfolding run_once drain_llm_response_queue
  run_once-Stays s h =
      if_both StaysAfter (not (is_running s.state)) (err_invalid_argument, s)
        (then_ok (ensure_capture env s) (λ s1. then_ok (read_capture env s1) (λ s2.
          then_ok (drain_capture_ring_into_vad env s2)
            (λ s3. then_ok (process_stt_queue env s3) (drain_llm_response_queue env)))))
        (λ _. h)
        (λ _. then_ok_keeps Stays (ensure_capture env s) _ (ensure_capture-Stays s h) (λ s1 h1.
          then_ok_keeps Stays (read_capture env s1) _ (read_capture-Stays s1 h1) (λ s2 h2.
            then_ok_keeps Stays (drain_capture_ring_into_vad env s2) _ (drain-Stays _ s2 h2)
              (λ s3 h3.
                then_ok_keeps Stays (process_stt_queue env s3) (drain_llm_response_queue env)
                  (process_stt_queue-Stays s3 h3) (λ s4 h4. h4)))))
