-- ===== src/Supervisor/Round.antt =====
-- One round of the run loop of src/assistantd/supervisor.c: capture, speech detection,
-- transcription, answer.
use shiori.Base.{
  ℕ, zero, suc, ◌/◌, Bool, true, false, none, some, List, replicate, ltb, leb, ◌==◌, ◌&&◌, ◌||◌,
  not, if◌then◌else◌,
}
use shiori.Base.Int.{pos}
use shiori.Status.{Status, ok, err_invalid_argument, err_io, then_ok, case_ok}
use shiori.Ring.{read, write, available}
use shiori.Queue.{Artifact, artifact_queue_dequeue, llm_response_queue_dequeue}
use shiori.Vad.{Event, nothing, speech_start, speech_continue, speech_end, process_frame}
use shiori.Adapters.{Env}
use shiori.Supervisor.{
  Supervisor, SupervisorState, state_running, capture_chunk_bytes, vad_frame_samples,
  vad_frame_bytes, llm_fallback_text, samples, reset, append_pcm, unlink_artifact,
  enqueue_llm_response, finalize_utterance,
}

-- `==` on the enumerators that the source compares with.
abbrev pub is_start : Event → Bool
is_start speech_start = true
is_start _ = false

abbrev pub is_continue : Event → Bool
is_continue speech_continue = true
is_continue _ = false

abbrev pub is_end : Event → Bool
is_end speech_end = true
is_end _ = false

abbrev pub is_running : SupervisorState → Bool
is_running state_running = true
is_running _ = false

module _ (env : Env) where
  -- The part of a round of the drain that starts or extends the utterance.
  unfoldable pub append_frame : Supervisor env → Event → Bool → List ℕ → Status × Supervisor env
  append_frame s event was_active frame =
      let begun = if is_start event then reset env s else s in
      if is_start event || (is_continue event && was_active) || (is_end event && was_active)
      then append_pcm env begun frame vad_frame_bytes
      else (ok, begun)

  -- What a round of the drain does with the event of its frame.
  unfoldable pub follow_event : Supervisor env → Event → Bool → List ℕ → Status × Supervisor env
  follow_event s event was_active frame =
      then_ok (append_frame s event was_active frame)
        (λ s'. if is_end event then finalize_utterance env s' else (ok, s'))

  -- The part of a round of the drain that has a frame.
  unfoldable pub detect : Supervisor env → List ℕ → Status × Supervisor env
  detect s frame =
      let f = process_frame env.fvad s.vad (some (samples frame)) vad_frame_samples (pos 20) in
      let heard = record s { vad = f.detector } in
      case_ok f.status
        (follow_event heard (elim f.event [ none ↦ nothing | some e ↦ e ]) s.vad.speech_active
          frame)
        (λ e. (e, heard))

  -- The body of the loop of the drain. The array `frame` is written whole before it is used.
  unfoldable pub drain_frame : Supervisor env → Status × Supervisor env
  drain_frame s =
      let reading = read s.capture_ring (some (replicate vad_frame_bytes 0)) vad_frame_bytes in
      let taken = record s { capture_ring = reading.buffer } in
      if not (reading.count == vad_frame_bytes)
      then (err_io, taken)
      else detect taken reading.output

  unfoldable pub drain : ℕ → Supervisor env → Status × Supervisor env
  drain zero s = (ok, s)
  drain (suc fuel) s =
      if leb vad_frame_bytes (available s.capture_ring)
      then then_ok (drain_frame s) (drain fuel)
      else (ok, s)

  -- `assistantd_supervisor_drain_capture_ring_into_vad`; a round takes a frame off the ring.
  abbrev pub drain_capture_ring_into_vad : Supervisor env → Status × Supervisor env
  drain_capture_ring_into_vad s = drain (available s.capture_ring / vad_frame_bytes) s

  -- The part of `process_stt_queue` that has the transcript.
  unfoldable pub answer : Supervisor env → Artifact → List ℕ → Status × Supervisor env
  answer s artifact transcript =
      let (llm_status, (response, (llm, w))) = env.adapters.llm_generate s.world s.llm transcript in
      let asked = record s { llm = llm; world = w } in
      case_ok llm_status (enqueue_llm_response env asked artifact.sequence_id (some response) false)
        (λ e. enqueue_llm_response env asked artifact.sequence_id (some llm_fallback_text) true)

  -- The part of `process_stt_queue` that has an artifact.
  unfoldable pub transcribe_artifact : Supervisor env → Artifact → Status × Supervisor env
  transcribe_artifact s artifact =
      let (status, (transcript, (stt, w))) =
        env.adapters.stt_transcribe s.world s.stt artifact.wav_path in
      let heard = record s { stt = stt; world = w } in
      case_ok status (answer (unlink_artifact env heard artifact) artifact transcript)
        (λ e. (e, heard))

  unfoldable pub process_stt_queue : Supervisor env → Status × Supervisor env
  process_stt_queue s =
      let (artifact, queue) = artifact_queue_dequeue s.artifact_queue in
      let taken = record s { artifact_queue = queue } in
      elim artifact [ none ↦ (ok, taken) | some a ↦ transcribe_artifact taken a ]

  unfoldable pub drain_llm_response_queue : Supervisor env → Status × Supervisor env
  drain_llm_response_queue s =
      let (response, queue) = llm_response_queue_dequeue s.llm_response_queue in
      (ok, record s { llm_response_queue = queue })

  -- The parts of `run_once` that start the capture, and that read a chunk into the ring.
  unfoldable pub ensure_capture : Supervisor env → Status × Supervisor env
  ensure_capture s =
      if env.adapters.active s.capture
      then (ok, s)
      else (let (status, (capture, w)) = env.adapters.capture_start s.world s.capture s.config in
          (status, record s { capture = capture; world = w }))

  unfoldable pub read_capture : Supervisor env → Status × Supervisor env
  read_capture s =
      let (status, ((chunk, bytes_read), (capture, w))) =
        env.adapters.capture_read s.world s.capture capture_chunk_bytes in
      let got = record s { capture = capture; world = w } in
      case_ok status
        ((
          ok,
          if ltb 0 bytes_read
              then record got { capture_ring = (write s.capture_ring (some chunk) bytes_read).1 }
              else got,
        ))
        (λ e. (e, got))

  unfoldable pub run_once : Supervisor env → Status × Supervisor env
  run_once s =
      if not (is_running s.state)
      then (err_invalid_argument, s)
      else then_ok (ensure_capture s) (λ s1. then_ok (read_capture s1) (λ s2.
        then_ok (drain_capture_ring_into_vad s2)
          (λ s3. then_ok (process_stt_queue s3) drain_llm_response_queue)))
