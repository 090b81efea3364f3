-- ===== src/Supervisor/Custody.antt =====
-- A property of the capture and the world that every call outside keeps is kept by the rounds and by
-- the lifecycle of supervisor.c.
use shiori.Base.{
  ℕ, zero, suc, ◌==◌, ◌/◌, ltb, leb, not, none, some, List, replicate, if_both, option_both,
}
use shiori.Base.Int.{pos}
use shiori.Status.{Status}
use shiori.Status.Flow.{then_ok_keeps, case_ok_both}
use shiori.Config.{Config}
use shiori.Ring.{read, available, write}
use shiori.Queue.{artifact_queue_dequeue}
use shiori.Vad.{nothing, process_frame}
use shiori.Adapters.{Env}
use shiori.Supervisor.{Supervisor, samples, vad_frame_bytes, enqueue_llm_response, unlink_artifact}
use shiori.Supervisor.Round.{
  detect, drain_frame, drain, answer, transcribe_artifact, process_stt_queue,
  drain_llm_response_queue, ensure_capture, read_capture, run_once, is_running,
  drain_capture_ring_into_vad,
}
use shiori.Supervisor.Ownership.{
  KeptOutside, Holds, HoldsAfter, follow_event-Holds, unlink_artifact-Holds,
}

module _ (env : Env) where
  open env.adapters use {
    Capture, Stt, Llm, Tts, stt_init, stt_transcribe, stt_shutdown, llm_init, llm_generate,
    llm_shutdown, tts_init, tts_shutdown,
  }

  -- The property is kept by each call of an adapter that is not one of the capture.
  pub record KeptAdapters (P : Capture → env.outside.World → Type 0) : Type 0 where
    pub by_stt_init :
        (c : _) (w : _) (a : Stt) (config : Config) → P c w → P c (stt_init w a config).1.1
    pub by_stt_transcribe :
        (c : _) (w : _) (a : Stt) (path : List ℕ) → P c w → P c (stt_transcribe w a path).1.1.1
    pub by_stt_shutdown : (c : _) (w : _) (a : Stt) → P c w → P c (stt_shutdown w a).1.1
    pub by_llm_init :
        (c : _) (w : _) (a : Llm) (config : Config) → P c w → P c (llm_init w a config).1.1
    pub by_llm_generate :
        (c : _) (w : _) (a : Llm) (prompt : List ℕ) → P c w → P c (llm_generate w a prompt).1.1.1
    pub by_llm_shutdown : (c : _) (w : _) (a : Llm) → P c w → P c (llm_shutdown w a).1.1
    pub by_tts_init :
        (c : _) (w : _) (a : Tts) (config : Config) → P c w → P c (tts_init w a config).1.1
    pub by_tts_shutdown : (c : _) (w : _) (a : Tts) → P c w → P c (tts_shutdown w a).1.1

  module _ (P : Capture → env.outside.World → Type 0) (kept : KeptOutside env P)
      (kept_adapters : KeptAdapters P) where
    abbrev Kept : Supervisor env → Type 0
    Kept s = Holds env P kept s

    abbrev KeptAfter : Status × Supervisor env → Type 0
    KeptAfter t = HoldsAfter env P kept t

    drain_frame-Kept : (s : Supervisor env) → Kept s → KeptAfter (drain_frame env s)
    unfolding drain_frame detect
    drain_frame-Kept s h =
        let reading = read s.capture_ring (some (replicate vad_frame_bytes 0)) vad_frame_bytes in
        let f = process_frame env.fvad s.vad (some (samples reading.output)) 320 (pos 20) in
        let heard = record s { capture_ring = reading.buffer; vad = f.detector } in
        if_both KeptAfter (not (reading.count == vad_frame_bytes)) _ _ (λ _. h)
          (λ _.
            case_ok_both KeptAfter f.status _ _
              (follow_event-Holds env P kept heard (elim f.event [ none ↦ nothing | some e ↦ e ])
                s.vad.speech_active reading.output h)
              (λ e. h))

    drain-Kept : (fuel : ℕ) (s : Supervisor env) → Kept s → KeptAfter (drain env fuel s)
    unfolding drain
    drain-Kept zero s h = h
    drain-Kept (suc fuel) s h =
        if_both KeptAfter (leb vad_frame_bytes (available s.capture_ring)) _ _
          (λ _.
            then_ok_keeps Kept (drain_frame env s) (drain env fuel) (drain_frame-Kept s h)
              (drain-Kept fuel))
          (λ _. h)

    process_stt_queue-Kept : (s : Supervisor env) → Kept s → KeptAfter (process_stt_queue env s)
    unfolding process_stt_queue transcribe_artifact answer enqueue_llm_response
    process_stt_queue-Kept s h =
        let (artifact, queue) = artifact_queue_dequeue s.artifact_queue in
        let taken = record s { artifact_queue = queue } in
        option_both KeptAfter artifact _ _ h (λ a.
          let (status, (transcript, (stt, w))) = stt_transcribe s.world s.stt a.wav_path in
          let heard = record taken { stt = stt; world = w } in
          let h1 = kept_adapters.by_stt_transcribe s.capture s.world s.stt a.wav_path h in
          let cleaned = unlink_artifact env heard a in
          let h2 = unlink_artifact-Holds env P kept heard a h1 in
          let (llm_status, _) = llm_generate cleaned.world cleaned.llm transcript in
          let h3 =
            kept_adapters.by_llm_generate cleaned.capture cleaned.world cleaned.llm transcript h2 in
          case_ok_both KeptAfter status _ _ (case_ok_both KeptAfter llm_status _ _ h3 (λ e. h3))
            (λ e. h1))

    -- With the calls of the capture that a round makes.
    module _
        (by_start : (c : Capture) (w : env.outside.World) (config : Config)
          → P c w
          → let (_, (c', w')) = env.adapters.capture_start w c config in P c' w')
        (by_read : (c : Capture) (w : env.outside.World)
          → P c w
          → let (_, (_, (c', w'))) = env.adapters.capture_read w c 640 in P c' w') where
      read_capture-Kept : (s : Supervisor env) → Kept s → KeptAfter (read_capture env s)
      unfolding read_capture
      read_capture-Kept s h =
          let (status, ((chunk, bytes_read), (capture, w))) =
            env.adapters.capture_read s.world s.capture 640 in
          let got = by_read s.capture s.world h in
          case_ok_both KeptAfter status _ _
            (if_both Kept (ltb 0 bytes_read)
              (record s {
                capture = capture;
                world = w;
                capture_ring = (write s.capture_ring (some chunk) bytes_read).1;
              })
              (record s { capture = capture; world = w }) (λ _. got) (λ _. got))
            (λ e. got)

      pub run_once-Kept : (s : Supervisor env) → Kept s → KeptAfter (run_once env s)
      unfolding run_once ensure_capture drain_llm_response_queue
      run_once-Kept s h =
          if_both KeptAfter (not (is_running s.state)) _ _ (λ _. h)
            (λ _.
              then_ok_keeps Kept (ensure_capture env s) _
                (if_both KeptAfter (env.adapters.active s.capture) _ _ (λ _. h)
                  (λ _. by_start s.capture s.world s.config h))
                (λ s1 h1.
                  then_ok_keeps Kept (read_capture env s1) _ (read_capture-Kept s1 h1) (λ s2 h2.
                    then_ok_keeps Kept (drain_capture_ring_into_vad env s2) _
                      (drain-Kept (available s2.capture_ring / vad_frame_bytes) s2 h2)
                      (λ s3 h3.
                        then_ok_keeps Kept (process_stt_queue env s3) _
                          (process_stt_queue-Kept s3 h3) (λ s4 h4. h4)))))
