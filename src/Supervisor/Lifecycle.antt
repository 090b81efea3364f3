-- ===== src/Supervisor/Lifecycle.antt =====
-- Starting and stopping the supervisor of src/assistantd/supervisor.c.
use shiori.Base.{Bool, true, false, none, not, if◌then◌else◌}
use shiori.Base.Int.{pos}
use shiori.Status.{Status, ok, err_invalid_argument, then_ok, case_ok}
use shiori.Config.{Config}
use shiori.Ring.{init as ring_buffer_init, free as ring_buffer_free}
use shiori.Queue.{artifact_queue_init, llm_response_queue_init}
use shiori.Vad.{init as vad_init, shutdown as vad_shutdown}
use shiori.Adapters.{Env}
use shiori.Supervisor.{
  Supervisor, SupervisorState, state_ready, state_running, state_stopping, state_stopped,
  ring_capacity_bytes, reset, discard_queued_artifacts, discard_queued_llm_responses,
}

abbrev pub is_ready : SupervisorState → Bool
is_ready state_ready = true
is_ready _ = false

module _ (env : Env) where
  unfoldable pub init : Config → env.outside.World → Status × Supervisor env
  init config w = (
    ok,
    record {
      state = state_ready;
      config = config;
      capture = env.adapters.zero_capture;
      capture_ring = record {
        storage = none;
        capacity = 0;
        head = 0;
        tail = 0;
        overflow = 0;
        underflow = 0;
      };
      vad = record {
        aggressiveness = pos 0;
        silence_ms = pos 0;
        accumulated_silence_ms = pos 0;
        speech_active = false;
        backend = none;
      };
      stt = env.adapters.zero_stt;
      llm = env.adapters.zero_llm;
      tts = env.adapters.zero_tts;
      utterance_metadata = record { pcm = none; size = 0; capacity = 0 };
      artifact_queue = artifact_queue_init;
      llm_response_queue = llm_response_queue_init;
      next_artifact_sequence_id = 0;
      world = w;
    },
  )

  -- The steps of `initialize_modules`, one for each module.
  unfoldable pub start_vad : Supervisor env → Status × Supervisor env
  start_vad s = let (status, d) = vad_init env.fvad s.vad s.config in (status, record s { vad = d })

  unfoldable pub start_stt : Supervisor env → Status × Supervisor env
  start_stt s =
      let (status, (stt, w)) = env.adapters.stt_init s.world s.stt s.config in
      (status, record s { stt = stt; world = w })

  unfoldable pub start_llm : Supervisor env → Status × Supervisor env
  start_llm s =
      let (status, (llm, w)) = env.adapters.llm_init s.world s.llm s.config in
      (status, record s { llm = llm; world = w })

  unfoldable pub start_tts : Supervisor env → Status × Supervisor env
  start_tts s =
      let (status, (tts, w)) = env.adapters.tts_init s.world s.tts s.config in
      (status, record s { tts = tts; world = w })

  unfoldable pub start_ring : Supervisor env → Status × Supervisor env
  start_ring s =
      let (allocated, w) = env.outside.calloc s.world ring_capacity_bytes in
      let (status, ring) = ring_buffer_init allocated s.capture_ring ring_capacity_bytes in
      (status, record s { capture_ring = ring; world = w })

  abbrev pub empty_queues : Supervisor env → Supervisor env
  empty_queues s = record (reset env s) {
    artifact_queue = artifact_queue_init;
    llm_response_queue = llm_response_queue_init;
  }

  unfoldable pub initialize_modules : Supervisor env → Status × Supervisor env
  initialize_modules s = then_ok (start_vad (empty_queues s)) (λ s1.
      then_ok (start_stt s1)
        (λ s2. then_ok (start_llm s2) (λ s3. then_ok (start_tts s3) start_ring)))

  -- The part of `shutdown_modules` above the shutdown of the adapters.
  unfoldable pub release : Supervisor env → Supervisor env
  release s =
      let (stopped, (capture, w)) = env.adapters.capture_stop s.world s.capture in
      let freed = record s {
        capture = capture;
        world = w;
        capture_ring = ring_buffer_free s.capture_ring;
      } in
      record (discard_queued_llm_responses env (discard_queued_artifacts env freed)) {
        utterance_metadata = record { pcm = none; size = 0; capacity = 0 };
        next_artifact_sequence_id = 0;
      }

  -- The statuses of the shutdowns are ignored.
  unfoldable pub shutdown_adapters : Supervisor env → Supervisor env
  shutdown_adapters s =
      let (vad_status, d) = vad_shutdown env.fvad s.vad in
      let (stt_status, (stt, w1)) = env.adapters.stt_shutdown s.world s.stt in
      let (llm_status, (llm, w2)) = env.adapters.llm_shutdown w1 s.llm in
      let (tts_status, (tts, w3)) = env.adapters.tts_shutdown w2 s.tts in
      record s { vad = d; stt = stt; llm = llm; tts = tts; world = w3 }

  abbrev pub shutdown_modules : Supervisor env → Supervisor env
  shutdown_modules s = shutdown_adapters (release s)

  unfoldable pub start : Supervisor env → Status × Supervisor env
  start s =
      let (status, s') = initialize_modules s in
      if not (is_ready s.state)
      then (err_invalid_argument, s)
      else case_ok status ((ok, record s' { state = state_running }))
          (λ e. (e, shutdown_modules s'))

  unfoldable pub stop : Supervisor env → Status × Supervisor env
  stop s =
      let s' = shutdown_modules (record s { state = state_stopping }) in
      (ok, record s' { state = state_stopped })
