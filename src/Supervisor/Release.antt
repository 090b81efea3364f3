-- ===== src/Supervisor/Release.antt =====
-- What the start and the stop of supervisor.c do to a property of the capture and the world.
use shiori.Base.{zero, suc, not, if_both, option_both}
use shiori.Status.{Status}
use shiori.Status.Flow.{then_ok_keeps, case_ok_both}
use shiori.Ring.{free as ring_buffer_free}
use shiori.Queue.{llm_response_queue_dequeue}
use shiori.Adapters.{Env}
use shiori.Supervisor.{
  Supervisor, state_stopping, ring_capacity_bytes, discard_responses, discard_queued_artifacts,
}
use shiori.Supervisor.Lifecycle.{
  start_vad, start_stt, start_llm, start_tts, start_ring, empty_queues, initialize_modules, release,
  shutdown_adapters, shutdown_modules, start, stop, is_ready,
}
use shiori.Supervisor.Ownership.{KeptOutside, Holds, HoldsAfter, discard_artifacts-Holds}
use shiori.Supervisor.Custody.{KeptAdapters}

module _ (env : Env) (P : env.adapters.Capture → env.outside.World → Type 0)
    (kept : KeptOutside env P) (kept_adapters : KeptAdapters env P) where
  abbrev Kept : Supervisor env → Type 0
  Kept s = Holds env P kept s

  abbrev KeptAfter : Status × Supervisor env → Type 0
  KeptAfter t = HoldsAfter env P kept t

  discard_responses-Kept :
      (fuel : _) (s : Supervisor env) → Kept s → Kept (discard_responses env fuel s)
  unfolding discard_responses
  discard_responses-Kept zero s h = h
  discard_responses-Kept (suc fuel) s h =
      let (response, queue) = llm_response_queue_dequeue s.llm_response_queue in
      option_both Kept response _
        (λ r. discard_responses env fuel (record s { llm_response_queue = queue })) h
        (λ r. discard_responses-Kept fuel (record s { llm_response_queue = queue }) h)

  shutdown_adapters-Kept : (s : Supervisor env) → Kept s → Kept (shutdown_adapters env s)
  unfolding shutdown_adapters
  shutdown_adapters-Kept s h =
      let w1 = (env.adapters.stt_shutdown s.world s.stt).1.1 in
      let w2 = (env.adapters.llm_shutdown w1 s.llm).1.1 in
      kept_adapters.by_tts_shutdown s.capture w2 s.tts (
        kept_adapters.by_llm_shutdown s.capture w1 s.llm
          (kept_adapters.by_stt_shutdown s.capture s.world s.stt h))

  -- What the stop of the capture brings about holds after the shutdown of all modules.
  pub shutdown_modules-Kept :
      (s : Supervisor env)
      → (let (_, (c, w)) = env.adapters.capture_stop s.world s.capture in P c w)
      → Kept (shutdown_modules env s)
  unfolding release
  shutdown_modules-Kept s h =
      let (stopped, (capture, w)) = env.adapters.capture_stop s.world s.capture in
      let freed = record s {
        capture = capture;
        world = w;
        capture_ring = ring_buffer_free s.capture_ring;
      } in
      let cleared = discard_queued_artifacts env freed in
      shutdown_adapters-Kept (release env s) (
        discard_responses-Kept (suc cleared.llm_response_queue.size) cleared
          (discard_artifacts-Holds env P kept (suc freed.artifact_queue.size) freed h))

  initialize_modules-Kept : (s : Supervisor env) → Kept s → KeptAfter (initialize_modules env s)
  unfolding initialize_modules start_vad start_stt start_llm start_tts start_ring
  initialize_modules-Kept s h =
      then_ok_keeps Kept (start_vad env (empty_queues env s)) _ h (λ s1 h1.
        then_ok_keeps Kept (start_stt env s1) _
          (kept_adapters.by_stt_init s1.capture s1.world s1.stt s1.config h1)
          (λ s2 h2.
            then_ok_keeps Kept (start_llm env s2) _
              (kept_adapters.by_llm_init s2.capture s2.world s2.llm s2.config h2)
              (λ s3 h3.
                then_ok_keeps Kept (start_tts env s3) (start_ring env)
                  (kept_adapters.by_tts_init s3.capture s3.world s3.tts s3.config h3)
                  (λ s4 h4. kept.by_calloc s4.capture s4.world ring_capacity_bytes h4))))

  -- Starting keeps it, where stopping the capture does.
  pub start-Kept :
      ((c : env.adapters.Capture) (w : env.outside.World)
        → P c w
        → let (_, (c', w')) = env.adapters.capture_stop w c in P c' w')
      → (s : Supervisor env) → Kept s
      → KeptAfter (start env s)
  unfolding start
  start-Kept by_stop s h =
      let (status, s') = initialize_modules env s in
      let begun = initialize_modules-Kept s h in
      if_both KeptAfter (not (is_ready s.state)) _ _ (λ _. h)
        (λ _.
          case_ok_both KeptAfter status _ _ begun
            (λ e. shutdown_modules-Kept s' (by_stop s'.capture s'.world begun)))

  pub stop-Kept :
      (s : Supervisor env)
      → (let (_, (c, w)) = env.adapters.capture_stop s.world s.capture in P c w)
      → KeptAfter (stop env s)
  unfolding stop
  stop-Kept s h = shutdown_modules-Kept (record s { state = state_stopping }) h
