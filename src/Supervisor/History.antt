-- ===== src/Supervisor/History.antt =====
-- The states that a sequence of calls of supervisor.c goes through.
use shiori.Base.{
  ℕ, zero, suc, ◌≤◌, ◌≡◌, refl, sym, ap, subst, Bool-cases, inl, inr, List, [], ◌∷◌, arith, if_both,
  option_both,
}
use shiori.Status.{Status, ok}
use shiori.Status.Flow.{then_ok_keeps, case_ok_both}
use shiori.Config.{is_empty}
use shiori.Ring.{free as ring_buffer_free}
use shiori.Queue.{artifact_queue_dequeue, llm_response_queue_dequeue}
use shiori.Adapters.{Env}
use shiori.Supervisor.{
  Supervisor, SupervisorState, state_init, state_ready, state_running, state_stopping,
  state_stopped, unlink_artifact, discard_artifacts, discard_responses, discard_queued_artifacts,
}
use shiori.Supervisor.Round.{run_once}
use shiori.Supervisor.Lifecycle.{
  start, stop, start_vad, start_stt, start_llm, start_tts, start_ring, initialize_modules,
  empty_queues, release, shutdown_adapters, shutdown_modules, is_ready,
}
use shiori.Supervisor.Starting.{start-ready, start-unready, started, is_ready→eq}
use shiori.Supervisor.Phases.{Stays, StaysAfter, run_once-Stays}

-- The values of the enumerators.
unfoldable pub state_code : SupervisorState → ℕ
state_code state_init = 0
state_code state_ready = 1
state_code state_running = 2
state_code state_stopping = 3
state_code state_stopped = 4

pub data Call : Type 0 where
  call_start call_run_once call_stop : Call

module _ (env : Env) where
  abbrev pub step : Call → Supervisor env → Status × Supervisor env
  step call_start s = start env s
  step call_run_once s = run_once env s
  step call_stop s = stop env s

  -- The supervisor after the calls, whatever each returned.
  unfoldable pub run_calls : List Call → Supervisor env → Supervisor env
  run_calls [] s = s
  run_calls (c ∷ calls) s = run_calls calls (step c s).1

  module _ (state : SupervisorState) where
    discard_artifacts-Stays :
        (f : ℕ) (s : Supervisor env)
        → Stays env state s
        → Stays env state (discard_artifacts env f s)
    unfolding discard_artifacts unlink_artifact
    discard_artifacts-Stays zero s h = h
    discard_artifacts-Stays (suc f) s h =
        let (artifact, queue) = artifact_queue_dequeue s.artifact_queue in
        let taken = record s { artifact_queue = queue } in
        option_both (Stays env state) artifact taken
          (λ a. discard_artifacts env f (unlink_artifact env taken a)) h
          (λ a. discard_artifacts-Stays f (unlink_artifact env taken a) (
            if_both (Stays env state) (is_empty a.wav_path) taken
              (record taken { world = (env.outside.unlink taken.world a.wav_path).1 }) (λ _. h)
              (λ _. h)))

    discard_responses-Stays :
        (f : ℕ) (s : Supervisor env)
        → Stays env state s
        → Stays env state (discard_responses env f s)
    unfolding discard_responses
    discard_responses-Stays zero s h = h
    discard_responses-Stays (suc f) s h =
        let (response, queue) = llm_response_queue_dequeue s.llm_response_queue in
        let taken = record s { llm_response_queue = queue } in
        option_both (Stays env state) response taken (λ r. discard_responses env f taken) h
          (λ r. discard_responses-Stays f taken h)

    shutdown_modules-Stays :
        (s : Supervisor env) → Stays env state s → Stays env state (shutdown_modules env s)
    unfolding shutdown_adapters release
    shutdown_modules-Stays s h =
        let out = env.adapters.capture_stop s.world s.capture in
        let freed = record s {
          capture = out.1.0;
          world = out.1.1;
          capture_ring = ring_buffer_free s.capture_ring;
        } in
        discard_responses-Stays _ (discard_queued_artifacts env freed)
          (discard_artifacts-Stays _ freed h)

    initialize_modules-Stays :
        (s : Supervisor env) → Stays env state s → StaysAfter env state (initialize_modules env s)
    unfolding initialize_modules start_vad start_stt start_llm start_tts start_ring
    initialize_modules-Stays s h =
        then_ok_keeps (Stays env state) (start_vad env (empty_queues env s)) _ h (λ s1 h1.
          then_ok_keeps (Stays env state) (start_stt env s1) _ h1 (λ s2 h2.
            then_ok_keeps (Stays env state) (start_llm env s2) _ h2 (λ s3 h3.
              then_ok_keeps (Stays env state) (start_tts env s3) (start_ring env) h3
                (λ s4 h4. h4))))

  state_code_max : (state : SupervisorState) → state_code state ≤ 4
  unfolding state_code
  state_code_max state_init = omega arith
  state_code_max state_ready = omega arith
  state_code_max state_running = omega arith
  state_code_max state_stopping = omega arith
  state_code_max state_stopped = omega arith

  -- Whether a start that begins in READY succeeds or not.
  started-forward :
      (s : Supervisor env)
      → s.state ≡ state_ready
      → state_code s.state ≤ state_code (started env s).1.state
  unfolding started state_code
  started-forward s e =
      let r = initialize_modules env s in
      let running = record r.1 { state = state_running } in
      subst (λ state. state_code state ≤ state_code (started env s).1.state) (sym e)
        (case_ok_both (λ (t : Status × Supervisor env). 1 ≤ state_code t.1.state) r.0 (ok, running)
          (λ e. (e, shutdown_modules env r.1)) (omega arith)
          (λ _. omega (
            arith,
            ap state_code
                (shutdown_modules-Stays state_ready r.1 (initialize_modules-Stays state_ready s e)),
          )))

  step-forward :
      (c : Call) (s : Supervisor env) → state_code s.state ≤ state_code (step c s).1.state
  step-forward call_start s = elim (Bool-cases (is_ready s.state)) [
    | inl ready ↦
        subst (λ (t : Status × Supervisor env). state_code s.state ≤ state_code t.1.state)
          (sym (start-ready env s ready)) (started-forward s (is_ready→eq s.state ready))
    | inr unready ↦ omega (arith, ap (λ t. state_code t.1.state) (start-unready env s unready))
  ]
  step-forward call_run_once s = omega (arith, ap state_code (run_once-Stays env s.state s refl))
  step-forward call_stop s = unfold stop state_code in state_code_max s.state

  -- No sequence of calls of start, run_once and stop, whether they succeed or fail, takes the
  -- supervisor back: the enumerator of its state never decreases.
  pub run_calls-forward :
      (calls : List Call) (s : Supervisor env)
      → state_code s.state ≤ state_code (run_calls calls s).state
  unfolding run_calls
  run_calls-forward [] s = omega arith
  run_calls-forward (c ∷ calls) s =
      omega (arith, step-forward c s, run_calls-forward calls (step c s).1)
