-- ===== src/Supervisor/Starting.antt =====
-- A successful start of supervisor.c leaves a running, sound supervisor.
use shiori.Base.{
  ℕ, ◌+◌, ◌<◌, ◌≡◌, refl, sym, ap, ◌∙◌, subst, Bool, true, false, Bool-cases, inl, inr, arith,
  size_mod, not, if◌then◌else◌,
}
use shiori.Status.{Status, ok, err_invalid_argument, case_ok}
use shiori.Status.Flow.{then_ok_success, case_ok-ok, case_ok-status}
use shiori.Ring.{Ring, init}
use shiori.Ring.Bounds.{IsValid as RingValid, init-IsValid}
use shiori.Queue.{zero_artifact, zero_response, artifact_queue_init, init as queue_init}
use shiori.Queue.Invariant.{IsValid as QueueValid, init-IsValid as queue_init-IsValid}
use shiori.Vad.Invariant.{IsValid as VadValid, init-ok_IsValid}
use shiori.Utterance.Append.{IsValid as UtteranceValid}
use shiori.Adapters.{Env}
use shiori.Supervisor.{Supervisor, SupervisorState, state_ready, state_running}
use shiori.Supervisor.Lifecycle.{
  start, start_vad, start_stt, start_llm, start_tts, start_ring, initialize_modules, empty_queues,
  is_ready, shutdown_modules,
}
use shiori.Supervisor.Order.{InOrder}
use shiori.Supervisor.Sound.{Sound, empty-Valid}

empty-InOrder : (next : ℕ) → InOrder artifact_queue_init next
unfolding queue_init
empty-InOrder next = record {
  valid = queue_init-IsValid 16 zero_artifact (omega arith) (omega arith);
  order = omega arith;
}

ring_init-IsValid :
    (allocated : Bool) (r : Ring)
    → (init allocated r 64000).0 ≡ ok
    → RingValid (init allocated r 64000).1 × ((init allocated r 64000).1.capacity ≡ 64000)
ring_init-IsValid true r e = let made = init-IsValid r 64000 (omega arith) in (made.1, made.2)
ring_init-IsValid false r e = unfold init in cc e

pub is_ready→eq : (state : SupervisorState) → is_ready state ≡ true → state ≡ state_ready
is_ready→eq state_ready h = refl
is_ready→eq _ h = cc h

module _ (env : Env) where
  -- What holds before the ring is there.
  Begun : Supervisor env → Type 0
  Begun s =
      VadValid s.vad
      × UtteranceValid s.utterance_metadata
      × InOrder s.artifact_queue s.next_artifact_sequence_id
      × QueueValid 16 zero_response s.llm_response_queue
      × (s.next_artifact_sequence_id + 100 < size_mod)

  start_vad-Begun :
      (s : Supervisor env)
      → UtteranceValid s.utterance_metadata
      → s.next_artifact_sequence_id + 100 < size_mod
      → (start_vad env (empty_queues env s)).0 ≡ ok
      → Begun (start_vad env (empty_queues env s)).1
  unfolding start_vad Begun
  start_vad-Begun s u room e = (
    (init-ok_IsValid env.fvad s.vad s.config e).0,
    empty-Valid s.utterance_metadata u,
    empty-InOrder s.next_artifact_sequence_id,
    queue_init-IsValid 16 zero_response (omega arith) (omega arith),
    room,
  )

  start_ring-Sound :
      (s : Supervisor env)
      → Begun s
      → (start_ring env s).0 ≡ ok
      → Sound env 100 (start_ring env s).1
  unfolding start_ring Begun
  start_ring-Sound s (vad, utterance, artifacts, responses, room) e =
      let made = ring_init-IsValid (env.outside.calloc s.world 64000).0 s.capture_ring e in
      record {
        ring = made.0;
        ring_capacity = made.1;
        vad = vad;
        utterance = utterance;
        artifacts = artifacts;
        room = room;
        responses = responses;
      }

  initialize_modules-Sound :
      (s : Supervisor env)
      → UtteranceValid s.utterance_metadata
      → s.next_artifact_sequence_id + 100 < size_mod
      → (initialize_modules env s).0 ≡ ok
      → Sound env 100 (initialize_modules env s).1
  unfolding initialize_modules Begun start_stt start_llm start_tts
  initialize_modules-Sound s u room =
      then_ok_success Begun (Sound env 100) (start_vad env (empty_queues env s)) _
        (start_vad-Begun s u room)
        (λ s1 b1.
          then_ok_success Begun (Sound env 100) (start_stt env s1) _ (λ _. b1)
            (λ s2 b2.
              then_ok_success Begun (Sound env 100) (start_llm env s2) _ (λ _. b2)
                (λ s3 b3.
                  then_ok_success Begun (Sound env 100) (start_tts env s3) (start_ring env)
                    (λ _. b3) start_ring-Sound)))

  -- The two ways of `start`.
  unfoldable pub started : Supervisor env → Status × Supervisor env
  started s =
      let (status, s') = initialize_modules env s in
      case_ok status (ok, record s' { state = state_running }) (λ e. (e, shutdown_modules env s'))

  pub start-unready :
      (s : Supervisor env) → is_ready s.state ≡ false → start env s ≡ (err_invalid_argument, s)
  unfolding start started
  start-unready s e = ap (λ b. if not b then (err_invalid_argument, s) else started s) e

  pub start-ready : (s : Supervisor env) → is_ready s.state ≡ true → start env s ≡ started s
  unfolding start started
  start-ready s e = ap (λ b. if not b then (err_invalid_argument, s) else started s) e

  started-Sound :
      (s : Supervisor env)
      → UtteranceValid s.utterance_metadata
      → s.next_artifact_sequence_id + 100 < size_mod
      → (started s).0 ≡ ok
      → ((started s).1.state ≡ state_running) × Sound env 100 (started s).1
  unfolding started
  started-Sound s u room e =
      let r = initialize_modules env s in
      let done : r.0 ≡ ok =
        case_ok-status r.0 (ok, record r.1 { state = state_running })
          (λ e. shutdown_modules env r.1) e in
      subst (λ (t : Status × Supervisor env). (t.1.state ≡ state_running) × Sound env 100 t.1)
        (sym (
          case_ok-ok r.0 (ok, record r.1 { state = state_running })
            (λ e. (e, shutdown_modules env r.1)) done))
        (refl, initialize_modules-Sound s u room done)

  -- A start that succeeds was made in the state READY, and leaves the supervisor running and sound:
  -- the ring of 64000 bytes, the queues and the detector are valid. The utterance was valid before,
  -- and a hundred numbers of utterances were left.
  pub start-Sound :
      (s : Supervisor env)
      → UtteranceValid s.utterance_metadata
      → s.next_artifact_sequence_id + 100 < size_mod
      → (start env s).0 ≡ ok
      → let s' = (start env s).1 in
        (s.state ≡ state_ready) × (s'.state ≡ state_running) × Sound env 100 s'
  start-Sound s u room e = elim (Bool-cases (is_ready s.state)) [
    | inl ready ↦
        let same = start-ready s ready in
        let out = started-Sound s u room (ap (λ t. t.0) (sym same) ∙ e) in
        subst
          (λ (t : Status × Supervisor env).
            (s.state ≡ state_ready) × (t.1.state ≡ state_running) × Sound env 100 t.1)
          (sym same) (is_ready→eq s.state ready, out.0, out.1)
    | inr unready ↦ cc (e, ap (λ t. t.0) (start-unready s unready))
  ]
