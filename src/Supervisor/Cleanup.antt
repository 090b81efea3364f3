-- ===== src/Supervisor/Cleanup.antt =====
-- Stopping the supervisor of supervisor.c: the files of queued utterances are removed, and nothing
-- is held afterwards.
use shiori.Base.{
  ℕ, zero, suc, ◌<◌, ◌≡◌, refl, sym, ap, ap₂, ◌∙◌, subst, Option, none, some, List, [], ◌∷◌, arith,
  length,
}
use shiori.Status.{ok}
use shiori.Ring.{Ring, free as ring_buffer_free}
use shiori.Vad.{shutdown as vad_shutdown}
use shiori.Queue.{
  Artifact, LlmResponse, zero_artifact, zero_response, artifact_queue_dequeue,
  llm_response_queue_dequeue,
}
use shiori.Queue.Invariant.{IsValid, dequeue-IsValid}
use shiori.Queue.Fifo.{get, dequeue_refines, length-contents}
use shiori.Adapters.{Env}
use shiori.Supervisor.{
  Supervisor, SupervisorState, state_stopping, state_stopped, unlink_artifact, discard_artifacts,
  discard_responses, discard_queued_artifacts,
}
use shiori.Supervisor.Answers.{
  unlinked, unlink_artifact-unlinked, queued_artifacts, queued_responses,
}
use shiori.Supervisor.Lifecycle.{release, shutdown_adapters, stop}

module _ (env : Env) where
  -- The world without the files of the artifacts.
  abbrev pub unlink_all : env.outside.World → List Artifact → env.outside.World
  unlink_all w [] = w
  unlink_all w (a ∷ rest) = unlink_all (unlinked env w a) rest

  -- What no discarding touches.
  abbrev pub beside :
      Supervisor env
      → Ring × env.adapters.Stt × env.adapters.Llm × env.adapters.Tts × SupervisorState
  beside s = (s.capture_ring, s.stt, s.llm, s.tts, s.state)

  -- What the supervisor is after its queued artifacts are gone.
  Discarded : Supervisor env → Supervisor env → List Artifact → Type 0
  Discarded s s' xs =
      (queued_artifacts s' ≡ [])
      × (s'.world ≡ unlink_all s.world xs)
      × (s'.llm_response_queue ≡ s.llm_response_queue)
      × (beside s' ≡ beside s)

  -- A round of the loop, by what the queue gave.
  abbrev next_round : ℕ → Supervisor env → Option Artifact → Supervisor env
  next_round fuel s artifact =
      let taken = record s { artifact_queue = (artifact_queue_dequeue s.artifact_queue).1 } in
      elim artifact [
        | none ↦ taken
        | some a ↦ discard_artifacts env fuel (unlink_artifact env taken a)
      ]

  discard_artifacts_lem :
      (fuel : ℕ) (s : Supervisor env) (xs : List Artifact)
      → IsValid 16 zero_artifact s.artifact_queue
      → queued_artifacts s ≡ xs
      → length xs < fuel
      → Discarded s (discard_artifacts env fuel s) xs
  unfolding discard_artifacts Discarded
  discard_artifacts_lem zero s xs v e h = absurd (omega arith)
  discard_artifacts_lem (suc fuel) s [] v e h =
      let out = dequeue_refines 16 zero_artifact s.artifact_queue v ∙ ap get e in
      let queue = (artifact_queue_dequeue s.artifact_queue).1 in
      subst (λ o. Discarded s (next_round fuel s o) []) (sym (ap (λ r. r.0) out))
        (ap (λ r. r.1) out, refl, refl, refl)
  discard_artifacts_lem (suc fuel) s (a ∷ rest) v e h =
      let out = dequeue_refines 16 zero_artifact s.artifact_queue v ∙ ap get e in
      let queue = (artifact_queue_dequeue s.artifact_queue).1 in
      let taken = record s { artifact_queue = queue } in
      subst (λ o. Discarded s (next_round fuel s o) (a ∷ rest)) (sym (ap (λ r. r.0) out))
        (subst (λ u. Discarded s (discard_artifacts env fuel u) (a ∷ rest))
          (sym (unlink_artifact-unlinked env taken a))
          (discard_artifacts_lem fuel (record taken { world = unlinked env s.world a }) rest
            (dequeue-IsValid 16 zero_artifact s.artifact_queue v) (ap (λ r. r.1) out)
            (omega arith)))

  abbrev next_response : ℕ → Supervisor env → Option LlmResponse → Supervisor env
  next_response fuel s response =
      let taken = record s {
        llm_response_queue = (llm_response_queue_dequeue s.llm_response_queue).1;
      } in
      elim response [ none ↦ taken | some r ↦ discard_responses env fuel taken ]

  -- What the supervisor is after its queued responses are gone.
  Silent : Supervisor env → Supervisor env → Type 0
  Silent s s' =
      (queued_responses s' ≡ [])
      × (queued_artifacts s' ≡ queued_artifacts s)
      × (s'.world ≡ s.world)
      × (beside s' ≡ beside s)

  discard_responses_lem :
      (fuel : ℕ) (s : Supervisor env) (xs : List LlmResponse)
      → IsValid 16 zero_response s.llm_response_queue
      → queued_responses s ≡ xs
      → length xs < fuel
      → Silent s (discard_responses env fuel s)
  unfolding discard_responses Silent
  discard_responses_lem zero s xs v e h = absurd (omega arith)
  discard_responses_lem (suc fuel) s [] v e h =
      let out = dequeue_refines 16 zero_response s.llm_response_queue v ∙ ap get e in
      subst (λ o. Silent s (next_response fuel s o)) (sym (ap (λ r. r.0) out))
        (ap (λ r. r.1) out, refl, refl, refl)
  discard_responses_lem (suc fuel) s (a ∷ rest) v e h =
      let out = dequeue_refines 16 zero_response s.llm_response_queue v ∙ ap get e in
      subst (λ o. Silent s (next_response fuel s o)) (sym (ap (λ r. r.0) out))
        (discard_responses_lem fuel
          (record s { llm_response_queue = (llm_response_queue_dequeue s.llm_response_queue).1 })
          rest (dequeue-IsValid 16 zero_response s.llm_response_queue v) (ap (λ r. r.1) out)
          (omega arith))

  -- Discarding the queued artifacts empties their queue and removes exactly their files, oldest
  -- first; the responses, the ring and the adapters are left alone.
  pub discard_queued_artifacts_lem :
      (s : Supervisor env)
      → IsValid 16 zero_artifact s.artifact_queue
      → let s' = discard_queued_artifacts env s in
        (queued_artifacts s' ≡ [])
        × (s'.world ≡ unlink_all s.world (queued_artifacts s))
        × (s'.llm_response_queue ≡ s.llm_response_queue)
        × (beside s' ≡ beside s)
  unfolding Discarded
  discard_queued_artifacts_lem s v =
      discard_artifacts_lem (suc s.artifact_queue.size) s (queued_artifacts s) v refl
        (omega (arith, length-contents 16 zero_artifact s.artifact_queue))

  -- `release` empties both queues, and what it does outside is to stop the capture and to remove the
  -- files of the queued artifacts.
  pub release_lem :
      (s : Supervisor env)
      → IsValid 16 zero_artifact s.artifact_queue
      → IsValid 16 zero_response s.llm_response_queue
      → let s' = release env s in
        (queued_artifacts s' ≡ [])
        × (queued_responses s' ≡ [])
        × (s'.world
            ≡ unlink_all (env.adapters.capture_stop s.world s.capture).1.1 (queued_artifacts s))
        × (beside s' ≡ (ring_buffer_free s.capture_ring, s.stt, s.llm, s.tts, s.state))
  unfolding release Silent Discarded ring_buffer_free
  release_lem s va vr =
      let out = env.adapters.capture_stop s.world s.capture in
      let freed = record s {
        capture = out.1.0;
        world = out.1.1;
        capture_ring = ring_buffer_free s.capture_ring;
      } in
      let cleared = discard_queued_artifacts env freed in
      let d = discard_queued_artifacts_lem freed va in
      let r =
        discard_responses_lem (suc cleared.llm_response_queue.size) cleared
          (queued_responses cleared) (subst (IsValid 16 zero_response) (sym d.2) vr) refl
          (omega (arith, length-contents 16 zero_response cleared.llm_response_queue)) in
      (r.1 ∙ d.0, r.0, r.2 ∙ d.1, r.3 ∙ d.3)

  abbrev all_shut :
      env.outside.World → env.adapters.Stt → env.adapters.Llm → env.adapters.Tts → env.outside.World
  all_shut w stt llm tts =
      let w1 = (env.adapters.stt_shutdown w stt).1.1 in
      let w2 = (env.adapters.llm_shutdown w1 llm).1.1 in (env.adapters.tts_shutdown w2 tts).1.1

  -- A stop succeeds in every state and ends in STOPPED: the ring and the utterance are freed, both
  -- queues are empty, the detector has no backend, and the next utterance is number 0 again. What it
  -- does outside is to stop the capture, remove the files of the queued artifacts, and shut down the
  -- adapters, in that order.
  pub stop_lem :
      (s : Supervisor env)
      → IsValid 16 zero_artifact s.artifact_queue
      → IsValid 16 zero_response s.llm_response_queue
      → let (status, s') = stop env s in
        let w0 =
          unlink_all (env.adapters.capture_stop s.world s.capture).1.1 (queued_artifacts s) in
        let w1 = (env.adapters.stt_shutdown w0 s.stt).1.1 in
        let w2 = (env.adapters.llm_shutdown w1 s.llm).1.1 in
        (status ≡ ok)
        × (s'.state ≡ state_stopped)
        × (queued_artifacts s' ≡ [])
        × (queued_responses s' ≡ [])
        × (s'.capture_ring.storage ≡ none)
        × (s'.utterance_metadata.pcm ≡ none)
        × (s'.next_artifact_sequence_id ≡ 0)
        × (s'.vad.backend ≡ none)
        × (s'.world ≡ (env.adapters.tts_shutdown w2 s.tts).1.1)
  unfolding stop shutdown_adapters release vad_shutdown ring_buffer_free
  stop_lem s va vr =
      let r = release_lem (record s { state = state_stopping }) va vr in
      (
        refl,
        refl,
        r.0,
        r.1,
        ap (λ b. b.0.storage) r.3,
        refl,
        refl,
        refl,
        ap₂ (λ w b. all_shut w b.1 b.2 b.3) r.2 r.3,
      )
