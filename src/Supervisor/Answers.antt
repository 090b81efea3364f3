-- ===== src/Supervisor/Answers.antt =====
-- What becomes of the oldest queued utterance of supervisor.c: its transcript, its answer, and the
-- fallback.
use shiori.Base.{
  ℕ, ◌≡◌, ◌≢◌, refl, ap, ◌∙◌, Bool, Bool-cases, inl, inr, if◌then◌else◌, true, false, none, some,
  List, ◌∷◌,
}
use shiori.Status.{Status, ok, case_ok}
use shiori.Text.{copy_string}
use shiori.Config.{is_empty}
use shiori.Status.Flow.{case_ok_both, case_ok-ok, case_ok-failed}
use shiori.Queue.{Artifact, LlmResponse, zero_artifact, zero_response, artifact_queue_dequeue}
use shiori.Queue.Invariant.{IsValid}
use shiori.Queue.Fifo.{contents, put, get, dequeue_refines, enqueue_refines}
use shiori.Adapters.{Env}
use shiori.Supervisor.{Supervisor, unlink_artifact, enqueue_llm_response, llm_fallback_text}
use shiori.Supervisor.Round.{answer, transcribe_artifact, process_stt_queue}

abbrev pub queued_artifacts : {env : Env} → Supervisor env → List Artifact
queued_artifacts s = contents 16 zero_artifact s.artifact_queue

abbrev pub queued_responses : {env : Env} → Supervisor env → List LlmResponse
queued_responses s = contents 16 zero_response s.llm_response_queue

-- The answer to an utterance: the response of the model, or the fallback text if it failed.
abbrev pub response_to : ℕ → Status → List ℕ → LlmResponse
response_to id llm_status text =
    case_ok llm_status
      (record { sequence_id = id; used_fallback = false; response_text = copy_string 8192 text })
      (λ e. record {
        sequence_id = id;
        used_fallback = true;
        response_text = copy_string 8192 llm_fallback_text;
      })

module _ (env : Env) where
  enqueue_llm_response-put :
      (s : Supervisor env) (id : ℕ) (text : List ℕ) (fallback : Bool)
      → IsValid 16 zero_response s.llm_response_queue
      → let (status, s') = enqueue_llm_response env s id (some text) fallback in
        (status ≡ ok)
        × (queued_responses s'
            ≡ (put 16 (queued_responses s) (record {
              sequence_id = id;
              used_fallback = fallback;
              response_text = copy_string 8192 text;
            })).1)
  unfolding enqueue_llm_response
  enqueue_llm_response-put s id text fallback v =
      (refl, ap (λ r. r.1) (enqueue_refines 16 zero_response s.llm_response_queue _ v))

  -- The queue after the answer to an utterance.
  abbrev IsAnswered : Supervisor env → ℕ → Status → List ℕ → Status × Supervisor env → Type 0
  IsAnswered s id llm_status text (status, s') =
      (status ≡ ok)
      × (queued_responses s' ≡ (put 16 (queued_responses s) (response_to id llm_status text)).1)

  case-IsAnswered :
      (s : Supervisor env) (id : ℕ) (llm_status : Status) (text : List ℕ)
      → IsValid 16 zero_response s.llm_response_queue
      → IsAnswered s id llm_status text (
          case_ok llm_status
            (enqueue_llm_response env s id (some text) false)
            (λ e. enqueue_llm_response env s id (some llm_fallback_text) true))
  case-IsAnswered s id ok text v = enqueue_llm_response-put s id text false v
  case-IsAnswered s id _ text v = enqueue_llm_response-put s id llm_fallback_text true v

  answer-IsAnswered :
      (s : Supervisor env) (a : Artifact) (transcript : List ℕ)
      → IsValid 16 zero_response s.llm_response_queue
      → let out = env.adapters.llm_generate s.world s.llm transcript in
        IsAnswered s a.sequence_id out.0 out.1.0 (answer env s a transcript)
  unfolding answer
  answer-IsAnswered s a transcript v =
      let out = env.adapters.llm_generate s.world s.llm transcript in
      case-IsAnswered (record s { llm = out.1.1.0; world = out.1.1.1 }) a.sequence_id out.0 out.1.0
        v

  answer-artifacts :
      (s : Supervisor env) (a : Artifact) (transcript : List ℕ)
      → (answer env s a transcript).1.artifact_queue ≡ s.artifact_queue
  unfolding answer enqueue_llm_response
  answer-artifacts s a transcript =
      case_ok_both (λ (t : Status × Supervisor env). t.1.artifact_queue ≡ s.artifact_queue)
        (env.adapters.llm_generate s.world s.llm transcript).0 _ _ refl (λ e. refl)

  -- The world without the artifact's file.
  abbrev pub unlinked : env.outside.World → Artifact → env.outside.World
  unlinked w a = if is_empty a.wav_path then w else (env.outside.unlink w a.wav_path).1

  pub unlink_artifact-unlinked :
      (s : Supervisor env) (a : Artifact)
      → unlink_artifact env s a ≡ record s { world = unlinked s.world a }
  unfolding unlink_artifact
  unlink_artifact-unlinked s a = elim (Bool-cases (is_empty a.wav_path)) [
    | inl e ↦ rw e refl
    | inr e ↦ rw e refl
  ]

  -- The oldest artifact is taken off the queue.
  taken_first :
      (s : Supervisor env) (a : Artifact) (rest : List Artifact)
      → IsValid 16 zero_artifact s.artifact_queue
      → queued_artifacts s ≡ a ∷ rest
      → let (out, q) = artifact_queue_dequeue s.artifact_queue in
        (out ≡ some a) × (contents 16 zero_artifact q ≡ rest)
  taken_first s a rest v e =
      let same = dequeue_refines 16 zero_artifact s.artifact_queue v ∙ ap get e in
      (ap (λ r. r.0) same, ap (λ r. r.1) same)

  process-transcribe :
      (s : Supervisor env) (a : Artifact)
      → (artifact_queue_dequeue s.artifact_queue).0 ≡ some a
      → process_stt_queue env s
        ≡ transcribe_artifact env
            (record s { artifact_queue = (artifact_queue_dequeue s.artifact_queue).1 })
            a
  unfolding process_stt_queue
  process-transcribe s a e =
      let taken = record s { artifact_queue = (artifact_queue_dequeue s.artifact_queue).1 } in
      ap (λ o. elim o [ none ↦ (ok, taken) | some b ↦ transcribe_artifact env taken b ]) e

  module _ (s : Supervisor env) (a : Artifact) (rest : List Artifact)
      (v : IsValid 16 zero_artifact s.artifact_queue)
      (vr : IsValid 16 zero_response s.llm_response_queue)
      (first : queued_artifacts s ≡ a ∷ rest) where
    abbrev taken : Supervisor env
    taken = record s { artifact_queue = (artifact_queue_dequeue s.artifact_queue).1 }

    abbrev heard : Supervisor env
    heard =
        let out = env.adapters.stt_transcribe s.world s.stt a.wav_path in
        record taken { stt = out.1.1.0; world = out.1.1.1 }

    abbrev removed : Supervisor env
    removed = record heard { world = unlinked heard.world a }

    process-answer :
        (env.adapters.stt_transcribe s.world s.stt a.wav_path).0 ≡ ok
        → process_stt_queue env s
          ≡ answer env removed a (env.adapters.stt_transcribe s.world s.stt a.wav_path).1.0
    unfolding transcribe_artifact
    process-answer done =
        let out = env.adapters.stt_transcribe s.world s.stt a.wav_path in
        process-transcribe s a (taken_first s a rest v first).0
        ∙ (case_ok-ok out.0 (answer env (unlink_artifact env heard a) a out.1.0) (λ e. (e, heard))
              done
            ∙ ap (λ u. answer env u a out.1.0) (unlink_artifact-unlinked heard a))

    process-failed :
        (env.adapters.stt_transcribe s.world s.stt a.wav_path).0 ≢ ok
        → process_stt_queue env s
          ≡ ((env.adapters.stt_transcribe s.world s.stt a.wav_path).0, heard)
    unfolding transcribe_artifact
    process-failed failed =
        let out = env.adapters.stt_transcribe s.world s.stt a.wav_path in
        process-transcribe s a (taken_first s a rest v first).0
        ∙ case_ok-failed out.0 (answer env (unlink_artifact env heard a) a out.1.0)
            (λ e. (e, heard)) failed

    -- On valid queues, with a transcript, the file is removed, the oldest artifact leaves its queue, and the response
    -- of the model, or the fallback text if the model failed, is queued under the artifact's number,
    -- unless the response queue is full; the call succeeds either way.
    pub process_stt_queue-answered :
        (env.adapters.stt_transcribe s.world s.stt a.wav_path).0 ≡ ok
        → let (_, (transcript, (stt, w))) = env.adapters.stt_transcribe s.world s.stt a.wav_path in
          let (llm_status, (text, _)) = env.adapters.llm_generate (unlinked w a) s.llm transcript in
          let (status, s') = process_stt_queue env s in
          (status ≡ ok)
          × (queued_artifacts s' ≡ rest)
          × (queued_responses s'
              ≡ (put 16 (queued_responses s) (response_to a.sequence_id llm_status text)).1)
    process_stt_queue-answered done =
        let out = env.adapters.stt_transcribe s.world s.stt a.wav_path in
        let same = process-answer done in
        let (status, queued) = answer-IsAnswered removed a out.1.0 vr in
        (
          ap (λ r. r.0) same ∙ status,
          ap (λ r. queued_artifacts r.1) same
              ∙ (ap (contents 16 zero_artifact) (answer-artifacts removed a out.1.0)
                  ∙ (taken_first s a rest v first).1),
          ap (λ r. queued_responses r.1) same ∙ queued,
        )

    -- On valid queues, without a transcript, the call fails with the status of the transcription: the oldest artifact
    -- leaves its queue, no response is queued, and its file is not removed.
    pub process_stt_queue-failed :
        (env.adapters.stt_transcribe s.world s.stt a.wav_path).0 ≢ ok
        → let (stt_status, (_, (stt, w))) = env.adapters.stt_transcribe s.world s.stt a.wav_path in
          let (status, s') = process_stt_queue env s in
          (status ≡ stt_status)
          × (queued_artifacts s' ≡ rest)
          × (s'.llm_response_queue ≡ s.llm_response_queue)
          × (s'.world ≡ w)
    process_stt_queue-failed failed =
        let same = process-failed failed in
        (
          ap (λ r. r.0) same,
          ap (λ r. queued_artifacts r.1) same ∙ (taken_first s a rest v first).1,
          ap (λ r. r.1.llm_response_queue) same,
          ap (λ r. r.1.world) same,
        )
