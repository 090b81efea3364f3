-- ===== src/Supervisor.antt =====
-- The supervisor of src/assistantd/supervisor.c over the struct of
-- include/assistantd/supervisor.h: the lifecycle, one round of the run loop, and the way from
-- captured bytes to utterance files, transcripts and queued responses.
pub mod Round
pub mod Lifecycle
pub mod Keeps
pub mod Drain
pub mod Running
pub mod Finish
pub mod Ownership
pub mod Release
pub mod Custody
pub mod History
pub mod Phases
pub mod Cleanup
pub mod Starting
pub mod Turn
pub mod Sound
pub mod Order
pub mod Answers
mod Tests
pub mod Samples
use shiori.Base.{
  ℕ, zero, suc, ◌-◌, ◌*◌, ◌+◌, Bool, true, false, Option, none, some, List, [], ◌∷◌, length,
  replicate, ltb, leb, ◌==◌, ◌&&◌, ◌||◌, not, if◌then◌else◌, add_size,
}
use shiori.Base.Int.{ℤ, pos, negsuc}
use shiori.Status.{Status, ok, err_invalid_argument, err_io, then_ok, case_ok}
use shiori.Text.{bytes, copy_string}
use shiori.Config.{Config, is_empty}
use shiori.Ring.{Ring, read, write, available}
use shiori.Ring.{init as ring_buffer_init, free as ring_buffer_free}
use shiori.Queue.{
  ArtifactQueue, LlmResponseQueue, Artifact, LlmResponse, artifact_queue_init,
  artifact_queue_enqueue, artifact_queue_dequeue, llm_response_queue_init,
  llm_response_queue_enqueue, llm_response_queue_dequeue, llm_response_text_max,
}
use shiori.Vad.{Event, nothing, speech_start, speech_continue, speech_end, Detector, process_frame}
use shiori.Vad.{init as vad_init, shutdown as vad_shutdown}
use shiori.Utterance.{Utterance, append_utterance_pcm, reset_utterance}
use shiori.Artifacts.{build_artifact_path, write_wav_file, wav_path_max}
use shiori.Adapters.{Env}

-- `assistantd_supervisor_state_t`
pub data SupervisorState : Type 0 where
  state_init state_ready state_running state_stopping state_stopped : SupervisorState

-- ASSISTANTD_SUPERVISOR_CAPTURE_CHUNK_BYTES
abbrev pub capture_chunk_bytes : ℕ
capture_chunk_bytes = 640

-- ASSISTANTD_SUPERVISOR_RING_CAPACITY_BYTES
abbrev pub ring_capacity_bytes : ℕ
ring_capacity_bytes = 16000 * 2 * 2

-- ASSISTANTD_SUPERVISOR_VAD_FRAME_SAMPLES and _BYTES
abbrev pub vad_frame_samples : ℕ
vad_frame_samples = 320

abbrev pub vad_frame_bytes : ℕ
vad_frame_bytes = vad_frame_samples * 2

-- ASSISTANTD_SUPERVISOR_LLM_FALLBACK_TEXT
abbrev pub llm_fallback_text : List ℕ
llm_fallback_text = bytes "I'm having trouble right now. Please try again in a moment."

-- The bytes of a frame read as `int16_t`s, low byte first.
unfoldable pub samples : List ℕ → List ℤ
samples [] = []
samples (low ∷ []) = []
samples (low ∷ high ∷ rest) =
    (let n = low + 256 * high in if ltb n 32768 then pos n else negsuc (65535 - n)) ∷ samples rest

-- `assistantd_supervisor_t`, and beside its fields the outside world.
pub record Supervisor (env : Env) : Type 0 where
  pub state : SupervisorState
  pub config : Config
  pub capture : env.adapters.Capture
  pub capture_ring : Ring
  pub vad : Detector env.fvad.Handle
  pub stt : env.adapters.Stt
  pub llm : env.adapters.Llm
  pub tts : env.adapters.Tts
  pub utterance_metadata : Utterance
  pub artifact_queue : ArtifactQueue
  pub llm_response_queue : LlmResponseQueue
  pub next_artifact_sequence_id : ℕ
  pub world : env.outside.World

module _ (env : Env) where
  abbrev pub reset : Supervisor env → Supervisor env
  reset s = record s { utterance_metadata = reset_utterance s.utterance_metadata }

  unfoldable pub append_pcm : Supervisor env → List ℕ → ℕ → Status × Supervisor env
  append_pcm s pcm pcm_bytes =
      let (status, (u, w)) =
        append_utterance_pcm env.outside.realloc s.world s.utterance_metadata (some pcm)
          pcm_bytes in
      (status, record s { utterance_metadata = u; world = w })

  -- The body of the loop of `discard_queued_artifacts`.
  unfoldable pub unlink_artifact : Supervisor env → Artifact → Supervisor env
  unlink_artifact s artifact =
      if is_empty artifact.wav_path
      then s
      else record s { world = (env.outside.unlink s.world artifact.wav_path).1 }

  -- The loop; a round takes an artifact off the queue, so its size is enough fuel.
  unfoldable pub discard_artifacts : ℕ → Supervisor env → Supervisor env
  discard_artifacts zero s = s
  discard_artifacts (suc fuel) s =
      let (artifact, queue) = artifact_queue_dequeue s.artifact_queue in
      elim artifact [
        | none ↦ record s { artifact_queue = queue }
        | some a ↦ discard_artifacts fuel (unlink_artifact (record s { artifact_queue = queue }) a)
      ]

  abbrev pub discard_queued_artifacts : Supervisor env → Supervisor env
  discard_queued_artifacts s = discard_artifacts (suc s.artifact_queue.size) s

  unfoldable pub discard_responses : ℕ → Supervisor env → Supervisor env
  discard_responses zero s = s
  discard_responses (suc fuel) s =
      let (response, queue) = llm_response_queue_dequeue s.llm_response_queue in
      elim response [
        | none ↦ record s { llm_response_queue = queue }
        | some r ↦ discard_responses fuel (record s { llm_response_queue = queue })
      ]

  abbrev pub discard_queued_llm_responses : Supervisor env → Supervisor env
  discard_queued_llm_responses s = discard_responses (suc s.llm_response_queue.size) s

  -- A full queue drops the response, with ASSISTANTD_OK.
  unfoldable pub enqueue_llm_response :
      Supervisor env → ℕ → Option (List ℕ) → Bool → Status × Supervisor env
  enqueue_llm_response s sequence_id none used_fallback = (err_invalid_argument, s)
  enqueue_llm_response s sequence_id (some response_text) used_fallback =
      let (stored, queue) = llm_response_queue_enqueue s.llm_response_queue (
        some (record {
          sequence_id = sequence_id;
          used_fallback = used_fallback;
          response_text = copy_string llm_response_text_max response_text;
        })) in
      (ok, record s { llm_response_queue = queue })

  -- The part of `finalize_utterance` that queues what is in the file.
  unfoldable pub enqueue_artifact : Supervisor env → ℕ → ℕ → List ℕ → Status × Supervisor env
  enqueue_artifact s sequence_id pcm_bytes wav_path =
      let (stored, queue) = artifact_queue_enqueue s.artifact_queue (
        some (record {
          sequence_id = sequence_id;
          pcm_bytes = pcm_bytes;
          wav_path = copy_string wav_path_max wav_path;
        })) in
      let queued = record s { artifact_queue = queue } in
      if stored
      then (ok, reset queued)
      else (ok, reset (record queued { world = (env.outside.unlink s.world wav_path).1 }))

  -- The part of `finalize_utterance` that writes the file.
  unfoldable pub write_artifact : Supervisor env → ℕ → List ℕ → List ℕ → Status × Supervisor env
  write_artifact s sequence_id pcm wav_path =
      let pcm_bytes = s.utterance_metadata.size in
      let (status, w) = write_wav_file env.outside s.world (some wav_path) (some pcm) pcm_bytes in
      let written = record s { world = w } in
      case_ok status (enqueue_artifact written sequence_id pcm_bytes wav_path)
        (λ e. (e, reset written))

  -- The part of `finalize_utterance` for an utterance that has bytes, `pcm` those of its block.
  unfoldable pub finalize_pcm : Supervisor env → List ℕ → Status × Supervisor env
  finalize_pcm s pcm =
      let sequence_id = s.next_artifact_sequence_id in
      let numbered = record s { next_artifact_sequence_id = add_size sequence_id 1 } in
      let (status, wav_path) = build_artifact_path s.config sequence_id wav_path_max in
      case_ok status (write_artifact numbered sequence_id pcm wav_path) (λ e. (e, reset numbered))

  unfoldable pub finalize_utterance : Supervisor env → Status × Supervisor env
  finalize_utterance s = elim s.utterance_metadata.pcm [
    | none ↦ (ok, reset s)
    | some pcm ↦ if s.utterance_metadata.size == 0 then (ok, reset s) else finalize_pcm s pcm
  ]
