-- ===== src/Supervisor/Sound.antt =====
-- The invariant of `assistantd_supervisor_t` while it runs, and the steps that assemble utterances.
use shiori.Base.{
  ℕ, suc, ◌+◌, ◌≤◌, ◌<◌, ◌≡◌, sym, Option, some, List, arith, length, take, ◌==◌, add_size,
  size_mod, bytes_of, if_both, option_both, if◌then◌else◌, subst,
}
use shiori.Status.{Status, ok}
use shiori.Status.Flow.{case_ok_both}
use shiori.Ring.{Ring}
use shiori.Ring.Bounds.{IsValid as RingValid}
use shiori.Queue.{Artifact, ArtifactQueue, LlmResponseQueue, zero_response, artifact_queue_enqueue}
use shiori.Queue.Invariant.{IsValid as QueueValid}
use shiori.Vad.{Detector}
use shiori.Vad.Invariant.{IsValid as VadValid}
use shiori.Utterance.{Utterance}
use shiori.Utterance.Append.{IsValid as UtteranceValid}
use shiori.Text.{copy_string}
use shiori.Artifacts.{build_artifact_path, write_wav_file, wav_path_max}
use shiori.Adapters.{Env}
use shiori.Supervisor.{
  Supervisor, reset, enqueue_artifact, write_artifact, finalize_pcm, finalize_utterance,
}
use shiori.Supervisor.Order.{InOrder, InOrder-raise, enqueue-InOrder}

-- What `realloc` documents.
pub record IsRealloc {W : Type 0} (realloc : W → Option (List ℕ) → ℕ → Option (List ℕ) × W)
    : Type 0 where
  pub sized :
      (w : W) (p : Option (List ℕ)) (n : ℕ) (block : List ℕ)
      → (realloc w p n).0 ≡ some block
      → length block ≡ n
  pub kept :
      (w : W) (p : Option (List ℕ)) (n : ℕ) (block : List ℕ)
      → (realloc w p n).0 ≡ some block
      → length (bytes_of p) ≤ n
      → take (length (bytes_of p)) block ≡ bytes_of p

-- The parts of a supervisor are valid, and the queued utterances are numbered in order below the
-- next number, which has room for `k` more.
pub record SoundParts {H : Type 0} (k : ℕ) (r : Ring) (d : Detector H) (u : Utterance)
    (artifact_queue : ArtifactQueue) (next : ℕ) (llm_response_queue : LlmResponseQueue)
    : Type 0 where
  pub ring : RingValid r
  pub ring_capacity : r.capacity ≡ 64000
  pub vad : VadValid d
  pub utterance : UtteranceValid u
  pub artifacts : InOrder artifact_queue next
  pub room : next + k < size_mod
  pub responses : QueueValid 16 zero_response llm_response_queue

pub empty-Valid : (u : Utterance) → UtteranceValid u → UtteranceValid (record u { size = 0 })
empty-Valid u v = record { sized = v.sized; stored = v.stored; fits = omega arith; small = v.small }

module _ (env : Env) where
  abbrev pub Sound : ℕ → Supervisor env → Type 0
  Sound k s =
      SoundParts k s.capture_ring s.vad s.utterance_metadata s.artifact_queue
        s.next_artifact_sequence_id s.llm_response_queue

  abbrev pub SoundAfter : ℕ → Status × Supervisor env → Type 0
  SoundAfter k t = Sound k t.1

  pub Sound-reset : (k : ℕ) (s : Supervisor env) → Sound k s → Sound k (reset env s)
  Sound-reset k s v = record {
    ring = v.ring;
    ring_capacity = v.ring_capacity;
    vad = v.vad;
    utterance = empty-Valid s.utterance_metadata v.utterance;
    artifacts = v.artifacts;
    room = v.room;
    responses = v.responses;
  }

  -- The number of the utterance has been given out when its file is queued, so that the queue is in
  -- order below it.
  enqueue_artifact-Sound :
      (k : ℕ) (s : Supervisor env) (id n : ℕ) (path : List ℕ)
      → Sound k s
      → s.next_artifact_sequence_id ≡ id + 1
      → InOrder s.artifact_queue id
      → SoundAfter k (enqueue_artifact env s id n path)
  unfolding enqueue_artifact
  enqueue_artifact-Sound k s id n path v next o =
      let a : Artifact = record {
        sequence_id = id;
        pcm_bytes = n;
        wav_path = copy_string wav_path_max path;
      } in
      let (stored, queue) = artifact_queue_enqueue s.artifact_queue (some a) in
      let queued = record s { artifact_queue = queue } in
      let done : Sound k (reset env queued) = record {
        ring = v.ring;
        ring_capacity = v.ring_capacity;
        vad = v.vad;
        utterance = empty-Valid s.utterance_metadata v.utterance;
        artifacts = subst (InOrder queue) (sym next) (enqueue-InOrder s.artifact_queue a o);
        room = v.room;
        responses = v.responses;
      } in
      if_both (SoundAfter k) stored (ok, reset env queued)
        (ok, reset env (record queued { world = (env.outside.unlink s.world path).1 })) (λ _. done)
        (λ _. done)

  write_artifact-Sound :
      (k : ℕ) (s : Supervisor env) (id : ℕ) (pcm path : List ℕ)
      → Sound k s
      → s.next_artifact_sequence_id ≡ id + 1
      → InOrder s.artifact_queue id
      → SoundAfter k (write_artifact env s id pcm path)
  unfolding write_artifact
  write_artifact-Sound k s id pcm path v next o =
      let r = write_wav_file env.outside s.world (some path) (some pcm) s.utterance_metadata.size in
      let written = record s { world = r.1 } in
      case_ok_both (SoundAfter k) r.0
        (enqueue_artifact env written id s.utterance_metadata.size path)
        (λ e. (e, reset env written))
        (enqueue_artifact-Sound k written id s.utterance_metadata.size path v next o)
        (λ e. Sound-reset k s v)

  finalize_pcm-Sound :
      (k : ℕ) (s : Supervisor env) (pcm : List ℕ)
      → Sound (suc k) s
      → SoundAfter k (finalize_pcm env s pcm)
  unfolding finalize_pcm
  finalize_pcm-Sound k s pcm v =
      let id = s.next_artifact_sequence_id in
      let r = build_artifact_path s.config id wav_path_max in
      let numbered = record s { next_artifact_sequence_id = add_size id 1 } in
      let next : add_size id 1 ≡ id + 1 = omega (arith, v.room) in
      let ready : Sound k numbered = record {
        ring = v.ring;
        ring_capacity = v.ring_capacity;
        vad = v.vad;
        utterance = v.utterance;
        artifacts =
            InOrder-raise s.artifact_queue id (add_size id 1) (omega (arith, next)) v.artifacts;
        room = omega (arith, next, v.room);
        responses = v.responses;
      } in
      case_ok_both (SoundAfter k) r.0 (write_artifact env numbered id pcm r.1)
        (λ e. (e, reset env numbered))
        (write_artifact-Sound k numbered id pcm r.1 ready next v.artifacts)
        (λ e. Sound-reset k numbered ready)

  pub Sound-fewer : (k : ℕ) (s : Supervisor env) → Sound (suc k) s → Sound k s
  Sound-fewer k s v = record {
    ring = v.ring;
    ring_capacity = v.ring_capacity;
    vad = v.vad;
    utterance = v.utterance;
    artifacts = v.artifacts;
    room = omega (arith, v.room);
    responses = v.responses;
  }

  -- Ending an utterance, whatever fails, keeps the supervisor sound; it takes one number at most.
  pub finalize_utterance-Sound :
      (k : ℕ) (s : Supervisor env) → Sound (suc k) s → SoundAfter k (finalize_utterance env s)
  unfolding finalize_utterance
  finalize_utterance-Sound k s v =
      let none_left : Sound k (reset env s) = Sound-reset k s (Sound-fewer k s v) in
      option_both (SoundAfter k) s.utterance_metadata.pcm (ok, reset env s)
        (λ pcm.
          if s.utterance_metadata.size == 0 then (ok, reset env s) else finalize_pcm env s pcm)
        none_left
        (λ pcm.
          if_both (SoundAfter k) (s.utterance_metadata.size == 0) (ok, reset env s)
            (finalize_pcm env s pcm) (λ _. none_left) (λ _. finalize_pcm-Sound k s pcm v))
