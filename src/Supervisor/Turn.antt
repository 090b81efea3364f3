-- ===== src/Supervisor/Turn.antt =====
-- A whole round of supervisor.c, `run_once`, keeps the supervisor sound, whatever fails in it.
use shiori.Base.{
  ℕ, ◌+◌, ◌/◌, ◌≤◌, ◌<◌, ◌∙◌, Bool, true, false, some, List, arith, length, ltb, not, size_mod,
  if_both, option_both, if◌then◌else◌,
}
use shiori.Status.{Status, ok, err_invalid_argument, then_ok}
use shiori.Status.Flow.{then_ok_keeps, then_ok_leads, case_ok_both}
use shiori.Config.{is_empty}
use shiori.Ring.{write, available}
use shiori.Ring.Bounds.{space-add-available}
use shiori.Ring.Write.{write_lem}
use shiori.Queue.{Artifact, zero_response, artifact_queue_dequeue}
use shiori.Queue.Invariant.{enqueue-IsValid, dequeue-IsValid}
use shiori.Adapters.{Env}
use shiori.Supervisor.{Supervisor, unlink_artifact, enqueue_llm_response, llm_fallback_text}
use shiori.Supervisor.Round.{
  is_running, answer, drain_capture_ring_into_vad, transcribe_artifact, process_stt_queue,
  drain_llm_response_queue, ensure_capture, read_capture, run_once,
}
use shiori.Supervisor.Order.{dequeue-InOrder}
use shiori.Supervisor.Sound.{IsRealloc, Sound, SoundAfter}
use shiori.Supervisor.Running.{drain-Sound, Sound-weaken}

module _ (env : Env) where
  enqueue_llm_response-Sound :
      (k : ℕ) (s : Supervisor env) (id : ℕ) (text : List ℕ) (fallback : Bool)
      → Sound env k s
      → SoundAfter env k (enqueue_llm_response env s id (some text) fallback)
  unfolding enqueue_llm_response
  enqueue_llm_response-Sound k s id text fallback v = record {
    ring = v.ring;
    ring_capacity = v.ring_capacity;
    vad = v.vad;
    utterance = v.utterance;
    artifacts = v.artifacts;
    room = v.room;
    responses = enqueue-IsValid 16 zero_response s.llm_response_queue _ v.responses;
  }

  answer-Sound :
      (k : ℕ) (s : Supervisor env) (a : Artifact) (transcript : List ℕ)
      → Sound env k s
      → SoundAfter env k (answer env s a transcript)
  unfolding answer
  answer-Sound k s a transcript v =
      let out = env.adapters.llm_generate s.world s.llm transcript in
      let asked = record s { llm = out.1.1.0; world = out.1.1.1 } in
      case_ok_both (SoundAfter env k) out.0
        (enqueue_llm_response env asked a.sequence_id (some out.1.0) false)
        (λ e. enqueue_llm_response env asked a.sequence_id (some llm_fallback_text) true)
        (enqueue_llm_response-Sound k asked a.sequence_id out.1.0 false v)
        (λ e. enqueue_llm_response-Sound k asked a.sequence_id llm_fallback_text true v)

  unlink_artifact-Sound :
      (k : ℕ) (s : Supervisor env) (a : Artifact)
      → Sound env k s
      → Sound env k (unlink_artifact env s a)
  unfolding unlink_artifact
  unlink_artifact-Sound k s a v =
      if_both (Sound env k) (is_empty a.wav_path) s
        (record s { world = (env.outside.unlink s.world a.wav_path).1 }) (λ _. v) (λ _. v)

  transcribe_artifact-Sound :
      (k : ℕ) (s : Supervisor env) (a : Artifact)
      → Sound env k s
      → SoundAfter env k (transcribe_artifact env s a)
  unfolding transcribe_artifact
  transcribe_artifact-Sound k s a v =
      let out = env.adapters.stt_transcribe s.world s.stt a.wav_path in
      let heard = record s { stt = out.1.1.0; world = out.1.1.1 } in
      case_ok_both (SoundAfter env k) out.0 (answer env (unlink_artifact env heard a) a out.1.0)
        (λ e. (e, heard))
        (answer-Sound k (unlink_artifact env heard a) a out.1.0 (unlink_artifact-Sound k heard a v))
        (λ e. v)

  process_stt_queue-Sound :
      (k : ℕ) (s : Supervisor env) → Sound env k s → SoundAfter env k (process_stt_queue env s)
  unfolding process_stt_queue
  process_stt_queue-Sound k s v =
      let (artifact, queue) = artifact_queue_dequeue s.artifact_queue in
      let taken = record s { artifact_queue = queue } in
      let ready : Sound env k taken = record {
        ring = v.ring;
        ring_capacity = v.ring_capacity;
        vad = v.vad;
        utterance = v.utterance;
        artifacts = dequeue-InOrder s.artifact_queue s.next_artifact_sequence_id v.artifacts;
        room = v.room;
        responses = v.responses;
      } in
      option_both (SoundAfter env k) artifact (ok, taken) (transcribe_artifact env taken) ready
        (λ a. transcribe_artifact-Sound k taken a ready)

  drain_llm_response_queue-Sound :
      (k : ℕ) (s : Supervisor env)
      → Sound env k s
      → SoundAfter env k (drain_llm_response_queue env s)
  unfolding drain_llm_response_queue
  drain_llm_response_queue-Sound k s v = record {
    ring = v.ring;
    ring_capacity = v.ring_capacity;
    vad = v.vad;
    utterance = v.utterance;
    artifacts = v.artifacts;
    room = v.room;
    responses = dequeue-IsValid 16 zero_response s.llm_response_queue v.responses;
  }

  -- Sound, with room for a chunk in the ring's counter.
  Counted : ℕ → Supervisor env → Type 0
  Counted k s = Sound env k s × (s.capture_ring.head + 640 < size_mod)

  ensure_capture-Counted :
      (k : ℕ) (s : Supervisor env) → Counted k s → Counted k (ensure_capture env s).1
  unfolding ensure_capture Counted
  ensure_capture-Counted k s v =
      let out = env.adapters.capture_start s.world s.capture s.config in
      if_both (λ (t : Status × Supervisor env). Counted k t.1) (env.adapters.active s.capture)
        (ok, s) (out.0, record s { capture = out.1.0; world = out.1.1 }) (λ _. v) (λ _. v)

  module _ (memory : IsRealloc env.outside.realloc)
      (bounded : (w : env.outside.World) (c : env.adapters.Capture)
        → let (status, ((chunk, bytes_read), _)) = env.adapters.capture_read w c 640 in
          (bytes_read ≤ length chunk) × (bytes_read ≤ 640)) where
    read_capture-Sound :
        (k : ℕ) (s : Supervisor env) → Counted k s → SoundAfter env k (read_capture env s)
    unfolding read_capture Counted
    read_capture-Sound k s (v, room) =
        let out = env.adapters.capture_read s.world s.capture 640 in
        let chunk = out.1.0.0 in
        let n = out.1.0.1 in
        let got = record s { capture = out.1.1.0; world = out.1.1.1 } in
        let fits = bounded s.world s.capture in
        let stored = write_lem s.capture_ring chunk n v.ring fits.0 (omega (arith, fits)) in
        let grown = record got { capture_ring = (write s.capture_ring (some chunk) n).1 } in
        let ready : Sound env k grown = record {
          ring = stored.6;
          ring_capacity = stored.4 ∙ v.ring_capacity;
          vad = v.vad;
          utterance = v.utterance;
          artifacts = v.artifacts;
          room = v.room;
          responses = v.responses;
        } in
        case_ok_both (SoundAfter env k) out.0 (ok, if ltb 0 n then grown else got) (λ e. (e, got))
          (if_both (Sound env k) (ltb 0 n) grown got (λ _. ready) (λ _. v)) (λ e. v)

    drain_capture_ring_into_vad-Sound :
        (s : Supervisor env)
        → Sound env 100 s
        → SoundAfter env 0 (drain_capture_ring_into_vad env s)
    drain_capture_ring_into_vad-Sound s v =
        let frames = available s.capture_ring / 640 in
        drain-Sound env memory frames s (
          Sound-weaken env memory frames 100 s
            (omega (arith, space-add-available v.ring, v.ring_capacity)) v)

    weak : (s : Supervisor env) → Sound env 100 s → Sound env 0 s
    weak s v = Sound-weaken env memory 0 100 s (omega arith) v

    -- The end of a round: from the utterances on, from the ring on, and from the capture on.
    abbrev answering : Supervisor env → Status × Supervisor env
    answering s = then_ok (process_stt_queue env s) (drain_llm_response_queue env)

    abbrev draining : Supervisor env → Status × Supervisor env
    draining s = then_ok (drain_capture_ring_into_vad env s) answering

    abbrev capturing : Supervisor env → Status × Supervisor env
    capturing s = then_ok (read_capture env s) draining

    answering-Sound : (s : Supervisor env) → Sound env 0 s → SoundAfter env 0 (answering s)
    answering-Sound s v =
        then_ok_keeps (Sound env 0) (process_stt_queue env s) (drain_llm_response_queue env)
          (process_stt_queue-Sound 0 s v) (drain_llm_response_queue-Sound 0)

    draining-Sound : (s : Supervisor env) → Sound env 100 s → SoundAfter env 0 (draining s)
    draining-Sound s v =
        then_ok_keeps (Sound env 0) (drain_capture_ring_into_vad env s) answering
          (drain_capture_ring_into_vad-Sound s v) answering-Sound

    capturing-Sound : (s : Supervisor env) → Counted 100 s → SoundAfter env 0 (capturing s)
    capturing-Sound s v =
        then_ok_leads (Sound env 100) (Sound env 0) (read_capture env s) draining
          (read_capture-Sound 100 s v) weak draining-Sound

    -- A round of the run loop, whatever fails in it, leaves a sound supervisor sound: the ring, the
    -- queues, the detector and the utterance are valid, and the queued utterances are numbered in
    -- order below the next number. It is given that `realloc` does as documented, that a read from
    -- the capture stores at most the 640 bytes asked for, that the next number has room for 100
    -- more, and that the ring's counter has room for 640 bytes.
    pub run_once-Sound :
        (s : Supervisor env)
        → Sound env 100 s
        → s.capture_ring.head + 640 < size_mod
        → SoundAfter env 0 (run_once env s)
    unfolding run_once Counted
    run_once-Sound s v room =
        if_both (SoundAfter env 0) (not (is_running s.state)) (err_invalid_argument, s)
          (then_ok (ensure_capture env s) capturing) (λ _. weak s v)
          (λ _.
            then_ok_leads (Counted 100) (Sound env 0) (ensure_capture env s) capturing
              (ensure_capture-Counted 100 s (v, room)) (λ t u. weak t u.0) capturing-Sound)
