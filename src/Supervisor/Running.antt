-- ===== src/Supervisor/Running.antt =====
-- A round of the run loop of supervisor.c keeps the supervisor sound, whatever fails in it.
use shiori.Base.{
  ℕ, zero, suc, ◌≤◌, ◌≡◌, ap, ◌∙◌, Bool, none, some, List, arith, length, take, drop, replicate,
  length-replicate, length-append, length-take, length-drop, ◌==◌, ◌&&◌, ◌||◌, not, dec_le, le→leb,
  lt→leb, if_both, if◌then◌else◌,
}
use shiori.Base.Int.{pos}
use shiori.Status.{ok, err_io}
use shiori.Status.Flow.{then_ok_leads, case_ok_both}
use shiori.Ring.{read, available}
use shiori.Ring.Contents.{contents as ring_contents}
use shiori.Ring.Read.{read_lem}
use shiori.Vad.{Event, nothing, process_frame}
use shiori.Vad.Invariant.{process_frame-IsValid}
use shiori.Utterance.Append.{append_utterance_pcm_lem}
use shiori.Adapters.{Env}
use shiori.Supervisor.{Supervisor, samples, reset, append_pcm, finalize_utterance}
use shiori.Supervisor.Round.{
  is_start, is_continue, is_end, append_frame, follow_event, detect, drain_frame, drain,
}
use shiori.Supervisor.Sound.{
  IsRealloc, Sound, SoundAfter, Sound-reset, Sound-fewer, finalize_utterance-Sound,
}

module _ (env : Env) (memory : IsRealloc env.outside.realloc) where
  append_pcm-Sound :
      (k : ℕ) (s : Supervisor env) (frame : List ℕ)
      → length frame ≡ 640
      → Sound env k s
      → SoundAfter env k (append_pcm env s frame 640)
  unfolding append_pcm
  append_pcm-Sound k s frame long v = record {
    ring = v.ring;
    ring_capacity = v.ring_capacity;
    vad = v.vad;
    utterance =
        (append_utterance_pcm_lem env.outside.realloc memory.sized memory.kept s.world
          s.utterance_metadata frame 640 v.utterance (omega arith) (omega (arith, long))
          (omega arith)).0;
    artifacts = v.artifacts;
    room = v.room;
    responses = v.responses;
  }

  append_frame-Sound :
      (k : ℕ) (s : Supervisor env) (event : Event) (was_active : Bool) (frame : List ℕ)
      → length frame ≡ 640
      → Sound env k s
      → SoundAfter env k (append_frame env s event was_active frame)
  unfolding append_frame
  append_frame-Sound k s event was_active frame long v =
      let begun = if is_start event then reset env s else s in
      let same : Sound env k begun =
        if_both (Sound env k) (is_start event) (reset env s) s (λ _. Sound-reset env k s v)
          (λ _. v) in
      if_both (SoundAfter env k)
        (is_start event || (is_continue event && was_active) || (is_end event && was_active))
        (append_pcm env begun frame 640) (ok, begun) (λ _. append_pcm-Sound k begun frame long same)
        (λ _. same)

  -- A frame ends one utterance at most.
  follow_event-Sound :
      (k : ℕ) (s : Supervisor env) (event : Event) (was_active : Bool) (frame : List ℕ)
      → length frame ≡ 640
      → Sound env (suc k) s
      → SoundAfter env k (follow_event env s event was_active frame)
  unfolding follow_event
  follow_event-Sound k s event was_active frame long v =
      then_ok_leads (Sound env (suc k)) (Sound env k) (append_frame env s event was_active frame)
        (λ s'. if is_end event then finalize_utterance env s' else (ok, s'))
        (append_frame-Sound (suc k) s event was_active frame long v) (Sound-fewer env k)
        (λ s' v'.
          if_both (SoundAfter env k) (is_end event) (finalize_utterance env s') (ok, s')
            (λ _. finalize_utterance-Sound env k s' v') (λ _. Sound-fewer env k s' v'))

  detect-Sound :
      (k : ℕ) (s : Supervisor env) (frame : List ℕ)
      → length frame ≡ 640
      → Sound env (suc k) s
      → SoundAfter env k (detect env s frame)
  unfolding detect
  detect-Sound k s frame long v =
      let f = process_frame env.fvad s.vad (some (samples frame)) 320 (pos 20) in
      let event : Event = elim f.event [ none ↦ nothing | some e ↦ e ] in
      let heard = record s { vad = f.detector } in
      let ready : Sound env (suc k) heard = record {
        ring = v.ring;
        ring_capacity = v.ring_capacity;
        vad = process_frame-IsValid env.fvad s.vad (some (samples frame)) 320 (pos 20) v.vad;
        utterance = v.utterance;
        artifacts = v.artifacts;
        room = v.room;
        responses = v.responses;
      } in
      case_ok_both (SoundAfter env k) f.status
        (follow_event env heard event s.vad.speech_active frame) (λ e. (e, heard))
        (follow_event-Sound k heard event s.vad.speech_active frame long ready)
        (λ e. Sound-fewer env k heard ready)

  drain_frame-Sound :
      (k : ℕ) (s : Supervisor env)
      → 640 ≤ available s.capture_ring
      → Sound env (suc k) s
      → SoundAfter env k (drain_frame env s)
  unfolding drain_frame
  drain_frame-Sound k s full v =
      let reading = read s.capture_ring (some (replicate 640 0)) 640 in
      let taken = record s { capture_ring = reading.buffer } in
      let out =
        read_lem s.capture_ring (replicate 640 0) 640 v.ring
          (omega (arith, length-replicate {A = ℕ} 640 0)) in
      let ready : Sound env (suc k) taken = record {
        ring = out.7;
        ring_capacity = out.5 ∙ v.ring_capacity;
        vad = v.vad;
        utterance = v.utterance;
        artifacts = v.artifacts;
        room = v.room;
        responses = v.responses;
      } in
      let long : length reading.output ≡ 640 =
        ap length out.1
        ∙ omega (
          arith,
          out.0,
          length-append (take reading.count (ring_contents s.capture_ring))
              (drop reading.count (replicate 640 0)),
          length-take reading.count (ring_contents s.capture_ring),
          length-drop {A = ℕ} reading.count (replicate 640 0),
          length-replicate {A = ℕ} 640 0,
        ) in
      if_both (SoundAfter env k) (not (reading.count == 640)) (err_io, taken)
        (detect env taken reading.output) (λ _. Sound-fewer env k taken ready)
        (λ _. detect-Sound k taken reading.output long ready)

  pub Sound-weaken : (j k : ℕ) (s : Supervisor env) → j ≤ k → Sound env k s → Sound env j s
  Sound-weaken j k s h v = record {
    ring = v.ring;
    ring_capacity = v.ring_capacity;
    vad = v.vad;
    utterance = v.utterance;
    artifacts = v.artifacts;
    room = omega (arith, v.room);
    responses = v.responses;
  }

  -- A drain of at most `f` frames takes `f` numbers at most.
  pub drain-Sound : (f : ℕ) (s : Supervisor env) → Sound env f s → SoundAfter env 0 (drain env f s)
  unfolding drain
  drain-Sound zero s v = v
  drain-Sound (suc f) s v = elim (dec_le 640 (available s.capture_ring)) [
    | no short ↦
        rw (lt→leb 640 (available s.capture_ring) (omega arith))
          (Sound-weaken 0 (suc f) s (omega arith) v)
    | yes full ↦ rw (le→leb 640 (available s.capture_ring) full) (
        then_ok_leads (Sound env f) (Sound env 0) (drain_frame env s) (drain env f)
          (drain_frame-Sound f s full v) (λ s' v'. Sound-weaken 0 f s' (omega arith) v')
          (λ s' v'. drain-Sound f s' v'))
  ]
