-- ===== src/Supervisor/Keeps.antt =====
-- What the utterance's side of supervisor.c leaves alone: the lifecycle state, the configuration,
-- the ring, the detector and the queued responses.
use shiori.Base.{ℕ, ◌≡◌, refl, ◌∙◌, add_size, Bool, some, List, if◌then◌else◌, if_both, option_both}
use shiori.Status.{Status, ok}
use shiori.Status.Flow.{then_ok_keeps, case_ok_both}
use shiori.Config.{Config}
use shiori.Ring.{Ring}
use shiori.Queue.{LlmResponseQueue}
use shiori.Vad.{Event, Detector}
use shiori.Artifacts.{build_artifact_path, write_wav_file, wav_path_max}
use shiori.Adapters.{Env}
use shiori.Supervisor.{
  Supervisor, SupervisorState, reset, vad_frame_bytes, append_pcm, enqueue_artifact, write_artifact,
  finalize_pcm, finalize_utterance,
}
use shiori.Supervisor.Round.{append_frame, follow_event, is_start, is_end}

module _ (env : Env) where
  abbrev pub kept_part :
      Supervisor env → SupervisorState × Config × Ring × Detector env.fvad.Handle × LlmResponseQueue
  kept_part s = (s.state, s.config, s.capture_ring, s.vad, s.llm_response_queue)

  abbrev pub Kept : Supervisor env → Supervisor env → Type 0
  Kept s0 s = kept_part s ≡ kept_part s0

  abbrev pub KeptBy : Supervisor env → Status × Supervisor env → Type 0
  KeptBy s t = Kept s t.1

  append_pcm-Kept : (s : Supervisor env) (pcm : List ℕ) (n : ℕ) → Kept s (append_pcm env s pcm n).1
  unfolding append_pcm
  append_pcm-Kept s pcm n = refl

  enqueue_artifact-Kept :
      (s : Supervisor env) (id n : ℕ) (path : List ℕ) → Kept s (enqueue_artifact env s id n path).1
  unfolding enqueue_artifact
  enqueue_artifact-Kept s id n path = if_both (KeptBy s) _ _ _ (λ _. refl) (λ _. refl)

  write_artifact-Kept :
      (s : Supervisor env) (id : ℕ) (pcm path : List ℕ)
      → Kept s (write_artifact env s id pcm path).1
  unfolding write_artifact
  write_artifact-Kept s id pcm path =
      let r = write_wav_file env.outside s.world (some path) (some pcm) s.utterance_metadata.size in
      case_ok_both (KeptBy s) r.0 _ _
        (enqueue_artifact-Kept (record s { world = r.1 }) id s.utterance_metadata.size path)
        (λ e. refl)

  finalize_pcm-Kept : (s : Supervisor env) (pcm : List ℕ) → Kept s (finalize_pcm env s pcm).1
  unfolding finalize_pcm
  finalize_pcm-Kept s pcm =
      let r = build_artifact_path s.config s.next_artifact_sequence_id wav_path_max in
      case_ok_both (KeptBy s) r.0 _ _
        (write_artifact-Kept
          (record s { next_artifact_sequence_id = add_size s.next_artifact_sequence_id 1 })
          s.next_artifact_sequence_id pcm r.1)
        (λ e. refl)

  pub finalize_utterance-Kept : (s : Supervisor env) → Kept s (finalize_utterance env s).1
  unfolding finalize_utterance
  finalize_utterance-Kept s =
      option_both (KeptBy s) s.utterance_metadata.pcm _ _ refl
        (λ pcm. if_both (KeptBy s) _ _ _ (λ _. refl) (λ _. finalize_pcm-Kept s pcm))

  append_frame-Kept :
      (s : Supervisor env) (event : Event) (was_active : Bool) (frame : List ℕ)
      → Kept s (append_frame env s event was_active frame).1
  unfolding append_frame
  append_frame-Kept s event was_active frame =
      let begun = if is_start event then reset env s else s in
      let same : Kept s begun = if_both (Kept s) (is_start event) _ _ (λ _. refl) (λ _. refl) in
      if_both (KeptBy s) _ _ _ (λ _. append_pcm-Kept begun frame vad_frame_bytes ∙ same) (λ _. same)

  -- The event of a frame moves bytes and files only.
  pub follow_event-Kept :
      (s : Supervisor env) (event : Event) (was_active : Bool) (frame : List ℕ)
      → Kept s (follow_event env s event was_active frame).1
  unfolding follow_event
  follow_event-Kept s event was_active frame =
      then_ok_keeps (Kept s) (append_frame env s event was_active frame)
        (λ s'. if is_end event then finalize_utterance env s' else (ok, s'))
        (append_frame-Kept s event was_active frame)
        (λ s' k.
          if_both (KeptBy s) (is_end event) _ _ (λ _. finalize_utterance-Kept s' ∙ k) (λ _. k))
