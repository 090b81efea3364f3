-- ===== src/Supervisor/Ownership.antt =====
-- A property of the capture and the world that the calls outside keep is kept by the utterance's side
-- of supervisor.c.
use shiori.Base.{
  ℕ, zero, suc, ◌-◌, ◌/◌, ◌%◌, ◌^◌, ◌==◌, ltb, not, ◌&&◌, add_size, size_mod, Bool, Option, some,
  List, if◌then◌else◌, if_both, option_both,
}
use shiori.Base.Int.{pos, eq_int}
use shiori.Status.{Status}
use shiori.Status.Flow.{then_ok_keeps, case_ok_both}
use shiori.Config.{is_empty}
use shiori.Queue.{Artifact, artifact_queue_dequeue}
use shiori.Vad.{Event}
use shiori.Outside.{WavFormat}
use shiori.Utterance.{
  Utterance, initial_utterance_capacity, growth_fuel, grow_capacity, size_max, reserve,
  append_utterance_pcm,
}
use shiori.Artifacts.{build_artifact_path, write_frames, write_wav_file, wav_path_max, wav_format}
use shiori.Adapters.{Env}
use shiori.Supervisor.{
  Supervisor, reset, vad_frame_bytes, append_pcm, unlink_artifact, discard_artifacts,
  enqueue_artifact, write_artifact, finalize_pcm, finalize_utterance,
}
use shiori.Supervisor.Round.{append_frame, follow_event, is_start, is_end}

module _ (env : Env) where
  open env.outside use {
    World, Wav, calloc, realloc, unlink, drwav_init_file_write, drwav_write_pcm_frames,
    drwav_uninit,
  }

  -- The property is kept by each call outside that is not one of the capture.
  pub record KeptOutside (P : env.adapters.Capture → World → Type 0) : Type 0 where
    pub by_calloc : (c : _) (w : World) (n : ℕ) → P c w → P c (calloc w n).1
    pub by_realloc :
        (c : _) (w : World) (p : Option (List ℕ)) (n : ℕ) → P c w → P c (realloc w p n).1
    pub by_unlink : (c : _) (w : World) (path : List ℕ) → P c w → P c (unlink w path).1
    pub by_wav_init :
        (c : _) (w : World) (path : List ℕ) (format : WavFormat)
        → P c w
        → P c (drwav_init_file_write w path format).1
    pub by_wav_write :
        (c : _) (w : World) (wav : Wav) (n : ℕ) (pcm : List ℕ)
        → P c w
        → P c (drwav_write_pcm_frames w wav n pcm).1.1
    pub by_wav_uninit : (c : _) (w : World) (wav : Wav) → P c w → P c (drwav_uninit w wav).1

  module _ (P : env.adapters.Capture → World → Type 0) (kept : KeptOutside P) where
    abbrev pub Holds : Supervisor env → Type 0
    Holds s = P s.capture s.world

    abbrev pub HoldsAfter : Status × Supervisor env → Type 0
    HoldsAfter t = Holds t.1

    reserve-kept :
        (c : env.adapters.Capture) (w : World) (u : Utterance) (n : ℕ)
        → P c w
        → P c (reserve realloc w u n).1.1
    unfolding reserve
    reserve-kept c w u n h =
        let start = if u.capacity == 0 then initial_utterance_capacity else u.capacity in
        let After : Status × (Utterance × World) → Type 0 = λ t. P c t.1.1 in
        if_both After (ltb u.capacity n) _ _
          (λ _. option_both After (grow_capacity growth_fuel start n) _ _ h (λ m.
            let again = kept.by_realloc c w u.pcm m h in
            option_both After (realloc w u.pcm m).0 _ _ again (λ block. again)))
          (λ _. h)

    append_pcm-Holds :
        (s : Supervisor env) (pcm : List ℕ) (n : ℕ) → Holds s → HoldsAfter (append_pcm env s pcm n)
    unfolding append_pcm append_utterance_pcm
    append_pcm-Holds s pcm n h =
        let After : Status × (Utterance × World) → Type 0 = λ t. P s.capture t.1.1 in
        let u = s.utterance_metadata in
        if_both After (n == 0) _ _ (λ _. h)
          (λ _.
            if_both After (ltb (size_max - n) u.size) _ _ (λ _. h)
              (λ _.
                then_ok_keeps (λ (t : Utterance × World). P s.capture t.1)
                  (reserve realloc s.world u (add_size u.size n)) _
                  (reserve-kept s.capture s.world u (add_size u.size n) h) (λ t k. k)))

    write_frames-kept :
        (c : env.adapters.Capture) (w : World) (path : List ℕ) (wav : Wav) (pcm : List ℕ) (n : ℕ)
        → P c w
        → P c (write_frames env.outside w path wav pcm n).1
    unfolding write_frames
    write_frames-kept c w path wav pcm n h =
        let (frames, (wav', w1)) = drwav_write_pcm_frames w wav n pcm in
        let (result, w2) = drwav_uninit w1 wav' in
        let closed = kept.by_wav_uninit c w1 wav' (kept.by_wav_write c w wav n pcm h) in
        if_both (λ (t : Status × World). P c t.1) (frames == n && eq_int result (pos 0)) _ _
          (λ _. closed) (λ _. kept.by_unlink c w2 path closed)

    write_wav_file-kept :
        (c : env.adapters.Capture) (w : World) (path pcm : List ℕ) (n : ℕ)
        → P c w
        → P c (write_wav_file env.outside w (some path) (some pcm) n).1
    unfolding write_wav_file
    write_wav_file-kept c w path pcm n h =
        let After : Status × World → Type 0 = λ t. P c t.1 in
        let (opened, w') = drwav_init_file_write w path (wav_format env.outside) in
        let begun = kept.by_wav_init c w path (wav_format env.outside) h in
        if_both After (not (n % 2 == 0)) _ _ (λ _. h)
          (λ _.
            if_both After (not (n / 2 % 2 ^ 64 % size_mod == n / 2)) _ _ (λ _. h)
              (λ _.
                option_both After opened _ _ begun
                  (λ wav. write_frames-kept c w' path wav pcm (n / 2 % 2 ^ 64) begun)))

    enqueue_artifact-Holds :
        (s : Supervisor env) (id n : ℕ) (path : List ℕ)
        → Holds s
        → HoldsAfter (enqueue_artifact env s id n path)
    unfolding enqueue_artifact
    enqueue_artifact-Holds s id n path h =
        if_both HoldsAfter _ _ _ (λ _. h) (λ _. kept.by_unlink s.capture s.world path h)

    write_artifact-Holds :
        (s : Supervisor env) (id : ℕ) (pcm path : List ℕ)
        → Holds s
        → HoldsAfter (write_artifact env s id pcm path)
    unfolding write_artifact
    write_artifact-Holds s id pcm path h =
        let n = s.utterance_metadata.size in
        let r = write_wav_file env.outside s.world (some path) (some pcm) n in
        let written = write_wav_file-kept s.capture s.world path pcm n h in
        case_ok_both HoldsAfter r.0 _ _
          (enqueue_artifact-Holds (record s { world = r.1 }) id n path written) (λ e. written)

    finalize_utterance-Holds :
        (s : Supervisor env) → Holds s → HoldsAfter (finalize_utterance env s)
    unfolding finalize_utterance finalize_pcm
    finalize_utterance-Holds s h =
        let id = s.next_artifact_sequence_id in
        let r = build_artifact_path s.config id wav_path_max in
        let numbered = record s { next_artifact_sequence_id = add_size id 1 } in
        option_both HoldsAfter s.utterance_metadata.pcm _ _ h (λ pcm.
          if_both HoldsAfter (s.utterance_metadata.size == 0) _ _ (λ _. h)
            (λ _.
              case_ok_both HoldsAfter r.0 _ _ (write_artifact-Holds numbered id pcm r.1 h)
                (λ e. h)))

    append_frame-Holds :
        (s : Supervisor env) (event : Event) (was_active : Bool) (frame : List ℕ)
        → Holds s
        → HoldsAfter (append_frame env s event was_active frame)
    unfolding append_frame
    append_frame-Holds s event was_active frame h =
        let begun = if is_start event then reset env s else s in
        let same : Holds begun = if_both Holds (is_start event) _ _ (λ _. h) (λ _. h) in
        if_both HoldsAfter _ _ _ (λ _. append_pcm-Holds begun frame vad_frame_bytes same)
          (λ _. same)

    pub follow_event-Holds :
        (s : Supervisor env) (event : Event) (was_active : Bool) (frame : List ℕ)
        → Holds s
        → HoldsAfter (follow_event env s event was_active frame)
    unfolding follow_event
    follow_event-Holds s event was_active frame h =
        then_ok_keeps Holds (append_frame env s event was_active frame) _
          (append_frame-Holds s event was_active frame h)
          (λ s' k.
            if_both HoldsAfter (is_end event) _ _ (λ _. finalize_utterance-Holds s' k) (λ _. k))

    pub unlink_artifact-Holds :
        (s : Supervisor env) (a : Artifact) → Holds s → Holds (unlink_artifact env s a)
    unfolding unlink_artifact
    unlink_artifact-Holds s a h =
        if_both Holds (is_empty a.wav_path) _ _ (λ _. h)
          (λ _. kept.by_unlink s.capture s.world a.wav_path h)

    pub discard_artifacts-Holds :
        (fuel : ℕ) (s : Supervisor env) → Holds s → Holds (discard_artifacts env fuel s)
    unfolding discard_artifacts
    discard_artifacts-Holds zero s h = h
    discard_artifacts-Holds (suc fuel) s h =
        let (artifact, queue) = artifact_queue_dequeue s.artifact_queue in
        let taken = record s { artifact_queue = queue } in
        option_both Holds artifact _ (λ a. discard_artifacts env fuel (unlink_artifact env taken a))
          h
          (λ a.
            discard_artifacts-Holds fuel (unlink_artifact env taken a)
              (unlink_artifact-Holds taken a h))
