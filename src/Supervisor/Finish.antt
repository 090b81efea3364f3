-- ===== src/Supervisor/Finish.antt =====
-- What the end of an utterance of supervisor.c leaves: a file, an artifact in the queue, and an
-- empty utterance.
use shiori.Base.{
  ℕ, ◌≤◌, ◌<◌, ◌≡◌, refl, sym, ap, ◌∙◌, subst, Bool, true, false, none, some, List, arith, length,
  take_all, ne→eqb, ◌==◌, add_size, size_mod, if◌then◌else◌,
}
use shiori.Status.{Status, ok}
use shiori.Status.Flow.{case_ok-ok}
use shiori.Text.{copy_string}
use shiori.Queue.{Artifact, zero_artifact, artifact_queue_enqueue}
use shiori.Queue.Invariant.{IsValid}
use shiori.Queue.Fifo.{put, enqueue_refines}
use shiori.Artifacts.{build_artifact_path, write_wav_file, wav_path_max}
use shiori.Artifacts.Paths.{build_artifact_path-ok_iff}
use shiori.Adapters.{Env}
use shiori.Supervisor.{
  Supervisor, reset, enqueue_artifact, write_artifact, finalize_pcm, finalize_utterance,
}
use shiori.Supervisor.Answers.{queued_artifacts}

module _ (env : Env) where
  closed :
      (s : Supervisor env) (path : List ℕ) (stored : Bool)
      → let end : Status × Supervisor env = (
        ok,
        record (reset env s) {
          world = if stored then s.world else (env.outside.unlink s.world path).1;
        },
      ) in
        (if stored
          then (ok, reset env s)
          else (ok, reset env (record s { world = (env.outside.unlink s.world path).1 })))
        ≡ end
  closed s path true = refl
  closed s path false = refl

  enqueue_artifact-put :
      (s : Supervisor env) (id n : ℕ) (path : List ℕ)
      → IsValid 16 zero_artifact s.artifact_queue
      → length path ≤ 511
      → let (room, queued) =
          put 16
            (queued_artifacts s)
            (record { sequence_id = id; pcm_bytes = n; wav_path = path }) in
        let (status, s') = enqueue_artifact env s id n path in
        (status ≡ ok)
        × (queued_artifacts s' ≡ queued)
        × (s'.utterance_metadata.size ≡ 0)
        × (s'.next_artifact_sequence_id ≡ s.next_artifact_sequence_id)
        × (s'.world ≡ (if room then s.world else (env.outside.unlink s.world path).1))
  unfolding enqueue_artifact
  enqueue_artifact-put s id n path v short =
      let a : List ℕ → Artifact = λ p. record { sequence_id = id; pcm_bytes = n; wav_path = p } in
      let given =
        artifact_queue_enqueue s.artifact_queue (some (a (copy_string wav_path_max path))) in
      let same =
        enqueue_refines 16 zero_artifact s.artifact_queue (a (copy_string wav_path_max path)) v
        ∙ ap (λ p. put 16 (queued_artifacts s) (a p)) (take_all 511 path short) in
      let out = closed (record s { artifact_queue = given.1 }) path given.0 in
      subst
        (λ (t : Status × Supervisor env).
          (t.0 ≡ ok)
          × (queued_artifacts t.1 ≡ (put 16 (queued_artifacts s) (a path)).1)
          × (t.1.utterance_metadata.size ≡ 0)
          × (t.1.next_artifact_sequence_id ≡ s.next_artifact_sequence_id)
          × (t.1.world ≡ (
              if (put 16 (queued_artifacts s) (a path)).0
              then s.world
              else (env.outside.unlink s.world path).1)))
        (sym out)
        (
          refl,
          ap (λ r. r.1) same,
          refl,
          refl,
          ap (λ r. if r.0 then s.world else (env.outside.unlink s.world path).1) same,
        )

  finalize-pcm :
      (s : Supervisor env) (block : List ℕ)
      → s.utterance_metadata.pcm ≡ some block
      → 0 < s.utterance_metadata.size
      → finalize_utterance env s ≡ finalize_pcm env s block
  unfolding finalize_utterance
  finalize-pcm s block stored some_bytes =
      ap
        (λ o. elim o [
          | none ↦ (ok, reset env s)
          | some pcm ↦
              if s.utterance_metadata.size == 0 then (ok, reset env s) else finalize_pcm env s pcm
        ])
        stored
      ∙ ap (λ b. if b then (ok, reset env s) else finalize_pcm env s block)
          (ne→eqb s.utterance_metadata.size 0 (omega arith))

  pcm-write :
      (s : Supervisor env) (block : List ℕ)
      → (build_artifact_path s.config s.next_artifact_sequence_id wav_path_max).0 ≡ ok
      → finalize_pcm env s block
        ≡ write_artifact env
            (record s { next_artifact_sequence_id = add_size s.next_artifact_sequence_id 1 })
            s.next_artifact_sequence_id
            block
            (build_artifact_path s.config s.next_artifact_sequence_id wav_path_max).1
  unfolding finalize_pcm
  pcm-write s block built =
      case_ok-ok (build_artifact_path s.config s.next_artifact_sequence_id wav_path_max).0 _ _ built

  write-enqueue :
      (s : Supervisor env) (id : ℕ) (block path : List ℕ)
      → (write_wav_file env.outside s.world (some path) (some block) s.utterance_metadata.size).0
        ≡ ok
      → write_artifact env s id block path
        ≡ enqueue_artifact env
            (record s {
              world =
                  (write_wav_file env.outside s.world
                    (some path)
                    (some block)
                    s.utterance_metadata.size).1;
            })
            id
            s.utterance_metadata.size
            path
  unfolding write_artifact
  write-enqueue s id block path written =
      case_ok-ok
        (write_wav_file env.outside s.world (some path) (some block) s.utterance_metadata.size).0 _
        _ written

  -- An utterance with bytes, whose path fits and whose file is written, is queued as an artifact with
  -- the next number, its length and its path; if the queue is full it is dropped and its file is
  -- removed. The utterance is empty afterwards, the number is used up, and the call succeeds.
  pub finalize_utterance_lem :
      (s : Supervisor env) (block : List ℕ)
      → IsValid 16 zero_artifact s.artifact_queue
      → s.utterance_metadata.pcm ≡ some block
      → 0 < s.utterance_metadata.size
      → s.next_artifact_sequence_id < size_mod
      → (build_artifact_path s.config s.next_artifact_sequence_id wav_path_max).0 ≡ ok
      → (write_wav_file env.outside s.world
          (some (build_artifact_path s.config s.next_artifact_sequence_id wav_path_max).1)
          (some block)
          s.utterance_metadata.size).0
        ≡ ok
      → let n = s.utterance_metadata.size in
        let path = (build_artifact_path s.config s.next_artifact_sequence_id wav_path_max).1 in
        let w = (write_wav_file env.outside s.world (some path) (some block) n).1 in
        let (room, queued) =
          put 16 (queued_artifacts s) (record {
            sequence_id = s.next_artifact_sequence_id;
            pcm_bytes = n;
            wav_path = path;
          }) in
        let (status, s') = finalize_utterance env s in
        (status ≡ ok)
        × (queued_artifacts s' ≡ queued)
        × (s'.utterance_metadata.size ≡ 0)
        × (s'.next_artifact_sequence_id ≡ add_size s.next_artifact_sequence_id 1)
        × (s'.world ≡ (if room then w else (env.outside.unlink w path).1))
  finalize_utterance_lem s block v stored some_bytes number built written =
      let id = s.next_artifact_sequence_id in
      let n = s.utterance_metadata.size in
      let path = (build_artifact_path s.config id wav_path_max).1 in
      let w = (write_wav_file env.outside s.world (some path) (some block) n).1 in
      let numbered = record s { next_artifact_sequence_id = add_size id 1 } in
      let filed = record numbered { world = w } in
      let same : finalize_utterance env s ≡ enqueue_artifact env filed id n path =
        finalize-pcm s block stored some_bytes
        ∙ (pcm-write s block built ∙ write-enqueue numbered id block path written) in
      let put =
        enqueue_artifact-put filed id n path v (build_artifact_path-ok_iff s.config id number).1 in
      (
        ap (λ t. t.0) same ∙ put.0,
        ap (λ t. queued_artifacts t.1) same ∙ put.1,
        ap (λ t. t.1.utterance_metadata.size) same ∙ put.2,
        ap (λ t. t.1.next_artifact_sequence_id) same ∙ put.3,
        ap (λ t. t.1.world) same ∙ put.4,
      )
