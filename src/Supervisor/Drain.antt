-- ===== src/Supervisor/Drain.antt =====
-- The loop of supervisor.c that takes frames off the ring ends, and leaves less than a frame.
use shiori.Base.{
  ℕ, zero, suc, ◌+◌, ◌*◌, ◌≤◌, ◌<◌, ◌≡◌, refl, sym, ap, ◌∙◌, not, ◌==◌, none, some, List, arith,
  length, replicate, length-replicate, length-drop, dec_le, le→leb, lt→leb, if_both, subst,
}
use shiori.Status.{Status, ok, err_io, then_ok}
use shiori.Status.Flow.{case_ok_both, then_ok_cong, then_ok-ok}
use shiori.Ring.{Ring, read, available}
use shiori.Ring.Bounds.{IsValid, space-add-available}
use shiori.Ring.Contents.{contents, length-contents}
use shiori.Ring.Read.{read_lem}
use shiori.Adapters.{Env}
use shiori.Supervisor.{Supervisor, samples}
use shiori.Supervisor.Round.{detect, follow_event, drain_frame, drain}
use shiori.Supervisor.Keeps.{follow_event-Kept}
use shiori.Vad.{Event, nothing, process_frame}
use shiori.Base.Int.{pos}

-- The ring after a frame has been read.
abbrev after : Ring → Ring
after r = (read r (some (replicate 640 0)) 640).buffer

after_lem :
    (r : Ring)
    → IsValid r
    → 640 ≤ available r
    → IsValid (after r) × (available (after r) + 640 ≡ available r)
after_lem r v full =
    let out = read_lem r (replicate 640 0) 640 v (omega (arith, length-replicate {A = ℕ} 640 0)) in
    let here = (space-add-available v).0 in
    let valid = out.7 in
    (
      valid,
      omega (
        arith,
        here,
        full,
        (space-add-available valid).0,
        length-contents r,
        length-contents (after r),
        ap length out.2,
        length-drop (read r (some (replicate 640 0)) 640).count (contents r),
        out.0,
      ),
    )

module _ (env : Env) where
  HasRing : Ring → Status × Supervisor env → Type 0
  HasRing r t = t.1.capture_ring ≡ r

  detect-ring : (s : Supervisor env) (frame : List ℕ) → HasRing s.capture_ring (detect env s frame)
  unfolding detect HasRing
  detect-ring s frame =
      let f = process_frame env.fvad s.vad (some (samples frame)) 320 (pos 20) in
      let event : Event = elim f.event [ none ↦ nothing | some e ↦ e ] in
      let heard = record s { vad = f.detector } in
      case_ok_both (HasRing s.capture_ring) f.status
        (follow_event env heard event s.vad.speech_active frame) (λ e. (e, heard))
        (ap (λ k. k.2) (follow_event-Kept env heard event s.vad.speech_active frame)) (λ e. refl)

  drain_frame-ring :
      (s : Supervisor env) → (drain_frame env s).1.capture_ring ≡ after s.capture_ring
  unfolding drain_frame HasRing
  drain_frame-ring s =
      let reading = read s.capture_ring (some (replicate 640 0)) 640 in
      let taken = record s { capture_ring = reading.buffer } in
      if_both (HasRing reading.buffer) (not (reading.count == 640)) (err_io, taken)
        (detect env taken reading.output) (λ _. refl) (λ _. detect-ring taken reading.output)

  drain_frame-IsValid :
      (s : Supervisor env)
      → IsValid s.capture_ring
      → 640 ≤ available s.capture_ring
      → let r = (drain_frame env s).1.capture_ring in
        IsValid r × (available r + 640 ≡ available s.capture_ring)
  drain_frame-IsValid s v full =
      subst (λ r. IsValid r × (available r + 640 ≡ available s.capture_ring))
        (sym (drain_frame-ring s)) (after_lem s.capture_ring v full)

  drain-round :
      (f : ℕ) (s : Supervisor env)
      → 640 ≤ available s.capture_ring
      → drain env (suc f) s ≡ then_ok (drain_frame env s) (drain env f)
  unfolding drain
  drain-round f s full = rw (le→leb 640 (available s.capture_ring) full) refl

  drain-stop :
      (f : ℕ) (s : Supervisor env) → available s.capture_ring < 640 → drain env f s ≡ (ok, s)
  unfolding drain
  drain-stop zero s short = refl
  drain-stop (suc f) s short = rw (lt→leb 640 (available s.capture_ring) short) refl

  -- Any two amounts of fuel that cover the frames in the ring give the same result: the loop ends
  -- within one round for each whole frame.
  pub drain_enough :
      (f g : ℕ) (s : Supervisor env)
      → IsValid s.capture_ring
      → available s.capture_ring < 640 * suc f
      → available s.capture_ring < 640 * suc g
      → drain env f s ≡ drain env g s
  drain_enough zero g s v hf hg =
      drain-stop zero s (omega arith) ∙ sym (drain-stop g s (omega arith))
  drain_enough (suc f) zero s v hf hg =
      drain-stop (suc f) s (omega arith) ∙ sym (drain-stop zero s (omega arith))
  drain_enough (suc f) (suc g) s v hf hg = elim (dec_le 640 (available s.capture_ring)) [
    | no short ↦ drain-stop (suc f) s (omega arith) ∙ sym (drain-stop (suc g) s (omega arith))
    | yes full ↦
        let (valid, fewer) = drain_frame-IsValid s v full in
        drain-round f s full
        ∙ (then_ok_cong (drain_frame env s) (drain env f) (drain env g)
              (drain_enough f g (drain_frame env s).1 valid (omega arith) (omega arith))
            ∙ sym (drain-round g s full))
  ]

  -- A drain that succeeds leaves less than a frame in the ring, and a valid ring.
  pub drain-ok :
      (f : ℕ) (s : Supervisor env)
      → IsValid s.capture_ring
      → available s.capture_ring < 640 * suc f
      → (drain env f s).0 ≡ ok
      → let r = (drain env f s).1.capture_ring in IsValid r × (available r < 640)
  drain-ok zero s v h e = unfold drain in (v, omega arith)
  drain-ok (suc f) s v h e = elim (dec_le 640 (available s.capture_ring)) [
    | no short ↦ rw (drain-stop (suc f) s (omega arith)) (v, omega arith)
    | yes full ↦
        let (valid, fewer) = drain_frame-IsValid s v full in
        let same : drain env (suc f) s ≡ drain env f (drain_frame env s).1 =
          drain-round f s full
          ∙ then_ok-ok (drain_frame env s) (drain env f)
              (ap (λ t. t.0) (sym (drain-round f s full)) ∙ e) in
        subst (λ t. IsValid t.1.capture_ring × (available t.1.capture_ring < 640)) (sym same)
          (drain-ok f (drain_frame env s).1 valid (omega arith) (ap (λ t. t.0) (sym same) ∙ e))
  ]
