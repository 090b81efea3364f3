-- ===== src/Playback/Wait.antt =====
-- The loop of `playback_wait` ends, and what it leaves of the child.
use shiori.Base.{
  ℕ, zero, suc, ◌+◌, ◌*◌, ◌/◌, ◌≤◌, ◌<◌, ◌≡◌, ◌≢◌, ◌∙◌, sym, ap, refl, arith, ◌⊎◌, inl, inr, true,
  false, some, ltb, Bool-cases, ltb→lt, some_keeps, if◌then◌else◌,
}
use shiori.Base.Int.{ℤ, pos, ltb_ℤ, eq_int}
use shiori.Status.{Status, ok, err_child_process}
use shiori.Os.{Os, is_echild, is_clean}
use shiori.Os.Table.{Table, remove, remove_absent}
use shiori.Os.Posix.{IsPosix}
use shiori.Playback.{poll_playback, playback_wait}

module _ {W : Type 0} (os : Os W) where
  poll_playback-ends :
      (fuel : ℕ) (w : W) (pid : ℤ) (elapsed timeout_ms : ℕ)
      → timeout_ms + 50 ≤ elapsed + 50 * fuel
      → elapsed < timeout_ms + 50
      → (out : Status × W) × (poll_playback os fuel w pid elapsed timeout_ms ≡ some out)
  unfolding poll_playback
  poll_playback-ends zero w pid elapsed timeout_ms h k = absurd (omega (arith, h, k))
  poll_playback-ends (suc fuel) w pid elapsed timeout_ms h k =
      let (waited, w') = os.waitpid_now w pid in
      elim (Bool-cases (ltb elapsed timeout_ms)) [
        | inr late ↦ ((err_child_process, w), rw (late, poll_playback) refl)
        | inl early ↦
            rw (early, poll_playback)
              (elim (Bool-cases (eq_int waited.result pid)) [
                | inl reaped ↦ (
                  ((if is_clean waited.status then ok else err_child_process), w'),
                  rw (reaped, poll_playback) refl,
                )
                | inr other ↦
                    rw (other, poll_playback)
                      (elim (Bool-cases (ltb_ℤ waited.result (pos 0))) [
                        | inl failed ↦ (
                          ((if is_echild waited.errno then ok else err_child_process), w'),
                          rw (failed, poll_playback) refl,
                        )
                        | inr alive ↦
                            rw (alive, poll_playback)
                              (poll_playback-ends fuel (os.nanosleep w' 50) pid (elapsed + 50)
                                timeout_ms (omega (arith, h))
                                (omega (arith, ltb→lt elapsed timeout_ms early)))
                      ])
              ])
      ]

  -- `playback_wait` never ends for want of fuel: it gives what its loop returns.
  pub playback_wait-ends :
      (w : W) (pid : ℤ) (timeout_ms : ℕ)
      → poll_playback os (suc (suc (timeout_ms / 50))) w pid 0 timeout_ms
        ≡ some (playback_wait os w pid timeout_ms)
  unfolding playback_wait
  playback_wait-ends w pid timeout_ms =
      let (out, e) =
        poll_playback-ends (suc (suc (timeout_ms / 50))) w pid 0 timeout_ms (omega arith)
          (omega arith) in
      rw (e, playback_wait) refl

  module _ (files children : W → Table) (posix : IsPosix os files children) where
    -- The child is reaped, or the wait has failed with the child as it was.
    pub record PlayWaited (w : W) (pid : ℤ) (out : Status × W) : Type 0 where
      pub same_files : files out.1 ≡ files w
      pub reaped :
          (children out.1 ≡ remove pid (children w))
          ⊎ ((out.0 ≢ ok) × (children out.1 ≡ children w))

    PlayWaited-earlier :
        (w w' : W) (pid : ℤ) (out : Status × W)
        → files w' ≡ files w
        → children w' ≡ children w
        → PlayWaited w' pid out
        → PlayWaited w pid out
    PlayWaited-earlier w w' pid out f c p = record {
      same_files = p.same_files ∙ f;
      reaped = elim p.reaped [
        | inl gone ↦ inl (gone ∙ ap (remove pid) c)
        | inr (failed, alive) ↦ inr (failed, alive ∙ c)
      ];
    }

    below_zero :
        (r pid : ℤ) → eq_int r pid ≡ false → ltb_ℤ r (pos 0) ≡ true → eq_int r (pos 0) ≡ false
    below_zero r pid h k = ground arith

    failed-PlayWaited :
        (w : W) (pid : ℤ)
        → ltb_ℤ (pos 0) pid ≡ true
        → let (waited, w') = os.waitpid_now w pid in
          eq_int waited.result pid ≡ false
          → ltb_ℤ waited.result (pos 0) ≡ true
          → PlayWaited w pid ((if is_echild waited.errno then ok else err_child_process), w')
    failed-PlayWaited w pid p other failed =
        let (waited, w') = os.waitpid_now w pid in
        record {
          same_files = posix.waitpid_files w pid;
          reaped = elim (Bool-cases (is_echild waited.errno)) [
            | inl e ↦
                let minus =
                  posix.waitpid_result w pid p other (below_zero waited.result pid other failed) in
                let (gone, same) = posix.waitpid_none w pid p minus e in
                inl (same ∙ sym (remove_absent pid (children w) gone))
            | inr e ↦ rw e (inr (λ h. cc h, posix.waitpid_waits w pid p other))
          ];
        }

    poll_playback-PlayWaited :
        (fuel : ℕ) (w : W) (pid : ℤ) (elapsed timeout_ms : ℕ) (out : Status × W)
        → ltb_ℤ (pos 0) pid ≡ true
        → poll_playback os fuel w pid elapsed timeout_ms ≡ some out
        → PlayWaited w pid out
    unfolding poll_playback
    poll_playback-PlayWaited zero w pid elapsed timeout_ms out p = λ h. cc h
    poll_playback-PlayWaited (suc fuel) w pid elapsed timeout_ms out p =
        let (waited, w') = os.waitpid_now w pid in
        let later = os.nanosleep w' 50 in
        let slept = posix.nanosleep_quiet w' 50 in
        elim (Bool-cases (ltb elapsed timeout_ms)) [
          | inr late ↦
              rw (late, poll_playback)
                (λ h.
                  some_keeps (PlayWaited w pid) (err_child_process, w) out h
                    (record { same_files = refl; reaped = inr (λ e. cc e, refl) }))
          | inl early ↦
              rw (early, poll_playback)
                (elim (Bool-cases (eq_int waited.result pid)) [
                  | inl reaped ↦
                      rw (reaped, poll_playback)
                        (λ h.
                          some_keeps (PlayWaited w pid)
                            ((if is_clean waited.status then ok else err_child_process), w') out h
                            (record {
                              same_files = posix.waitpid_files w pid;
                              reaped = inl (posix.waitpid_reaps w pid p reaped);
                            }))
                  | inr other ↦
                      rw (other, poll_playback)
                        (elim (Bool-cases (ltb_ℤ waited.result (pos 0))) [
                          | inl failed ↦
                              rw (failed, poll_playback)
                                (λ h.
                                  some_keeps (PlayWaited w pid)
                                    ((if is_echild waited.errno then ok else err_child_process), w')
                                    out h (failed-PlayWaited w pid p other failed))
                          | inr alive ↦
                              rw (alive, poll_playback)
                                (λ h.
                                  PlayWaited-earlier w later pid out
                                    (slept.same_files ∙ posix.waitpid_files w pid)
                                    (slept.same_children ∙ posix.waitpid_waits w pid p other)
                                    (poll_playback-PlayWaited fuel later pid (elapsed + 50)
                                      timeout_ms out p h))
                        ])
                ])
        ]

    pub playback_wait-PlayWaited :
        (w : W) (pid : ℤ) (timeout_ms : ℕ)
        → ltb_ℤ (pos 0) pid ≡ true
        → PlayWaited w pid (playback_wait os w pid timeout_ms)
    playback_wait-PlayWaited w pid timeout_ms p =
        poll_playback-PlayWaited (suc (suc (timeout_ms / 50))) w pid 0 timeout_ms
          (playback_wait os w pid timeout_ms) p (playback_wait-ends w pid timeout_ms)
