-- ===== src/Capture/Wait.antt =====
-- The loop of `assistantd_capture_wait_for_exit` ends.
use shiori.Base.{
  ℕ, zero, suc, ◌+◌, ◌*◌, ◌/◌, ◌≤◌, ◌<◌, ◌≡◌, refl, arith, Bool, true, false, some, ltb, inl, inr,
  Bool-cases, ltb→lt, some_keeps, ◌∙◌, sym, ap,
}
use shiori.Base.Int.{ℤ, pos, negsuc, ltb_ℤ, eq_int}
use shiori.Os.{Os, is_echild}
use shiori.Os.Table.{Table, remove, remove_absent}
use shiori.Os.Posix.{IsPosix}
use shiori.Capture.{poll_exit, wait_for_exit}

module _ {W : Type 0} (os : Os W) where
  -- With a unit of fuel for each poll that the timeout leaves and one more, the loop ends.
  pub poll_exit-ends :
      (fuel : ℕ) (w : W) (pid : ℤ) (waited_ms timeout_ms : ℕ)
      → timeout_ms + 20 ≤ waited_ms + 20 * fuel
      → waited_ms < timeout_ms + 20
      → (out : Bool × W) × (poll_exit os fuel w pid waited_ms timeout_ms ≡ some out)
  unfolding poll_exit
  poll_exit-ends zero w pid waited_ms timeout_ms h k = absurd (omega (arith, h, k))
  poll_exit-ends (suc fuel) w pid waited_ms timeout_ms h k =
      let (waited, w') = os.waitpid_now w pid in
      elim (Bool-cases (ltb waited_ms timeout_ms)) [
        | inr late ↦ ((false, w), rw (late, poll_exit) refl)
        | inl early ↦
            rw (early, poll_exit)
              (elim (Bool-cases (eq_int waited.result pid)) [
                | inl reaped ↦ ((true, w'), rw (reaped, poll_exit) refl)
                | inr other ↦
                    rw (other, poll_exit)
                      (elim (Bool-cases (eq_int waited.result (negsuc 0))) [
                        | inl failed ↦ ((is_echild waited.errno, w'), rw (failed, poll_exit) refl)
                        | inr alive ↦
                            rw (alive, poll_exit)
                              (poll_exit-ends fuel (os.nanosleep w' 20) pid (waited_ms + 20)
                                timeout_ms (omega (arith, h))
                                (omega (arith, ltb→lt waited_ms timeout_ms early)))
                      ])
              ])
      ]

  -- `wait_for_exit` never ends for want of fuel: for every timeout, it gives what its loop returns.
  pub wait_for_exit-ends :
      (w : W) (pid : ℤ) (timeout_ms : ℕ)
      → ltb_ℤ (pos 0) pid ≡ true
      → poll_exit os (suc (suc (timeout_ms / 20))) w pid 0 timeout_ms
        ≡ some (wait_for_exit os w pid timeout_ms)
  unfolding wait_for_exit
  wait_for_exit-ends w pid timeout_ms h =
      let (out, e) =
        poll_exit-ends (suc (suc (timeout_ms / 20))) w pid 0 timeout_ms (omega arith)
          (omega arith) in
      rw (h, e) refl

  module _ (files children : W → Table) (posix : IsPosix os files children) where
    -- What the wait has done: the child is reaped where the answer is yes.
    pub record Polled (w : W) (pid : ℤ) (out : Bool × W) : Type 0 where
      pub same_files : files out.1 ≡ files w
      pub reaped : out.0 ≡ true → children out.1 ≡ remove pid (children w)
      pub alive : out.0 ≡ false → children out.1 ≡ children w

    -- To wait from a world that a quiet call left is to wait from the world before it.
    Polled-earlier :
        (w w' : W) (pid : ℤ) (out : Bool × W)
        → files w' ≡ files w
        → children w' ≡ children w
        → Polled w' pid out
        → Polled w pid out
    Polled-earlier w w' pid out f c p = record {
      same_files = p.same_files ∙ f;
      reaped = λ e. p.reaped e ∙ ap (remove pid) c;
      alive = λ e. p.alive e ∙ c;
    }

    failed-Polled :
        (w : W) (pid : ℤ)
        → ltb_ℤ (pos 0) pid ≡ true
        → eq_int (os.waitpid_now w pid).0.result pid ≡ false
        → eq_int (os.waitpid_now w pid).0.result (negsuc 0) ≡ true
        → Polled w pid (is_echild (os.waitpid_now w pid).0.errno, (os.waitpid_now w pid).1)
    failed-Polled w pid p other failed = record {
      same_files = posix.waitpid_files w pid;
      reaped = λ e.
          let (gone, same) = posix.waitpid_none w pid p failed e in
          same ∙ sym (remove_absent pid (children w) gone);
      alive = λ _. posix.waitpid_waits w pid p other;
    }

    poll_exit-Polled :
        (fuel : ℕ) (w : W) (pid : ℤ) (waited_ms timeout_ms : ℕ) (out : Bool × W)
        → ltb_ℤ (pos 0) pid ≡ true
        → poll_exit os fuel w pid waited_ms timeout_ms ≡ some out
        → Polled w pid out
    unfolding poll_exit
    poll_exit-Polled zero w pid waited_ms timeout_ms out p = λ h. cc h
    poll_exit-Polled (suc fuel) w pid waited_ms timeout_ms out p =
        let (waited, w') = os.waitpid_now w pid in
        let later = os.nanosleep w' 20 in
        let slept = posix.nanosleep_quiet w' 20 in
        elim (Bool-cases (ltb waited_ms timeout_ms)) [
          | inr late ↦
              rw (late, poll_exit)
                (λ h.
                  some_keeps (Polled w pid) (false, w) out h
                    (record { same_files = refl; reaped = λ e. cc e; alive = λ _. refl }))
          | inl early ↦
              rw (early, poll_exit)
                (elim (Bool-cases (eq_int waited.result pid)) [
                  | inl reaped ↦
                      rw (reaped, poll_exit)
                        (λ h.
                          some_keeps (Polled w pid) (true, w') out h
                            (record {
                              same_files = posix.waitpid_files w pid;
                              reaped = λ _. posix.waitpid_reaps w pid p reaped;
                              alive = λ e. cc e;
                            }))
                  | inr other ↦
                      rw (other, poll_exit)
                        (elim (Bool-cases (eq_int waited.result (negsuc 0))) [
                          | inl failed ↦
                              rw (failed, poll_exit)
                                (λ h.
                                  some_keeps (Polled w pid) (is_echild waited.errno, w') out h
                                    (failed-Polled w pid p other failed))
                          | inr alive ↦
                              rw (alive, poll_exit)
                                (λ h.
                                  Polled-earlier w later pid out
                                    (slept.same_files ∙ posix.waitpid_files w pid)
                                    (slept.same_children ∙ posix.waitpid_waits w pid p other)
                                    (poll_exit-Polled fuel later pid (waited_ms + 20) timeout_ms out
                                      p h))
                        ])
                ])
        ]

    pub wait_for_exit-Polled :
        (w : W) (pid : ℤ) (timeout_ms : ℕ)
        → ltb_ℤ (pos 0) pid ≡ true
        → Polled w pid (wait_for_exit os w pid timeout_ms)
    wait_for_exit-Polled w pid timeout_ms p =
        poll_exit-Polled (suc (suc (timeout_ms / 20))) w pid 0 timeout_ms
          (wait_for_exit os w pid timeout_ms) p (wait_for_exit-ends w pid timeout_ms p)
