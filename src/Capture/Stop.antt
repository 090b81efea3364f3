-- ===== src/Capture/Stop.antt =====
-- What `assistantd_audio_capture_stop` and the reaping of a dead child leave.
use shiori.Base.{◌≡◌, refl, sym, ◌∙◌, ap, arith, Bool, true, false, not, ◌&&◌, inl, inr, Bool-cases}
use shiori.Base.Int.{ℤ, pos, negsuc, ltb_ℤ, eq_int}
use shiori.Os.{Os, sigterm, sigkill, is_echild}
use shiori.Os.Table.{Table, remove, remove-add, remove_absent}
use shiori.Os.Posix.{IsPosix, Uninterrupted}
use shiori.Capture.{Capture, close_fd, wait_for_exit, terminate, reap_child, audio_capture_stop}
use shiori.Capture.Wait.{wait_for_exit-Polled}
use shiori.Capture.Accounts.{Balanced, Balanced-idle, Balanced-Quiet}

only_echild : {b e : Bool} → b ≡ true → (b && not e) ≡ false → e ≡ true
only_echild {b} {e} h k = ground arith

not_pid : (r pid : ℤ) → eq_int r (pos 0) ≡ true → ltb_ℤ (pos 0) pid ≡ true → eq_int r pid ≡ false
not_pid r pid h p = ground arith

failed_pid :
    (r pid : ℤ) (e : Bool)
    → (eq_int r (negsuc 0) && not e) ≡ true
    → ltb_ℤ (pos 0) pid ≡ true
    → eq_int r pid ≡ false
failed_pid r pid e h p = ground arith

module _ {W : Type 0} (os : Os W) (files children : W → Table) (posix : IsPosix os files children)
    (calm : Uninterrupted os) where
  -- After the signals and the waits there is no such child, and the files are as they were.
  record Reaped (w : W) (pid : ℤ) (w' : W) : Type 0 where
    pub same_files : files w' ≡ files w
    pub reaped : children w' ≡ remove pid (children w)

  terminate-Reaped :
      (w : W) (pid : ℤ) → ltb_ℤ (pos 0) pid ≡ true → Reaped w pid (terminate os w pid).1
  unfolding terminate
  terminate-Reaped w pid p =
      let w1 = (os.kill w pid sigterm).1 in
      let (exited, w2) = wait_for_exit os w1 pid 1000 in
      let w3 = (os.kill w2 pid sigkill).1 in
      let polled = wait_for_exit-Polled os files children posix w1 pid 1000 p in
      let termed = posix.kill_quiet w pid sigterm in
      let killed = posix.kill_quiet w2 pid sigkill in
      let blocked_files = posix.waitpid_blocks_files w3 pid in
      let blocked = posix.waitpid_blocks w3 pid p (calm w3 pid) in
      elim (Bool-cases exited) [
        | inl e ↦
            rw (e, terminate)
              (record {
                same_files = polled.same_files ∙ termed.same_files;
                reaped = polled.reaped e ∙ ap (remove pid) termed.same_children;
              })
        | inr e ↦
            rw (e, terminate)
              (record {
                same_files =
                    blocked_files ∙ killed.same_files ∙ polled.same_files ∙ termed.same_files;
                reaped =
                    blocked
                    ∙ ap (remove pid)
                        (killed.same_children ∙ polled.alive e ∙ termed.same_children);
              })
      ]

  module _ (files0 children0 : Table) where
    -- Stopping, with whatever signals fail, closes the descriptor and reaps the child of an active
    -- capture, so that the tables are again as without the capture, and the struct is inactive.
    pub audio_capture_stop-Balanced :
        (w : W) (capture : Capture)
        → Balanced files children files0 children0 capture w
        → let (status, (capture', w')) = audio_capture_stop os w capture in
          (capture'.active ≡ false) × (files w' ≡ files0) × (children w' ≡ children0)
    unfolding audio_capture_stop close_fd
    audio_capture_stop-Balanced w capture b = elim (Bool-cases capture.active) [
      | inr off ↦ rw (off, audio_capture_stop) (refl, (b.idle off).0, (b.idle off).1)
      | inl on ↦
          let fd = b.fd_valid on in
          let pid = b.pid_valid on in
          let w1 = os.close w capture.stdout_fd in
          let (closed, same) = posix.close_removes w capture.stdout_fd in
          let reaped = terminate-Reaped w1 capture.child_pid pid in
          rw (on, fd, pid, audio_capture_stop)
            (
              refl,
              reaped.same_files
                  ∙ closed
                  ∙ ap (remove capture.stdout_fd) (b.owns on).0
                  ∙ remove-add capture.stdout_fd files0 (b.fd_own on),
              reaped.reaped
                  ∙ ap (remove capture.child_pid) (same ∙ (b.owns on).1)
                  ∙ remove-add capture.child_pid children0 (b.pid_own on),
            )
    ]

    -- A waitpid that did not reap the child.
    waited-Balanced :
        (w : W) (capture : Capture)
        → capture.active ≡ true
        → Balanced files children files0 children0 capture w
        → eq_int (os.waitpid_now w capture.child_pid).0.result capture.child_pid ≡ false
        → Balanced files children files0 children0 capture (os.waitpid_now w capture.child_pid).1
    waited-Balanced w capture on b e =
        Balanced-Quiet files children files0 children0 capture w
          (os.waitpid_now w capture.child_pid).1
          (record {
            same_files = posix.waitpid_files w capture.child_pid;
            same_children = posix.waitpid_waits w capture.child_pid (b.pid_valid on) e;
          })
          b

    -- The waitpid of `reap_child` gave neither 0 nor another error than ECHILD.
    buried_lem :
        (w : W) (capture : Capture)
        → capture.active ≡ true
        → Balanced files children files0 children0 capture w
        → let (waited, w') = os.waitpid_now w capture.child_pid in
          eq_int waited.result (pos 0) ≡ false
          → (eq_int waited.result (negsuc 0) && not (is_echild waited.errno)) ≡ false
          → children w' ≡ children0
    buried_lem w capture on b alive failed =
        let (waited, w') = os.waitpid_now w capture.child_pid in
        elim (Bool-cases (eq_int waited.result capture.child_pid)) [
          | inl e ↦
              posix.waitpid_reaps w capture.child_pid (b.pid_valid on) e
              ∙ ap (remove capture.child_pid) (b.owns on).1
              ∙ remove-add capture.child_pid children0 (b.pid_own on)
          | inr e ↦
              let minus = posix.waitpid_result w capture.child_pid (b.pid_valid on) e alive in
              let echild = only_echild minus failed in
              let (gone, same) =
                posix.waitpid_none w capture.child_pid (b.pid_valid on) minus echild in
              same
              ∙ sym (remove_absent capture.child_pid (children w) gone)
              ∙ ap (remove capture.child_pid) (b.owns on).1
              ∙ remove-add capture.child_pid children0 (b.pid_own on)
        ]

    pub reap_child-Balanced :
        (w : W) (capture : Capture)
        → capture.active ≡ true
        → Balanced files children files0 children0 capture w
        → let (status, (capture', w')) = reap_child os w capture in
          Balanced files children files0 children0 capture' w'
    unfolding reap_child close_fd
    reap_child-Balanced w capture on b =
        let (waited, w') = os.waitpid_now w capture.child_pid in
        let pid = b.pid_valid on in
        elim (Bool-cases (eq_int waited.result (pos 0))) [
          | inl e ↦
              rw (pid, e, reap_child)
                (waited-Balanced w capture on b (not_pid waited.result capture.child_pid e pid))
          | inr e ↦
              elim (Bool-cases (eq_int waited.result (negsuc 0) && not (is_echild waited.errno))) [
                | inl f ↦
                    rw (pid, e, f, reap_child)
                      (waited-Balanced w capture on b
                        (failed_pid waited.result capture.child_pid (is_echild waited.errno) f pid))
                | inr f ↦
                    let (closed, same) = posix.close_removes w' capture.stdout_fd in
                    rw (pid, e, f, b.fd_valid on, reap_child)
                      (Balanced-idle files children files0 children0
                        (record { child_pid = negsuc 0; stdout_fd = negsuc 0; active = false })
                        (os.close w' capture.stdout_fd) refl
                        (closed
                          ∙ ap (remove capture.stdout_fd)
                              (posix.waitpid_files w capture.child_pid ∙ (b.owns on).0)
                          ∙ remove-add capture.stdout_fd files0 (b.fd_own on))
                        (same ∙ buried_lem w capture on b e f))
              ]
        ]
