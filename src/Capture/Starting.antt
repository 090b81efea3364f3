-- ===== src/Capture/Starting.antt =====
-- What `assistantd_audio_capture_start` and `assistantd_audio_capture_read` leave of the tables.
use shiori.Base.{
  ℕ, ◌≡◌, refl, sym, ◌∙◌, ap, true, false, Option, none, some, List, inl, inr, Bool-cases, if_both,
  ◌==◌,
}
use shiori.Base.Int.{ℤ, pos, ltb_ℤ, eq_int}
use shiori.Status.{Status}
use shiori.Status.Flow.{case_ok_both}
use shiori.Config.{Config, is_empty}
use shiori.Os.{Os, sigterm, is_retry}
use shiori.Os.Table.{Table, add, remove, remove-add, remove_comm, add-other}
use shiori.Os.Posix.{IsPosix, Uninterrupted}
use shiori.Capture.{
  Capture, capture_reset, arecord_path, capture_child, abandon, adopt, spawn, reap_child,
  audio_capture_start, audio_capture_read,
}
use shiori.Capture.Accounts.{Balanced, Balanced-idle, Balanced-Quiet}
use shiori.Capture.Stop.{reap_child-Balanced}

module _ {W : Type 0} (os : Os W) (files children : W → Table) (posix : IsPosix os files children)
    (calm : Uninterrupted os) (files0 children0 : Table) where
  abbrev Kept : Status × (Capture × W) → Type 0
  Kept (status, (capture, w)) = Balanced files children files0 children0 capture w

  abbrev KeptRead : Status × ((Option (List ℕ) × ℕ) × (Capture × W)) → Type 0
  KeptRead (status, (out, (capture, w))) = Balanced files children files0 children0 capture w

  -- Giving up closes the read end and reaps the child.
  abandon-Balanced :
      (w : W) (capture : Capture) (pid fd : ℤ)
      → capture.active ≡ false
      → files w ≡ add fd files0
      → children w ≡ add pid children0
      → files0 fd ≡ false
      → children0 pid ≡ false
      → ltb_ℤ (pos 0) pid ≡ true
      → Balanced files children files0 children0 capture (abandon os w pid fd)
  unfolding abandon
  abandon-Balanced w capture pid fd off f c f0 c0 p =
      let w1 = (os.kill w pid sigterm).1 in
      let quiet = posix.kill_quiet w pid sigterm in
      let blocked_files = posix.waitpid_blocks_files w1 pid in
      let blocked = posix.waitpid_blocks w1 pid p (calm w1 pid) in
      let (closed, same) = posix.close_removes (os.waitpid w1 pid).1 fd in
      Balanced-idle files children files0 children0 capture (abandon os w pid fd) off
        (closed ∙ ap (remove fd) (blocked_files ∙ quiet.same_files ∙ f) ∙ remove-add fd files0 f0)
        (same ∙ blocked ∙ ap (remove pid) (quiet.same_children ∙ c) ∙ remove-add pid children0 c0)

  adopt-Balanced :
      (w : W) (capture : Capture) (pid fd : ℤ)
      → capture.active ≡ false
      → files w ≡ add fd files0
      → children w ≡ add pid children0
      → files0 fd ≡ false
      → children0 pid ≡ false
      → ltb_ℤ fd (pos 0) ≡ false
      → ltb_ℤ (pos 0) pid ≡ true
      → Kept (adopt os w capture pid fd)
  unfolding adopt
  adopt-Balanced w capture pid fd off f c f0 c0 valid_fd valid_pid =
      let (flags, w1) = os.get_flags w fd in
      let (result, w2) = os.set_nonblocking w1 fd flags in
      let got = posix.get_flags_quiet w fd in
      let put = posix.set_nonblocking_quiet w1 fd flags in
      let f1 = got.same_files ∙ f in
      let c1 = got.same_children ∙ c in
      let f2 = put.same_files ∙ f1 in
      let c2 = put.same_children ∙ c1 in
      elim (Bool-cases (ltb_ℤ flags (pos 0))) [
        | inl e ↦ rw (e, adopt) (abandon-Balanced w1 capture pid fd off f1 c1 f0 c0 valid_pid)
        | inr e ↦ elim (Bool-cases (ltb_ℤ result (pos 0))) [
          | inl g ↦ rw (e, g, adopt) (abandon-Balanced w2 capture pid fd off f2 c2 f0 c0 valid_pid)
          | inr g ↦
              rw (e, g, adopt)
                (record {
                  idle = λ h. cc h;
                  owns = λ _. (f2, c2);
                  fd_valid = λ _. valid_fd;
                  pid_valid = λ _. valid_pid;
                  fd_own = λ _. f0;
                  pid_own = λ _. c0;
                })
        ]
      ]

  spawn-Balanced :
      (w : W) (capture : Capture) (device : List ℕ) (a b : ℤ)
      → capture.active ≡ false
      → files w ≡ add b (add a files0)
      → children w ≡ children0
      → files0 a ≡ false
      → files0 b ≡ false
      → eq_int b a ≡ false
      → ltb_ℤ a (pos 0) ≡ false
      → Kept (spawn os w capture device a b)
  unfolding spawn
  spawn-Balanced w capture device a b off f c fa fb apart valid_fd =
      let child = capture_child os device a b in
      let (pid, w1) = os.fork w child in
      let absent = add-other a b files0 fb apart in
      elim (Bool-cases (ltb_ℤ pid (pos 0))) [
        | inl e ↦
            let failed = posix.fork_fails w child e in
            let (closed_a, same_a) = posix.close_removes w1 a in
            let (closed_b, same_b) = posix.close_removes (os.close w1 a) b in
            rw (e, spawn)
              (Balanced-idle files children files0 children0 capture _ off
                (closed_b
                  ∙ ap (remove b) (closed_a ∙ ap (remove a) (failed.same_files ∙ f))
                  ∙ remove_comm b a (add b (add a files0))
                  ∙ ap (remove a) (remove-add b (add a files0) absent)
                  ∙ remove-add a files0 fa)
                (same_b ∙ same_a ∙ failed.same_children ∙ c))
        | inr e ↦
            let (positive, fresh, added, same) = posix.fork_adds w child e in
            let (closed, kept) = posix.close_removes w1 b in
            rw (e, spawn)
              (adopt-Balanced (os.close w1 b) capture pid a off
                (closed ∙ ap (remove b) (same ∙ f) ∙ remove-add b (add a files0) absent)
                (kept ∙ added ∙ ap (add pid) c) fa (sym (ap (λ t. t pid) c) ∙ fresh) valid_fd
                positive)
      ]

  -- Starting keeps the accounts, whatever call fails: a failure leaves no descriptor of the pipe open
  -- and no child behind.
  pub audio_capture_start-Balanced :
      (w : W) (capture : Capture) (config : Config)
      → Balanced files children files0 children0 capture w
      → let (status, (capture', w')) = audio_capture_start os w capture config in
        Balanced files children files0 children0 capture' w'
  unfolding audio_capture_start
  audio_capture_start-Balanced w capture config b =
      let (access_result, w1) = os.access_x w arecord_path in
      let (pipe_result, ((read_end, write_end), w2)) = os.pipe w1 in
      let looked = posix.access_quiet w arecord_path in
      elim (Bool-cases (is_empty config.audio_capture_device)) [
        | inl e ↦ rw (e, audio_capture_start) b
        | inr e ↦ elim (Bool-cases capture.active) [
          | inl on ↦ simp (e, on, audio_capture_start) b
          | inr off ↦
              let f1 = looked.same_files ∙ (b.idle off).0 in
              let c1 = looked.same_children ∙ (b.idle off).1 in
              elim (Bool-cases (eq_int access_result (pos 0))) [
                | inr missing ↦
                    rw (e, off, missing, audio_capture_start)
                      (Balanced-idle files children files0 children0 capture_reset w1 refl f1 c1)
                | inl found ↦ elim (Bool-cases (eq_int pipe_result (pos 0))) [
                  | inr missing ↦
                      let failed = posix.pipe_fails w1 missing in
                      rw (e, off, found, missing, audio_capture_start)
                        (Balanced-idle files children files0 children0 capture_reset w2 refl
                          (failed.same_files ∙ f1) (failed.same_children ∙ c1))
                  | inl opened ↦
                      let (valid, fa, fb, apart, added, same) = posix.pipe_opens w1 opened in
                      rw (e, off, found, opened, audio_capture_start)
                        (spawn-Balanced w2 capture_reset config.audio_capture_device read_end
                          write_end refl (added ∙ ap (λ t. add write_end (add read_end t)) f1)
                          (same ∙ c1) (sym (ap (λ t. t read_end) f1) ∙ fa)
                          (sym (ap (λ t. t write_end) f1) ∙ fb) apart valid)
                ]
              ]
        ]
      ]

  -- Reading keeps the accounts: a capture that the end of its child makes inactive has closed its
  -- descriptor.
  pub audio_capture_read-Balanced :
      (w : W) (capture : Capture) (buffer : Option (List ℕ)) (capacity : ℕ)
      → Balanced files children files0 children0 capture w
      → let (status, (out, (capture', w'))) = audio_capture_read os w capture buffer capacity in
        Balanced files children files0 children0 capture' w'
  unfolding audio_capture_read
  audio_capture_read-Balanced w capture none capacity b = b
  audio_capture_read-Balanced w capture (some buffer) capacity b =
      let (r, w') = os.read w capture.stdout_fd capacity in
      let arrived = posix.read_quiet w capture.stdout_fd capacity in
      let after = Balanced-Quiet files children files0 children0 capture w w' arrived b in
      elim (Bool-cases (capacity == 0)) [
        | inl e ↦ rw (e, audio_capture_read) b
        | inr e ↦ elim (Bool-cases capture.active) [
          | inr off ↦ simp (e, off, audio_capture_read) b
          | inl on ↦
              let reaped =
                reap_child-Balanced os files children posix calm files0 children0 w' capture on
                  after in
              simp (e, on, b.fd_valid on, b.pid_valid on, audio_capture_read)
                (if_both KeptRead (ltb_ℤ (pos 0) r.count) _ _ (λ _. after)
                  (λ _.
                    if_both KeptRead (eq_int r.count (pos 0)) _ _ (λ _. reaped)
                      (λ _.
                        if_both KeptRead (is_retry r.errno) _ _
                          (λ _.
                            case_ok_both KeptRead (reap_child os w' capture).0 _ _ reaped
                              (λ _. reaped))
                          (λ _. after))))
        ]
      ]
