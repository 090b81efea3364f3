-- ===== src/Playback/Reap.antt =====
-- Playing a file leaves no child behind.
use shiori.Base.{
  ℕ, ◌≡◌, refl, sym, ◌∙◌, ap, subst, true, false, none, some, Option, List, inl, inr, ◌⊎◌,
  Bool-cases,
}
use shiori.Base.Int.{ℤ, pos, ltb_ℤ, eq_int}
use shiori.Status.{Status, ok, err_child_process}
use shiori.Status.Flow.{case_ok_both, case_ok-failed}
use shiori.Config.{Config}
use shiori.Os.{Os, sigterm}
use shiori.Os.Table.{Table, add, add_has, remove, remove-add, remove_absent}
use shiori.Os.Posix.{IsPosix, Uninterrupted}
use shiori.Playback.{playback_child, playback_wait, give_up, play_wav}
use shiori.Playback.Wait.{playback_wait-PlayWaited}

module _ {W : Type 0} (os : Os W) (files children : W → Table) (posix : IsPosix os files children)
    (calm : Uninterrupted os) where
  -- The tables are as they were in a world.
  pub record Restored (w0 w : W) : Type 0 where
    pub same_files : files w ≡ files w0
    pub same_children : children w ≡ children w0

  module _
      (alive_killed : (w : W) (pid : ℤ)
        → children w pid ≡ true
        → eq_int (os.kill w pid sigterm).0.0 (pos 0) ≡ true)
      (w0 : W) where
    -- Whether the child was reaped in the wait or is alive.
    give_up-Restored :
        (w : W) (pid : ℤ)
        → ltb_ℤ (pos 0) pid ≡ true
        → children w0 pid ≡ false
        → files w ≡ files w0
        → (children w ≡ children w0) ⊎ (children w ≡ add pid (children w0))
        → Restored w0 (give_up os w pid)
    unfolding give_up
    give_up-Restored w pid p fresh f c =
        let ((result, errno), w') = os.kill w pid sigterm in
        let quiet = posix.kill_quiet w pid sigterm in
        let blocked_files = posix.waitpid_blocks_files w' pid in
        let blocked = posix.waitpid_blocks w' pid p (calm w' pid) in
        let gone : remove pid (children w) ≡ children w0 = elim c [
          | inl e ↦ ap (remove pid) e ∙ remove_absent pid (children w0) fresh
          | inr e ↦ ap (remove pid) e ∙ remove-add pid (children w0) fresh
        ] in
        elim (Bool-cases (eq_int result (pos 0))) [
          | inl e ↦
              rw (e, give_up)
                (record {
                  same_files = blocked_files ∙ quiet.same_files ∙ f;
                  same_children = blocked ∙ ap (remove pid) quiet.same_children ∙ gone;
                })
          | inr e ↦
              rw (e, give_up)
                (record {
                  same_files = quiet.same_files ∙ f;
                  same_children = elim c [
                    | inl g ↦ quiet.same_children ∙ g
                    | inr g ↦
                        cc (e, alive_killed w pid (ap (λ t. t pid) g ∙ add_has pid (children w0)))
                  ];
                })
        ]

    -- Playing a file, whether aplay ends well, fails, or is stopped at the timeout, leaves the
    -- descriptors and the children as they were. It is given what POSIX documents of the calls, that
    -- no handler interrupts a blocking `waitpid`, and that a signal to a child of the assistant that
    -- it has not reaped is not refused.
    pub play_wav-Restored :
        (config : Config) (wav_path : Option (List ℕ))
        → Restored w0 (play_wav os w0 config wav_path).1
    unfolding play_wav
    play_wav-Restored config none = record { same_files = refl; same_children = refl }
    play_wav-Restored config (some wav_path) =
        let child = playback_child os config.audio_playback_device wav_path in
        let (pid, w1) = os.fork w0 child in
        let (result, w2) = playback_wait os w1 pid 30000 in
        elim (Bool-cases (ltb_ℤ pid (pos 0))) [
          | inl e ↦
              let failed = posix.fork_fails w0 child e in
              rw (e, play_wav)
                (record { same_files = failed.same_files; same_children = failed.same_children })
          | inr e ↦
              let (positive, fresh, added, same) = posix.fork_adds w0 child e in
              let waited = playback_wait-PlayWaited os files children posix w1 pid 30000 positive in
              let f = waited.same_files ∙ same in
              let reaped : remove pid (children w1) ≡ children w0 =
                ap (remove pid) added ∙ remove-add pid (children w0) fresh in
              rw (e, play_wav)
                (elim waited.reaped [
                  | inl gone ↦
                      case_ok_both (λ (t : Status × W). Restored w0 t.1) result (ok, w2)
                        (λ _. (err_child_process, give_up os w2 pid))
                        (record { same_files = f; same_children = gone ∙ reaped })
                        (λ _. give_up-Restored w2 pid positive fresh f (inl (gone ∙ reaped)))
                  | inr (failed, alive) ↦
                      subst (λ (t : Status × W). Restored w0 t.1)
                        (sym (
                          case_ok-failed result (ok, w2)
                            (λ _. (err_child_process, give_up os w2 pid)) failed))
                        (give_up-Restored w2 pid positive fresh f (inr (alive ∙ added)))
                ])
        ]
