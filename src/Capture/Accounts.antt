-- ===== src/Capture/Accounts.antt =====
-- What the capture owns of the system's tables: with the file descriptors and children that were
-- there before it, an active capture has its own two, and no other.
use shiori.Base.{◌≡◌, ◌∙◌, true, false}
use shiori.Base.Int.{pos, ltb_ℤ}
use shiori.Os.Table.{Table, add}
use shiori.Os.Posix.{Quiet}
use shiori.Capture.{Capture}

module _ {W : Type 0} (files children : W → Table) (files0 children0 : Table) where
  -- `files0` and `children0` are the tables without the capture.
  pub record Balanced (capture : Capture) (w : W) : Type 0 where
    pub idle : capture.active ≡ false → (files w ≡ files0) × (children w ≡ children0)
    pub owns :
        capture.active ≡ true
        → (files w ≡ add capture.stdout_fd files0) × (children w ≡ add capture.child_pid children0)
    -- Its numbers are valid ones, and not of the others.
    pub fd_valid : capture.active ≡ true → ltb_ℤ capture.stdout_fd (pos 0) ≡ false
    pub pid_valid : capture.active ≡ true → ltb_ℤ (pos 0) capture.child_pid ≡ true
    pub fd_own : capture.active ≡ true → files0 capture.stdout_fd ≡ false
    pub pid_own : capture.active ≡ true → children0 capture.child_pid ≡ false

  pub Balanced-Quiet :
      (capture : Capture) (w w' : W)
      → Quiet files children w w'
      → Balanced capture w
      → Balanced capture w'
  Balanced-Quiet capture w w' q b = record {
    idle = λ e. (q.same_files ∙ (b.idle e).0, q.same_children ∙ (b.idle e).1);
    owns = λ e. (q.same_files ∙ (b.owns e).0, q.same_children ∙ (b.owns e).1);
    fd_valid = b.fd_valid;
    pid_valid = b.pid_valid;
    fd_own = b.fd_own;
    pid_own = b.pid_own;
  }

  pub Balanced-idle :
      (capture : Capture) (w : W)
      → capture.active ≡ false
      → files w ≡ files0
      → children w ≡ children0
      → Balanced capture w
  Balanced-idle capture w off f c = record {
    idle = λ _. (f, c);
    owns = λ e. cc (off, e);
    fd_valid = λ e. cc (off, e);
    pid_valid = λ e. cc (off, e);
    fd_own = λ e. cc (off, e);
    pid_own = λ e. cc (off, e);
  }
