-- ===== src/Os/Posix.antt =====
-- What POSIX and Linux document of the calls in Os, where the ends of pipes that the assistant has open
-- and the children it has not reaped are observed as two sets.
use shiori.Base.{ℕ, List, ◌≤◌, ◌≡◌, true, false, length, refl, ◌∙◌}
use shiori.Base.Int.{ℤ, pos, negsuc, pos_part, ltb_ℤ, eq_int}
use shiori.Os.{Os, is_echild, is_interrupted}
use shiori.Os.Table.{Table, add, remove}

-- The call changed neither set.
pub record Quiet {W : Type 0} (files children : W → Table) (w w' : W) : Type 0 where
  pub same_files : files w' ≡ files w
  pub same_children : children w' ≡ children w

pub Quiet-refl : {W : Type 0} (files children : W → Table) (w : W) → Quiet files children w w
Quiet-refl files children w = record { same_files = refl; same_children = refl }

pub Quiet-trans :
    {W : Type 0} (files children : W → Table) (u v w : W)
    → Quiet files children u v
    → Quiet files children v w
    → Quiet files children u w
Quiet-trans files children u v w q r = record {
  same_files = r.same_files ∙ q.same_files;
  same_children = r.same_children ∙ q.same_children;
}

pub record IsPosix {W : Type 0} (os : Os W) (files children : W → Table) : Type 0 where
  pub access_quiet : (w : W) (path : List ℕ) → Quiet files children w (os.access_x w path).1
  -- A pipe that fails opens nothing; one that is given has two new descriptors.
  pub pipe_fails :
      (w : W) → eq_int (os.pipe w).0 (pos 0) ≡ false → Quiet files children w (os.pipe w).1.1
  pub pipe_opens :
      (w : W)
      → eq_int (os.pipe w).0 (pos 0) ≡ true
      → let (a, b) = (os.pipe w).1.0 in
        (ltb_ℤ a (pos 0) ≡ false)
        × (files w a ≡ false)
        × (files w b ≡ false)
        × (eq_int b a ≡ false)
        × (files (os.pipe w).1.1 ≡ add b (add a (files w)))
        × (children (os.pipe w).1.1 ≡ children w)
  pub fork_fails :
      (w : W) (child : W → _ × W)
      → ltb_ℤ (os.fork w child).0 (pos 0) ≡ true
      → Quiet files children w (os.fork w child).1
  -- The parent is given a positive number, of no other child.
  pub fork_adds :
      (w : W) (child : W → _ × W)
      → ltb_ℤ (os.fork w child).0 (pos 0) ≡ false
      → let (pid, w') = os.fork w child in
        (ltb_ℤ (pos 0) pid ≡ true)
        × (children w pid ≡ false)
        × (children w' ≡ add pid (children w))
        × (files w' ≡ files w)
  pub close_removes :
      (w : W) (fd : ℤ)
      → (files (os.close w fd) ≡ remove fd (files w)) × (children (os.close w fd) ≡ children w)
  pub get_flags_quiet : (w : W) (fd : ℤ) → Quiet files children w (os.get_flags w fd).1
  pub set_nonblocking_quiet :
      (w : W) (fd flags : ℤ) → Quiet files children w (os.set_nonblocking w fd flags).1
  pub kill_quiet : (w : W) (pid : ℤ) (signal : _) → Quiet files children w (os.kill w pid signal).1
  pub nanosleep_quiet : (w : W) (ms : ℕ) → Quiet files children w (os.nanosleep w ms)
  pub read_quiet : (w : W) (fd : ℤ) (n : ℕ) → Quiet files children w (os.read w fd n).1
  pub read_stores :
      (w : W) (fd : ℤ) (n : ℕ)
      → let (r, _) = os.read w fd n in
        (pos_part r.count ≤ n) × (length r.data_read ≡ pos_part r.count)
  -- `waitpid` on a positive number gives that number, for a child that it has reaped, or 0, or -1;
  -- with ECHILD there is no such child.
  pub waitpid_files : (w : W) (pid : ℤ) → files (os.waitpid_now w pid).1 ≡ files w
  pub waitpid_result :
      (w : W) (pid : ℤ)
      → ltb_ℤ (pos 0) pid ≡ true
      → let r = (os.waitpid_now w pid).0 in
        eq_int r.result pid ≡ false
        → eq_int r.result (pos 0) ≡ false
        → eq_int r.result (negsuc 0) ≡ true
  pub waitpid_reaps :
      (w : W) (pid : ℤ)
      → ltb_ℤ (pos 0) pid ≡ true
      → eq_int (os.waitpid_now w pid).0.result pid ≡ true
      → children (os.waitpid_now w pid).1 ≡ remove pid (children w)
  pub waitpid_none :
      (w : W) (pid : ℤ)
      → ltb_ℤ (pos 0) pid ≡ true
      → eq_int (os.waitpid_now w pid).0.result (negsuc 0) ≡ true
      → is_echild (os.waitpid_now w pid).0.errno ≡ true
      → (children w pid ≡ false) × (children (os.waitpid_now w pid).1 ≡ children w)
  pub waitpid_waits :
      (w : W) (pid : ℤ)
      → ltb_ℤ (pos 0) pid ≡ true
      → eq_int (os.waitpid_now w pid).0.result pid ≡ false
      → children (os.waitpid_now w pid).1 ≡ children w
  -- Without WNOHANG it ends when there is no such child, or before that when a handler has run.
  pub waitpid_blocks_files : (w : W) (pid : ℤ) → files (os.waitpid w pid).1 ≡ files w
  pub waitpid_blocks :
      (w : W) (pid : ℤ)
      → ltb_ℤ (pos 0) pid ≡ true
      → is_interrupted (os.waitpid w pid).0 ≡ false
      → children (os.waitpid w pid).1 ≡ remove pid (children w)

-- No handler runs while the assistant is in a blocking `waitpid`.
abbrev pub Uninterrupted : {W : Type 0} → Os W → Type 0
Uninterrupted {W} os = (w : W) (pid : ℤ) → is_interrupted (os.waitpid w pid).0 ≡ false
