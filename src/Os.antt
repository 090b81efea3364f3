-- ===== src/Os.antt =====
-- The calls of the operating system that src/assistantd/audio_capture.c and
-- src/assistantd/playback.c make. Each takes the outside world and gives it back changed; a call
-- whose errno is read gives it beside its result.
pub mod Posix
pub mod Samples
pub mod Table
use shiori.Base.{ℕ, Bool, true, false, List, ◌==◌, ◌&&◌}
use shiori.Base.Int.{ℤ, negsuc, eq_int}

-- The values of errno that the source tells from the rest.
pub data Errno : Type 0 where
  echild esrch eintr eagain ewouldblock other_errno : Errno

pub data Signal : Type 0 where
  sigterm sigkill : Signal

-- The status that `waitpid` stores, as WIFEXITED and WEXITSTATUS read it.
pub data WaitStatus : Type 0 where
  exited : ℕ → WaitStatus
  signaled : WaitStatus

pub record Waited : Type 0 where
  pub result : ℤ
  pub status : WaitStatus
  pub errno : Errno

pub record ReadBytes : Type 0 where
  pub count : ℤ
  pub data_read : List ℕ
  pub errno : Errno

-- What a forked child comes to: another program (its file, its arguments, and the code of the
-- `_exit` after an `exec` that fails), or its end by `_exit`.
pub data Child : Type 0 where
  executes : List ℕ → List (List ℕ) → ℕ → Child
  exits : ℕ → Child

pub record Os (World : Type 0) : Type 0 where
  -- `access(path, X_OK)` and `access(path, R_OK)`.
  pub access_x : World → List ℕ → ℤ × World
  pub access_r : World → List ℕ → ℤ × World
  -- The result, and the two ends.
  pub pipe : World → ℤ × ((ℤ × ℤ) × World)
  -- `fork`, in the parent; it is given what the child does, the block under `pid == 0`.
  pub fork : World → (World → Child × World) → ℤ × World
  pub close : World → ℤ → World
  pub dup2 : World → ℤ → ℤ → ℤ × World
  -- `fcntl(fd, F_GETFL, 0)`, and `fcntl(fd, F_SETFL, flags | O_NONBLOCK)`.
  pub get_flags : World → ℤ → ℤ × World
  pub set_nonblocking : World → ℤ → ℤ → ℤ × World
  pub kill : World → ℤ → Signal → (ℤ × Errno) × World
  -- `waitpid` with WNOHANG, and with no option.
  pub waitpid_now : World → ℤ → Waited × World
  pub waitpid : World → ℤ → Waited × World
  -- The milliseconds.
  pub nanosleep : World → ℕ → World
  -- At most so many bytes.
  pub read : World → ℤ → ℕ → ReadBytes × World

abbrev pub is_echild : Errno → Bool
is_echild echild = true
is_echild _ = false

abbrev pub is_esrch : Errno → Bool
is_esrch esrch = true
is_esrch _ = false

-- `errno == EINTR || errno == EAGAIN || errno == EWOULDBLOCK`
abbrev pub is_retry : Errno → Bool
is_retry eintr = true
is_retry eagain = true
is_retry ewouldblock = true
is_retry _ = false

-- A call that a handler has interrupted.
abbrev pub is_interrupted : Waited → Bool
is_interrupted r = eq_int r.result (negsuc 0) && elim r.errno [ eintr ↦ true | _ ↦ false ]

-- `WIFEXITED(status) && WEXITSTATUS(status) == 0`
abbrev pub is_clean : WaitStatus → Bool
is_clean (exited code) = code == 0
is_clean signaled = false
