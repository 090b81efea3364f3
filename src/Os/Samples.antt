-- ===== src/Os/Samples.antt =====
-- A small operating system that keeps the laws, for the tests: two descriptors for a pipe, one number
-- for a child, which ends after some polls.
use shiori.Base.{
  ℕ, zero, suc, ◌≡◌, refl, arith, min, Bool, true, false, replicate, length-replicate,
  if◌then◌else◌, ◌||◌, inl, inr, Bool-cases,
}
use shiori.Base.Int.{ℤ, pos, negsuc, ltb_ℤ, eq_int, eq_int_refl}
use shiori.Os.{Os, Child, Waited, echild, other_errno, exited, is_echild}
use shiori.Os.Table.{Table, add, remove}
use shiori.Os.Posix.{IsPosix, Quiet, Uninterrupted}

pub record Machine : Type 0 where
  pub open_files : Table
  pub kids : Table
  pub polls_left : ℕ

abbrev pub no_entries : Table
no_entries x = false

-- Nothing is open, no child is there, and a child ends after 2 polls.
abbrev pub quiet_machine : Machine
quiet_machine = record { open_files = no_entries; kids = no_entries; polls_left = 2 }

abbrev pub wait_now : Machine → ℤ → Waited × Machine
wait_now m pid =
    if m.kids pid
    then elim m.polls_left [
      | zero ↦ (
        record { result = pid; status = exited 0; errno = other_errno },
        record m { kids = remove pid m.kids },
      )
      | suc n ↦ (
        record { result = pos 0; status = exited 0; errno = other_errno },
        record m { polls_left = n },
      )
    ]
    else (record { result = negsuc 0; status = exited 0; errno = echild }, m)

abbrev pub machine_os : Os Machine
machine_os = record {
  access_x = λ m path. (pos 0, m);
  access_r = λ m path. (pos 0, m);
  pipe = λ m.
      if m.open_files (pos 3) || m.open_files (pos 4) then (negsuc 0, ((pos 0, pos 0), m)) else (
        pos 0,
        ((pos 3, pos 4), record m { open_files = add (pos 4) (add (pos 3) m.open_files) }),
      );
  fork = λ m child.
      if m.kids (pos 7) then (negsuc 0, m) else (pos 7, record m { kids = add (pos 7) m.kids });
  close = λ m fd. record m { open_files = remove fd m.open_files };
  dup2 = λ m fd target. (target, m);
  get_flags = λ m fd. (pos 0, m);
  set_nonblocking = λ m fd flags. (pos 0, m);
  kill = λ m pid signal. ((pos 0, other_errno), m);
  waitpid_now = wait_now;
  waitpid = λ m pid. (
    record { result = pid; status = exited 0; errno = other_errno },
    record m { kids = remove pid m.kids },
  );
  nanosleep = λ m ms. m;
  read = λ m fd n.
      (record { count = pos (min 2 n); data_read = replicate (min 2 n) 9; errno = other_errno }, m);
}

abbrev pub machine_files : Machine → Table
machine_files m = m.open_files

abbrev pub machine_kids : Machine → Table
machine_kids m = m.kids

quiet :
    (m m' : Machine)
    → m'.open_files ≡ m.open_files
    → m'.kids ≡ m.kids
    → Quiet machine_files machine_kids m m'
quiet m m' f k = record { same_files = f; same_children = k }

free_pair : (a b : Bool) → (a || b) ≡ false → (a ≡ false) × (b ≡ false)
free_pair a b h = ground arith

pipe_fails_lem :
    (m : Machine)
    → eq_int (machine_os.pipe m).0 (pos 0) ≡ false
    → Quiet machine_files machine_kids m (machine_os.pipe m).1.1
pipe_fails_lem m = elim (Bool-cases (m.open_files (pos 3) || m.open_files (pos 4))) [
  | inl e ↦ rw e (λ _. quiet m m refl refl)
  | inr e ↦ rw e (λ h. cc h)
]

pipe_opens_lem :
    (m : Machine)
    → eq_int (machine_os.pipe m).0 (pos 0) ≡ true
    → let (a, b) = (machine_os.pipe m).1.0 in
      (ltb_ℤ a (pos 0) ≡ false)
      × (m.open_files a ≡ false)
      × (m.open_files b ≡ false)
      × (eq_int b a ≡ false)
      × ((machine_os.pipe m).1.1.open_files ≡ add b (add a m.open_files))
      × ((machine_os.pipe m).1.1.kids ≡ m.kids)
pipe_opens_lem m = elim (Bool-cases (m.open_files (pos 3) || m.open_files (pos 4))) [
  | inl e ↦ rw e (λ h. cc h)
  | inr e ↦
      let (three, four) = free_pair (m.open_files (pos 3)) (m.open_files (pos 4)) e in
      rw e (λ h. (refl, three, four, refl, refl, refl))
]

fork_fails_lem :
    (m : Machine) (child : Machine → Child × Machine)
    → ltb_ℤ (machine_os.fork m child).0 (pos 0) ≡ true
    → Quiet machine_files machine_kids m (machine_os.fork m child).1
fork_fails_lem m child = elim (Bool-cases (m.kids (pos 7))) [
  | inl e ↦ rw e (λ _. quiet m m refl refl)
  | inr e ↦ rw e (λ h. cc h)
]

fork_adds_lem :
    (m : Machine) (child : Machine → Child × Machine)
    → ltb_ℤ (machine_os.fork m child).0 (pos 0) ≡ false
    → let (pid, m') = machine_os.fork m child in
      (ltb_ℤ (pos 0) pid ≡ true)
      × (m.kids pid ≡ false)
      × (m'.kids ≡ add pid m.kids)
      × (m'.open_files ≡ m.open_files)
fork_adds_lem m child = elim (Bool-cases (m.kids (pos 7))) [
  | inl e ↦ rw e (λ h. cc h)
  | inr e ↦ rw e (λ h. (refl, e, refl, refl))
]

-- Where there is no such child, where it ends now, and where it lives.
record NowLaws (m : Machine) (pid : ℤ) : Type 0 where
  pub files_kept : (wait_now m pid).1.open_files ≡ m.open_files
  pub result :
      ltb_ℤ (pos 0) pid ≡ true
      → eq_int (wait_now m pid).0.result pid ≡ false
      → eq_int (wait_now m pid).0.result (pos 0) ≡ false
      → eq_int (wait_now m pid).0.result (negsuc 0) ≡ true
  pub reaps :
      ltb_ℤ (pos 0) pid ≡ true
      → eq_int (wait_now m pid).0.result pid ≡ true
      → (wait_now m pid).1.kids ≡ remove pid m.kids
  pub absent :
      ltb_ℤ (pos 0) pid ≡ true
      → eq_int (wait_now m pid).0.result (negsuc 0) ≡ true
      → is_echild (wait_now m pid).0.errno ≡ true
      → (m.kids pid ≡ false) × ((wait_now m pid).1.kids ≡ m.kids)
  pub waits : eq_int (wait_now m pid).0.result pid ≡ false → (wait_now m pid).1.kids ≡ m.kids

not_minus : (pid : ℤ) → ltb_ℤ (pos 0) pid ≡ true → eq_int pid (negsuc 0) ≡ false
not_minus pid h = ground arith

not_zero : (pid : ℤ) → ltb_ℤ (pos 0) pid ≡ true → eq_int (pos 0) pid ≡ false
not_zero pid h = ground arith

minus_not : (pid : ℤ) → ltb_ℤ (pos 0) pid ≡ true → eq_int (negsuc 0) pid ≡ false
minus_not pid h = ground arith

wait_now-NowLaws :
    (polls : ℕ) (files kids : Table) (pid : ℤ)
    → NowLaws (record { open_files = files; kids = kids; polls_left = polls }) pid
wait_now-NowLaws zero files kids pid = elim (Bool-cases (kids pid)) [
  | inl e ↦ record {
    files_kept = rw e refl;
    result = λ p. rw e (λ h k. cc (h, eq_int_refl pid));
    reaps = λ p. rw e (λ h. refl);
    absent = λ p. rw e (λ h k. cc k);
    waits = rw e (λ h. cc (h, eq_int_refl pid));
  }
  | inr e ↦ record {
    files_kept = rw e refl;
    result = λ p. rw e (λ h k. refl);
    reaps = λ p. rw e (λ h. cc (h, minus_not pid p));
    absent = λ p. rw e (λ h k. (refl, refl));
    waits = rw e (λ h. refl);
  }
]
wait_now-NowLaws (suc n) files kids pid = elim (Bool-cases (kids pid)) [
  | inl e ↦ record {
    files_kept = rw e refl;
    result = λ p. rw e (λ h k. cc k);
    reaps = λ p. rw e (λ h. cc (not_zero pid p, h));
    absent = λ p. rw e (λ h k. cc h);
    waits = rw e (λ h. refl);
  }
  | inr e ↦ record {
    files_kept = rw e refl;
    result = λ p. rw e (λ h k. refl);
    reaps = λ p. rw e (λ h. cc (h, minus_not pid p));
    absent = λ p. rw e (λ h k. (refl, refl));
    waits = rw e (λ h. refl);
  }
]

now_laws : (m : Machine) (pid : ℤ) → NowLaws m pid
now_laws m pid = wait_now-NowLaws m.polls_left m.open_files m.kids pid

pub machine_os-IsPosix : IsPosix machine_os machine_files machine_kids
machine_os-IsPosix = record {
  access_quiet = λ m path. quiet m m refl refl;
  pipe_fails = pipe_fails_lem;
  pipe_opens = pipe_opens_lem;
  fork_fails = fork_fails_lem;
  fork_adds = fork_adds_lem;
  close_removes = λ m fd. (refl, refl);
  get_flags_quiet = λ m fd. quiet m m refl refl;
  set_nonblocking_quiet = λ m fd flags. quiet m m refl refl;
  kill_quiet = λ m pid signal. quiet m m refl refl;
  nanosleep_quiet = λ m ms. quiet m m refl refl;
  read_quiet = λ m fd n. quiet m m refl refl;
  read_stores = λ m fd n. (omega arith, length-replicate {A = ℕ} (min 2 n) 9);
  waitpid_files = λ m pid. (now_laws m pid).files_kept;
  waitpid_result = λ m pid. (now_laws m pid).result;
  waitpid_reaps = λ m pid. (now_laws m pid).reaps;
  waitpid_none = λ m pid. (now_laws m pid).absent;
  waitpid_waits = λ m pid p. (now_laws m pid).waits;
  waitpid_blocks_files = λ m pid. refl;
  waitpid_blocks = λ m pid p h. refl;
}

pub machine_os-Uninterrupted : Uninterrupted machine_os
machine_os-Uninterrupted w pid = ground arith
