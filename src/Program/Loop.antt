-- ===== src/Program/Loop.antt =====
-- A request to shut down ends the program, with the supervisor stopped.
use shiori.Base.{
  ℕ, zero, suc, ◌+◌, ◌≤◌, ◌<◌, ◌≡◌, ◌≢◌, refl, ap, ◌∙◌, arith, Bool, true, Option, none, some, ◌==◌,
  inl, inr, Bool-cases, dec_lt, if◌then◌else◌,
}
use shiori.Base.Int.{pos}
use shiori.Status.{Status, ok}
use shiori.Adapters.{Env}
use shiori.Supervisor.{Supervisor, state_stopped}
use shiori.Supervisor.Round.{run_once}
use shiori.Supervisor.Lifecycle.{start, stop}
use shiori.Program.{on_signal, shutdown_requested, run_loop, serve}

module _ (env : Env) (usleep : env.outside.World → ℕ → env.outside.World) (arrives : ℕ → Bool)
    (last : ℕ) (requested : arrives last ≡ true) where
  -- The loop has ended after at most `last` rounds.
  record Ended (out : Option (ℕ × Supervisor env)) : Type 0 where
    pub rounds : ℕ
    pub supervisor : Supervisor env
    pub ended : out ≡ some (rounds, supervisor)
    pub few : rounds ≤ last

  -- A round that begins stands before the last.
  before_last :
      (k flag : ℕ)
      → k ≤ last
      → (shutdown_requested (if arrives k then on_signal (pos 15) flag else flag) == 0) ≡ true
      → k < last
  unfolding shutdown_requested on_signal
  before_last k flag h going = elim (dec_lt k last) [
    | yes less ↦ less
    | no more ↦
        let same : k ≡ last = omega (arith, h, more) in
        absurd (halted k flag (ap arrives same ∙ requested) going)
  ]
    where
      halted :
          (k flag : ℕ)
          → arrives k ≡ true
          → (shutdown_requested (if arrives k then on_signal (pos 15) flag else flag) == 0) ≢ true
      halted k flag e = rw e (λ h. cc h)

  next_round :
      (k : ℕ) (out : Status × Supervisor env) (again : Supervisor env → Option (ℕ × Supervisor env))
      → k < last
      → ((s : Supervisor env) → Ended (again s))
      → Ended (elim out.0 [ ok ↦ again out.1 | _ ↦ some (suc k, out.1) ])
  next_round k (ok, s) again h rest = rest s
  next_round k (_, s) again h rest = record {
    rounds = suc k;
    supervisor = s;
    ended = refl;
    few = omega (arith, h);
  }

  run_loop-Ended :
      (fuel k flag : ℕ) (s : Supervisor env)
      → k ≤ last
      → last < k + fuel
      → Ended (run_loop env usleep fuel arrives k flag s)
  unfolding run_loop
  run_loop-Ended zero k flag s h enough = absurd (omega (arith, h, enough))
  run_loop-Ended (suc fuel) k flag s h enough =
      let seen = if arrives k then on_signal (pos 15) flag else flag in
      elim (Bool-cases (shutdown_requested seen == 0)) [
        | inr stopped ↦
            rw (stopped, run_loop) (record { rounds = k; supervisor = s; ended = refl; few = h })
        | inl going ↦
            rw (going, run_loop)
              (next_round k (run_once env s)
                (λ t.
                  run_loop env usleep fuel arrives (suc k) seen
                    (record t { world = usleep t.world 10000 }))
                (before_last k flag h going)
                (λ t.
                  run_loop-Ended fuel (suc k) seen (record t { world = usleep t.world 10000 })
                    (before_last k flag h going) (omega (arith, enough))))
      ]

  -- `serve`, on what the start has given.
  abbrev serve_started : Status × Supervisor env → Option (Status × Supervisor env)
  serve_started (ok, t) = elim (run_loop env usleep (suc last) arrives 0 0 t) [
    | none ↦ none
    | some (rounds, t') ↦ some (ok, (stop env t').1)
  ]
  serve_started (e, t) = some (e, (stop env t).1)

  serve-started :
      (s : Supervisor env) → serve env usleep (suc last) arrives s ≡ serve_started (start env s)
  unfolding serve
  serve-started s = by_status (start env s)
    where
      by_status :
          (r : Status × Supervisor env)
          → elim r.0 [
            | ok ↦ elim (run_loop env usleep (suc last) arrives 0 0 r.1) [
              | none ↦ none
              | some (rounds, t') ↦ some (ok, (stop env t').1)
            ]
            | e ↦ some (e, (stop env r.1).1)
          ]
            ≡ serve_started r
      by_status (ok, t) = refl
      by_status (_, t) = refl

  stopped : (s : Supervisor env) → (stop env s).1.state ≡ state_stopped
  unfolding stop
  stopped s = refl

  serve_started-stopped :
      (r : Status × Supervisor env)
      → (s' : Supervisor env) × (serve_started r ≡ some (r.0, s')) × (s'.state ≡ state_stopped)
  serve_started-stopped (ok, t) =
      let run = run_loop-Ended (suc last) 0 0 t (omega arith) (omega arith) in
      ((stop env run.supervisor).1, rw (run.ended, serve_started) refl, stopped run.supervisor)
  serve_started-stopped (_, t) = ((stop env t).1, refl, stopped t)

  -- However the rounds end and whatever else comes, a signal that has come before the test of round
  -- `last` ends the program: fuel for `last` rounds and one test is enough, `main` leaves the
  -- supervisor STOPPED, and returns ASSISTANTD_OK once it has started, and the status of the start
  -- otherwise.
  pub serve-stopped :
      (s : Supervisor env)
      → (s' : Supervisor env) × (serve env usleep (suc last) arrives s ≡ some ((start env s).0, s'))
        × (s'.state ≡ state_stopped)
  serve-stopped s =
      let (s', served, done) = serve_started-stopped (start env s) in
      (s', serve-started s ∙ served, done)
