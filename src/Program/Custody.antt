-- ===== src/Program/Custody.antt =====
-- A property of the capture and the world that each call keeps holds after the whole program.
use shiori.Base.{
  ℕ, zero, suc, ◌≡◌, refl, some_keeps, Bool, Option, none, some, ◌==◌, inl, inr, Bool-cases,
  if◌then◌else◌,
}
use shiori.Base.Int.{pos}
use shiori.Status.{Status, ok}
use shiori.Config.{Config}
use shiori.Adapters.{Env}
use shiori.Supervisor.{Supervisor}
use shiori.Supervisor.Round.{run_once}
use shiori.Supervisor.Lifecycle.{start, stop}
use shiori.Supervisor.Ownership.{KeptOutside, Holds, HoldsAfter}
use shiori.Supervisor.Custody.{KeptAdapters, run_once-Kept}
use shiori.Supervisor.Release.{start-Kept, stop-Kept}
use shiori.Program.{on_signal, shutdown_requested, run_loop, serve}

module _ (env : Env) (usleep : env.outside.World → ℕ → env.outside.World)
    (P : env.adapters.Capture → env.outside.World → Type 0) (kept : KeptOutside env P)
    (kept_adapters : KeptAdapters env P)
    (by_usleep : (c : env.adapters.Capture) (w : env.outside.World) (n : ℕ)
      → P c w
      → P c (usleep w n))
    (by_start : (c : env.adapters.Capture) (w : env.outside.World) (config : Config)
      → P c w
      → let (_, (c', w')) = env.adapters.capture_start w c config in P c' w')
    (by_read : (c : env.adapters.Capture) (w : env.outside.World)
      → P c w
      → let (_, (_, (c', w'))) = env.adapters.capture_read w c 640 in P c' w') where
  abbrev LoopKept : Option (ℕ × Supervisor env) → Type 0
  LoopKept o = (rounds : ℕ) (s : Supervisor env) → o ≡ some (rounds, s) → Holds env P kept s

  ended-Kept : (rounds : ℕ) (s : Supervisor env) → Holds env P kept s → LoopKept (some (rounds, s))
  ended-Kept rounds s h k t e =
      some_keeps (λ (r : ℕ × Supervisor env). Holds env P kept r.1) (rounds, s) (k, t) e h

  next-Kept :
      (k : ℕ) (out : Status × Supervisor env) (again : Supervisor env → Option (ℕ × Supervisor env))
      → HoldsAfter env P kept out
      → ((s : Supervisor env) → Holds env P kept s → LoopKept (again s))
      → LoopKept (elim out.0 [ ok ↦ again out.1 | _ ↦ some (suc k, out.1) ])
  next-Kept k (ok, s) again h rest = rest s h
  next-Kept k (_, s) again h rest = ended-Kept (suc k) s h

  run_loop-Kept :
      (fuel : ℕ) (arrives : ℕ → Bool) (k flag : ℕ) (s : Supervisor env)
      → Holds env P kept s
      → LoopKept (run_loop env usleep fuel arrives k flag s)
  unfolding run_loop
  run_loop-Kept zero arrives k flag s h = λ rounds t e. cc e
  run_loop-Kept (suc fuel) arrives k flag s h =
      let seen = if arrives k then on_signal (pos 15) flag else flag in
      let again = λ (t : Supervisor env).
        run_loop env usleep fuel arrives (suc k) seen (record t { world = usleep t.world 10000 }) in
      elim (Bool-cases (shutdown_requested seen == 0)) [
        | inr stopped ↦ rw (stopped, run_loop) (ended-Kept k s h)
        | inl going ↦
            rw (going, run_loop)
              (next-Kept k (run_once env s) again
                (run_once-Kept env P kept kept_adapters by_start by_read s h)
                (λ t u.
                  run_loop-Kept fuel arrives (suc k) seen
                    (record t { world = usleep t.world 10000 })
                    (by_usleep t.capture t.world 10000 u)))
      ]

  -- What every stop of the capture brings about, and the shutdown after it keeps, holds at the end.
  module _ (Q : env.adapters.Capture → env.outside.World → Type 0) (kept_q : KeptOutside env Q)
      (adapters_q : KeptAdapters env Q)
      (by_stop : (c : env.adapters.Capture) (w : env.outside.World)
        → P c w
        → let (_, (c', w')) = env.adapters.capture_stop w c in P c' w' × Q c' w') where
    abbrev Served : Option (Status × Supervisor env) → Type 0
    Served o = (status : Status) (s : Supervisor env) → o ≡ some (status, s) → Holds env Q kept_q s

    stopped-Served :
        (status : Status) (t : Supervisor env)
        → Holds env P kept t
        → Served (some (status, (stop env t).1))
    stopped-Served status t h status' s e =
        some_keeps (λ (r : Status × Supervisor env). Holds env Q kept_q r.1)
          (status, (stop env t).1) (status', s) e
          (stop-Kept env Q kept_q adapters_q t (by_stop t.capture t.world h).1)

    after_loop-Served :
        (o : Option (ℕ × Supervisor env))
        → LoopKept o
        → Served (elim o [ none ↦ none | some (rounds, t) ↦ some (ok, (stop env t).1) ])
    after_loop-Served none h = λ status s e. cc e
    after_loop-Served (some (rounds, t)) h = stopped-Served ok t (h rounds t refl)

    started-Served :
        (fuel : ℕ) (arrives : ℕ → Bool) (r : Status × Supervisor env)
        → HoldsAfter env P kept r
        → Served (elim r.0 [
          | ok ↦ elim (run_loop env usleep fuel arrives 0 0 r.1) [
            | none ↦ none
            | some (rounds, t) ↦ some (ok, (stop env t).1)
          ]
          | e ↦ some (e, (stop env r.1).1)
        ])
    started-Served fuel arrives (ok, t) h =
        after_loop-Served (run_loop env usleep fuel arrives 0 0 t)
          (run_loop-Kept fuel arrives 0 0 t h)
    started-Served fuel arrives (e, t) h = stopped-Served e t h

    pub serve-Served :
        (fuel : ℕ) (arrives : ℕ → Bool) (s : Supervisor env)
        → Holds env P kept s
        → Served (serve env usleep fuel arrives s)
    unfolding serve
    serve-Served fuel arrives s h =
        started-Served fuel arrives (start env s)
          (start-Kept env P kept kept_adapters (λ c w p. (by_stop c w p).0) s h)
