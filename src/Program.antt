-- ===== src/Program.antt =====
-- The program of src/assistantd/main.c, with the flag of src/assistantd/shutdown.c. The calls of the
-- logger and the usage text are left out. `sigaction` and `usleep` are parameters.
pub mod Loop
pub mod Custody
pub mod Parsing
mod Tests
use shiori.Base.{
  ℕ, zero, suc, Bool, true, false, not, Option, none, some, List, [], ◌∷◌, ◌==◌, if◌then◌else◌,
}
use shiori.Base.Int.{ℤ, pos, eq_int}
use shiori.Status.{Status, ok, err_invalid_argument, err_io, err_unimplemented, case_ok}
use shiori.Text.{bytes, str_equal}
use shiori.Config.{Config, init_defaults, load_file, validate}
use shiori.Adapters.{Env}
use shiori.Supervisor.{Supervisor}
use shiori.Supervisor.Round.{run_once}
use shiori.Supervisor.Lifecycle.{init, start, stop}

-- `assistantd_on_signal` and `assistantd_shutdown_request`: the new value of the flag
-- `g_shutdown_requested`.
unfoldable pub on_signal : ℤ → ℕ → ℕ
on_signal signal_number flag = 1

unfoldable pub shutdown_request : ℕ → ℕ
shutdown_request flag = 1

-- `assistantd_shutdown_requested`
unfoldable pub shutdown_requested : ℕ → ℕ
shutdown_requested flag = if flag == 0 then 0 else 1

-- The signals that the program handles.
pub data Handled : Type 0 where
  sigint sigterm : Handled

-- `assistantd_shutdown_install_handlers`
unfoldable pub install_handlers : {W : Type 0} → (W → Handled → ℤ × W) → W → Status × W
install_handlers sigaction w =
    let (first, w1) = sigaction w sigint in
    let (second, w2) = sigaction w1 sigterm in
    if not (eq_int first (pos 0))
    then (err_io, w1)
    else if not (eq_int second (pos 0))
    then (err_io, w2)
    else (ok, w2)

-- What the arguments ask for: to run with a configuration, or to end with a status.
pub data Arguments : Type 0 where
  proceed : List ℕ → Bool → Arguments
  leave : Status → Arguments

-- The loop over `argv` from its second entry on, with `config_path` and `foreground` so far.
unfoldable pub parse_arguments : List ℕ → Bool → List (List ℕ) → Arguments
parse_arguments config_path foreground [] = proceed config_path foreground
parse_arguments config_path foreground (arg ∷ []) =
    if str_equal arg (bytes "--config")
    then leave err_invalid_argument
    else if str_equal arg (bytes "--foreground")
    then proceed config_path true
    else if str_equal arg (bytes "--help")
    then leave ok
    else leave err_invalid_argument
parse_arguments config_path foreground (arg ∷ next ∷ rest) =
    elim (str_equal arg (bytes "--config")) [
      | true ↦ parse_arguments next foreground rest
      | false ↦ elim (str_equal arg (bytes "--foreground")) [
        | true ↦ parse_arguments config_path true (next ∷ rest)
        | false ↦ if str_equal arg (bytes "--help") then leave ok else leave err_invalid_argument
      ]
    ]

abbrev pub default_config_path : List ℕ
default_config_path = bytes "/etc/local-ai-assistant/assistantd.env"

module _ (env : Env) (usleep : env.outside.World → ℕ → env.outside.World) where
  abbrev slept : Supervisor env → Supervisor env
  slept s = record s { world = usleep s.world 10000 }

  -- The loop of `main`, with the flag before the round: `arrives k` tells whether a signal comes
  -- before the test of round `k`. `none` is a loop that has not ended within the fuel; otherwise the
  -- number of rounds begun, and the supervisor.
  unfoldable pub run_loop : ℕ → (ℕ → Bool) → ℕ → ℕ → Supervisor env → Option (ℕ × Supervisor env)
  run_loop zero arrives k flag s = none
  run_loop (suc fuel) arrives k flag s =
      let seen = if arrives k then on_signal (pos 15) flag else flag in
      elim (shutdown_requested seen == 0) [
        | false ↦ some (k, s)
        | true ↦
            let (status, s') = run_once env s in
            elim status [
              | ok ↦ run_loop fuel arrives (suc k) seen (slept s')
              | _ ↦ some (suc k, s')
            ]
      ]

  -- `main` from the start of the supervisor on: the status it returns, and the supervisor.
  unfoldable pub serve : ℕ → (ℕ → Bool) → Supervisor env → Option (Status × Supervisor env)
  serve fuel arrives s =
      let (status, started) = start env s in
      elim status [
        | ok ↦ elim (run_loop fuel arrives 0 0 started) [
          | none ↦ none
          | some (rounds, s') ↦ some (ok, (stop env s').1)
        ]
        | e ↦ some (e, (stop env started).1)
      ]

  -- `main`: `fopen` gives the bytes of the configuration's file. The supervisor is `none` where main
  -- ends before there is one.
  unfoldable pub main :
      (env.outside.World → Handled → ℤ × env.outside.World)
      → (List ℕ → Option (List ℕ))
      → ℕ
      → (ℕ → Bool)
      → List (List ℕ)
      → env.outside.World
      → Option (Status × Option (Supervisor env))
  main sigaction fopen fuel arrives arguments w =
      elim (parse_arguments default_config_path false arguments) [
        | leave status ↦ some (status, none)
        | proceed config_path foreground ↦
            let (loaded, config) = load_file fopen init_defaults (some config_path) in
            let valid = validate config in
            let (installed, w1) = install_handlers sigaction w in
            let (ready, s) = init env config w1 in
            let failed : Status → Option (Status × Option (Supervisor env)) = λ e. some (e, none) in
            case_ok loaded
              (case_ok valid
                (case_ok installed
                  (case_ok ready
                    (elim (serve fuel arrives s) [
                      | none ↦ none
                      | some (status, s') ↦ some (status, some s')
                    ])
                    failed)
                  failed)
                failed)
              failed
      ]
