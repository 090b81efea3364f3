-- ===== src/Program/Tests.antt =====
-- Runs of the program in a small environment.
use shiori.Base.{ℕ, suc, ◌≡◌, refl, Bool, true, false, some, none, [], ◌∷◌, ◌==◌}
use shiori.Base.Int.{pos, negsuc}
use shiori.Status.{ok, err_invalid_argument, err_io}
use shiori.Text.{bytes, str_equal}
use shiori.Config.{init_defaults, load_file}
use shiori.Supervisor.{Supervisor, state_stopped}
use shiori.Supervisor.Lifecycle.{init, start}
use shiori.Supervisor.Samples.{env}
use shiori.Program.{
  proceed, leave, parse_arguments, install_handlers, serve, main, default_config_path,
}
use shiori.Program.Loop.{serve-stopped}
use shiori.Program.Parsing.{config_from, in_foreground, parse_arguments-spell}

abbrev usleep : ℕ → ℕ → ℕ
usleep w microseconds = suc w

-- A signal comes in the third round.
abbrev at_two : ℕ → Bool
at_two k = k == 2

serve-stopped_example :
    let s = (init env init_defaults 0).1 in
    (s' : Supervisor env) × (serve env usleep 3 at_two s ≡ some ((start env s).0, s'))
    × (s'.state ≡ state_stopped)
serve-stopped_example = serve-stopped env usleep at_two 2 refl (init env init_defaults 0).1

parse_arguments-spell_example :
    (parse_arguments default_config_path false
        (bytes "--config" ∷ bytes "--help" ∷ bytes "--foreground" ∷ [])
      ≡ proceed (bytes "--help") true)
    × (parse_arguments default_config_path false (
          bytes "--config"
          ∷ bytes "--help"
          ∷ bytes "--foreground"
          ∷ bytes "--help"
          ∷ bytes "x"
          ∷ [])
        ≡ leave ok)
parse_arguments-spell_example =
    parse_arguments-spell (config_from (bytes "--help") ∷ in_foreground ∷ []) default_config_path
      false (bytes "x" ∷ [])

-- `--config` without a path is refused, and so is what is no option.
no_path :
    parse_arguments default_config_path false (bytes "--config" ∷ []) ≡ leave err_invalid_argument
unfolding parse_arguments str_equal
no_path = refl

-- A handler that cannot be installed ends the program, before the second is tried.
not_installed : install_handlers (λ (w : ℕ) signal. (negsuc 0, suc w)) 0 ≡ (err_io, 1)
unfolding install_handlers
not_installed = refl

-- A configuration that is not there ends the program before the handlers are installed.
no_config :
    main env usleep (λ w signal. (pos 0, suc w)) (λ path. none) 3 at_two [] 0 ≡ some (err_io, none)
unfolding main parse_arguments load_file
no_config = refl
