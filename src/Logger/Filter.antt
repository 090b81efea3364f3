-- ===== src/Logger/Filter.antt =====
-- What the level lets through.
use shiori.Base.{ℕ, true, ◌≡◌, ◌≢◌, refl, List, []}
use shiori.Base.Int.{ℤ, ltb_ℤ}
use shiori.Text.{bytes}
use shiori.Logger.{
  LogLevel, LogState, log_debug, log_info, log_warn, log_error, level_code, level_name,
  log_set_level, vlog, initial_level,
}

-- Every level has a name of its own.
level_name-level_code : (level : LogLevel) → level_name (level_code level) ≢ bytes "UNKNOWN"
unfolding level_name level_code
level_name-level_code log_debug = λ h. cc
level_name-level_code log_info = λ h. cc
level_name-level_code log_warn = λ h. cc
level_name-level_code log_error = λ h. cc

-- Below the level that was set last nothing is written.
vlog-log_set_level :
    (s : LogState) (threshold level : ℤ) (stamp message : List ℕ)
    → ltb_ℤ level threshold ≡ true
    → (vlog (log_set_level s threshold) level stamp message).stderr ≡ s.stderr
unfolding vlog log_set_level
vlog-log_set_level s threshold level stamp message h = rw (h, vlog) refl

-- At first a warning is written and a detail is not.
abbrev fresh : LogState
fresh = record { log_level = initial_level; stderr = [] }

warned :
    (vlog fresh (level_code log_warn) (bytes "now") (bytes "low")).stderr ≡ bytes "now [WARN] low\n"
unfolding vlog level_name level_code
warned = refl

silent : (vlog fresh (level_code log_debug) (bytes "now") (bytes "low")).stderr ≡ []
unfolding vlog level_code
silent = refl
