-- ===== src/Logger.antt =====
-- The logger of src/assistantd/utilities/logger.c over the levels of
-- include/assistantd/utilities/logger.h. The stamp that `strftime` writes and the text that `vfprintf`
-- makes of the format and its arguments are parameters; standard error is the bytes on it.
mod Filter
use shiori.Base.{ℕ, true, false, if◌then◌else◌, List, [], ◌∷◌, ◌++◌}
use shiori.Base.Int.{ℤ, pos, ltb_ℤ, eq_int}
use shiori.Text.{bytes}

pub data LogLevel : Type 0 where
  log_debug log_info log_warn log_error : LogLevel

unfoldable pub level_code : LogLevel → ℤ
level_code log_debug = pos 0
level_code log_info = pos 1
level_code log_warn = pos 2
level_code log_error = pos 3

-- A level is an `int`, and the names are those of the four.
unfoldable pub level_name : ℤ → List ℕ
level_name level =
    if eq_int level (pos 0)
    then bytes "DEBUG"
    else if eq_int level (pos 1)
    then bytes "INFO"
    else if eq_int level (pos 2)
    then bytes "WARN"
    else if eq_int level (pos 3)
    then bytes "ERROR"
    else bytes "UNKNOWN"

-- `g_log_level`, and what is on standard error.
pub record LogState : Type 0 where
  pub log_level : ℤ
  pub stderr : List ℕ

abbrev pub initial_level : ℤ
initial_level = level_code log_info

unfoldable pub log_set_level : LogState → ℤ → LogState
log_set_level s level = record s { log_level = level }

-- `assistantd_log`, which is `assistantd_vlog` on its arguments: `stamp` is the time, `message` the text.
unfoldable pub vlog : LogState → ℤ → List ℕ → List ℕ → LogState
vlog s level stamp message = elim (ltb_ℤ level s.log_level) [
  | true ↦ s
  | false ↦ record s {
    stderr =
        s.stderr
        ++ (stamp ++ (bytes " [" ++ (level_name level ++ (bytes "] " ++ (message ++ 10 ∷ [])))));
  }
]
