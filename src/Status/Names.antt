-- ===== src/Status/Names.antt =====
-- The names that assistantd_status_to_string gives to status codes, and a reader for them.
use Prim.Native.String.{String}
use text.Mathlib.Text.{◌==◌ as str_eq}
use shiori.Base.{◌≡◌, ◌≢◌, Option, none, some, refl, ap, if◌then◌else◌}
use shiori.Status.{
  Status, ok, err_invalid_argument, err_config, err_io, err_child_process, err_unimplemented,
  to_code, to_string,
}

parse_name : String → Option Status
parse_name s =
    if str_eq s "ok"
    then some ok
    else if str_eq s "invalid_argument"
    then some err_invalid_argument
    else if str_eq s "config_error"
    then some err_config
    else if str_eq s "io_error"
    then some err_io
    else if str_eq s "child_process_error"
    then some err_child_process
    else if str_eq s "unimplemented"
    then some err_unimplemented
    else none

parse_name-to_string : (s : Status) → parse_name (to_string (to_code s)) ≡ some s
unfolding parse_name to_string to_code
parse_name-to_string ok = refl
parse_name-to_string _ = refl

known : (s : Status) → to_string (to_code s) ≢ "unknown"
unfolding to_string to_code
known ok = λ h. cc
known _ = λ h. cc

-- The printed name of a status code determines the status, and none prints as "unknown".
pub to_string-to_code_injective :
    (s t : Status)
    → (to_string (to_code s) ≢ "unknown") × (to_string (to_code s) ≡ to_string (to_code t) → s ≡ t)
to_string-to_code_injective s t =
    (known s, λ h. cc (parse_name-to_string s, parse_name-to_string t, ap parse_name h))
