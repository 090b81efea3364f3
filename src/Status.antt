-- ===== src/Status.antt =====
-- The status codes of include/assistantd/status.h and src/assistantd/status.c.
pub mod Flow
pub mod Names
use Prim.Native.String.{String}
use shiori.Base.{ℕ, ◌==◌, if◌then◌else◌}

-- `assistantd_status_t`
pub data Status : Type 0 where
  ok err_invalid_argument err_config err_io err_child_process err_unimplemented : Status

-- The values of the enumerators.
unfoldable pub to_code : Status → ℕ
to_code ok = 0
to_code err_invalid_argument = 1
to_code err_config = 2
to_code err_io = 3
to_code err_child_process = 4
to_code err_unimplemented = 5

-- `assistantd_status_to_string`: the `switch` over the `int` that the enumeration is in C.
unfoldable pub to_string : ℕ → String
to_string status =
    if status == 0
    then "ok"
    else if status == 1
    then "invalid_argument"
    else if status == 2
    then "config_error"
    else if status == 3
    then "io_error"
    else if status == 4
    then "child_process_error"
    else if status == 5
    then "unimplemented"
    else "unknown"

-- `if (status != ASSISTANTD_OK) return status;` between two steps on a state.
abbrev pub then_ok {ℓ} : {S : Type ℓ} → Status × S → (S → Status × S) → Status × S
then_ok (ok, s) next = next s
then_ok (e, s) next = (e, s)

-- `if (status != ASSISTANTD_OK) { ... return ...; }`, where the failure does work of its own.
abbrev pub case_ok {ℓ} : {S : Type ℓ} → Status → S → (Status → S) → S
case_ok ok done failed = done
case_ok e done failed = failed e
