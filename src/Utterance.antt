-- ===== src/Utterance.antt =====
-- The utterance buffer of src/assistantd/supervisor.c (`utterance_metadata`), over the struct of
-- include/assistantd/supervisor.h: a block of PCM bytes that doubles when it is full.
pub mod Growth
pub mod Append
pub mod Samples
mod Tests
use shiori.Base.{
  ℕ, zero, suc, ◌-◌, ◌*◌, ◌/◌, ◌%◌, Bool, Option, none, some, List, [], ltb, ◌==◌, if◌then◌else◌,
  add_size, size_mod, memcpy,
}
use shiori.Status.{Status, ok, err_invalid_argument, err_io, then_ok}

-- `assistantd_utterance_metadata_t`; `pcm` is `none` for NULL, and has `capacity` bytes otherwise.
pub record Utterance : Type 0 where
  pub pcm : Option (List ℕ)
  pub size : ℕ
  pub capacity : ℕ

-- ASSISTANTD_SUPERVISOR_INITIAL_UTTERANCE_CAPACITY
abbrev pub initial_utterance_capacity : ℕ
initial_utterance_capacity = 640 * 16

-- SIZE_MAX
abbrev pub size_max : ℕ
size_max = size_mod - 1

-- The doubling loop; `none` is its return of ASSISTANTD_ERR_IO. A capacity that is not 0 passes
-- SIZE_MAX / 2 within 64 rounds.
unfoldable pub grow_capacity : ℕ → ℕ → ℕ → Option ℕ
grow_capacity zero new_capacity required_capacity = none
grow_capacity (suc fuel) new_capacity required_capacity =
    let doubled = grow_capacity fuel (new_capacity * 2 % size_mod) required_capacity in
    if ltb new_capacity required_capacity
    then (if ltb (size_max / 2) new_capacity then none else doubled)
    else some new_capacity

abbrev pub growth_fuel : ℕ
growth_fuel = 65

abbrev pub reset_utterance : Utterance → Utterance
reset_utterance u = record u { size = 0 }

-- The `memcpy` at the end.
unfoldable pub store : Utterance → List ℕ → ℕ → Utterance
store u pcm pcm_bytes = record u {
  pcm = elim u.pcm [ none ↦ none | some block ↦ some (memcpy block u.size pcm pcm_bytes) ];
  size = add_size u.size pcm_bytes;
}

-- `realloc` takes the block and the size asked for: it gives the new block, or `none` for NULL.
module _ {W : Type 0} (realloc : W → Option (List ℕ) → ℕ → Option (List ℕ) × W) where
  -- The branch of `append_utterance_pcm` that grows the block.
  unfoldable pub reserve : W → Utterance → ℕ → Status × (Utterance × W)
  reserve w u required_capacity =
      let start = if u.capacity == 0 then initial_utterance_capacity else u.capacity in
      if ltb u.capacity required_capacity
      then elim (grow_capacity growth_fuel start required_capacity) [
        | none ↦ (err_io, (u, w))
        | some new_capacity ↦
            let (resized, w') = realloc w u.pcm new_capacity in
            elim resized [
              | none ↦ (err_io, (u, w'))
              | some block ↦ (ok, (record u { pcm = some block; capacity = new_capacity }, w'))
            ]
      ]
      else (ok, (u, w))

  -- `assistantd_supervisor_append_utterance_pcm`; the pointer `pcm` may be NULL.
  unfoldable pub append_utterance_pcm :
      W → Utterance → Option (List ℕ) → ℕ → Status × (Utterance × W)
  append_utterance_pcm w u none pcm_bytes = (err_invalid_argument, (u, w))
  append_utterance_pcm w u (some pcm) pcm_bytes =
      if pcm_bytes == 0
      then (err_invalid_argument, (u, w))
      else if ltb (size_max - pcm_bytes) u.size
      then (err_io, (u, w))
      else then_ok (reserve w u (add_size u.size pcm_bytes))
          (λ (u', w'). (ok, (store u' pcm pcm_bytes, w')))
