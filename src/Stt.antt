-- ===== src/Stt.antt =====
-- The text side of src/assistantd/stt_adapter.c: the buffer that curl's write callback fills, the
-- reading of the response, and the URL. cJSON is a parameter.
pub mod Buffer
pub mod Quiet
pub mod Session
pub mod Request
pub mod Transcript
mod Tests
mod Sessions
use shiori.Base.{
  ℕ, zero, suc, ◌+◌, ◌-◌, ◌*◌, ◌%◌, Bool, false, Option, none, some, List, [], ◌∷◌, ◌++◌, length,
  set, take, ltb, leb, ◌==◌, if◌then◌else◌, add_size, size_mod, memcpy,
}
use shiori.Status.{Status, ok, err_invalid_argument, err_io}
use shiori.Text.{bytes, copy_string, skip_space, trim_end}

-- `assistantd_stt_response_buffer_t`; `block` is the field `data`, which is never NULL here, with
-- its `capacity` bytes.
pub record ResponseBuffer : Type 0 where
  pub block : List ℕ
  pub size : ℕ
  pub capacity : ℕ

-- The doubling loop of the callback; `none` is a loop that has not ended within the fuel.
unfoldable pub double_until : ℕ → ℕ → ℕ → Option ℕ
double_until zero new_capacity required = none
double_until (suc fuel) new_capacity required =
    let doubled = double_until fuel (new_capacity * 2 % size_mod) required in
    if ltb new_capacity required then doubled else some new_capacity

-- The end of the callback: the bytes, and a NUL after them.
unfoldable pub put_bytes : ResponseBuffer → List ℕ → ℕ → ResponseBuffer
put_bytes buffer ptr n =
    let end = add_size buffer.size n in
    record buffer { block = set (memcpy buffer.block buffer.size ptr n) end 0; size = end }

-- `realloc` takes the block and the size asked for: it gives the new block, or `none` for NULL.
module _ {W : Type 0} (realloc : W → Option (List ℕ) → ℕ → Option (List ℕ) × W) where
  -- The part of `write_callback` below its check; the option is `none` where the doubling does not
  -- end, and the number is what the callback returns.
  unfoldable pub receive : W → ResponseBuffer → List ℕ → ℕ → Option (ℕ × (ResponseBuffer × W))
  receive w buffer ptr n =
      let required = add_size (add_size buffer.size n) 1 in
      let start = if buffer.capacity == 0 then 4096 else buffer.capacity in
      if ltb buffer.capacity required
      then elim (double_until 65 start required) [
        | none ↦ none
        | some new_capacity ↦
            let (resized, w') = realloc w (some buffer.block) new_capacity in
            elim resized [
              | none ↦ some (0, (buffer, w'))
              | some block ↦ some (
                n,
                (put_bytes (record buffer { block = block; capacity = new_capacity }) ptr n, w'),
              )
            ]
      ]
      else some (n, (put_bytes buffer ptr n, w))

  -- `assistantd_stt_write_callback`; the pointer `ptr` may be NULL.
  unfoldable pub write_callback :
      W → ResponseBuffer → Option (List ℕ) → ℕ → ℕ → Option (ℕ × (ResponseBuffer × W))
  write_callback w buffer none size nmemb = some (0, (buffer, w))
  write_callback w buffer (some ptr) size nmemb = receive w buffer ptr (size * nmemb % size_mod)

-- `assistantd_stt_trim_span` on the span from `start` to `end`: both loops stop where the pointers
-- meet.
abbrev pub trim_span : List ℕ → List ℕ
trim_span span = trim_end (skip_space span)

-- What the adapter uses of cJSON: the parse, and the string of the item `text` (`none` where the item
-- is missing or no string, or its pointer is NULL).
pub record Json : Type 1 where
  pub Root : Type 0
  pub parse : List ℕ → Option Root
  pub text_item : Root → Option (List ℕ)

-- The end of `parse_json_response`, on the trimmed span.
unfoldable pub copy_span : List ℕ → ℕ → Status × Option (List ℕ)
copy_span [] transcript_size = (err_io, none)
copy_span (c ∷ span) transcript_size =
    let copy_len =
      if leb transcript_size (length (c ∷ span)) then transcript_size - 1 else length (c ∷ span) in
    (ok, some (take copy_len (c ∷ span)))

-- `assistantd_stt_parse_json_response`; the option is what is stored at `transcript`, `none` where
-- nothing is. `raw` may be NULL.
unfoldable pub parse_json_response : (json : Json) → Option (List ℕ) → ℕ → Status × Option (List ℕ)
parse_json_response json none transcript_size = (err_invalid_argument, none)
parse_json_response json (some raw) transcript_size =
    if transcript_size == 0 then (err_invalid_argument, none) else elim (json.parse raw) [
      | none ↦ (err_io, none)
      | some root ↦ elim (json.text_item root) [
        | none ↦ (err_io, none)
        | some text ↦ copy_span (trim_span text) transcript_size
      ]
    ]

abbrev pub ends_with_slash : List ℕ → Bool
ends_with_slash [] = false
ends_with_slash (c ∷ []) = c == b'/'
ends_with_slash (c ∷ d ∷ s) = ends_with_slash (d ∷ s)

-- `assistantd_stt_build_inference_url`; `base_url` may be NULL, and nothing is stored then.
unfoldable pub build_inference_url : Option (List ℕ) → ℕ → Option (List ℕ)
build_inference_url none url_size = none
build_inference_url (some base_url) url_size =
    if url_size == 0
    then none
    else if ends_with_slash base_url
    then some (copy_string url_size (base_url ++ bytes "inference"))
    else some (copy_string url_size (base_url ++ bytes "/inference"))
