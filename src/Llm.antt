-- ===== src/Llm.antt =====
-- The buffer, the prompt file, the request and the response of src/assistantd/llm_adapter.c. cJSON, the
-- C library's files and `realloc` are parameters. The calls of the logger and of `free` are left out.
pub mod Request
pub mod Buffer
pub mod Body
pub mod Prompt
pub mod Quiet
pub mod QuietPrompt
pub mod Session
pub mod Samples
mod Tests
use shiori.Base.{
  ℕ, zero, suc, ◌+◌, ◌-◌, ◌*◌, ◌%◌, Bool, true, false, not, ◌||◌, Option, none, some, List, [], ◌∷◌,
  ◌++◌, length, set, ltb, leb, ◌==◌, if◌then◌else◌, add_size, size_mod, memcpy, bytes_of,
}
use shiori.Base.Int.{ℤ, pos, eq_int}
use shiori.Status.{Status, ok, err_config, err_io}
use shiori.Text.{bytes, copy_string, c_string}

-- `response_buffer_t`; its field `data` is `none` for NULL.
pub record ResponseBuffer : Type 0 where
  pub block : Option (List ℕ)
  pub size : ℕ
  pub capacity : ℕ

-- The doubling loop of `write_callback`; `none` is a loop that has not ended within the fuel.
unfoldable pub double_past : ℕ → ℕ → ℕ → Option ℕ
double_past zero new_cap total = none
double_past (suc fuel) new_cap total =
    let doubled = double_past fuel (new_cap * 2 % size_mod) total in
    if leb new_cap total then doubled else some new_cap

-- The end of `write_callback`: the bytes, and a NUL after them.
unfoldable pub put_bytes : ResponseBuffer → List ℕ → ℕ → ResponseBuffer
put_bytes buf ptr n =
    let end = add_size buf.size n in
    record buf { block = some (set (memcpy (bytes_of buf.block) buf.size ptr n) end 0); size = end }

module _ {W : Type 0} (realloc : W → Option (List ℕ) → ℕ → Option (List ℕ) × W) where
  -- The part of `write_callback` below its first lines; the option is `none` where the loop does not
  -- end within the fuel, and the number is what the callback returns.
  unfoldable pub receive : W → ResponseBuffer → List ℕ → ℕ → Option (ℕ × (ResponseBuffer × W))
  receive w buf ptr n =
      let total = add_size buf.size n in
      let start = if buf.capacity == 0 then 4096 else buf.capacity * 2 % size_mod in
      if leb buf.capacity total
      then elim (double_past 65 start total) [
        | none ↦ none
        | some new_cap ↦
            let (tmp, w') = realloc w buf.block new_cap in
            elim tmp [
              | none ↦ some (0, (buf, w'))
              | some block ↦
                  some (
                    n,
                    (put_bytes (record buf { block = some block; capacity = new_cap }) ptr n, w'),
                  )
            ]
      ]
      else some (n, (put_bytes buf ptr n, w))

  -- `write_callback`
  unfoldable pub write_callback :
      W → ResponseBuffer → List ℕ → ℕ → ℕ → Option (ℕ × (ResponseBuffer × W))
  write_callback w buf ptr size nmemb = receive w buf ptr (size * nmemb % size_mod)

-- ASSISTANTD_LLM_SYSTEM_PROMPT_MAX
abbrev pub system_prompt_max : ℕ
system_prompt_max = 4096

-- The calls of the C library on the prompt's file.
pub record Files (World : Type 0) : Type 1 where
  pub File : Type 0
  pub fopen : World → List ℕ → Option File × World
  -- At most so many bytes.
  pub fread : World → File → ℕ → List ℕ × World
  pub ferror : World → File → ℤ × World
  pub fclose : World → File → World

module _ {World : Type 0} (files : Files World) where
  open files use {File, fopen, fread, ferror, fclose}

  -- The loop of `load_system_prompt`, with the bytes so far; `none` is a loop that has not ended within
  -- the fuel.
  unfoldable pub fill_prompt : ℕ → World → File → List ℕ → Option (List ℕ × World)
  fill_prompt zero w file prompt = none
  fill_prompt (suc fuel) w file prompt = elim (ltb (length prompt) (system_prompt_max - 1)) [
    | false ↦ some (prompt, w)
    | true ↦
        let (got, w') = fread w file (system_prompt_max - 1 - length prompt) in
        elim got [
          | [] ↦ some (prompt, w')
          | c ∷ rest ↦ fill_prompt fuel w' file (prompt ++ (c ∷ rest))
        ]
  ]

  -- `load_system_prompt`: the bytes that stand in `adapter->system_prompt` afterwards.
  unfoldable pub load_system_prompt : World → List ℕ → Status × (List ℕ × World)
  load_system_prompt w path =
      let (opened, w1) = fopen w path in
      elim opened [
        | none ↦ (err_io, ([], w1))
        | some file ↦ elim (fill_prompt system_prompt_max w1 file []) [
          | none ↦ (err_io, ([], w1))
          | some (prompt, w2) ↦
              let (failed, w3) = ferror w2 file in
              if not (eq_int failed (pos 0))
              then (err_io, (prompt, fclose w3 file))
              else if length prompt == 0
              then (err_config, (prompt, fclose w3 file))
              else (ok, (prompt, fclose w3 file))
        ]
      ]

-- What the adapter uses of cJSON. A pointer to an item is an option, `none` for NULL, and each call
-- that may be given NULL takes an option. An array that was added to an object is named by the object and its key.
pub record Cjson : Type 1 where
  pub Item : Type 0
  pub create_object : Option Item
  pub add_string : Item → List ℕ → List ℕ → Item
  pub add_array : Item → List ℕ → Option Item
  pub add_item_to_array : Item → List ℕ → Option Item → Item
  -- The number as the source writes it.
  pub add_number : Item → List ℕ → List ℕ → Item
  pub print_unformatted : Item → Option (List ℕ)
  pub parse : List ℕ → Option Item
  pub get_object_item : Option Item → List ℕ → Option Item
  pub is_array : Option Item → Bool
  pub get_array_size : Option Item → ℕ
  pub get_array_item : Option Item → ℕ → Option Item
  -- The string of an item that is one, and whose pointer is not NULL.
  pub string_value : Option Item → Option (List ℕ)

module _ (cjson : Cjson) where
  open cjson use {
    Item, create_object, add_string, add_array, add_item_to_array, add_number, print_unformatted,
    parse, get_object_item, is_array, get_array_size, get_array_item, string_value,
  }

  unfoldable pub message_item : List ℕ → List ℕ → Option Item
  message_item role content = elim create_object [
    | none ↦ none
    | some item ↦ some (add_string (add_string item (bytes "role") role) (bytes "content") content)
  ]

  -- `build_request_json`, with the model and the system prompt of the adapter.
  unfoldable pub build_request_json : List ℕ → List ℕ → List ℕ → Option (List ℕ)
  build_request_json model_name system_prompt user_prompt = elim create_object [
    | none ↦ none
    | some root ↦ elim (add_array (add_string root (bytes "model") model_name) (bytes "messages")) [
      | none ↦ none
      | some with_array ↦
          let system = message_item (bytes "system") system_prompt in
          let user = message_item (bytes "user") user_prompt in
          let with_system = add_item_to_array with_array (bytes "messages") system in
          let with_both = add_item_to_array with_system (bytes "messages") user in
          let limited = add_number with_both (bytes "max_tokens") (bytes "300") in
          print_unformatted (add_number limited (bytes "temperature") (bytes "0.7"))
    ]
  ]

  -- `parse_response_json`; the option is what is stored at `out`, `none` where nothing is.
  unfoldable pub parse_response_json : List ℕ → ℕ → Status × Option (List ℕ)
  parse_response_json raw out_size = elim (parse raw) [
    | none ↦ (err_io, none)
    | some root ↦
        let choices = get_object_item (some root) (bytes "choices") in
        let message = get_object_item (get_array_item choices 0) (bytes "message") in
        let content = string_value (get_object_item message (bytes "content")) in
        if not (is_array choices) || get_array_size choices == 0
        then (err_io, none)
        else elim content [
          | none ↦ (err_io, none)
          | some value ↦ (ok, some (copy_string out_size value))
        ]
  ]
