-- ===== src/Llm/Tests.antt =====
-- Runs of llm_adapter.c, and its theorems at concrete inputs.
use shiori.Base.{
  ℕ, suc, ◌≤◌, ◌<◌, ◌≡◌, refl, arith, none, some, List, [], ◌∷◌, take, length, length-take, memcpy,
  ◌==◌, if◌then◌else◌,
}
use shiori.Base.Int.{ℤ, pos}
use shiori.Status.{ok, err_io}
use shiori.Text.{bytes, c_string}
use shiori.Config.{init_defaults}
use shiori.Utterance.Samples.{plenty, plenty_sized, plenty_kept, plenty_memory}
use shiori.Curl.Samples.{answering}
use shiori.Llm.{
  Files, system_prompt_max, load_system_prompt, fill_prompt, write_callback, receive, double_past,
  put_bytes, build_request_json, message_item, parse_response_json,
}
use shiori.Llm.Samples.{flat}
use shiori.Llm.Body.{empty_buffer, Gathered, gather, gather_whole}
use shiori.Llm.Prompt.{Loaded, Ended, load_system_prompt-Loaded}
use shiori.Llm.Request.{
  LlmServices, LlmAdapter, watch, set_shutdown_flag, llm_init, llm_generate, post_body, configure,
  on_write, progress_callback,
}
use shiori.Llm.Session.{with_flags, llm_generate-ok, llm_init-unwatched}

-- A file is what is left of it, and the world counts the calls. Every file holds one prompt.
abbrev prompt_files : Files (List ℕ)
prompt_files = record {
  File = ℕ;
  fopen = λ w path. (some 0, bytes "be kind");
  fread = λ w file n. (take n w, []);
  ferror = λ w file. (pos 0, w);
  fclose = λ w file. w;
}

prompt_fread : (w : List ℕ) (file n : ℕ) → length (prompt_files.fread w file n).0 ≤ n
prompt_fread w file n = omega (arith, length-take n w)

loaded : load_system_prompt prompt_files [] (bytes "/p") ≡ (ok, (bytes "be kind", []))
unfolding load_system_prompt fill_prompt
loaded = refl

load_system_prompt-Loaded_example :
    ((file : prompt_files.File)
      → Ended (
          fill_prompt prompt_files system_prompt_max
            (prompt_files.fopen [] (bytes "/p")).1
            file
            []))
    × Loaded (load_system_prompt prompt_files [] (bytes "/p"))
load_system_prompt-Loaded_example =
    load_system_prompt-Loaded prompt_files prompt_fread [] (bytes "/p")

gather_whole_example :
    Gathered plenty plenty_sized plenty_kept plenty_memory empty_buffer
      (bytes "ab" ∷ bytes "cd" ∷ [])
      (gather plenty 0 empty_buffer (bytes "ab" ∷ bytes "cd" ∷ []))
gather_whole_example =
    gather_whole plenty plenty_sized plenty_kept plenty_memory 0 (bytes "ab") (bytes "cd" ∷ [])
      (omega arith)

-- The flag at address 7 is set, and the others are not.
abbrev no_files : Files ℕ
no_files = record {
  File = ℕ;
  fopen = λ w path. (some 0, suc w);
  fread = λ w file n. (take n (bytes "x"), suc w);
  ferror = λ w file. (pos 0, w);
  fclose = λ w file. w;
}

abbrev services : LlmServices ℕ
services = record {
  curl = answering (bytes "hello");
  cjson = flat;
  files = no_files;
  realloc = plenty;
  flag_value = λ w address. if address == 7 then pos 1 else pos 0;
}

abbrev ready : LlmAdapter ℕ
ready = record {
  initialized = 1;
  system_prompt = bytes "be kind";
  api_base_url = bytes "http://127.0.0.1:8080/v1";
  model_name = bytes "m";
  shutdown_flag = none;
  curl_handle = some 0;
}

answered : (llm_generate services 0 ready (bytes "hi")).1.0 ≡ some (bytes "hello")
unfolding llm_generate post_body configure on_write write_callback receive double_past put_bytes
    memcpy build_request_json message_item parse_response_json c_string
answered = refl

-- With a flag that is set, the transfer is aborted and nothing is stored.
aborted :
    let (status, (stored, w)) =
      llm_generate services 0 (set_shutdown_flag ready (some 7)) (bytes "hi") in
    (status ≡ err_io) × (stored ≡ some [])
unfolding llm_generate set_shutdown_flag post_body configure on_write build_request_json
    message_item progress_callback
aborted = (refl, refl)

succeeds : (llm_generate services 0 ready (bytes "hi")).0 ≡ ok
unfolding llm_generate post_body configure on_write write_callback receive double_past put_bytes
    memcpy build_request_json message_item parse_response_json c_string
succeeds = refl

llm_generate-ok_example :
    (r : List ℕ) × ((llm_generate services 0 ready (bytes "hi")).1.0 ≡ some r) × (length r < 8192)
llm_generate-ok_example = llm_generate-ok services 0 ready (bytes "hi") succeeds

-- The flag that the adapter had is set, and the adapter after `init` does not have it.
abbrev all_set : ℕ → ℕ → ℤ
all_set w flag = pos 1

llm_init-unwatched_example :
    let made = (llm_init services 0 (set_shutdown_flag ready (some 7)) init_defaults).1.0 in
    (watch services made.shutdown_flag ≡ none)
    × (llm_generate (with_flags services all_set) 0 made (bytes "hi")
        ≡ llm_generate services 0 made (bytes "hi"))
llm_init-unwatched_example =
    llm_init-unwatched services all_set 0 0 (set_shutdown_flag ready (some 7)) init_defaults
      (bytes "hi")
