-- ===== src/Llm/Request.antt =====
-- The operations of src/assistantd/llm_adapter.c on the struct of include/assistantd/llm_adapter.h.
-- `adapter`, `config`, `request` and `result` are never NULL.
use shiori.Base.{ℕ, ◌+◌, ◌++◌, not, Option, none, some, List, [], ◌==◌, if◌then◌else◌, bytes_of}
use shiori.Base.Int.{ℤ, pos, eq_int}
use shiori.Status.{Status, ok, err_invalid_argument, err_io, case_ok}
use shiori.Text.{bytes, copy_string, c_string}
use shiori.Config.{Config, config_value_max}
use shiori.Curl.{Curl, url, post_fields, http_header, timeout, nosignal, noprogress}
use shiori.Llm.{
  ResponseBuffer, Files, Cjson, write_callback, load_system_prompt, build_request_json,
  parse_response_json,
}

-- `assistantd_llm_adapter_t`: the pointers are options, `none` for NULL; a flag's is its address.
pub record LlmAdapter (Handle : Type 0) : Type 0 where
  pub initialized : ℕ
  pub system_prompt : List ℕ
  pub api_base_url : List ℕ
  pub model_name : List ℕ
  pub shutdown_flag : Option ℕ
  pub curl_handle : Option Handle

-- `memset(adapter, 0, sizeof(*adapter))`
abbrev pub zero_llm_adapter : {Handle : Type 0} → LlmAdapter Handle
zero_llm_adapter = record {
  initialized = 0;
  system_prompt = [];
  api_base_url = [];
  model_name = [];
  shutdown_flag = none;
  curl_handle = none;
}

-- `assistantd_llm_set_shutdown_flag`
unfoldable pub set_shutdown_flag :
    {Handle : Type 0} → LlmAdapter Handle → Option ℕ → LlmAdapter Handle
set_shutdown_flag adapter flag = record adapter { shutdown_flag = flag }

-- sizeof(result->response), ASSISTANTD_LLM_TIMEOUT_SECONDS, and the size of `url`
abbrev pub response_max : ℕ
response_max = 8192

abbrev pub timeout_seconds : ℕ
timeout_seconds = 40

abbrev pub url_max : ℕ
url_max = config_value_max + 32

-- What the adapter stands on: libcurl, cJSON, files, `realloc`, and the value of a flag in memory.
pub record LlmServices (World : Type 0) : Type 1 where
  pub curl : Curl World
  pub cjson : Cjson
  pub files : Files World
  pub realloc : World → Option (List ℕ) → ℕ → Option (List ℕ) × World
  pub flag_value : World → ℕ → ℤ

module _ {World : Type 0} (services : LlmServices World) where
  open services use {curl, cjson, files, realloc, flag_value}

  -- `progress_callback`, with its `clientp`.
  unfoldable pub progress_callback : Option ℕ → World → ℕ
  progress_callback none w = 0
  progress_callback (some flag) w = if not (eq_int (flag_value w flag) (pos 0)) then 1 else 0

  -- The callback that is set where there is a flag.
  abbrev pub watch : Option ℕ → Option (World → ℕ)
  watch none = none
  watch (some flag) = some (progress_callback (some flag))

  -- The write callback as libcurl calls it, with no NULL chunk. Where its loop has not ended, for a
  -- total above 2 ^ 63, it is taken to return 0.
  unfoldable pub on_write :
      World → ResponseBuffer → Option (List ℕ) → ℕ → ℕ → ℕ × (ResponseBuffer × World)
  on_write w buffer chunk size nmemb =
      elim (write_callback realloc w buffer (bytes_of chunk) size nmemb) [
        | none ↦ (0, (buffer, w))
        | some out ↦ out
      ]

  -- `assistantd_llm_init`
  unfoldable pub llm_init :
      World → LlmAdapter curl.Handle → Config → Status × (LlmAdapter curl.Handle × World)
  llm_init w adapter config =
      let (status, (prompt, w1)) = load_system_prompt files w config.llm_system_prompt_path in
      let prompted : LlmAdapter curl.Handle = record zero_llm_adapter { system_prompt = prompt } in
      let named = record prompted {
        api_base_url = copy_string config_value_max config.llm_api_base_url;
        model_name = copy_string config_value_max config.llm_model;
      } in
      let (handle, w2) = curl.easy_init w1 in
      case_ok status
        (elim handle [
          | none ↦ (err_io, (named, w2))
          | some h ↦ (ok, (record named { initialized = 1; curl_handle = some h }, w2))
        ])
        (λ e. (e, (prompted, w1)))

  -- The options of a request, but for the callbacks.
  unfoldable pub configure : World → curl.Handle → List ℕ → List ℕ → Option ℕ → World
  configure w handle at body flag =
      let (headers, w1) =
        curl.slist_append (curl.easy_reset w handle) curl.no_headers
          (bytes "Content-Type: application/json") in
      let w2 = curl.easy_setopt w1 handle (url at) in
      let w3 = curl.easy_setopt w2 handle (post_fields body) in
      let w4 = curl.easy_setopt w3 handle (http_header headers) in
      let w5 = curl.easy_setopt w4 handle (timeout timeout_seconds) in
      let w6 = curl.easy_setopt w5 handle (nosignal 1) in
      elim flag [ none ↦ w6 | some f ↦ curl.easy_setopt w6 handle (noprogress 0) ]

  -- From the transfer on. The option is what is stored in the response.
  unfoldable pub post_body : World → curl.Handle → Option ℕ → Status × (Option (List ℕ) × World)
  post_body w handle flag =
      let (rc, (received, w1)) =
        curl.easy_perform (watch flag) on_write w handle
          (record { block = none; size = 0; capacity = 0 }) in
      let (http_code, w2) = curl.response_code w1 handle in
      if rc == curl.aborted_by_callback
      then (err_io, (none, w1))
      else if rc == curl.operation_timedout
      then (err_io, (none, w1))
      else if not (rc == 0)
      then (err_io, (none, w1))
      else if not (http_code == 200)
      then (err_io, (none, w2))
      else elim received.block [
        | none ↦ (err_io, (none, w2))
        | some block ↦
            let (status, out) = parse_response_json cjson (c_string block) response_max in
            if received.size == 0 then (err_io, (none, w2)) else (status, (out, w2))
      ]

  -- `assistantd_llm_generate`: the option is what `result->response` is set to, `none` where it is left
  -- as it was. The adapter is not changed.
  unfoldable pub llm_generate :
      World → LlmAdapter curl.Handle → List ℕ → Status × (Option (List ℕ) × World)
  llm_generate w adapter prompt = elim adapter.curl_handle [
    | none ↦ (err_invalid_argument, (none, w))
    | some handle ↦
        let at = copy_string url_max (adapter.api_base_url ++ bytes "/chat/completions") in
        let request =
          build_request_json cjson adapter.model_name (c_string adapter.system_prompt) prompt in
        if adapter.initialized == 0 then (err_invalid_argument, (none, w)) else elim request [
          | none ↦ (err_io, (some [], w))
          | some body ↦
              let ready = configure w handle at body adapter.shutdown_flag in
              let (status, (stored, w')) = post_body ready handle adapter.shutdown_flag in
              (status, (some (bytes_of stored), w'))
        ]
  ]

  -- `assistantd_llm_shutdown`
  unfoldable pub llm_shutdown :
      World → LlmAdapter curl.Handle → Status × (LlmAdapter curl.Handle × World)
  llm_shutdown w adapter = elim adapter.curl_handle [
    | none ↦ (ok, (zero_llm_adapter, w))
    | some handle ↦ (ok, (zero_llm_adapter, curl.easy_cleanup w handle))
  ]
