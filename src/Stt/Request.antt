-- ===== src/Stt/Request.antt =====
-- The operations of src/assistantd/stt_adapter.c on the struct of include/assistantd/stt_adapter.h.
-- libcurl, cJSON, the C allocator and `access` are parameters. The calls of the logger and of `free`
-- are left out; `adapter`, `config`, `request` and `result` are never NULL.
use shiori.Base.{ℕ, ◌+◌, not, ◌||◌, Option, none, some, List, [], ◌==◌, set, if◌then◌else◌}
use shiori.Base.Int.{ℤ, pos, eq_int}
use shiori.Status.{Status, ok, err_invalid_argument, err_config, err_io}
use shiori.Text.{bytes, copy_string, c_string}
use shiori.Config.{Config, is_empty, config_value_max}
use shiori.Curl.{Curl, url, mime_post, timeout, nosignal}
use shiori.Stt.{ResponseBuffer, Json, write_callback, parse_json_response, build_inference_url}

-- `assistantd_stt_adapter_t`; `curl_handle` is `none` for NULL.
pub record SttAdapter (Handle : Type 0) : Type 0 where
  pub initialized : ℕ
  pub api_base_url : List ℕ
  pub curl_handle : Option Handle

-- `memset(adapter, 0, sizeof(*adapter))`
abbrev pub zero_stt_adapter : {Handle : Type 0} → SttAdapter Handle
zero_stt_adapter = record { initialized = 0; api_base_url = []; curl_handle = none }

-- sizeof(result->transcript), ASSISTANTD_STT_TIMEOUT_SECONDS, and the size of `url`
abbrev pub transcript_max : ℕ
transcript_max = 4096

abbrev pub timeout_seconds : ℕ
timeout_seconds = 40

abbrev pub url_max : ℕ
url_max = config_value_max + 32

-- The string that an array holds from which `[0]` is set to NUL first.
abbrev pub or_empty : Option (List ℕ) → List ℕ
or_empty none = []
or_empty (some stored) = stored

-- What the adapter stands on: libcurl, cJSON, the C allocator, and `access(path, R_OK)`.
pub record SttServices (World : Type 0) : Type 1 where
  pub curl : Curl World
  pub json : Json
  pub malloc : World → ℕ → Option (List ℕ) × World
  pub realloc : World → Option (List ℕ) → ℕ → Option (List ℕ) × World
  pub access_r : World → List ℕ → ℤ × World

module _ {World : Type 0} (services : SttServices World) where
  open services use {curl, json, malloc, realloc, access_r}

  -- `assistantd_stt_init`
  unfoldable pub stt_init :
      World → SttAdapter curl.Handle → Config → Status × (SttAdapter curl.Handle × World)
  stt_init w adapter config =
      if is_empty config.stt_api_base_url
      then (err_config, (adapter, w))
      else (let named : SttAdapter curl.Handle = record {
        initialized = 0;
        api_base_url = copy_string config_value_max config.stt_api_base_url;
        curl_handle = none;
      } in
          let (handle, w') = curl.easy_init w in
          elim handle [
            | none ↦ (err_io, (named, w'))
            | some h ↦ (ok, (record named { initialized = 1; curl_handle = some h }, w'))
          ])

  -- One block of the form: a new part, its name, and what fills it, each under the code so far.
  unfoldable pub add_part :
      World → curl.Form → ℕ → List ℕ → (World → curl.Part → ℕ × World) → ℕ × World
  add_part w form form_rc name fill =
      if not (form_rc == 0)
      then (form_rc, w)
      else (let (part, w1) = curl.mime_addpart w form in
          elim part [
            | none ↦ (curl.out_of_memory, w1)
            | some p ↦
                let (named, w2) = curl.mime_name w1 p name in
                if named == 0 then fill w2 p else (named, w2)
          ])

  unfoldable pub build_form : World → curl.Form → List ℕ → ℕ × World
  build_form w form wav_path =
      let (rc1, w1) = add_part w form 0 (bytes "file") (λ at p. curl.mime_filedata at p wav_path) in
      let (rc2, w2) =
        add_part w1 form rc1 (bytes "response_format")
          (λ at p. curl.mime_data at p (bytes "json")) in
      add_part w2 form rc2 (bytes "language") (λ at p. curl.mime_data at p (bytes "en"))

  -- The write callback as libcurl calls it. Where its loop has not ended, for a total above 2 ^ 63, it
  -- is taken to return 0.
  unfoldable pub on_write :
      World → ResponseBuffer → Option (List ℕ) → ℕ → ℕ → ℕ × (ResponseBuffer × World)
  on_write w buffer chunk size nmemb = elim (write_callback realloc w buffer chunk size nmemb) [
    | none ↦ (0, (buffer, w))
    | some out ↦ out
  ]

  -- From the form on: the transfer and its result. The option is what is stored in the transcript.
  unfoldable pub post_form :
      World → curl.Handle → curl.Form → List ℕ → ResponseBuffer → Status × (Option (List ℕ) × World)
  post_form w handle form inference_url response =
      let w1 = curl.easy_setopt w handle (url inference_url) in
      let w2 = curl.easy_setopt w1 handle (mime_post form) in
      let w3 = curl.easy_setopt w2 handle (timeout timeout_seconds) in
      let w4 = curl.easy_setopt w3 handle (nosignal 1) in
      let (rc, (received, w5)) = curl.easy_perform none on_write w4 handle response in
      let (http_status, w6) = curl.response_code w5 handle in
      let (status, transcript) =
        parse_json_response json (some (c_string received.block)) transcript_max in
      if not (rc == 0)
      then (err_io, (none, curl.mime_free w5 form))
      else if not (http_status == 200)
      then (err_io, (none, curl.mime_free w6 form))
      else (status, (transcript, curl.mime_free w6 form))

  -- From the allocation of the response on.
  unfoldable pub send : World → curl.Handle → List ℕ → List ℕ → Status × (Option (List ℕ) × World)
  send w handle wav_path inference_url =
      let (block, w1) = malloc (curl.easy_reset w handle) 1 in
      elim block [
        | none ↦ (err_io, (none, w1))
        | some bytes_given ↦
            let (form, w2) = curl.mime_init w1 handle in
            elim form [
              | none ↦ (err_io, (none, w2))
              | some f ↦
                  let (form_rc, w3) = build_form w2 f wav_path in
                  if not (form_rc == 0)
                  then (err_io, (none, curl.mime_free w3 f))
                  else post_form w3 handle f inference_url
                      (record { block = set bytes_given 0 0; size = 0; capacity = 1 })
            ]
      ]

  -- `assistantd_stt_transcribe`: the option is what `result->transcript` is set to, `none` where it is
  -- left as it was; `utterance_wav_path` may be NULL. The adapter is not changed.
  unfoldable pub stt_transcribe :
      World → SttAdapter curl.Handle → Option (List ℕ) → Status × (Option (List ℕ) × World)
  stt_transcribe w adapter none = (err_invalid_argument, (none, w))
  stt_transcribe w adapter (some wav_path) = elim adapter.curl_handle [
    | none ↦ (err_invalid_argument, (none, w))
    | some handle ↦
        let (readable, w1) = access_r w wav_path in
        let inference_url = or_empty (build_inference_url (some adapter.api_base_url) url_max) in
        let (status, (stored, w2)) = send w1 handle wav_path inference_url in
        if adapter.initialized == 0 || is_empty wav_path
        then (err_invalid_argument, (none, w))
        else if not (eq_int readable (pos 0))
        then (err_io, (some [], w1))
        else (status, (some (or_empty stored), w2))
  ]

  -- `assistantd_stt_shutdown`
  unfoldable pub stt_shutdown :
      World → SttAdapter curl.Handle → Status × (SttAdapter curl.Handle × World)
  stt_shutdown w adapter = elim adapter.curl_handle [
    | none ↦ (ok, (zero_stt_adapter, w))
    | some handle ↦ (ok, (zero_stt_adapter, curl.easy_cleanup w handle))
  ]
