-- ===== src/Llm/Session.antt =====
-- The protocol of the adapter: what a response that is given has, when one may be asked for, and when
-- a request stops.
use shiori.Base.{
  ℕ, ap, ◌<◌, ◌≡◌, ◌++◌, refl, arith, not, Option, none, some, List, [], length, length-take, ◌==◌,
  ◌||◌, bytes_of, if_both, option_both, Option-cases, inl, inr,
}
use shiori.Base.Int.{ℤ}
use shiori.Status.{Status, ok, err_invalid_argument, err_io}
use shiori.Status.Flow.{case_ok_both}
use shiori.Text.{bytes, copy_string, c_string}
use shiori.Config.{Config}
use shiori.Llm.{build_request_json, parse_response_json, load_system_prompt}
use shiori.Llm.Request.{
  LlmServices, LlmAdapter, zero_llm_adapter, watch, on_write, llm_init, configure, post_body,
  llm_generate, llm_shutdown,
}

-- Success comes with a response that fits its array with the NUL.
Responded : {W : Type 0} → Status × (Option (List ℕ) × W) → Type 0
Responded (status, (stored, w)) = status ≡ ok → (r : List ℕ) × (stored ≡ some r) × (length r < 8192)

module _ {W : Type 0} (services : LlmServices W) where
  open services use {curl, cjson, files, realloc, flag_value}

  lost : (stored : Option (List ℕ)) (w : W) → Responded (err_io, (stored, w))
  unfolding Responded
  lost stored w h = cc h

  refused : (w : W) → Responded (err_invalid_argument, (none, w))
  unfolding Responded
  refused w h = cc h

  abbrev Parsed : Status × Option (List ℕ) → Type 0
  Parsed (status, out) = status ≡ ok → (r : List ℕ) × (out ≡ some r) × (length r < 8192)

  parse_response_json-Parsed : (raw : List ℕ) → Parsed (parse_response_json cjson raw 8192)
  unfolding parse_response_json
  parse_response_json-Parsed raw =
      option_both Parsed (cjson.parse raw) _ _ (λ h. cc h)
        (λ root.
          let choices = cjson.get_object_item (some root) (bytes "choices") in
          let message = cjson.get_object_item (cjson.get_array_item choices 0) (bytes "message") in
          let content = cjson.string_value (cjson.get_object_item message (bytes "content")) in
          if_both Parsed (not (cjson.is_array choices) || cjson.get_array_size choices == 0) _ _
            (λ _ h. cc h)
            (λ _.
              option_both Parsed content _ _ (λ h. cc h)
                (λ value h. (copy_string 8192 value, refl, omega (arith, length-take 8191 value)))))

  post_body-Responded :
      (w : W) (handle : curl.Handle) (flag : Option ℕ)
      → Responded (post_body services w handle flag)
  unfolding post_body Responded
  post_body-Responded w handle flag =
      let (rc, (received, w1)) =
        curl.easy_perform (watch services flag) (on_write services) w handle
          (record { block = none; size = 0; capacity = 0 }) in
      let (http_code, w2) = curl.response_code w1 handle in
      if_both Responded (rc == curl.aborted_by_callback) _ _ (λ _. lost none w1)
        (λ _.
          if_both Responded (rc == curl.operation_timedout) _ _ (λ _. lost none w1)
            (λ _.
              if_both Responded (not (rc == 0)) _ _ (λ _. lost none w1)
                (λ _.
                  if_both Responded (not (http_code == 200)) _ _ (λ _. lost none w2)
                    (λ _. option_both Responded received.block _ _ (lost none w2) (λ block.
                      if_both Responded (received.size == 0) _ _ (λ _. lost none w2)
                        (λ _. parse_response_json-Parsed (c_string block)))))))

  bytes_of-Responded :
      (status : Status) (stored : Option (List ℕ)) (w : W)
      → Responded (status, (stored, w))
      → Responded (status, (some (bytes_of stored), w))
  unfolding Responded
  bytes_of-Responded status none w a = λ e. cc ((a e).1)
  bytes_of-Responded status (some r) w a = a

  llm_generate-Responded :
      (w : W) (adapter : LlmAdapter curl.Handle) (prompt : List ℕ)
      → Responded (llm_generate services w adapter prompt)
  unfolding llm_generate
  llm_generate-Responded w adapter prompt =
      let at = copy_string 544 (adapter.api_base_url ++ bytes "/chat/completions") in
      option_both Responded adapter.curl_handle _ _ (refused w) (λ handle.
        if_both Responded (adapter.initialized == 0) _ _ (λ _. refused w)
          (λ _.
            option_both Responded
              (build_request_json cjson adapter.model_name (c_string adapter.system_prompt) prompt)
              _ _ (lost (some []) w)
              (λ body.
                let ready = configure services w handle at body adapter.shutdown_flag in
                let (status, (stored, w')) =
                  post_body services ready handle adapter.shutdown_flag in
                bytes_of-Responded status stored w'
                  (post_body-Responded ready handle adapter.shutdown_flag))))

  -- A request that succeeds has stored a response that fits its array with the NUL, whatever the
  -- server sent.
  pub llm_generate-ok :
      (w : W) (adapter : LlmAdapter curl.Handle) (prompt : List ℕ)
      → (llm_generate services w adapter prompt).0 ≡ ok
      → (r : List ℕ) × ((llm_generate services w adapter prompt).1.0 ≡ some r) × (length r < 8192)
  unfolding Responded
  llm_generate-ok w adapter prompt e = llm_generate-Responded w adapter prompt e

  -- After a shutdown, whatever the adapter was, a request is refused without a call outside, until
  -- another `init`; a second shutdown releases nothing again.
  pub llm_generate-llm_shutdown :
      (w w' : W) (adapter : LlmAdapter curl.Handle) (prompt : List ℕ)
      → let (status, (off, _)) = llm_shutdown services w adapter in
        (status ≡ ok)
        × (llm_generate services w' off prompt ≡ (err_invalid_argument, (none, w')))
        × (llm_shutdown services w' off ≡ (ok, (zero_llm_adapter, w')))
  unfolding llm_generate llm_shutdown
  llm_generate-llm_shutdown w w' adapter prompt = elim (Option-cases adapter.curl_handle) [
    | inl null ↦ rw null (refl, refl, refl)
    | inr (handle, held) ↦ rw held (refl, refl, refl)
  ]

  llm_init-flagless :
      (w : W) (adapter : LlmAdapter curl.Handle) (config : Config)
      → (llm_init services w adapter config).1.0.shutdown_flag ≡ none
  unfolding llm_init
  llm_init-flagless w adapter config =
      let (status, (prompt, w1)) = load_system_prompt files w config.llm_system_prompt_path in
      let Flagless : Status × (LlmAdapter curl.Handle × W) → Type 0 =
        λ r. r.1.0.shutdown_flag ≡ none in
      case_ok_both Flagless status _ _
        (option_both Flagless (curl.easy_init w1).0 _ _ refl (λ h. refl)) (λ e. refl)

  -- The services in a memory where the flags have other values.
  abbrev pub with_flags : (W → ℕ → ℤ) → LlmServices W
  with_flags values = record services { flag_value = values }

  llm_generate-flagless :
      (values : W → ℕ → ℤ) (w : W) (adapter : LlmAdapter curl.Handle) (prompt : List ℕ)
      → adapter.shutdown_flag ≡ none
      → llm_generate (with_flags values) w adapter prompt ≡ llm_generate services w adapter prompt
  unfolding llm_generate post_body configure on_write
  llm_generate-flagless values w adapter prompt e = rw e refl

  -- A request after an `init`, whatever the adapter was, cannot be stopped by a flag: no flag is set, so
  -- that the request sets no progress callback, and its whole outcome is the same whatever values the
  -- flags in memory have.
  pub llm_init-unwatched :
      (values : W → ℕ → ℤ) (w w' : W) (adapter : LlmAdapter curl.Handle) (config : Config)
      (prompt : List ℕ)
      → let made = (llm_init services w adapter config).1.0 in
        (watch services made.shutdown_flag ≡ none)
        × (llm_generate (with_flags values) w' made prompt ≡ llm_generate services w' made prompt)
  llm_init-unwatched values w w' adapter config prompt =
      let made = (llm_init services w adapter config).1.0 in
      let e = llm_init-flagless w adapter config in
      (ap (watch services) e, llm_generate-flagless values w' made prompt e)
