-- ===== src/Llm/Quiet.antt =====
-- The calls of llm_adapter.c start no child and leave no pipe open.
use shiori.Base.{
  ℕ, ◌*◌, ◌%◌, ◌++◌, not, Option, none, some, List, ◌==◌, leb, size_mod, add_size, bytes_of,
  if_both, option_both, if◌then◌else◌,
}
use shiori.Status.{Status}
use shiori.Status.Flow.{case_ok_both}
use shiori.Text.{bytes, copy_string, c_string}
use shiori.Config.{Config}
use shiori.Os.Table.{Table}
use shiori.Os.Posix.{Quiet, Quiet-refl, Quiet-trans}
use shiori.Curl.{url, post_fields, http_header, timeout, nosignal, noprogress}
use shiori.Curl.Quiet.{IsQuietCurl}
use shiori.Llm.{
  ResponseBuffer, receive, write_callback, double_past, load_system_prompt, build_request_json,
}
use shiori.Llm.QuietPrompt.{IsQuietFiles, load_system_prompt-Quiet}
use shiori.Llm.Request.{
  LlmServices, LlmAdapter, watch, on_write, llm_init, configure, post_body, llm_generate,
  llm_shutdown,
}

module _ {W : Type 0} (open_files children : W → Table) (services : LlmServices W)
    (quiet : IsQuietCurl open_files children services.curl)
    (quiet_files : IsQuietFiles open_files children services.files)
    (realloc_quiet : (w : W) (p : Option (List ℕ)) (n : ℕ)
      → Quiet open_files children w (services.realloc w p n).1) where
  open services use {curl, cjson, files, realloc, flag_value}

  -- From a world before it.
  abbrev From : W → W → Type 0
  From w0 w = Quiet open_files children w0 w

  abbrev then_quiet : {u v w : W} → From u v → From v w → From u w
  then_quiet {u} {v} {w} q r = Quiet-trans open_files children u v w q r

  abbrev same : (w : W) → From w w
  same w = Quiet-refl open_files children w

  -- What libcurl is given for the outcome of the callback.
  abbrev QuietAnswer : W → ResponseBuffer → Option (ℕ × (ResponseBuffer × W)) → Type 0
  QuietAnswer w b none = From w w
  QuietAnswer w b (some out) = From w out.1.1

  QuietAnswer-out :
      (w : W) (b : ResponseBuffer) (o : Option (ℕ × (ResponseBuffer × W)))
      → QuietAnswer w b o
      → let out : ℕ × (ResponseBuffer × W) = elim o [ none ↦ (0, (b, w)) | some out ↦ out ] in
        From w out.1.1
  QuietAnswer-out w b none q = q
  QuietAnswer-out w b (some out) q = q

  receive-Quiet :
      (w : W) (b : ResponseBuffer) (ptr : List ℕ) (n : ℕ)
      → QuietAnswer w b (receive realloc w b ptr n)
  unfolding receive
  receive-Quiet w b ptr n =
      let total = add_size b.size n in
      let start = if b.capacity == 0 then 4096 else b.capacity * 2 % size_mod in
      if_both (QuietAnswer w b) (leb b.capacity total) _ _
        (λ _. option_both (QuietAnswer w b) (double_past 65 start total) _ _ (same w) (λ m.
          option_both (QuietAnswer w b) (realloc w b.block m).0 _ _ (realloc_quiet w b.block m)
            (λ block. realloc_quiet w b.block m)))
        (λ _. same w)

  on_write-Quiet :
      (w : W) (b : ResponseBuffer) (chunk : Option (List ℕ)) (size nmemb : ℕ)
      → From w (on_write services w b chunk size nmemb).1.1
  unfolding on_write write_callback
  on_write-Quiet w b chunk size nmemb =
      let n = size * nmemb % size_mod in
      QuietAnswer-out w b (receive realloc w b (bytes_of chunk) n)
        (receive-Quiet w b (bytes_of chunk) n)

  pub llm_init-Quiet :
      (w : W) (adapter : LlmAdapter curl.Handle) (config : Config)
      → From w (llm_init services w adapter config).1.1
  unfolding llm_init
  llm_init-Quiet w adapter config =
      let After : Status × (LlmAdapter curl.Handle × W) → Type 0 = λ t. From w t.1.1 in
      let (status, (prompt, w1)) = load_system_prompt files w config.llm_system_prompt_path in
      let loaded =
        load_system_prompt-Quiet open_files children files quiet_files w
          config.llm_system_prompt_path in
      let ready = then_quiet loaded (quiet.init_quiet w1) in
      case_ok_both After status _ _ (option_both After (curl.easy_init w1).0 _ _ ready (λ h. ready))
        (λ e. loaded)

  pub llm_shutdown-Quiet :
      (w : W) (adapter : LlmAdapter curl.Handle) → From w (llm_shutdown services w adapter).1.1
  unfolding llm_shutdown
  llm_shutdown-Quiet w adapter =
      option_both (λ (t : Status × (LlmAdapter curl.Handle × W)). From w t.1.1) adapter.curl_handle
        _ _ (same w) (λ handle. quiet.cleanup_quiet w handle)

  configure-Quiet :
      (w : W) (handle : curl.Handle) (at body : List ℕ) (flag : Option ℕ)
      → From w (configure services w handle at body flag)
  unfolding configure
  configure-Quiet w handle at body flag =
      let w0 = curl.easy_reset w handle in
      let line = bytes "Content-Type: application/json" in
      let (headers, w1) = curl.slist_append w0 curl.no_headers line in
      let w2 = curl.easy_setopt w1 handle (url at) in
      let w3 = curl.easy_setopt w2 handle (post_fields body) in
      let w4 = curl.easy_setopt w3 handle (http_header headers) in
      let w5 = curl.easy_setopt w4 handle (timeout 40) in
      let w6 = curl.easy_setopt w5 handle (nosignal 1) in
      let set : From w w6 =
        then_quiet
          (then_quiet
            (then_quiet (quiet.reset_quiet w handle) (quiet.append_quiet w0 curl.no_headers line))
            (then_quiet (quiet.setopt_quiet w1 handle (url at))
              (quiet.setopt_quiet w2 handle (post_fields body))))
          (then_quiet (quiet.setopt_quiet w3 handle (http_header headers)) (
            then_quiet (quiet.setopt_quiet w4 handle (timeout 40))
              (quiet.setopt_quiet w5 handle (nosignal 1)))) in
      option_both (From w) flag _ _ set
        (λ f. then_quiet set (quiet.setopt_quiet w6 handle (noprogress 0)))

  abbrev SentQuietly : W → Status × (Option (List ℕ) × W) → Type 0
  SentQuietly w t = From w t.1.1

  post_body-Quiet :
      (w : W) (handle : curl.Handle) (flag : Option ℕ)
      → SentQuietly w (post_body services w handle flag)
  unfolding post_body
  post_body-Quiet w handle flag =
      let empty : ResponseBuffer = record { block = none; size = 0; capacity = 0 } in
      let (rc, (received, w1)) =
        curl.easy_perform (watch services flag) (on_write services) w handle empty in
      let (http_code, w2) = curl.response_code w1 handle in
      let sent : From w w1 =
        quiet.perform_quiet (watch services flag) (on_write services) on_write-Quiet w handle
          empty in
      let asked = then_quiet sent (quiet.code_quiet w1 handle) in
      let P = SentQuietly w in
      if_both P (rc == curl.aborted_by_callback) _ _ (λ _. sent)
        (λ _.
          if_both P (rc == curl.operation_timedout) _ _ (λ _. sent)
            (λ _.
              if_both P (not (rc == 0)) _ _ (λ _. sent)
                (λ _.
                  if_both P (not (http_code == 200)) _ _ (λ _. asked)
                    (λ _.
                      option_both P received.block _ _ asked
                        (λ block. if_both P (received.size == 0) _ _ (λ _. asked) (λ _. asked))))))

  pub llm_generate-Quiet :
      (w : W) (adapter : LlmAdapter curl.Handle) (prompt : List ℕ)
      → SentQuietly w (llm_generate services w adapter prompt)
  unfolding llm_generate
  llm_generate-Quiet w adapter prompt =
      let P = SentQuietly w in
      let at = copy_string 544 (adapter.api_base_url ++ bytes "/chat/completions") in
      let flag = adapter.shutdown_flag in
      option_both P adapter.curl_handle _ _ (same w) (λ handle.
        if_both P (adapter.initialized == 0) _ _ (λ _. same w)
          (λ _.
            option_both P
              (build_request_json cjson adapter.model_name (c_string adapter.system_prompt) prompt)
              _ _ (same w)
              (λ body.
                let ready = configure services w handle at body flag in
                then_quiet (configure-Quiet w handle at body flag)
                  (post_body-Quiet ready handle flag))))
