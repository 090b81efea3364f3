-- ===== src/Stt/Quiet.antt =====
-- The calls of stt_adapter.c start no child and leave no pipe open.
use shiori.Base.{
  ℕ, not, ◌||◌, Option, none, some, List, ◌==◌, set, if_both, option_both, if◌then◌else◌, ltb,
  size_mod, add_size, ◌*◌, ◌%◌,
}
use shiori.Base.Int.{pos, eq_int}
use shiori.Status.{Status}
use shiori.Text.{bytes}
use shiori.Config.{Config, is_empty}
use shiori.Os.Table.{Table}
use shiori.Os.Posix.{Quiet, Quiet-refl, Quiet-trans}
use shiori.Curl.{url, mime_post, timeout, nosignal}
use shiori.Curl.Quiet.{IsQuietCurl}
use shiori.Stt.{ResponseBuffer, write_callback, receive, double_until, build_inference_url}
use shiori.Stt.Request.{
  SttServices, SttAdapter, stt_init, add_part, build_form, on_write, or_empty, post_form, send,
  stt_transcribe, stt_shutdown,
}

module _ {W : Type 0} (files children : W → Table) (services : SttServices W)
    (quiet : IsQuietCurl files children services.curl)
    (malloc_quiet : (w : W) (n : ℕ) → Quiet files children w (services.malloc w n).1)
    (realloc_quiet : (w : W) (p : Option (List ℕ)) (n : ℕ)
      → Quiet files children w (services.realloc w p n).1)
    (access_quiet : (w : W) (path : List ℕ)
      → Quiet files children w (services.access_r w path).1) where
  open services use {curl, json, malloc, realloc, access_r}

  -- From a world before it.
  abbrev From : W → W → Type 0
  From w0 w = Quiet files children w0 w

  abbrev then_quiet : {u v w : W} → From u v → From v w → From u w
  then_quiet {u} {v} {w} q r = Quiet-trans files children u v w q r

  abbrev same : (w : W) → From w w
  same w = Quiet-refl files children w

  -- What libcurl is given for the outcome of the callback.
  abbrev QuietAnswer : W → ResponseBuffer → Option (ℕ × (ResponseBuffer × W)) → Type 0
  QuietAnswer w b none = From w w
  QuietAnswer w b (some out) = From w out.1.1

  QuietAnswer-out :
      (w : W) (b : ResponseBuffer) (o : Option (ℕ × (ResponseBuffer × W)))
      → QuietAnswer w b o
      → let out : ℕ × (ResponseBuffer × W) = elim o [ none ↦ (0, (b, w)) | some out ↦ out ] in
        From w out.1.1
  QuietAnswer-out w b none q = q
  QuietAnswer-out w b (some out) q = q

  receive-Quiet :
      (w : W) (b : ResponseBuffer) (ptr : List ℕ) (n : ℕ)
      → QuietAnswer w b (receive realloc w b ptr n)
  unfolding receive
  receive-Quiet w b ptr n =
      let required = add_size (add_size b.size n) 1 in
      let start = if b.capacity == 0 then 4096 else b.capacity in
      if_both (QuietAnswer w b) (ltb b.capacity required) _ _
        (λ _. option_both (QuietAnswer w b) (double_until 65 start required) _ _ (same w) (λ m.
          option_both (QuietAnswer w b) (realloc w (some b.block) m).0 _ _
            (realloc_quiet w (some b.block) m) (λ block. realloc_quiet w (some b.block) m)))
        (λ _. same w)

  on_write-Quiet :
      (w : W) (b : ResponseBuffer) (chunk : Option (List ℕ)) (size nmemb : ℕ)
      → From w (on_write services w b chunk size nmemb).1.1
  unfolding on_write write_callback
  on_write-Quiet w b none size nmemb = same w
  on_write-Quiet w b (some ptr) size nmemb =
      let n = size * nmemb % size_mod in
      QuietAnswer-out w b (receive realloc w b ptr n) (receive-Quiet w b ptr n)

  pub stt_init-Quiet :
      (w : W) (adapter : SttAdapter curl.Handle) (config : Config)
      → From w (stt_init services w adapter config).1.1
  unfolding stt_init
  stt_init-Quiet w adapter config =
      let After : Status × (SttAdapter curl.Handle × W) → Type 0 = λ t. From w t.1.1 in
      if_both After (is_empty config.stt_api_base_url) _ _ (λ _. same w)
        (λ _.
          option_both After (curl.easy_init w).0 _ _ (quiet.init_quiet w) (λ h. quiet.init_quiet w))

  pub stt_shutdown-Quiet :
      (w : W) (adapter : SttAdapter curl.Handle) → From w (stt_shutdown services w adapter).1.1
  unfolding stt_shutdown
  stt_shutdown-Quiet w adapter =
      option_both (λ (t : Status × (SttAdapter curl.Handle × W)). From w t.1.1) adapter.curl_handle
        _ _ (same w) (λ handle. quiet.cleanup_quiet w handle)

  add_part-Quiet :
      (w : W) (form : curl.Form) (rc : ℕ) (name : List ℕ) (fill : W → curl.Part → ℕ × W)
      → ((at : W) (p : curl.Part) → From at (fill at p).1)
      → From w (add_part services w form rc name fill).1
  unfolding add_part
  add_part-Quiet w form rc name fill filled =
      let After : ℕ × W → Type 0 = λ t. From w t.1 in
      let (part, w1) = curl.mime_addpart w form in
      let added = quiet.addpart_quiet w form in
      if_both After (not (rc == 0)) _ _ (λ _. same w)
        (λ _. option_both After part _ _ added (λ p.
          let (named, w2) = curl.mime_name w1 p name in
          let so_far = then_quiet added (quiet.name_quiet w1 p name) in
          if_both After (named == 0) _ _ (λ _. then_quiet so_far (filled w2 p)) (λ _. so_far)))

  build_form-Quiet :
      (w : W) (form : curl.Form) (path : List ℕ) → From w (build_form services w form path).1
  unfolding build_form
  build_form-Quiet w form path =
      let fill_path = λ (at : W) (p : curl.Part). curl.mime_filedata at p path in
      let fill_json = λ (at : W) (p : curl.Part). curl.mime_data at p (bytes "json") in
      let fill_en = λ (at : W) (p : curl.Part). curl.mime_data at p (bytes "en") in
      let (rc1, w1) = add_part services w form 0 (bytes "file") fill_path in
      let (rc2, w2) = add_part services w1 form rc1 (bytes "response_format") fill_json in
      then_quiet
        (then_quiet
          (add_part-Quiet w form 0 (bytes "file") fill_path
            (λ at p. quiet.filedata_quiet at p path))
          (add_part-Quiet w1 form rc1 (bytes "response_format") fill_json
            (λ at p. quiet.data_quiet at p (bytes "json"))))
        (add_part-Quiet w2 form rc2 (bytes "language") fill_en
          (λ at p. quiet.data_quiet at p (bytes "en")))

  abbrev SentQuietly : W → Status × (Option (List ℕ) × W) → Type 0
  SentQuietly w t = From w t.1.1

  post_form-Quiet :
      (w : W) (handle : curl.Handle) (form : curl.Form) (at : List ℕ) (response : ResponseBuffer)
      → SentQuietly w (post_form services w handle form at response)
  unfolding post_form
  post_form-Quiet w handle form at response =
      let w1 = curl.easy_setopt w handle (url at) in
      let w2 = curl.easy_setopt w1 handle (mime_post form) in
      let w3 = curl.easy_setopt w2 handle (timeout 40) in
      let w4 = curl.easy_setopt w3 handle (nosignal 1) in
      let (rc, (received, w5)) = curl.easy_perform none (on_write services) w4 handle response in
      let (http_status, w6) = curl.response_code w5 handle in
      let set_up : From w w4 =
        then_quiet
          (then_quiet (quiet.setopt_quiet w handle (url at))
            (quiet.setopt_quiet w1 handle (mime_post form)))
          (then_quiet (quiet.setopt_quiet w2 handle (timeout 40))
            (quiet.setopt_quiet w3 handle (nosignal 1))) in
      let sent : From w w5 =
        then_quiet set_up
          (quiet.perform_quiet none (on_write services) on_write-Quiet w4 handle response) in
      let freed_early = then_quiet sent (quiet.free_quiet w5 form) in
      let freed =
        then_quiet sent (then_quiet (quiet.code_quiet w5 handle) (quiet.free_quiet w6 form)) in
      if_both (SentQuietly w) (not (rc == 0)) _ _ (λ _. freed_early)
        (λ _. if_both (SentQuietly w) (not (http_status == 200)) _ _ (λ _. freed) (λ _. freed))

  send-Quiet :
      (w : W) (handle : curl.Handle) (path at : List ℕ)
      → SentQuietly w (send services w handle path at)
  unfolding send
  send-Quiet w handle path at =
      let w0 = curl.easy_reset w handle in
      let (block, w1) = malloc w0 1 in
      let (form, w2) = curl.mime_init w1 handle in
      let got = then_quiet (quiet.reset_quiet w handle) (malloc_quiet w0 1) in
      let made = then_quiet got (quiet.mime_init_quiet w1 handle) in
      option_both (SentQuietly w) block _ _ got (λ given.
        option_both (SentQuietly w) form _ _ made (λ f.
          let (form_rc, w3) = build_form services w2 f path in
          let built = then_quiet made (build_form-Quiet w2 f path) in
          if_both (SentQuietly w) (not (form_rc == 0)) _ _
            (λ _. then_quiet built (quiet.free_quiet w3 f))
            (λ _. then_quiet built (
              post_form-Quiet w3 handle f at
                (record { block = set given 0 0; size = 0; capacity = 1 })))))

  pub stt_transcribe-Quiet :
      (w : W) (adapter : SttAdapter curl.Handle) (path : Option (List ℕ))
      → SentQuietly w (stt_transcribe services w adapter path)
  unfolding stt_transcribe
  stt_transcribe-Quiet w adapter none = same w
  stt_transcribe-Quiet w adapter (some path) =
      let at = or_empty (build_inference_url (some adapter.api_base_url) 544) in
      let (readable, w1) = access_r w path in
      option_both (SentQuietly w) adapter.curl_handle _ _ (same w) (λ handle.
        if_both (SentQuietly w) (adapter.initialized == 0 || is_empty path) _ _ (λ _. same w)
          (λ _.
            if_both (SentQuietly w) (not (eq_int readable (pos 0))) _ _ (λ _. access_quiet w path)
              (λ _. then_quiet (access_quiet w path) (send-Quiet w1 handle path at))))
