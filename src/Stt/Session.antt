-- ===== src/Stt/Session.antt =====
-- The protocol of the adapter: what a transcription that succeeds has done, and when one may be made.
use shiori.Base.{
  ℕ, ◌≡◌, ◌≢◌, refl, arith, not, ◌||◌, Option, none, some, List, [], ◌==◌, set, if_both,
  option_both, Option-cases, inl, inr,
}
use shiori.Base.Int.{pos, eq_int}
use shiori.Status.{Status, ok, err_invalid_argument, err_io}
use shiori.Text.{c_string}
use shiori.Config.{is_empty}
use shiori.Curl.{url, mime_post, timeout, nosignal}
use shiori.Stt.{ResponseBuffer, build_inference_url}
use shiori.Stt.Transcript.{IsTranscript, parse_json_response-ok}
use shiori.Stt.Request.{
  SttServices, SttAdapter, zero_stt_adapter, build_form, on_write, or_empty, post_form, send,
  stt_transcribe, stt_shutdown,
}

-- Success comes with a transcript.
Answered : {W : Type 0} → Status × (Option (List ℕ) × W) → Type 0
Answered (status, (stored, w)) =
    status ≡ ok → (t : List ℕ) × (stored ≡ some t) × IsTranscript 4096 t

failed-Answered :
    {W : Type 0} (e : Status) (stored : Option (List ℕ)) (w : W)
    → e ≢ ok
    → Answered (e, (stored, w))
unfolding Answered
failed-Answered e stored w bad h = absurd (bad h)

module _ {W : Type 0} (services : SttServices W) where
  open services use {curl, json, malloc, realloc, access_r}

  lost : (stored : Option (List ℕ)) (w : W) → Answered (err_io, (stored, w))
  lost stored w = failed-Answered err_io stored w (λ h. cc h)

  refused : (w : W) → Answered (err_invalid_argument, (none, w))
  refused w = failed-Answered err_invalid_argument none w (λ h. cc h)

  post_form-Answered :
      (w : W) (handle : curl.Handle) (form : curl.Form) (at : List ℕ) (response : ResponseBuffer)
      → Answered (post_form services w handle form at response)
  unfolding post_form Answered
  post_form-Answered w handle form at response =
      let w1 = curl.easy_setopt w handle (url at) in
      let w2 = curl.easy_setopt w1 handle (mime_post form) in
      let w3 = curl.easy_setopt w2 handle (timeout 40) in
      let w4 = curl.easy_setopt w3 handle (nosignal 1) in
      let (rc, (received, w5)) = curl.easy_perform none (on_write services) w4 handle response in
      let (http_status, w6) = curl.response_code w5 handle in
      if_both Answered (not (rc == 0)) _ _ (λ _. lost none (curl.mime_free w5 form))
        (λ _.
          if_both Answered (not (http_status == 200)) _ _ (λ _. lost none (curl.mime_free w6 form))
            (λ _. parse_json_response-ok json (some (c_string received.block)) 4096 (omega arith)))

  send-Answered :
      (w : W) (handle : curl.Handle) (wav_path at : List ℕ)
      → Answered (send services w handle wav_path at)
  unfolding send
  send-Answered w handle wav_path at =
      let (block, w1) = malloc (curl.easy_reset w handle) 1 in
      let (form, w2) = curl.mime_init w1 handle in
      option_both Answered block _ _ (lost none w1) (λ given.
        option_both Answered form _ _ (lost none w2) (λ f.
          let (form_rc, w3) = build_form services w2 f wav_path in
          if_both Answered (not (form_rc == 0)) _ _ (λ _. lost none (curl.mime_free w3 f))
            (λ _.
              post_form-Answered w3 handle f at
                (record { block = set given 0 0; size = 0; capacity = 1 }))))

  or_empty-Answered :
      (status : Status) (stored : Option (List ℕ)) (w : W)
      → Answered (status, (stored, w))
      → Answered (status, (some (or_empty stored), w))
  unfolding Answered
  or_empty-Answered status none w a = λ e. cc ((a e).1)
  or_empty-Answered status (some t) w a = a

  stt_transcribe-Answered :
      (w : W) (adapter : SttAdapter curl.Handle) (wav_path : Option (List ℕ))
      → Answered (stt_transcribe services w adapter wav_path)
  unfolding stt_transcribe
  stt_transcribe-Answered w adapter none = refused w
  stt_transcribe-Answered w adapter (some wav_path) =
      let at = or_empty (build_inference_url (some adapter.api_base_url) 544) in
      let (readable, w1) = access_r w wav_path in
      option_both Answered adapter.curl_handle _ _ (refused w) (λ handle.
        let (status, (stored, w2)) = send services w1 handle wav_path at in
        if_both Answered (adapter.initialized == 0 || is_empty wav_path) _ _ (λ _. refused w)
          (λ _.
            if_both Answered (not (eq_int readable (pos 0))) _ _ (λ _. lost (some []) w1)
              (λ _. or_empty-Answered status stored w2 (send-Answered w1 handle wav_path at))))

  -- A transcription that succeeds has stored a transcript that is not empty, fits its array with the
  -- NUL, and starts with no space.
  pub stt_transcribe-ok :
      (w : W) (adapter : SttAdapter curl.Handle) (wav_path : Option (List ℕ))
      → (stt_transcribe services w adapter wav_path).0 ≡ ok
      → (t : List ℕ) × ((stt_transcribe services w adapter wav_path).1.0 ≡ some t)
        × IsTranscript 4096 t
  unfolding Answered
  stt_transcribe-ok w adapter wav_path e = stt_transcribe-Answered w adapter wav_path e

  -- After a shutdown, whatever the adapter was, a transcription is refused without a call outside,
  -- until another `init`; a second shutdown releases nothing again.
  pub stt_transcribe-stt_shutdown :
      (w w' : W) (adapter : SttAdapter curl.Handle) (wav_path : Option (List ℕ))
      → let (status, (off, _)) = stt_shutdown services w adapter in
        (status ≡ ok)
        × (stt_transcribe services w' off wav_path ≡ (err_invalid_argument, (none, w')))
        × (stt_shutdown services w' off ≡ (ok, (zero_stt_adapter, w')))
  unfolding stt_transcribe stt_shutdown
  stt_transcribe-stt_shutdown w w' adapter wav_path = elim (Option-cases adapter.curl_handle) [
    | inl null ↦ rw null (refl, off_refused w' wav_path, refl)
    | inr (handle, held) ↦ rw held (refl, off_refused w' wav_path, refl)
  ]
    where
      off_refused :
          (w : W) (path : Option (List ℕ))
          → stt_transcribe services w zero_stt_adapter path ≡ (err_invalid_argument, (none, w))
      off_refused w none = refl
      off_refused w (some path) = refl
