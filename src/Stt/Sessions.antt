-- ===== src/Stt/Sessions.antt =====
-- Runs of the adapter of stt_adapter.c against a small server.
use shiori.Base.{ℕ, suc, ◌≡◌, refl, some, List, [], ◌∷◌, memcpy}
use shiori.Base.Int.{pos, negsuc}
use shiori.Status.{ok, err_io}
use shiori.Text.{bytes, c_string, skip_space, trim_end}
use shiori.Utterance.Samples.{plenty}
use shiori.Curl.Samples.{answering}
use shiori.Stt.{
  write_callback, receive, double_until, put_bytes, parse_json_response, copy_span,
  build_inference_url,
}
use shiori.Stt.Transcript.{IsTranscript}
use shiori.Stt.Request.{
  SttServices, SttAdapter, add_part, build_form, on_write, post_form, send, stt_transcribe,
}
use shiori.Stt.Session.{stt_transcribe-ok}

-- A response is its own text.
abbrev services : SttServices ℕ
services = record {
  curl = answering (bytes " hello ");
  json = record { Root = List ℕ; parse = λ raw. some raw; text_item = λ root. some root };
  malloc = λ w n. (some (1 ∷ []), suc w);
  realloc = plenty;
  access_r = λ w path. (pos 0, w);
}

abbrev ready : SttAdapter ℕ
ready = record {
  initialized = 1;
  api_base_url = bytes "http://127.0.0.1:8081";
  curl_handle = some 0;
}

heard : (stt_transcribe services 0 ready (some (bytes "/tmp/a.wav"))).1.0 ≡ some (bytes "hello")
unfolding stt_transcribe send post_form build_form add_part on_write write_callback receive
    double_until put_bytes memcpy parse_json_response copy_span c_string skip_space trim_end
    build_inference_url
heard = refl

-- A file that cannot be read ends the call before any transfer, with an empty transcript.
unreadable :
    stt_transcribe
      (record services { access_r = λ w path. (negsuc 0, w) })
      0
      ready
      (some (bytes "/tmp/a.wav"))
    ≡ (err_io, (some [], 0))
unfolding stt_transcribe
unreadable = refl

succeeds : (stt_transcribe services 0 ready (some (bytes "/tmp/a.wav"))).0 ≡ ok
unfolding stt_transcribe send post_form build_form add_part on_write write_callback receive
    double_until put_bytes memcpy parse_json_response copy_span c_string skip_space trim_end
    build_inference_url
succeeds = refl

stt_transcribe-ok_example :
    (t : List ℕ) × ((stt_transcribe services 0 ready (some (bytes "/tmp/a.wav"))).1.0 ≡ some t)
    × IsTranscript 4096 t
stt_transcribe-ok_example = stt_transcribe-ok services 0 ready (some (bytes "/tmp/a.wav")) succeeds
