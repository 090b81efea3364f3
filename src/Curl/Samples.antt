-- ===== src/Curl/Samples.antt =====
-- A server for the tests: it answers every request with one body, in one chunk, and status 200; the
-- progress callback is asked once, before.
use shiori.Base.{ℕ, suc, none, some, List, length, ◌==◌, if◌then◌else◌}
use shiori.Curl.{Curl}

-- It leaves the world as it is, but for what the write callback does.
abbrev pub answering : {W : Type 0} → List ℕ → Curl W
answering body = record {
  Handle = ℕ;
  Form = ℕ;
  Part = ℕ;
  Headers = ℕ;
  out_of_memory = 27;
  aborted_by_callback = 42;
  operation_timedout = 28;
  easy_init = λ w. (some 0, w);
  easy_reset = λ w handle. w;
  easy_cleanup = λ w handle. w;
  easy_setopt = λ w handle setting. w;
  mime_init = λ w handle. (some 0, w);
  mime_addpart = λ w form. (some 0, w);
  mime_name = λ w part name. (0, w);
  mime_filedata = λ w part path. (0, w);
  mime_data = λ w part text. (0, w);
  mime_free = λ w form. w;
  slist_append = λ w headers line. (suc headers, w);
  no_headers = 0;
  easy_perform = λ progress write w handle s.
      if (elim progress [ none ↦ 0 | some watched ↦ watched w ]) == 0
      then (0, (write w s (some body) 1 (length body)).1)
      else (42, (s, w));
  response_code = λ w handle. (200, w);
}
