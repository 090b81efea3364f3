-- ===== src/Curl.antt =====
-- The calls of libcurl that src/assistantd/stt_adapter.c and src/assistantd/llm_adapter.c make. Each
-- takes the outside world and gives it back changed. A code of 0 is CURLE_OK.
pub mod Samples
pub mod Quiet
use shiori.Base.{ℕ, Option, List}

-- What `curl_easy_setopt` sets, but for the callbacks and their data.
pub data Setting (Form Headers : Type 0) : Type 0 where
  url : List ℕ → Setting Form Headers
  mime_post : Form → Setting Form Headers
  post_fields : List ℕ → Setting Form Headers
  http_header : Headers → Setting Form Headers
  timeout : ℕ → Setting Form Headers
  nosignal : ℕ → Setting Form Headers
  noprogress : ℕ → Setting Form Headers

pub record Curl (World : Type 0) : Type 1 where
  pub Handle : Type 0
  pub Form : Type 0
  pub Part : Type 0
  pub Headers : Type 0
  pub out_of_memory : ℕ
  pub aborted_by_callback : ℕ
  pub operation_timedout : ℕ
  -- `none` is NULL.
  pub easy_init : World → Option Handle × World
  pub easy_reset : World → Handle → World
  pub easy_cleanup : World → Handle → World
  pub easy_setopt : World → Handle → Setting Form Headers → World
  pub mime_init : World → Handle → Option Form × World
  pub mime_addpart : World → Form → Option Part × World
  pub mime_name : World → Part → List ℕ → ℕ × World
  pub mime_filedata : World → Part → List ℕ → ℕ × World
  -- With CURL_ZERO_TERMINATED.
  pub mime_data : World → Part → List ℕ → ℕ × World
  pub mime_free : World → Form → World
  pub slist_append : World → Headers → List ℕ → Headers × World
  -- The empty list, NULL.
  pub no_headers : Headers
  -- The transfer, with the progress callback (`none` where none is set), the write callback and its
  -- data; the write callback is given a chunk, and `size` and `nmemb`.
  pub easy_perform :
      {S : Type 0}
      → Option (World → ℕ)
      → (World → S → Option (List ℕ) → ℕ → ℕ → ℕ × (S × World))
      → World
      → Handle
      → S
      → ℕ × (S × World)
  -- CURLINFO_RESPONSE_CODE
  pub response_code : World → Handle → ℕ × World
