-- ===== src/Curl/Quiet.antt =====
-- Transfers start no child of the assistant's and make no pipe of its own.
use shiori.Base.{ℕ, Option, List}
use shiori.Os.Table.{Table}
use shiori.Os.Posix.{Quiet}
use shiori.Curl.{Curl}

-- Each call of libcurl leaves the two sets as they are, the transfer where its callback does.
pub record IsQuietCurl {W : Type 0} (files children : W → Table) (curl : Curl W) : Type 1 where
  pub init_quiet : (w : W) → Quiet files children w (curl.easy_init w).1
  pub reset_quiet : (w : W) (handle : _) → Quiet files children w (curl.easy_reset w handle)
  pub cleanup_quiet : (w : W) (handle : _) → Quiet files children w (curl.easy_cleanup w handle)
  pub setopt_quiet :
      (w : W) (handle : _) (setting : _)
      → Quiet files children w (curl.easy_setopt w handle setting)
  pub mime_init_quiet : (w : W) (handle : _) → Quiet files children w (curl.mime_init w handle).1
  pub addpart_quiet : (w : W) (form : _) → Quiet files children w (curl.mime_addpart w form).1
  pub name_quiet :
      (w : W) (part : _) (name : List ℕ) → Quiet files children w (curl.mime_name w part name).1
  pub filedata_quiet :
      (w : W) (part : _) (path : List ℕ) → Quiet files children w (curl.mime_filedata w part path).1
  pub data_quiet :
      (w : W) (part : _) (text : List ℕ) → Quiet files children w (curl.mime_data w part text).1
  pub free_quiet : (w : W) (form : _) → Quiet files children w (curl.mime_free w form)
  pub append_quiet :
      (w : W) (headers : _) (line : List ℕ)
      → Quiet files children w (curl.slist_append w headers line).1
  pub perform_quiet :
      {S : Type 0} (progress : Option (W → ℕ))
      (write : W → S → Option (List ℕ) → ℕ → ℕ → ℕ × (S × W))
      → ((w : W) (s : S) (chunk : Option (List ℕ)) (size nmemb : ℕ)
          → Quiet files children w (write w s chunk size nmemb).1.1)
      → (w : W) (handle : _) (s : S)
      → Quiet files children w (curl.easy_perform progress write w handle s).1.1
  pub code_quiet : (w : W) (handle : _) → Quiet files children w (curl.response_code w handle).1
