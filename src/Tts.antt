-- ===== src/Tts.antt =====
-- The text to speech of src/assistantd/tts_adapter.c over the struct of
-- include/assistantd/tts_adapter.h. `adapter` is never NULL; the call of the logger is left out.
use shiori.Base.{ℕ, List}
use shiori.Status.{Status, ok, err_unimplemented}
use shiori.Config.{Config}

-- `assistantd_tts_adapter_t`
pub record TtsAdapter : Type 0 where
  pub initialized : ℕ

-- `assistantd_tts_request_t`
pub record TtsRequest : Type 0 where
  pub text : List ℕ
  pub output_wav_path : List ℕ

unfoldable pub tts_init : TtsAdapter → Config → Status × TtsAdapter
tts_init adapter config = (ok, record { initialized = 1 })

-- The adapter is not changed, and no file is written.
unfoldable pub tts_synthesize : TtsAdapter → TtsRequest → Status × TtsAdapter
tts_synthesize adapter request = (err_unimplemented, adapter)

unfoldable pub tts_shutdown : TtsAdapter → Status × TtsAdapter
tts_shutdown adapter = (ok, record { initialized = 0 })
