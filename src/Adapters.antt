-- ===== src/Adapters.antt =====
-- What src/assistantd/supervisor.c uses of the modules that talk to processes and servers
-- (audio_capture.c, stt_adapter.c, llm_adapter.c, tts_adapter.c): their operations, over the state
-- that each keeps and the outside world. `zero_*` is a struct of zero bytes.
use shiori.Base.{ℕ, Bool, List}
use shiori.Status.{Status}
use shiori.Config.{Config}
use shiori.Outside.{Outside}
use shiori.Vad.{Fvad}

pub record Adapters (World : Type 0) : Type 1 where
  pub Capture : Type 0
  pub Stt : Type 0
  pub Llm : Type 0
  pub Tts : Type 0
  pub zero_capture : Capture
  pub zero_stt : Stt
  pub zero_llm : Llm
  pub zero_tts : Tts
  pub active : Capture → Bool
  pub capture_start : World → Capture → Config → Status × (Capture × World)
  -- The buffer with what was read, and the number of bytes read.
  pub capture_read : World → Capture → ℕ → Status × ((List ℕ × ℕ) × (Capture × World))
  pub capture_stop : World → Capture → Status × (Capture × World)
  pub stt_init : World → Stt → Config → Status × (Stt × World)
  -- The transcript of the file at a path.
  pub stt_transcribe : World → Stt → List ℕ → Status × (List ℕ × (Stt × World))
  pub stt_shutdown : World → Stt → Status × (Stt × World)
  pub llm_init : World → Llm → Config → Status × (Llm × World)
  -- The response to a prompt.
  pub llm_generate : World → Llm → List ℕ → Status × (List ℕ × (Llm × World))
  pub llm_shutdown : World → Llm → Status × (Llm × World)
  pub tts_init : World → Tts → Config → Status × (Tts × World)
  pub tts_shutdown : World → Tts → Status × (Tts × World)

-- All that the supervisor stands on.
pub record Env : Type 1 where
  pub outside : Outside
  pub fvad : Fvad
  pub adapters : Adapters outside.World
