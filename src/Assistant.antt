-- ===== src/Assistant.antt =====
-- The assistant put together: src/assistantd/supervisor.c on the adapters of audio_capture.c,
-- stt_adapter.c, llm_adapter.c and tts_adapter.c, as its calls take them.
pub mod Rounds
pub mod Custody
mod Tests
use shiori.Base.{ℕ, ◌+◌, false, none, some, List, [], replicate, bytes_of}
use shiori.Base.Int.{pos}
use shiori.Status.{Status}
use shiori.Outside.{Outside}
use shiori.Vad.{Fvad}
use shiori.Os.{Os}
use shiori.Adapters.{Adapters, Env}
use shiori.Capture.{Capture, audio_capture_start, audio_capture_read, audio_capture_stop}
use shiori.Stt.Request.{
  SttServices, SttAdapter, zero_stt_adapter, stt_init, stt_transcribe, stt_shutdown,
}
use shiori.Llm.Request.{
  LlmServices, LlmAdapter, zero_llm_adapter, llm_init, llm_generate, llm_shutdown,
}
use shiori.Tts.{TtsAdapter, tts_init, tts_shutdown}

-- What the assistant stands on.
pub record Platform : Type 1 where
  pub outside : Outside
  pub fvad : Fvad
  pub os : Os outside.World
  pub stt_services : SttServices outside.World
  pub llm_services : LlmServices outside.World

-- A struct of zero bytes.
abbrev pub zero_capture : Capture
zero_capture = record { child_pid = pos 0; stdout_fd = pos 0; active = false }

module _ (platform : Platform) where
  open platform use {outside, fvad, os, stt_services, llm_services}

  -- The array that `read_capture` hands over holds what it held; it is read up to the count only, and
  -- stands here as zeros. An array that a failed call leaves alone is not read.
  abbrev pub assistant_adapters : Adapters outside.World
  assistant_adapters = record {
    Capture = Capture;
    Stt = SttAdapter stt_services.curl.Handle;
    Llm = LlmAdapter llm_services.curl.Handle;
    Tts = TtsAdapter;
    zero_capture = zero_capture;
    zero_stt = zero_stt_adapter;
    zero_llm = zero_llm_adapter;
    zero_tts = record { initialized = 0 };
    active = λ c. c.active;
    capture_start = audio_capture_start os;
    capture_read = λ w c n.
        let (status, ((buffer, bytes_read), state)) =
          audio_capture_read os w c (some (replicate n 0)) n in
        (status, ((bytes_of buffer, bytes_read), state));
    capture_stop = audio_capture_stop os;
    stt_init = stt_init stt_services;
    stt_transcribe = λ w adapter path.
        let (status, (stored, w')) = stt_transcribe stt_services w adapter (some path) in
        (status, (bytes_of stored, (adapter, w')));
    stt_shutdown = stt_shutdown stt_services;
    llm_init = llm_init llm_services;
    llm_generate = λ w adapter prompt.
        let (status, (stored, w')) = llm_generate llm_services w adapter prompt in
        (status, (bytes_of stored, (adapter, w')));
    llm_shutdown = llm_shutdown llm_services;
    tts_init = λ w adapter config. let (status, t) = tts_init adapter config in (status, (t, w));
    tts_shutdown = λ w adapter. let (status, t) = tts_shutdown adapter in (status, (t, w));
  }

  abbrev pub assistant_env : Env
  assistant_env = record { outside = outside; fvad = fvad; adapters = assistant_adapters }
