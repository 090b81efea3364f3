-- ===== src/Supervisor/Samples.antt =====
-- A small concrete environment for the tests of supervisor.c.
use shiori.Base.{
  ℕ, suc, ◌≤◌, refl, Bool, true, false, none, some, List, [], arith, length, replicate,
  length-replicate, if◌then◌else◌,
}
use shiori.Base.Int.{pos}
use shiori.Status.{ok, err_io}
use shiori.Text.{bytes}
use shiori.Config.{init_defaults, is_empty}
use shiori.Queue.{
  zero_artifact, zero_response, artifact_queue_init, llm_response_queue_init, init as queue_init,
}
use shiori.Vad.{Fvad}
use shiori.Outside.{Outside}
use shiori.Utterance.Samples.{plenty, plenty_sized, plenty_kept}
use shiori.Adapters.{Adapters, Env}
use shiori.Queue.Invariant.{IsValid as QueueValid, init-IsValid as queue_init-IsValid}
use shiori.Supervisor.Sound.{IsRealloc, Sound}
use shiori.Supervisor.{Supervisor, state_running}

-- A world that counts the calls that change it. Every call succeeds but the model's, and a
-- transcription without a path.
abbrev pub outside : Outside
outside = record {
  World = ℕ;
  Wav = ℕ;
  container_riff = 0;
  format_pcm = 1;
  calloc = λ w n. (true, suc w);
  realloc = plenty;
  unlink = λ w path. (pos 0, suc w);
  drwav_init_file_write = λ w path format. (some 0, suc w);
  drwav_write_pcm_frames = λ w wav n pcm. (n, (wav, suc w));
  drwav_uninit = λ w wav. (pos 0, suc w);
}

abbrev pub fvad : Fvad
fvad = record {
  Handle = ℕ;
  new = some 0;
  set_mode = λ h m. (pos 0, h);
  set_sample_rate = λ h r. (pos 0, h);
  process = λ h pcm n. (pos 1, suc h);
  reset = λ h. 0;
}

abbrev pub chunk : List ℕ
chunk = replicate 640 9

abbrev pub adapters : Adapters ℕ
adapters = record {
  Capture = Bool;
  Stt = ℕ;
  Llm = ℕ;
  Tts = ℕ;
  zero_capture = false;
  zero_stt = 0;
  zero_llm = 0;
  zero_tts = 0;
  active = λ c. c;
  capture_start = λ w c config. (ok, (true, suc w));
  capture_read = λ w c n. (ok, ((chunk, 640), (c, suc w)));
  capture_stop = λ w c. (ok, (false, suc w));
  stt_init = λ w stt config. (ok, (stt, w));
  stt_transcribe =
      λ w stt path. (if is_empty path then err_io else ok, (bytes "hello", (suc stt, w)));
  stt_shutdown = λ w stt. (ok, (0, w));
  llm_init = λ w llm config. (ok, (llm, w));
  llm_generate = λ w llm prompt. (err_io, ([], (suc llm, w)));
  llm_shutdown = λ w llm. (ok, (0, w));
  tts_init = λ w tts config. (ok, (tts, w));
  tts_shutdown = λ w tts. (ok, (0, w));
}

abbrev pub env : Env
env = record { outside = outside; fvad = fvad; adapters = adapters }

-- A running supervisor that has heard nothing.
abbrev pub fresh : Supervisor env
fresh = record {
  state = state_running;
  config = init_defaults;
  capture = true;
  capture_ring = record {
    storage = some (replicate 64000 0);
    capacity = 64000;
    head = 0;
    tail = 0;
    overflow = 0;
    underflow = 0;
  };
  vad = record {
    aggressiveness = pos 2;
    silence_ms = pos 700;
    accumulated_silence_ms = pos 0;
    speech_active = false;
    backend = some 0;
  };
  stt = 0;
  llm = 0;
  tts = 0;
  utterance_metadata = record { pcm = none; size = 0; capacity = 0 };
  artifact_queue = artifact_queue_init;
  llm_response_queue = llm_response_queue_init;
  next_artifact_sequence_id = 0;
  world = 0;
}

pub memory : IsRealloc outside.realloc
memory = record { sized = plenty_sized; kept = plenty_kept }

pub artifacts-IsValid : QueueValid 16 zero_artifact artifact_queue_init
artifacts-IsValid = queue_init-IsValid 16 zero_artifact (omega arith) (omega arith)

pub responses-IsValid : QueueValid 16 zero_response llm_response_queue_init
responses-IsValid = queue_init-IsValid 16 zero_response (omega arith) (omega arith)

pub fresh-Sound : Sound env 100 fresh
unfolding queue_init
fresh-Sound = record {
  ring = record {
    stored = refl;
    sized = length-replicate {A = ℕ} 64000 0;
    positive = omega arith;
    ordered = omega arith;
    fits = omega arith;
    counted = omega arith;
    over = omega arith;
    under = omega arith;
  };
  ring_capacity = refl;
  vad = ground arith;
  utterance = ground arith;
  artifacts = record { valid = artifacts-IsValid; order = omega arith };
  room = omega arith;
  responses = responses-IsValid;
}

pub chunk_bounded :
    (w : ℕ) (c : Bool)
    → let (status, ((bytes_of_chunk, bytes_read), _)) = adapters.capture_read w c 640 in
      (bytes_read ≤ length bytes_of_chunk) × (bytes_read ≤ 640)
chunk_bounded w c = omega (arith, length-replicate {A = ℕ} 640 9)
