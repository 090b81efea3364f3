-- ===== src/Assistant/Tests.antt =====
-- The assistant on a small platform: the system of Os.Samples, a server that answers, and files that
-- are written.
use shiori.Base.{
  ℕ, ◌≡◌, refl, arith, Bool, true, Option, some, List, [], ◌∷◌, length, take, ◌==◌, if_both,
}
use shiori.Base.Int.{pos}
use shiori.Text.{bytes}
use shiori.Config.{init_defaults}
use shiori.Os.Posix.{Quiet, Quiet-refl}
use shiori.Os.Samples.{
  Machine, machine_os, machine_files, machine_kids, machine_os-IsPosix, machine_os-Uninterrupted,
  quiet_machine, no_entries,
}
use shiori.Curl.Quiet.{IsQuietCurl}
use shiori.Curl.Samples.{answering}
use shiori.Utterance.Samples.{plenty, plenty_sized, plenty_kept}
use shiori.Supervisor.{Supervisor, state_stopped}
use shiori.Supervisor.Samples.{fvad, fresh, fresh-Sound}
use shiori.Supervisor.Sound.{IsRealloc, SoundAfter}
use shiori.Supervisor.Lifecycle.{init, start}
use shiori.Supervisor.Round.{run_once}
use shiori.Program.{serve}
use shiori.Llm.Samples.{flat}
use shiori.Stt.Request.{zero_stt_adapter}
use shiori.Llm.Request.{zero_llm_adapter}
use shiori.Assistant.{Platform, assistant_env, zero_capture}
use shiori.Assistant.Rounds.{assistant_round-Sound}
use shiori.Assistant.Custody.{IsQuiet, serve_leaks_nothing}

abbrev more_memory : Machine → Option (List ℕ) → ℕ → Option (List ℕ) × Machine
more_memory m p n = ((plenty 0 p n).0, m)

abbrev small_platform : Platform
small_platform = record {
  outside = record {
    World = Machine;
    Wav = ℕ;
    container_riff = 0;
    format_pcm = 1;
    calloc = λ m n. (true, m);
    realloc = more_memory;
    unlink = λ m path. (pos 0, m);
    drwav_init_file_write = λ m path format. (some 0, m);
    drwav_write_pcm_frames = λ m wav n pcm. (n, (wav, m));
    drwav_uninit = λ m wav. (pos 0, m);
  };
  fvad = fvad;
  os = machine_os;
  stt_services = record {
    curl = answering (bytes "hello");
    json = record { Root = List ℕ; parse = λ raw. some raw; text_item = λ root. some root };
    malloc = λ m n. (some (0 ∷ []), m);
    realloc = more_memory;
    access_r = λ m path. (pos 0, m);
  };
  llm_services = record {
    curl = answering (bytes "hello");
    cjson = flat;
    files = record {
      File = ℕ;
      fopen = λ m path. (some 0, m);
      fread = λ m file n. (take n (bytes "x"), m);
      ferror = λ m file. (pos 0, m);
      fclose = λ m file. m;
    };
    realloc = more_memory;
    flag_value = λ m address. pos 0;
  };
}

stays : (m : Machine) → Quiet machine_files machine_kids m m
stays m = Quiet-refl machine_files machine_kids m

answering-IsQuietCurl :
    (body : List ℕ) → IsQuietCurl machine_files machine_kids (answering {W = Machine} body)
answering-IsQuietCurl body = record {
  init_quiet = stays;
  reset_quiet = λ m handle. stays m;
  cleanup_quiet = λ m handle. stays m;
  setopt_quiet = λ m handle setting. stays m;
  mime_init_quiet = λ m handle. stays m;
  addpart_quiet = λ m form. stays m;
  name_quiet = λ m part name. stays m;
  filedata_quiet = λ m part path. stays m;
  data_quiet = λ m part text. stays m;
  free_quiet = λ m form. stays m;
  append_quiet = λ m headers line. stays m;
  perform_quiet = λ progress write calm m handle s.
      if_both (λ (t : ℕ × (_ × Machine)). Quiet machine_files machine_kids m t.1.1) _ _ _
        (λ _. calm m s (some body) 1 (length body)) (λ _. stays m);
  code_quiet = λ m handle. stays m;
}

small-IsQuiet : IsQuiet small_platform machine_files machine_kids
small-IsQuiet = record {
  calloc_quiet = λ m n. stays m;
  realloc_quiet = λ m p n. stays m;
  unlink_quiet = λ m path. stays m;
  wav_init_quiet = λ m path format. stays m;
  wav_write_quiet = λ m wav n pcm. stays m;
  wav_uninit_quiet = λ m wav. stays m;
  stt_curl = answering-IsQuietCurl (bytes "hello");
  stt_malloc = λ m n. stays m;
  stt_realloc = λ m p n. stays m;
  stt_access = λ m path. stays m;
  llm_curl = answering-IsQuietCurl (bytes "hello");
  llm_files = record {
    fopen_quiet = λ m path. stays m;
    fread_quiet = λ m file n. stays m;
    ferror_quiet = λ m file. stays m;
    fclose_quiet = λ m file. stays m;
  };
  llm_realloc = λ m p n. stays m;
}

abbrev usleep : Machine → ℕ → Machine
usleep m microseconds = m

-- A signal comes in the third round.
abbrev at_two : ℕ → Bool
at_two k = k == 2

abbrev made : Supervisor (assistant_env small_platform)
made = (init (assistant_env small_platform) init_defaults quiet_machine).1

serve_leaks_nothing_example :
    (s' : Supervisor (assistant_env small_platform)) × (serve
        (assistant_env small_platform)
        usleep
        3
        at_two
        made
      ≡ some ((start (assistant_env small_platform) made).0, s'))
    × (s'.state ≡ state_stopped)
    × (s'.world.open_files ≡ no_entries)
    × (s'.world.kids ≡ no_entries)
unfolding init
serve_leaks_nothing_example =
    serve_leaks_nothing small_platform machine_files machine_kids machine_os-IsPosix
      machine_os-Uninterrupted small-IsQuiet usleep (λ m n. stays m) no_entries no_entries at_two 2
      refl made refl refl refl

small_memory : IsRealloc more_memory
small_memory = record { sized = λ m p n. plenty_sized 0 p n; kept = λ m p n. plenty_kept 0 p n }

-- The parts of the running supervisor of the other tests, with a capture that is not started.
abbrev listening : Supervisor (assistant_env small_platform)
listening = record {
  state = fresh.state;
  config = fresh.config;
  capture = zero_capture;
  capture_ring = fresh.capture_ring;
  vad = fresh.vad;
  stt = zero_stt_adapter;
  llm = zero_llm_adapter;
  tts = record { initialized = 0 };
  utterance_metadata = fresh.utterance_metadata;
  artifact_queue = fresh.artifact_queue;
  llm_response_queue = fresh.llm_response_queue;
  next_artifact_sequence_id = 0;
  world = quiet_machine;
}

assistant_round-Sound_example :
    SoundAfter (assistant_env small_platform) 0 (run_once (assistant_env small_platform) listening)
assistant_round-Sound_example =
    assistant_round-Sound small_platform machine_files machine_kids machine_os-IsPosix small_memory
      listening fresh-Sound (omega arith)
