-- ===== src/Assistant/Custody.antt =====
-- The whole assistant leaves no process and no pipe of its capture behind.
use shiori.Base.{ℕ, suc, ◌≡◌, ◌∙◌, Bool, true, false, Option, some, List, replicate}
use shiori.Outside.{WavFormat}
use shiori.Os.Table.{Table}
use shiori.Os.Posix.{IsPosix, Uninterrupted, Quiet}
use shiori.Curl.Quiet.{IsQuietCurl}
use shiori.Capture.{Capture, audio_capture_stop}
use shiori.Capture.Accounts.{Balanced, Balanced-Quiet, Balanced-idle}
use shiori.Capture.Starting.{audio_capture_start-Balanced, audio_capture_read-Balanced}
use shiori.Capture.Stop.{audio_capture_stop-Balanced}
use shiori.Stt.Quiet.{stt_init-Quiet, stt_transcribe-Quiet, stt_shutdown-Quiet}
use shiori.Llm.QuietPrompt.{IsQuietFiles}
use shiori.Llm.Quiet.{llm_init-Quiet, llm_generate-Quiet, llm_shutdown-Quiet}
use shiori.Tts.{tts_init, tts_shutdown}
use shiori.Supervisor.{Supervisor, state_stopped}
use shiori.Supervisor.Lifecycle.{start}
use shiori.Supervisor.Ownership.{KeptOutside}
use shiori.Supervisor.Custody.{KeptAdapters}
use shiori.Program.{serve}
use shiori.Program.Loop.{serve-stopped}
use shiori.Program.Custody.{serve-Served}
use shiori.Assistant.{Platform, assistant_env}

-- No call but those of audio_capture.c changes the two sets.
pub record IsQuiet (platform : Platform) (files children : platform.outside.World → Table)
    : Type 1 where
  pub calloc_quiet : (w : _) (n : ℕ) → Quiet files children w (platform.outside.calloc w n).1
  pub realloc_quiet :
      (w : _) (p : Option (List ℕ)) (n : ℕ)
      → Quiet files children w (platform.outside.realloc w p n).1
  pub unlink_quiet :
      (w : _) (path : List ℕ) → Quiet files children w (platform.outside.unlink w path).1
  pub wav_init_quiet :
      (w : _) (path : List ℕ) (format : WavFormat)
      → Quiet files children w (platform.outside.drwav_init_file_write w path format).1
  pub wav_write_quiet :
      (w : _) (wav : _) (n : ℕ) (pcm : List ℕ)
      → Quiet files children w (platform.outside.drwav_write_pcm_frames w wav n pcm).1.1
  pub wav_uninit_quiet :
      (w : _) (wav : _) → Quiet files children w (platform.outside.drwav_uninit w wav).1
  pub stt_curl : IsQuietCurl files children platform.stt_services.curl
  pub stt_malloc : (w : _) (n : ℕ) → Quiet files children w (platform.stt_services.malloc w n).1
  pub stt_realloc :
      (w : _) (p : Option (List ℕ)) (n : ℕ)
      → Quiet files children w (platform.stt_services.realloc w p n).1
  pub stt_access :
      (w : _) (path : List ℕ) → Quiet files children w (platform.stt_services.access_r w path).1
  pub llm_curl : IsQuietCurl files children platform.llm_services.curl
  pub llm_files : IsQuietFiles files children platform.llm_services.files
  pub llm_realloc :
      (w : _) (p : Option (List ℕ)) (n : ℕ)
      → Quiet files children w (platform.llm_services.realloc w p n).1

module _ (platform : Platform) (files children : platform.outside.World → Table)
    (quiet : IsQuiet platform files children) (P : Capture → platform.outside.World → Type 0)
    (by_quiet : (c : Capture) (w w' : platform.outside.World)
      → Quiet files children w w'
      → P c w
      → P c w') where
  -- A property that depends on the two sets only is kept by the other calls.
  kept_outside : KeptOutside (assistant_env platform) P
  kept_outside = record {
    by_calloc = λ c w n. by_quiet c w _ (quiet.calloc_quiet w n);
    by_realloc = λ c w p n. by_quiet c w _ (quiet.realloc_quiet w p n);
    by_unlink = λ c w path. by_quiet c w _ (quiet.unlink_quiet w path);
    by_wav_init = λ c w path format. by_quiet c w _ (quiet.wav_init_quiet w path format);
    by_wav_write = λ c w wav n pcm. by_quiet c w _ (quiet.wav_write_quiet w wav n pcm);
    by_wav_uninit = λ c w wav. by_quiet c w _ (quiet.wav_uninit_quiet w wav);
  }

  kept_adapters : KeptAdapters (assistant_env platform) P
  unfolding tts_init tts_shutdown
  kept_adapters =
      let stt = platform.stt_services in
      let llm = platform.llm_services in
      record {
        by_stt_init = λ c w a config. by_quiet c w _ (
            stt_init-Quiet files children stt quiet.stt_curl quiet.stt_malloc quiet.stt_realloc
              quiet.stt_access w a config);
        by_stt_transcribe = λ c w a path. by_quiet c w _ (
            stt_transcribe-Quiet files children stt quiet.stt_curl quiet.stt_malloc
              quiet.stt_realloc quiet.stt_access w a (some path));
        by_stt_shutdown = λ c w a. by_quiet c w _ (
            stt_shutdown-Quiet files children stt quiet.stt_curl quiet.stt_malloc quiet.stt_realloc
              quiet.stt_access w a);
        by_llm_init = λ c w a config. by_quiet c w _ (
            llm_init-Quiet files children llm quiet.llm_curl quiet.llm_files quiet.llm_realloc w a
              config);
        by_llm_generate = λ c w a prompt. by_quiet c w _ (
            llm_generate-Quiet files children llm quiet.llm_curl quiet.llm_files quiet.llm_realloc w
              a prompt);
        by_llm_shutdown = λ c w a. by_quiet c w _ (
            llm_shutdown-Quiet files children llm quiet.llm_curl quiet.llm_files quiet.llm_realloc w
              a);
        by_tts_init = λ c w a config h. h;
        by_tts_shutdown = λ c w a h. h;
      }

module _ (platform : Platform) (files children : platform.outside.World → Table)
    (posix : IsPosix platform.os files children) (calm : Uninterrupted platform.os)
    (quiet : IsQuiet platform files children)
    (usleep : platform.outside.World → ℕ → platform.outside.World)
    (usleep_quiet : (w : platform.outside.World) (n : ℕ) → Quiet files children w (usleep w n))
    (files0 children0 : Table) where
  -- The tables are as without the capture.
  abbrev Clean : Capture → platform.outside.World → Type 0
  Clean c w = (files w ≡ files0) × (children w ≡ children0)

  abbrev Accounted : Capture → platform.outside.World → Type 0
  Accounted c w = Balanced files children files0 children0 c w

  Accounted-Quiet :
      (c : Capture) (w w' : platform.outside.World)
      → Quiet files children w w'
      → Accounted c w
      → Accounted c w'
  Accounted-Quiet c w w' q b = Balanced-Quiet files children files0 children0 c w w' q b

  Clean-Quiet :
      (c : Capture) (w w' : platform.outside.World)
      → Quiet files children w w'
      → Clean c w
      → Clean c w'
  Clean-Quiet c w w' q (f, k) = (q.same_files ∙ f, q.same_children ∙ k)

  stop-Clean :
      (c : Capture) (w : platform.outside.World)
      → Accounted c w
      → let (_, (c', w')) = audio_capture_stop platform.os w c in Accounted c' w' × Clean c' w'
  stop-Clean c w b =
      let (status, (c', w')) = audio_capture_stop platform.os w c in
      let (off, f, k) =
        audio_capture_stop-Balanced platform.os files children posix calm files0 children0 w c b in
      (Balanced-idle files children files0 children0 c' w' off f k, (f, k))

  -- The whole program, from a supervisor whose capture is not active: once a signal has come before
  -- the test of round `last`, it ends, whatever has failed in its start, its rounds and its stop, with
  -- the supervisor STOPPED, and with no end of a pipe open and no child unreaped that was not there
  -- before. It is given what POSIX documents of the calls of the capture, that no handler interrupts a
  -- blocking `waitpid`, and that the other calls outside make no pipe and no child.
  pub serve_leaks_nothing :
      (arrives : ℕ → Bool) (last : ℕ)
      → arrives last ≡ true
      → (s : Supervisor (assistant_env platform)) → s.capture.active ≡ false
      → files s.world ≡ files0
      → children s.world ≡ children0
      → (s' : Supervisor (assistant_env platform)) × (serve
            (assistant_env platform)
            usleep
            (suc last)
            arrives
            s
          ≡ some ((start (assistant_env platform) s).0, s'))
        × (s'.state ≡ state_stopped)
        × (files s'.world ≡ files0)
        × (children s'.world ≡ children0)
  serve_leaks_nothing arrives last signal s off f k =
      let env = assistant_env platform in
      let (s', served, done) = serve-stopped env usleep arrives last signal s in
      let balanced = Balanced-idle files children files0 children0 s.capture s.world off f k in
      let (clean_files, clean_children) =
        serve-Served env usleep Accounted
          (kept_outside platform files children quiet Accounted Accounted-Quiet)
          (kept_adapters platform files children quiet Accounted Accounted-Quiet)
          (λ c w n. Accounted-Quiet c w (usleep w n) (usleep_quiet w n))
          (λ c w config b.
            audio_capture_start-Balanced platform.os files children posix calm files0 children0 w c
              config b)
          (λ c w b.
            audio_capture_read-Balanced platform.os files children posix calm files0 children0 w c
              (some (replicate 640 0)) 640 b)
          Clean (kept_outside platform files children quiet Clean Clean-Quiet)
          (kept_adapters platform files children quiet Clean Clean-Quiet) stop-Clean (suc last)
          arrives s balanced (start env s).0 s' served in
      (s', served, done, clean_files, clean_children)
