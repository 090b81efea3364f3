-- ===== src/Config.antt =====
-- The configuration loader of src/assistantd/config.c over the struct of
-- include/assistantd/config.h. A `char` array is the C string in it; the file is its bytes.
pub mod Bounds
pub mod Fuel
pub mod Line
pub mod RoundTrip
mod Tests
use shiori.Base.{
  ℕ, zero, suc, ◌-◌, Bool, true, false, Option, none, some, List, [], ◌∷◌, ◌++◌, length, ◌==◌, ◌||◌,
  not, if◌then◌else◌,
}
use shiori.Base.Int.{ℤ, pos, ltb_ℤ}
use shiori.Status.{Status, ok, err_invalid_argument, err_config, err_io}
use shiori.Text.{
  bytes, c_string, copy_string, str_equal, split_at, fgets, skip_space, trim_end, print_int, atoi,
}

-- ASSISTANTD_CONFIG_VALUE_MAX
abbrev pub config_value_max : ℕ
config_value_max = 512

-- sizeof(config->assistant_mode)
abbrev pub mode_max : ℕ
mode_max = 16

-- sizeof(line) in `load_file`
abbrev pub line_max : ℕ
line_max = 1024

-- `assistantd_config_t`
pub record Config : Type 0 where
  pub assistant_mode : List ℕ
  pub runtime_dir : List ℕ
  pub audio_capture_device : List ℕ
  pub audio_playback_device : List ℕ
  pub stt_api_base_url : List ℕ
  pub llm_api_base_url : List ℕ
  pub llm_model : List ℕ
  pub llm_system_prompt_path : List ℕ
  pub tts_bin : List ℕ
  pub tts_voice_path : List ℕ
  pub vad_aggressiveness : ℤ
  pub vad_silence_ms : ℤ

-- The pointer that `trim` returns, past the leading spaces. The second loop stops above the first
-- byte that is left.
unfoldable pub trim : List ℕ → List ℕ
trim value = elim (skip_space value) [ [] ↦ [] | (c ∷ s) ↦ c ∷ trim_end s ]

abbrev pub copy_value : List ℕ → List ℕ
copy_value src = copy_string config_value_max src

unfoldable pub init_defaults : Config
init_defaults = record {
  assistant_mode = copy_string mode_max (bytes "local");
  runtime_dir = copy_value (bytes "/var/lib/local-ai-assistant");
  audio_capture_device = copy_value (bytes "default");
  audio_playback_device = copy_value (bytes "default");
  stt_api_base_url = copy_value (bytes "http://127.0.0.1:8178");
  llm_api_base_url = copy_value (bytes "http://127.0.0.1:8080/v1");
  llm_model = copy_value (bytes "SmolLM2-1.7B-Instruct-Q4_K_M");
  llm_system_prompt_path = copy_value (bytes "/etc/local-ai-assistant/system_prompt.txt");
  tts_bin = copy_value (bytes "/usr/local/bin/piper");
  tts_voice_path = copy_value (bytes "/opt/models/piper-voice.onnx");
  vad_aggressiveness = pos 2;
  vad_silence_ms = pos 700;
}

-- The ladder of `strcmp`s. An unknown key changes nothing.
unfoldable pub set_key : Config → List ℕ → List ℕ → Config
set_key config key value =
    if str_equal key (bytes "ASSISTANT_MODE")
    then record config { assistant_mode = copy_string mode_max value }
    else if str_equal key (bytes "RUNTIME_DIR")
    then record config { runtime_dir = copy_value value }
    else if str_equal key (bytes "AUDIO_CAPTURE_DEVICE")
    then record config { audio_capture_device = copy_value value }
    else if str_equal key (bytes "AUDIO_PLAYBACK_DEVICE")
    then record config { audio_playback_device = copy_value value }
    else if str_equal key (bytes "STT_API_BASE_URL")
    then record config { stt_api_base_url = copy_value value }
    else if str_equal key (bytes "LLM_API_BASE_URL")
    then record config { llm_api_base_url = copy_value value }
    else if str_equal key (bytes "LLM_MODEL")
    then record config { llm_model = copy_value value }
    else if str_equal key (bytes "LLM_SYSTEM_PROMPT_PATH")
    then record config { llm_system_prompt_path = copy_value value }
    else if str_equal key (bytes "TTS_BIN")
    then record config { tts_bin = copy_value value }
    else if str_equal key (bytes "TTS_VOICE_PATH")
    then record config { tts_voice_path = copy_value value }
    else if str_equal key (bytes "VAD_AGGRESSIVENESS")
    then record config { vad_aggressiveness = atoi value }
    else if str_equal key (bytes "VAD_SILENCE_MS")
    then record config { vad_silence_ms = atoi value }
    else config

-- The part of a round past the two `continue`s for an empty line and a comment.
unfoldable pub set_pair : Config → List ℕ → Config
set_pair config cursor = elim (split_at b'=' cursor) [
  | none ↦ config
  | some (key, value) ↦ set_key config (trim key) (trim value)
]

unfoldable pub apply_cursor : Config → List ℕ → Config
apply_cursor config [] = config
apply_cursor config (c ∷ s) = if c == b'#' then config else set_pair config (c ∷ s)

-- One round of the loop of `load_file`, on what `fgets` has put into `line`.
unfoldable pub apply_line : Config → List ℕ → Config
apply_line config line = apply_cursor config (trim (c_string line))

-- The loop of `load_file`, and what it leaves unread of the file: nothing, where the fuel lets it go on
-- until `fgets` gives NULL. A round takes at least one byte off the file, so its length is enough fuel.
unfoldable pub load_lines : ℕ → Config → List ℕ → Config × List ℕ
load_lines zero config file = (config, file)
load_lines (suc fuel) config [] = (config, [])
load_lines (suc fuel) config (c ∷ cs) =
    let (line, rest) = fgets (line_max - 1) (c ∷ cs) in
    load_lines fuel (apply_line config line) rest

-- `fopen` opens for reading: it gives the bytes of the file; `path` may be NULL.
unfoldable pub load_file : (List ℕ → Option (List ℕ)) → Config → Option (List ℕ) → Status × Config
load_file fopen config none = (err_invalid_argument, config)
load_file fopen config (some path) = elim (fopen path) [
  | none ↦ (err_io, config)
  | some file ↦ (ok, (load_lines (length file) config file).0)
]

abbrev pub is_empty : List ℕ → Bool
is_empty [] = true
is_empty (c ∷ s) = false

-- The tests of `validate` that a string is empty, and that a number is out of its range.
unfoldable pub has_empty : Config → Bool
has_empty config =
    is_empty config.runtime_dir
    || is_empty config.audio_capture_device
    || is_empty config.audio_playback_device
    || is_empty config.stt_api_base_url
    || is_empty config.llm_api_base_url
    || is_empty config.llm_model
    || is_empty config.llm_system_prompt_path
    || is_empty config.tts_bin
    || is_empty config.tts_voice_path

abbrev pub outside : ℤ → ℕ → ℕ → Bool
outside n low high = ltb_ℤ n (pos low) || ltb_ℤ (pos high) n

unfoldable pub validate : Config → Status
validate config =
    if not (str_equal config.assistant_mode (bytes "local"))
    then err_config
    else if has_empty config
    then err_config
    else if outside config.vad_aggressiveness 0 3
    then err_config
    else if outside config.vad_silence_ms 100 5000
    then err_config
    else ok

-- `fprintf(stream, "KEY=%s\n", value)`
abbrev pub entry : List ℕ → List ℕ → List ℕ
entry key value = key ++ b'=' ∷ (value ++ b'\n' ∷ [])

unfoldable pub dump : Config → List ℕ
dump config =
    entry (bytes "ASSISTANT_MODE") config.assistant_mode
    ++ (entry (bytes "RUNTIME_DIR") config.runtime_dir
        ++ (entry (bytes "AUDIO_CAPTURE_DEVICE") config.audio_capture_device
            ++ (entry (bytes "AUDIO_PLAYBACK_DEVICE") config.audio_playback_device
                ++ (entry (bytes "STT_API_BASE_URL") config.stt_api_base_url
                    ++ (entry (bytes "LLM_API_BASE_URL") config.llm_api_base_url
                        ++ (entry (bytes "LLM_MODEL") config.llm_model
                            ++ (entry (bytes "LLM_SYSTEM_PROMPT_PATH") config.llm_system_prompt_path
                                ++ (entry (bytes "TTS_BIN") config.tts_bin
                                    ++ (entry (bytes "TTS_VOICE_PATH") config.tts_voice_path
                                        ++ (entry (bytes "VAD_AGGRESSIVENESS")
                                              (print_int config.vad_aggressiveness)
                                            ++ entry (bytes "VAD_SILENCE_MS")
                                                (print_int config.vad_silence_ms)))))))))))
