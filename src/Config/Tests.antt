-- ===== src/Config/Tests.antt =====
-- Runs of config.c, and its theorems at concrete inputs.
use shiori.Base.{ℕ, ◌≡◌, ◌↔◌, refl, Option, some, List, [], arith, length}
use shiori.Base.Int.{pos, negsuc}
use shiori.Status.{ok}
use shiori.Text.{
  bytes, c_string, str_equal, split_at, fgets, skip_space, trim_end, atoi, parse_digits,
  parse_signed, clamp_long, to_int,
}
use shiori.Text.Trim.{Without}
use shiori.Config.{
  Config, init_defaults, load_file, load_lines, apply_line, apply_cursor, set_pair, set_key, trim,
  validate, has_empty, dump,
}
use shiori.Config.Bounds.{Fits, IsUsable, validate-ok_iff, load_file-Fits}
use shiori.Config.Fuel.{load_lines_enough}
use shiori.Config.Line.{IsClean}
use shiori.Config.RoundTrip.{IsPrintable, load_file-dump}

abbrev file : List ℕ
file = bytes "# comment\n VAD_SILENCE_MS = 900 \nno mark\nLLM_MODEL=a=b\n"

abbrev opened : List ℕ → Option (List ℕ)
opened path = some file

abbrev path : List ℕ
path = bytes "/etc/a.env"

file_loads :
    load_file opened init_defaults (some path)
    ≡ (ok, record init_defaults { vad_silence_ms = pos 900; llm_model = bytes "a=b" })
unfolding load_file load_lines apply_line apply_cursor set_pair set_key trim c_string str_equal
    split_at fgets skip_space trim_end atoi parse_digits parse_signed clamp_long to_int
    init_defaults
file_loads = refl

defaults_validate : validate init_defaults ≡ ok
unfolding validate has_empty str_equal init_defaults
defaults_validate = refl

load_lines_enough_example :
    ((load_lines 100 init_defaults file).1 ≡ [])
    × (load_lines 100 init_defaults file ≡ load_lines (length file) init_defaults file)
load_lines_enough_example = load_lines_enough 100 init_defaults file (omega arith)

load_file-Fits_example : Fits (load_file opened init_defaults (some path)).1
load_file-Fits_example = load_file-Fits opened (some path)

validate-ok_iff_example : (validate init_defaults ≡ ok) ↔ IsUsable init_defaults
validate-ok_iff_example = validate-ok_iff init_defaults

-- A small configuration, written out.
abbrev small : Config
small = record {
  assistant_mode = bytes "local";
  runtime_dir = bytes "/run";
  audio_capture_device = bytes "hw";
  audio_playback_device = bytes "hw";
  stt_api_base_url = bytes "u";
  llm_api_base_url = bytes "v";
  llm_model = bytes "m n";
  llm_system_prompt_path = bytes "p";
  tts_bin = [];
  tts_voice_path = bytes "#";
  vad_aggressiveness = negsuc 0;
  vad_silence_ms = pos 700;
}

small-Fits : Fits small
small-Fits = omega arith

small-IsPrintable : IsPrintable small
unfolding skip_space trim_end
small-IsPrintable = record {
  assistant_mode = clean (ground arith) (ground arith) refl refl;
  runtime_dir = clean (ground arith) (ground arith) refl refl;
  audio_capture_device = clean (ground arith) (ground arith) refl refl;
  audio_playback_device = clean (ground arith) (ground arith) refl refl;
  stt_api_base_url = clean (ground arith) (ground arith) refl refl;
  llm_api_base_url = clean (ground arith) (ground arith) refl refl;
  llm_model = clean (ground arith) (ground arith) refl refl;
  llm_system_prompt_path = clean (ground arith) (ground arith) refl refl;
  tts_bin = clean tt tt refl refl;
  tts_voice_path = clean (ground arith) (ground arith) refl refl;
  aggressive = omega arith;
  silence = omega arith;
}
  where
    clean :
        {v : List ℕ} → Without 0 v → Without b'\n' v → skip_space v ≡ v → trim_end v ≡ v → IsClean v
    clean a b c d = record { no_nul = a; no_newline = b; no_lead = c; no_trail = d }

load_file-dump_example : load_file (λ p. some (dump small)) init_defaults (some path) ≡ (ok, small)
load_file-dump_example =
    load_file-dump (λ p. some (dump small)) path init_defaults small small-Fits small-IsPrintable
      refl
