-- ===== src/Config/Bounds.antt =====
-- What config.c writes into the `char` arrays of the configuration, and what `validate` accepts.
use shiori.Base.{
  ℕ, zero, suc, ◌<◌, ◌≡◌, ◌≢◌, ◌↔◌, refl, Bool, true, false, Option, none, some, List, [], ◌∷◌,
  arith, length, Option-cases, Bool-cases, ◌==◌, inl, inr, length-take, if◌then◌else◌,
}
use shiori.Base.Int.{ℤ, pos, ◌≤ℤ◌}
use shiori.Status.{ok}
use shiori.Text.{bytes, str_equal, fgets, split_at, c_string}
use shiori.Config.{
  Config, config_value_max, mode_max, init_defaults, set_key, set_pair, apply_cursor, apply_line,
  load_lines, load_file, validate, trim, is_empty, has_empty, outside,
}

-- Every string ends inside its array.
pub record Fits (c : Config) : Type 0 where
  pub assistant_mode : length c.assistant_mode < mode_max
  pub runtime_dir : length c.runtime_dir < config_value_max
  pub audio_capture_device : length c.audio_capture_device < config_value_max
  pub audio_playback_device : length c.audio_playback_device < config_value_max
  pub stt_api_base_url : length c.stt_api_base_url < config_value_max
  pub llm_api_base_url : length c.llm_api_base_url < config_value_max
  pub llm_model : length c.llm_model < config_value_max
  pub llm_system_prompt_path : length c.llm_system_prompt_path < config_value_max
  pub tts_bin : length c.tts_bin < config_value_max
  pub tts_voice_path : length c.tts_voice_path < config_value_max

Fits-if : (b : Bool) {x y : Config} → Fits x → Fits y → Fits (if b then x else y)
Fits-if true hx hy = hx
Fits-if false hx hy = hy

set_key-Fits : (c : Config) (key value : List ℕ) → Fits c → Fits (set_key c key value)
unfolding set_key
set_key-Fits c key value f =
    let m = length-take 15 value in
    let l = length-take 511 value in
    Fits-if (str_equal key (bytes "ASSISTANT_MODE")) (omega arith) (
      Fits-if (str_equal key (bytes "RUNTIME_DIR")) (omega arith) (
        Fits-if (str_equal key (bytes "AUDIO_CAPTURE_DEVICE")) (omega arith) (
          Fits-if (str_equal key (bytes "AUDIO_PLAYBACK_DEVICE")) (omega arith) (
            Fits-if (str_equal key (bytes "STT_API_BASE_URL")) (omega arith) (
              Fits-if (str_equal key (bytes "LLM_API_BASE_URL")) (omega arith) (
                Fits-if (str_equal key (bytes "LLM_MODEL")) (omega arith) (
                  Fits-if (str_equal key (bytes "LLM_SYSTEM_PROMPT_PATH")) (omega arith) (
                    Fits-if (str_equal key (bytes "TTS_BIN")) (omega arith) (
                      Fits-if (str_equal key (bytes "TTS_VOICE_PATH")) (omega arith) (
                        Fits-if (str_equal key (bytes "VAD_AGGRESSIVENESS")) (omega arith) (
                          Fits-if (str_equal key (bytes "VAD_SILENCE_MS")) (omega arith)
                            (f))))))))))))

set_pair-Fits : (c : Config) (cursor : List ℕ) → Fits c → Fits (set_pair c cursor)
unfolding set_pair
set_pair-Fits c cursor f = elim (Option-cases (split_at b'=' cursor)) [
  | inl e ↦ rw (e, set_pair) f
  | inr (p, e) ↦ rw (e, set_pair) (set_key-Fits c (trim p.0) (trim p.1) f)
]

apply_cursor-Fits : (c : Config) (cursor : List ℕ) → Fits c → Fits (apply_cursor c cursor)
unfolding apply_cursor
apply_cursor-Fits c [] f = f
apply_cursor-Fits c (x ∷ s) f = elim (Bool-cases (x == b'#')) [
  | inl e ↦ rw e f
  | inr e ↦ rw e (set_pair-Fits c (x ∷ s) f)
]

apply_line-Fits : (c : Config) (line : List ℕ) → Fits c → Fits (apply_line c line)
unfolding apply_line
apply_line-Fits c line f = apply_cursor-Fits c (trim (c_string line)) f

load_lines-Fits : (fuel : ℕ) (c : Config) (file : List ℕ) → Fits c → Fits (load_lines fuel c file).0
unfolding load_lines
load_lines-Fits zero c file f = f
load_lines-Fits (suc fuel) c [] f = f
load_lines-Fits (suc fuel) c (x ∷ file) f =
    load_lines-Fits fuel (apply_line c (fgets 1023 (x ∷ file)).0) (fgets 1023 (x ∷ file)).1
      (apply_line-Fits c (fgets 1023 (x ∷ file)).0 f)

init_defaults-Fits : Fits init_defaults
unfolding init_defaults
init_defaults-Fits = omega arith

-- Whatever the file holds, and whether it can be opened or not, every string of the configuration
-- that is loaded over the defaults fits its array.
pub load_file-Fits :
    (fopen : List ℕ → Option (List ℕ)) (path : Option (List ℕ))
    → Fits (load_file fopen init_defaults path).1
unfolding load_file
load_file-Fits fopen none = init_defaults-Fits
load_file-Fits fopen (some path) = elim (Option-cases (fopen path)) [
  | inl e ↦ rw (e, load_file) init_defaults-Fits
  | inr (file, e) ↦
      rw (e, load_file) (load_lines-Fits (length file) init_defaults file init_defaults-Fits)
]

-- The settings that `validate` is for.
pub record IsUsable (c : Config) : Type 0 where
  pub mode : c.assistant_mode ≡ bytes "local"
  pub runtime_dir : c.runtime_dir ≢ []
  pub audio_capture_device : c.audio_capture_device ≢ []
  pub audio_playback_device : c.audio_playback_device ≢ []
  pub stt_api_base_url : c.stt_api_base_url ≢ []
  pub llm_api_base_url : c.llm_api_base_url ≢ []
  pub llm_model : c.llm_model ≢ []
  pub llm_system_prompt_path : c.llm_system_prompt_path ≢ []
  pub tts_bin : c.tts_bin ≢ []
  pub tts_voice_path : c.tts_voice_path ≢ []
  pub aggressive : (pos 0 ≤ℤ c.vad_aggressiveness) × (c.vad_aggressiveness ≤ℤ pos 3)
  pub silence : (pos 100 ≤ℤ c.vad_silence_ms) × (c.vad_silence_ms ≤ℤ pos 5000)

pub str_equal→eq : (s t : List ℕ) → str_equal s t ≡ true → s ≡ t
unfolding str_equal
str_equal→eq [] [] h = refl
str_equal→eq [] (d ∷ t) h = cc
str_equal→eq (c ∷ s) [] h = cc
str_equal→eq (c ∷ s) (d ∷ t) h = ground (arith, str_equal→eq s t)

pub str_equal_refl : (s : List ℕ) → str_equal s s ≡ true
unfolding str_equal
str_equal_refl [] = refl
str_equal_refl (c ∷ s) = ground (arith, str_equal_refl s)

has_empty-false :
    (c : Config)
    → has_empty c ≡ false
    → (is_empty c.runtime_dir ≡ false)
      × (is_empty c.audio_capture_device ≡ false)
      × (is_empty c.audio_playback_device ≡ false)
      × (is_empty c.stt_api_base_url ≡ false)
      × (is_empty c.llm_api_base_url ≡ false)
      × (is_empty c.llm_model ≡ false)
      × (is_empty c.llm_system_prompt_path ≡ false)
      × (is_empty c.tts_bin ≡ false)
      × (is_empty c.tts_voice_path ≡ false)
unfolding has_empty
has_empty-false c h = ground arith

not_empty : (s : List ℕ) → is_empty s ≡ false → s ≢ []
not_empty [] h = cc
not_empty (x ∷ s) h = λ e. cc

is_empty_of_ne : (s : List ℕ) → s ≢ [] → is_empty s ≡ false
is_empty_of_ne [] h = absurd (h refl)
is_empty_of_ne (x ∷ s) h = refl

-- What the tests of `validate` come to when it returns ASSISTANTD_OK.
passed :
    (c : Config)
    → validate c ≡ ok
    → (str_equal c.assistant_mode (bytes "local") ≡ true)
      × (has_empty c ≡ false)
      × (outside c.vad_aggressiveness 0 3 ≡ false)
      × (outside c.vad_silence_ms 100 5000 ≡ false)
unfolding validate
passed c h = ground arith

within : (n : ℤ) (low high : ℕ) → (outside n low high ≡ false) ↔ ((pos low ≤ℤ n) × (n ≤ℤ pos high))
within n low high = (λ h. ground arith, λ h. ground arith)

validate-ok→IsUsable : (c : Config) → validate c ≡ ok → IsUsable c
validate-ok→IsUsable c h =
    let (mode, strings, aggressive, silence) = passed c h in
    let s = has_empty-false c strings in
    record {
      mode = str_equal→eq c.assistant_mode (bytes "local") mode;
      runtime_dir = not_empty c.runtime_dir s.0;
      audio_capture_device = not_empty c.audio_capture_device s.1;
      audio_playback_device = not_empty c.audio_playback_device s.2;
      stt_api_base_url = not_empty c.stt_api_base_url s.3;
      llm_api_base_url = not_empty c.llm_api_base_url s.4;
      llm_model = not_empty c.llm_model s.5;
      llm_system_prompt_path = not_empty c.llm_system_prompt_path s.6;
      tts_bin = not_empty c.tts_bin s.7;
      tts_voice_path = not_empty c.tts_voice_path s.8;
      aggressive = (within c.vad_aggressiveness 0 3).0 aggressive;
      silence = (within c.vad_silence_ms 100 5000).0 silence;
    }

IsUsable→validate-ok : (c : Config) → IsUsable c → validate c ≡ ok
unfolding validate has_empty
IsUsable→validate-ok c u = rw (
  u.mode,
  str_equal_refl (bytes "local"),
  is_empty_of_ne c.runtime_dir u.runtime_dir,
  is_empty_of_ne c.audio_capture_device u.audio_capture_device,
  is_empty_of_ne c.audio_playback_device u.audio_playback_device,
  is_empty_of_ne c.stt_api_base_url u.stt_api_base_url,
  is_empty_of_ne c.llm_api_base_url u.llm_api_base_url,
  is_empty_of_ne c.llm_model u.llm_model,
  is_empty_of_ne c.llm_system_prompt_path u.llm_system_prompt_path,
  is_empty_of_ne c.tts_bin u.tts_bin,
  is_empty_of_ne c.tts_voice_path u.tts_voice_path,
  (within c.vad_aggressiveness 0 3).1 u.aggressive,
  (within c.vad_silence_ms 100 5000).1 u.silence,
)

-- `validate` accepts exactly the usable configurations.
pub validate-ok_iff : (c : Config) → (validate c ≡ ok) ↔ IsUsable c
validate-ok_iff c = (validate-ok→IsUsable c, IsUsable→validate-ok c)
