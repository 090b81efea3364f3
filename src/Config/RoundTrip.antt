-- ===== src/Config/RoundTrip.antt =====
-- What `dump` prints, `load_file` reads back.
use shiori.Base.{
  ℕ, suc, ◌-◌, ◌^◌, ◌≤◌, ◌<◌, ◌≡◌, ap, ◌∙◌, Option, some, List, [], ◌∷◌, arith, length, take_all,
}
use shiori.Base.Int.{ℤ, pos, negsuc, ◌≤ℤ◌}
use shiori.Status.{ok}
use shiori.Text.{bytes, print_int, print_nat, str_equal}
use shiori.Text.Decimal.{AllDigits, print_nat-AllDigits, length-print_nat, atoi-print_int}
use shiori.Text.Trim.{
  Without, AllVisible, AllVisible-Without, AllVisible-skip_space, AllVisible-trim_end,
}
use shiori.Config.{Config, dump, load_file, set_key, load_lines}
use shiori.Config.Bounds.{Fits}
use shiori.Config.Line.{IsClean, IsKey, load_all, load_all-entry, load_all-last}

-- The letters of the keys.
abbrev AllUpper : List ℕ → Type 0
AllUpper [] = Unit
AllUpper (c ∷ s) = (64 < c) × AllUpper s

AllUpper→AllVisible : (s : List ℕ) → AllUpper s → AllVisible s
AllUpper→AllVisible [] h = tt
AllUpper→AllVisible (c ∷ s) h = (omega arith, AllUpper→AllVisible s h.1)

AllUpper-no_equals : (s : List ℕ) → AllUpper s → Without b'=' s
AllUpper-no_equals [] h = tt
AllUpper-no_equals (c ∷ s) h = (ground (arith, h.0), AllUpper-no_equals s h.1)

AllUpper-IsKey : (x : ℕ) (k : List ℕ) → AllUpper (x ∷ k) → IsKey x k
AllUpper-IsKey x k h = record {
  no_nul = AllVisible-Without 0 (x ∷ k) (omega arith) (AllUpper→AllVisible (x ∷ k) h);
  no_newline = AllVisible-Without b'\n' (x ∷ k) (omega arith) (AllUpper→AllVisible (x ∷ k) h);
  no_equals = AllUpper-no_equals (x ∷ k) h;
  no_space = ground (arith, h.0);
  no_comment = ground (arith, h.0);
  no_trail = AllVisible-trim_end k (AllUpper→AllVisible k h.1);
}

AllVisible-IsClean : (v : List ℕ) → AllVisible v → IsClean v
AllVisible-IsClean v h = record {
  no_nul = AllVisible-Without 0 v (omega arith) h;
  no_newline = AllVisible-Without b'\n' v (omega arith) h;
  no_lead = AllVisible-skip_space v h;
  no_trail = AllVisible-trim_end v h;
}

AllDigits→AllVisible : (s : List ℕ) → AllDigits s → AllVisible s
AllDigits→AllVisible [] h = tt
AllDigits→AllVisible (c ∷ s) h = (ground (arith, h.0), AllDigits→AllVisible s h.1)

-- The range of `int`.
abbrev pub IsInt : ℤ → Type 0
IsInt z = (negsuc (2 ^ 31 - 1) ≤ℤ z) × (z ≤ℤ pos (2 ^ 31 - 1))

print_int-AllVisible : (z : ℤ) → AllVisible (print_int z)
unfolding print_int
print_int-AllVisible (pos n) =
    AllDigits→AllVisible (print_nat (suc n) n) (print_nat-AllDigits (suc n) n)
print_int-AllVisible (negsuc n) = (
  omega arith,
  AllDigits→AllVisible (print_nat (suc (suc n)) (suc n))
      (print_nat-AllDigits (suc (suc n)) (suc n)),
)

length-print_int : (z : ℤ) → IsInt z → length (print_int z) ≤ 11
unfolding print_int
length-print_int (pos n) h = omega (arith, length-print_nat 9 (suc n) n (omega arith))
length-print_int (negsuc n) h =
    omega (arith, length-print_nat 9 (suc (suc n)) (suc n) (omega arith))

-- Every string can stand on a line.
pub record IsPrintable (c : Config) : Type 0 where
  pub assistant_mode : IsClean c.assistant_mode
  pub runtime_dir : IsClean c.runtime_dir
  pub audio_capture_device : IsClean c.audio_capture_device
  pub audio_playback_device : IsClean c.audio_playback_device
  pub stt_api_base_url : IsClean c.stt_api_base_url
  pub llm_api_base_url : IsClean c.llm_api_base_url
  pub llm_model : IsClean c.llm_model
  pub llm_system_prompt_path : IsClean c.llm_system_prompt_path
  pub tts_bin : IsClean c.tts_bin
  pub tts_voice_path : IsClean c.tts_voice_path
  pub aggressive : IsInt c.vad_aggressiveness
  pub silence : IsInt c.vad_silence_ms

-- The configuration after the twelve assignments of the lines of `c`.
assigned : Config → Config → Config
assigned d c =
    set_key
      (set_key
        (set_key
          (set_key
            (set_key
              (set_key
                (set_key
                  (set_key
                    (set_key
                      (set_key
                        (set_key (set_key d (bytes "ASSISTANT_MODE") c.assistant_mode)
                          (bytes "RUNTIME_DIR") c.runtime_dir)
                        (bytes "AUDIO_CAPTURE_DEVICE") c.audio_capture_device)
                      (bytes "AUDIO_PLAYBACK_DEVICE") c.audio_playback_device)
                    (bytes "STT_API_BASE_URL") c.stt_api_base_url)
                  (bytes "LLM_API_BASE_URL") c.llm_api_base_url)
                (bytes "LLM_MODEL") c.llm_model)
              (bytes "LLM_SYSTEM_PROMPT_PATH") c.llm_system_prompt_path)
            (bytes "TTS_BIN") c.tts_bin)
          (bytes "TTS_VOICE_PATH") c.tts_voice_path)
        (bytes "VAD_AGGRESSIVENESS") (print_int c.vad_aggressiveness))
      (bytes "VAD_SILENCE_MS") (print_int c.vad_silence_ms)

assigned_lem : (d c : Config) → Fits c → IsPrintable c → assigned d c ≡ c
unfolding assigned set_key str_equal
assigned_lem d c f p = rw (
  take_all 15 c.assistant_mode (omega (arith, f)),
  take_all 511 c.runtime_dir (omega (arith, f)),
  take_all 511 c.audio_capture_device (omega (arith, f)),
  take_all 511 c.audio_playback_device (omega (arith, f)),
  take_all 511 c.stt_api_base_url (omega (arith, f)),
  take_all 511 c.llm_api_base_url (omega (arith, f)),
  take_all 511 c.llm_model (omega (arith, f)),
  take_all 511 c.llm_system_prompt_path (omega (arith, f)),
  take_all 511 c.tts_bin (omega (arith, f)),
  take_all 511 c.tts_voice_path (omega (arith, f)),
  atoi-print_int c.vad_aggressiveness p.aggressive.0 p.aggressive.1,
  atoi-print_int c.vad_silence_ms p.silence.0 p.silence.1,
)

load_all-dump : (d c : Config) → Fits c → IsPrintable c → load_all d (dump c) ≡ assigned d c
unfolding dump assigned load_lines
load_all-dump d c f p =
    load_all-entry _ b'A' (bytes "SSISTANT_MODE") c.assistant_mode _
      (AllUpper-IsKey _ _ (omega arith)) p.assistant_mode (omega (arith, f))
    ∙ (load_all-entry _ b'R' (bytes "UNTIME_DIR") c.runtime_dir _ (AllUpper-IsKey _ _ (omega arith))
          p.runtime_dir (omega (arith, f))
        ∙ (load_all-entry _ b'A' (bytes "UDIO_CAPTURE_DEVICE") c.audio_capture_device _
              (AllUpper-IsKey _ _ (omega arith)) p.audio_capture_device (omega (arith, f))
            ∙ (load_all-entry _ b'A' (bytes "UDIO_PLAYBACK_DEVICE") c.audio_playback_device _
                  (AllUpper-IsKey _ _ (omega arith)) p.audio_playback_device (omega (arith, f))
                ∙ (load_all-entry _ b'S' (bytes "TT_API_BASE_URL") c.stt_api_base_url _
                      (AllUpper-IsKey _ _ (omega arith)) p.stt_api_base_url (omega (arith, f))
                    ∙ (load_all-entry _ b'L' (bytes "LM_API_BASE_URL") c.llm_api_base_url _
                          (AllUpper-IsKey _ _ (omega arith)) p.llm_api_base_url (omega (arith, f))
                        ∙ (load_all-entry _ b'L' (bytes "LM_MODEL") c.llm_model _
                              (AllUpper-IsKey _ _ (omega arith)) p.llm_model (omega (arith, f))
                            ∙ (load_all-entry _ b'L' (bytes "LM_SYSTEM_PROMPT_PATH")
                                  c.llm_system_prompt_path _ (AllUpper-IsKey _ _ (omega arith))
                                  p.llm_system_prompt_path (omega (arith, f))
                                ∙ (load_all-entry _ b'T' (bytes "TS_BIN") c.tts_bin _
                                      (AllUpper-IsKey _ _ (omega arith)) p.tts_bin
                                      (omega (arith, f))
                                    ∙ (load_all-entry _ b'T' (bytes "TS_VOICE_PATH")
                                          c.tts_voice_path _ (AllUpper-IsKey _ _ (omega arith))
                                          p.tts_voice_path (omega (arith, f))
                                        ∙ (load_all-entry _ b'V' (bytes "AD_AGGRESSIVENESS")
                                              (print_int c.vad_aggressiveness) _
                                              (AllUpper-IsKey _ _ (omega arith))
                                              (AllVisible-IsClean (print_int c.vad_aggressiveness)
                                                (print_int-AllVisible c.vad_aggressiveness))
                                              (omega (
                                                arith,
                                                length-print_int c.vad_aggressiveness p.aggressive,
                                              ))
                                            ∙ (load_all-last _ b'V' (bytes "AD_SILENCE_MS")
                                                (print_int c.vad_silence_ms)
                                                (AllUpper-IsKey _ _ (omega arith))
                                                (AllVisible-IsClean (print_int c.vad_silence_ms)
                                                  (print_int-AllVisible c.vad_silence_ms))
                                                (omega (
                                                  arith,
                                                  length-print_int c.vad_silence_ms p.silence,
                                                )))))))))))))

-- Whatever was loaded before, loading a file that holds the dump of a configuration gives that
-- configuration, if its strings fit their arrays and can stand on a line (no NUL, no newline, no
-- space at an end) and its numbers are `int`s.
pub load_file-dump :
    (fopen : List ℕ → Option (List ℕ)) (path : List ℕ) (d c : Config)
    → Fits c
    → IsPrintable c
    → fopen path ≡ some (dump c)
    → load_file fopen d (some path) ≡ (ok, c)
unfolding load_file
load_file-dump fopen path d c f p e =
    rw (e, load_file) (ap (λ r. (ok, r)) (load_all-dump d c f p ∙ assigned_lem d c f p))
