-- ===== src/Artifacts.antt =====
-- The WAV files of utterances in src/assistantd/supervisor.c: their paths, and how they are written.
pub mod Paths
mod Tests
use shiori.Base.{
  ℕ, suc, ◌-◌, ◌*◌, ◌/◌, ◌%◌, ◌^◌, Bool, Option, none, some, List, [], ◌∷◌, ◌++◌, length, replicate,
  leb, ◌==◌, ◌&&◌, not, if◌then◌else◌, size_mod,
}
use shiori.Base.Int.{eq_int, ℤ, pos}
use shiori.Status.{Status, ok, err_invalid_argument, err_io}
use shiori.Text.{bytes, print_nat, copy_string}
use shiori.Config.{Config, config_value_max}
use shiori.Vad.{sample_rate_hz}
use shiori.Outside.{Outside, WavFormat}

-- ASSISTANTD_SUPERVISOR_WAV_PATH_MAX
abbrev pub wav_path_max : ℕ
wav_path_max = config_value_max

-- ASSISTANTD_SUPERVISOR_PCM_CHANNELS
abbrev pub pcm_channels : ℕ
pcm_channels = 1

-- ASSISTANTD_SUPERVISOR_PCM_BYTES_PER_SAMPLE
abbrev pub pcm_bytes_per_sample : ℕ
pcm_bytes_per_sample = 2

-- A conversion with the flag 0 and a width.
unfoldable pub zero_pad : ℕ → List ℕ → List ℕ
zero_pad width digits = replicate (width - length digits) b'0' ++ digits

-- "%s/utterance-%020" PRIu64 ".wav"
unfoldable pub artifact_path : List ℕ → ℕ → List ℕ
artifact_path runtime_dir sequence_id =
    runtime_dir
    ++ (bytes "/utterance-"
        ++ (zero_pad 20 (print_nat (suc sequence_id) sequence_id) ++ bytes ".wav"))

-- The status, and the C string that `wav_path` holds afterwards.
unfoldable pub build_artifact_path : Config → ℕ → ℕ → Status × List ℕ
build_artifact_path config sequence_id wav_path_size =
    let path = artifact_path config.runtime_dir sequence_id in
    if wav_path_size == 0
    then (err_invalid_argument, [])
    else if leb wav_path_size (length path)
    then (err_io, copy_string wav_path_size path)
    else (ok, copy_string wav_path_size path)

module _ (outside : Outside) where
  open outside use {
    World, Wav, container_riff, format_pcm, unlink, drwav_init_file_write, drwav_write_pcm_frames,
    drwav_uninit,
  }

  abbrev pub wav_format : WavFormat
  wav_format = record {
    container = container_riff;
    format = format_pcm;
    channels = pcm_channels;
    sample_rate = sample_rate_hz;
    bits_per_sample = pcm_bytes_per_sample * 8;
  }

  -- What follows the opening of the file.
  unfoldable pub write_frames : World → List ℕ → Wav → List ℕ → ℕ → Status × World
  write_frames w wav_path wav pcm frame_count =
      let (written_frames, (wav', w1)) = drwav_write_pcm_frames w wav frame_count pcm in
      let (close_result, w2) = drwav_uninit w1 wav' in
      if written_frames == frame_count && eq_int close_result (pos 0)
      then (ok, w2)
      else (err_io, (unlink w2 wav_path).1)

  -- The two pointers may be NULL.
  unfoldable pub write_wav_file : World → Option (List ℕ) → Option (List ℕ) → ℕ → Status × World
  write_wav_file w none pcm pcm_bytes = (err_invalid_argument, w)
  write_wav_file w (some wav_path) none pcm_bytes = (err_invalid_argument, w)
  write_wav_file w (some wav_path) (some pcm) pcm_bytes =
      let bytes_per_frame = pcm_channels * pcm_bytes_per_sample in
      let frame_count = pcm_bytes / bytes_per_frame % 2 ^ 64 in
      if not (pcm_bytes % bytes_per_frame == 0)
      then (err_invalid_argument, w)
      else if not (frame_count % size_mod == pcm_bytes / bytes_per_frame)
      then (err_io, w)
      else (let (opened, w') = drwav_init_file_write w wav_path wav_format in
          elim opened [
            | none ↦ (err_io, w')
            | some wav ↦ write_frames w' wav_path wav pcm frame_count
          ])
