-- ===== src/Outside.antt =====
-- The calls that src/assistantd/supervisor.c makes outside the repository: the C allocator,
-- `unlink`, and the WAV writer dr_wav. Each takes the outside world and gives it back changed.
use shiori.Base.{ℕ, Bool, Option, List}
use shiori.Base.Int.{ℤ}

-- The fields of `drwav_data_format` that the source sets.
pub record WavFormat : Type 0 where
  pub container : ℕ
  pub format : ℕ
  pub channels : ℕ
  pub sample_rate : ℕ
  pub bits_per_sample : ℕ

pub record Outside : Type 1 where
  pub World : Type 0
  pub Wav : Type 0
  -- The values of `drwav_container_riff` and `DR_WAVE_FORMAT_PCM`.
  pub container_riff : ℕ
  pub format_pcm : ℕ
  -- Whether `calloc` gives memory of the size asked for.
  pub calloc : World → ℕ → Bool × World
  pub realloc : World → Option (List ℕ) → ℕ → Option (List ℕ) × World
  pub unlink : World → List ℕ → ℤ × World
  pub drwav_init_file_write : World → List ℕ → WavFormat → Option Wav × World
  -- The number of frames written.
  pub drwav_write_pcm_frames : World → Wav → ℕ → List ℕ → ℕ × (Wav × World)
  -- The result code; 0 is DRWAV_SUCCESS.
  pub drwav_uninit : World → Wav → ℤ × World
