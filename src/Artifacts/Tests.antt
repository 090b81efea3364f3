-- ===== src/Artifacts/Tests.antt =====
-- Paths of utterance files, and the theorems on them, at concrete inputs.
use shiori.Base.{ℕ, ◌≤◌, ◌≡◌, ◌↔◌, refl, arith, length}
use shiori.Status.{ok}
use shiori.Text.{bytes, print_nat}
use shiori.Config.{init_defaults}
use shiori.Artifacts.{build_artifact_path, artifact_path, zero_pad, wav_path_max}
use shiori.Artifacts.Paths.{build_artifact_path_injective, build_artifact_path-ok_iff}

path_of_seven :
    build_artifact_path init_defaults 7 512
    ≡ (ok, bytes "/var/lib/local-ai-assistant/utterance-00000000000000000007.wav")
unfolding build_artifact_path artifact_path zero_pad print_nat init_defaults
path_of_seven = refl

built : length init_defaults.runtime_dir ≤ 476
unfolding init_defaults
built = omega arith

abbrev seven : ℕ
seven = 7

build_artifact_path_injective_example : seven ≡ seven
build_artifact_path_injective_example =
    build_artifact_path_injective init_defaults seven seven ok_of_seven ok_of_seven refl
  where
    ok_of_seven : (build_artifact_path init_defaults 7 wav_path_max).0 ≡ ok
    ok_of_seven = (build_artifact_path-ok_iff init_defaults 7 (omega arith)).0.1 built

build_artifact_path-ok_iff_example :
    (((build_artifact_path init_defaults 7 wav_path_max).0 ≡ ok)
      ↔ (length init_defaults.runtime_dir ≤ 476))
    × (length (build_artifact_path init_defaults 7 wav_path_max).1 ≤ 511)
build_artifact_path-ok_iff_example = build_artifact_path-ok_iff init_defaults 7 (omega arith)
