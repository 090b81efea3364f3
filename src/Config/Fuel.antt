-- ===== src/Config/Fuel.antt =====
-- The loop of `load_file` ends: the length of the file is enough fuel, and more changes nothing.
use shiori.Base.{ℕ, zero, suc, ◌≤◌, ◌≡◌, refl, List, [], ◌∷◌, arith, length}
use shiori.Text.{fgets}
use shiori.Text.Trim.{length-fgets}
use shiori.Config.{Config, apply_line, load_lines}

-- Any two amounts of fuel that cover the file end alike.
pub load_lines_same :
    (f g : ℕ) (c : Config) (file : List ℕ)
    → length file ≤ f
    → length file ≤ g
    → load_lines f c file ≡ load_lines g c file
unfolding load_lines
load_lines_same zero zero c file hf hg = refl
load_lines_same zero (suc g) c [] hf hg = refl
load_lines_same zero (suc g) c (x ∷ file) hf hg = absurd (omega arith)
load_lines_same (suc f) zero c [] hf hg = refl
load_lines_same (suc f) zero c (x ∷ file) hf hg = absurd (omega arith)
load_lines_same (suc f) (suc g) c [] hf hg = refl
load_lines_same (suc f) (suc g) c (x ∷ file) hf hg =
    load_lines_same f g (apply_line c (fgets 1023 (x ∷ file)).0) (fgets 1023 (x ∷ file)).1
      (shorter f (omega arith)) (shorter g (omega arith))
  where
    shorter : (n : ℕ) → length file ≤ n → length (fgets 1023 (x ∷ file)).1 ≤ n
    shorter n h = omega (arith, length-fgets 1022 x file)

-- Every round takes a byte, so that nothing is left.
load_lines_whole :
    (f : ℕ) (c : Config) (file : List ℕ) → length file ≤ f → (load_lines f c file).1 ≡ []
unfolding load_lines
load_lines_whole zero c [] h = refl
load_lines_whole zero c (x ∷ file) h = absurd (omega arith)
load_lines_whole (suc f) c [] h = refl
load_lines_whole (suc f) c (x ∷ file) h =
    load_lines_whole f (apply_line c (fgets 1023 (x ∷ file)).0) (fgets 1023 (x ∷ file)).1
      (omega (arith, length-fgets 1022 x file, h))

-- The loop of `load_file` ends within as many rounds as the file has bytes: with that fuel or more it
-- has read the whole file, so that `fgets` gives NULL, and more fuel changes nothing.
pub load_lines_enough :
    (f : ℕ) (c : Config) (file : List ℕ)
    → length file ≤ f
    → ((load_lines f c file).1 ≡ []) × (load_lines f c file ≡ load_lines (length file) c file)
load_lines_enough f c file h =
    (load_lines_whole f c file h, load_lines_same f (length file) c file h (omega arith))
