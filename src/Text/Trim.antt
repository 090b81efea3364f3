-- ===== src/Text/Trim.antt =====
-- What the text functions do to text that is already clean.
use shiori.Base.{
  ℕ, zero, suc, ◌≤◌, ◌<◌, ◌≡◌, ◌≢◌, refl, ap, true, false, some, List, [], ◌∷◌, ◌++◌, arith, length,
  ◌==◌,
}
use shiori.Text.{c_string, split_at, fgets, skip_space, trim_end, is_space}

-- The byte `c` is not in the text.
abbrev pub Without : ℕ → List ℕ → Type 0
Without c [] = Unit
Without c (x ∷ s) = ((x == c) ≡ false) × Without c s

pub Without-append : (c : ℕ) (s t : List ℕ) → Without c s → Without c t → Without c (s ++ t)
Without-append c [] t h k = k
Without-append c (x ∷ s) t h k = (h.0, Without-append c s t h.1 k)

pub c_string-Without : (s : List ℕ) → Without 0 s → c_string s ≡ s
unfolding c_string
c_string-Without [] h = refl
c_string-Without (c ∷ s) h = rw h.0 (ap (λ t. c ∷ t) (c_string-Without s h.1))

-- `strchr` finds the first mark.
pub split_at-append :
    (mark : ℕ) (s t : List ℕ) → Without mark s → split_at mark (s ++ mark ∷ t) ≡ some (s, t)
unfolding split_at
split_at-append mark [] t h = ground arith
split_at-append mark (c ∷ s) t h = rw (h.0, split_at-append mark s t h.1)

-- `fgets` reads a line that fits, with its newline.
pub fgets-line :
    (room : ℕ) (line rest : List ℕ)
    → Without b'\n' line
    → length line < room
    → fgets room (line ++ b'\n' ∷ rest) ≡ (line ++ b'\n' ∷ [], rest)
unfolding fgets
fgets-line zero line rest h lt = elim lt [ ]
fgets-line (suc room) [] rest h lt = refl
fgets-line (suc room) (c ∷ s) rest h lt = rw (h.0, fgets-line room s rest h.1 (omega arith))

-- A read of a file that is not at its end takes at least one byte.
pub length-fgets :
    (room c : ℕ) (file : List ℕ) → length (fgets (suc room) (c ∷ file)).1 ≤ length file
unfolding fgets
length-fgets zero c file = ground arith
length-fgets (suc room) c [] = ground arith
length-fgets (suc room) c (d ∷ file) = ground (arith, length-fgets room d file)

-- A trailing space goes.
pub trim_end-space : (s : List ℕ) (c : ℕ) → is_space c ≡ true → trim_end (s ++ c ∷ []) ≡ trim_end s
unfolding trim_end
trim_end-space [] c h = rw h
trim_end-space (x ∷ s) c h = rw (trim_end-space s c h)

-- What ends in something that stays is trimmed in that part only.
pub trim_end-append : (s t : List ℕ) → trim_end t ≡ t → t ≢ [] → trim_end (s ++ t) ≡ s ++ t
unfolding trim_end
trim_end-append [] t h ne = h
trim_end-append (x ∷ s) [] h ne = absurd (ne refl)
trim_end-append (x ∷ []) (y ∷ t) h ne = rw h
trim_end-append (x ∷ z ∷ s) (y ∷ t) h ne = rw (trim_end-append (z ∷ s) (y ∷ t) h ne)

-- Visible bytes: none is a space, a newline or a NUL.
abbrev pub AllVisible : List ℕ → Type 0
AllVisible [] = Unit
AllVisible (c ∷ s) = (32 < c) × AllVisible s

pub AllVisible-Without : (c : ℕ) (s : List ℕ) → c ≤ 32 → AllVisible s → Without c s
AllVisible-Without c [] le h = tt
AllVisible-Without c (x ∷ s) le h = (ground arith, AllVisible-Without c s le h.1)

pub AllVisible-skip_space : (s : List ℕ) → AllVisible s → skip_space s ≡ s
unfolding skip_space
AllVisible-skip_space [] h = refl
AllVisible-skip_space (c ∷ s) h = ground (arith, h.0)

pub AllVisible-trim_end : (s : List ℕ) → AllVisible s → trim_end s ≡ s
unfolding trim_end
AllVisible-trim_end [] h = refl
AllVisible-trim_end (c ∷ []) h = ground (arith, h.0)
AllVisible-trim_end (c ∷ d ∷ s) h = rw (AllVisible-trim_end (d ∷ s) h.1)
