-- ===== src/Base/Memory.antt =====
-- C memory: a block of bytes is a list, and `size_t` is a number below 2 ^ 64.
use Prim.Native.Nat.{ℕ, ◌+◌, ◌-◌, ◌%◌, ◌^◌, ◌≤◌, ◌<◌}
use mathlib.Core.Path.{◌≡◌, ◌∙◌}
use mathlib.Core.List.{List, [], ◌++◌}
use mathlib.Core.Option.{Option, none, some}
use native.Mathlib.Omega.{arith}
use shiori.Base.Lists.{
  length, take, drop, get_or, length-append, length-take, length-drop, get_or-append_left,
  get_or-append_right, get_or-take, get_or-drop,
}

abbrev pub size_mod : ℕ
size_mod = 2 ^ 64

-- `a + b` on `size_t` (and on `uint64_t`) wraps.
abbrev pub add_size : ℕ → ℕ → ℕ
add_size a b = (a + b) % size_mod

-- The bytes behind a pointer that may be NULL.
abbrev pub bytes_of : Option (List ℕ) → List ℕ
bytes_of none = []
bytes_of (some bytes) = bytes

module _ {ℓ} {A : Type ℓ} where
  -- `memcpy(dest + offset, src, n)`; that it stays inside `dest` is a premise of its lemmas.
  unfoldable pub memcpy : List A → ℕ → List A → ℕ → List A
  memcpy dest offset src n = take offset dest ++ (take n src ++ drop (offset + n) dest)

  pub length-memcpy :
      (dest : List A) (offset : ℕ) (src : List A) (n : ℕ)
      → offset + n ≤ length dest
      → n ≤ length src
      → length (memcpy dest offset src n) ≡ length dest
  unfolding memcpy
  length-memcpy dest offset src n h k = omega (
    arith,
    length-append (take offset dest) (take n src ++ drop (offset + n) dest),
    length-append (take n src) (drop (offset + n) dest),
    length-take offset dest,
    length-take n src,
    length-drop (offset + n) dest,
  )

  pub get_or-memcpy_before :
      (dest : List A) (offset : ℕ) (src : List A) (n i : ℕ) (d : A)
      → offset + n ≤ length dest
      → i < offset
      → get_or (memcpy dest offset src n) i d ≡ get_or dest i d
  unfolding memcpy
  get_or-memcpy_before dest offset src n i d h lt =
      get_or-append_left _ _ i d (omega (arith, length-take offset dest))
      ∙ get_or-take offset dest i d lt

  pub get_or-memcpy_inside :
      (dest : List A) (offset : ℕ) (src : List A) (n i : ℕ) (d : A)
      → offset + n ≤ length dest
      → n ≤ length src
      → i < n
      → get_or (memcpy dest offset src n) (offset + i) d ≡ get_or src i d
  unfolding memcpy
  get_or-memcpy_inside dest offset src n i d h k lt =
      get_or-append_right _ _ (offset + i) i d (omega (arith, length-take offset dest))
      ∙ (get_or-append_left _ _ i d (omega (arith, length-take n src)) ∙ get_or-take n src i d lt)

  pub get_or-memcpy_after :
      (dest : List A) (offset : ℕ) (src : List A) (n i : ℕ) (d : A)
      → offset + n ≤ length dest
      → n ≤ length src
      → offset + n ≤ i
      → get_or (memcpy dest offset src n) i d ≡ get_or dest i d
  unfolding memcpy
  get_or-memcpy_after dest offset src n i d h k le =
      get_or-append_right (take offset dest) (take n src ++ drop (offset + n) dest) i (i - offset) d
        (omega (arith, length-take offset dest))
      ∙ (get_or-append_right (take n src) (drop (offset + n) dest) (i - offset) (i - offset - n) d
            (omega (arith, length-take n src))
          ∙ get_or-drop (offset + n) dest (i - offset - n) i d (omega arith))
