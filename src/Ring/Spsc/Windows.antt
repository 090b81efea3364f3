-- ===== src/Ring/Spsc/Windows.antt =====
-- The copies of ring_buffer.c as windows of the storage.
use shiori.Base.{
  ℕ, zero, suc, ◌+◌, ◌-◌, ◌%◌, ◌≤◌, ◌<◌, ◌≡◌, sym, ap, ◌∙◌, List, ◌∷◌, ◌++◌, arith, length, get_or,
  take, length-take, get_or-take, list_ext, window, length-window, get_or-window, window_ext,
}
use shiori.Ring.{copy_in, copy_out}
use shiori.Ring.Copy.{get_or-copy_in_new, get_or-copy_in_old, get_or-copy_out_new, length-copy_out}

-- A window in two parts.
pub window-add :
    (bytes : List ℕ) (capacity c m n : ℕ)
    → window 0 bytes capacity c (m + n)
      ≡ window 0 bytes capacity c m ++ window 0 bytes capacity (c + m) n
window-add bytes capacity c zero n =
    ap (λ k. window 0 bytes capacity c k) (omega arith)
    ∙ ap (λ k. window 0 bytes capacity k n) (omega arith)
window-add bytes capacity c (suc m) n =
    let grows : suc m + n ≡ suc (m + n) = omega arith in
    ap (λ k. window 0 bytes capacity c k) grows
    ∙ (ap (λ l. get_or bytes (c % capacity) 0 ∷ l)
        (window-add bytes capacity (c + 1) m n
          ∙ ap (λ k. window 0 bytes capacity (c + 1) m ++ window 0 bytes capacity k n)
              (omega arith)))

module _ (bytes : List ℕ) (capacity : ℕ) (sized : length bytes ≡ capacity)
    (positive : 0 < capacity) where
  -- What a write stores.
  pub window-copy_in :
      (head : ℕ) (input : List ℕ) (n : ℕ)
      → n ≤ length input
      → n ≤ capacity
      → take n input ≡ window 0 (copy_in bytes capacity head input n) capacity head n
  window-copy_in head input n given fits =
      list_ext 0 _ _ (omega (arith, lengths, length-take n input)) (λ i lt.
        get_or-take n input i 0 (below i lt)
        ∙ (sym (
              get_or-copy_in_new bytes capacity head input n sized positive given fits i
                (below i lt))
            ∙ sym (
                get_or-window 0 (copy_in bytes capacity head input n) capacity head n i
                  (below i lt))))
    where
      lengths : length (window 0 (copy_in bytes capacity head input n) capacity head n) ≡ n
      lengths = length-window 0 (copy_in bytes capacity head input n) capacity head n

      below : (i : ℕ) → i < length (take n input) → i < n
      below i lt = ground (arith, length-take n input)

  -- A write leaves alone what stands below its counter.
  pub window-copy_in_old :
      (head : ℕ) (input : List ℕ) (n tail m : ℕ)
      → n ≤ length input
      → 0 < n
      → head + n ≤ tail + capacity
      → tail + m ≤ head
      → window 0 (copy_in bytes capacity head input n) capacity tail m
        ≡ window 0 bytes capacity tail m
  window-copy_in_old head input n tail m given some_byte room below =
      window_ext 0 (copy_in bytes capacity head input n) bytes capacity tail m (λ i lt.
        get_or-copy_in_old bytes capacity head input n sized positive given (omega arith) (tail + i)
          (head - tail - i - 1) (omega arith) (omega arith) some_byte)

  -- What a read hands out.
  pub window-copy_out :
      (tail : ℕ) (output : List ℕ) (n : ℕ)
      → n ≤ length output
      → n ≤ capacity
      → take n (copy_out bytes capacity tail output n) ≡ window 0 bytes capacity tail n
  window-copy_out tail output n room fits =
      list_ext 0 _ _ (omega (arith, taken, length-window 0 bytes capacity tail n)) (λ i lt.
        get_or-take n (copy_out bytes capacity tail output n) i 0 (below i lt)
        ∙ (get_or-copy_out_new bytes capacity tail output n sized positive room fits i (below i lt)
            ∙ sym (get_or-window 0 bytes capacity tail n i (below i lt))))
    where
      taken : length (take n (copy_out bytes capacity tail output n)) ≡ n
      taken = ground (
        arith,
        length-take n (copy_out bytes capacity tail output n),
        length-copy_out bytes capacity tail output n sized positive room fits,
      )

      below : (i : ℕ) → i < length (take n (copy_out bytes capacity tail output n)) → i < n
      below i lt = omega (arith, taken)
