-- ===== src/Ring/Copy.antt =====
-- The pairs of `memcpy` calls of ring_buffer.c, read at a counter: the byte of counter `c` stands at
-- the index `c % capacity`.
use shiori.Base.{
  index_add, ℕ, suc, ◌+◌, ◌-◌, ◌%◌, ◌≤◌, ◌<◌, ◌≡◌, ◌⊎◌, inl, inr, ◌∙◌, List, arith, length, get_or,
  drop, memcpy, length-drop, length-memcpy, get_or-memcpy_before, get_or-memcpy_inside,
  get_or-memcpy_after, get_or-drop, ap,
}
use shiori.Ring.{min_size, copy_in, copy_out}

-- The length of the first chunk of a copy of `n` bytes at the index `pos`.
abbrev chunk : ℕ → ℕ → ℕ → ℕ
chunk n capacity pos = min_size n (capacity - pos)

-- The storage after the first chunk.
abbrev begun : List ℕ → ℕ → ℕ → List ℕ → ℕ → List ℕ
begun bytes capacity pos input n = memcpy bytes pos input (chunk n capacity pos)

module _ (bytes : List ℕ) (capacity head : ℕ) (input : List ℕ) (n : ℕ)
    (sized : length bytes ≡ capacity) (positive : 0 < capacity) (given : n ≤ length input)
    (fits : n ≤ capacity) where
  abbrev pos : ℕ
  pos = head % capacity

  length-begun : length (begun bytes capacity pos input n) ≡ capacity
  length-begun = ground (arith, length-memcpy bytes pos input (chunk n capacity pos))

  pub length-copy_in : length (copy_in bytes capacity head input n) ≡ capacity
  unfolding copy_in
  length-copy_in = ground (
    arith,
    length-begun,
    length-memcpy (begun bytes capacity pos input n) 0 (drop (chunk n capacity pos) input)
        (n - chunk n capacity pos),
    length-drop (chunk n capacity pos) input,
  )

  -- A byte of the first chunk.
  copy_in_first :
      (i : ℕ)
      → i < chunk n capacity pos
      → get_or (copy_in bytes capacity head input n) (pos + i) 0 ≡ get_or input i 0
  unfolding copy_in
  copy_in_first i h = ground (
    arith,
    length-begun,
    get_or-memcpy_inside bytes pos input (chunk n capacity pos) i 0,
    get_or-memcpy_after (begun bytes capacity pos input n) 0 (drop (chunk n capacity pos) input)
        (n - chunk n capacity pos) (pos + i) 0,
    length-drop (chunk n capacity pos) input,
  )

  -- A byte of the second chunk.
  copy_in_second :
      (j : ℕ)
      → chunk n capacity pos + j < n
      → get_or (copy_in bytes capacity head input n) j 0 ≡ get_or input (chunk n capacity pos + j) 0
  unfolding copy_in
  copy_in_second j h = ground (
    arith,
    length-begun,
    get_or-memcpy_inside (begun bytes capacity pos input n) 0 (drop (chunk n capacity pos) input)
        (n - chunk n capacity pos) j 0,
    get_or-drop (chunk n capacity pos) input j (chunk n capacity pos + j) 0,
    length-drop (chunk n capacity pos) input,
  )

  -- The bytes that a write stores, at their counters.
  pub get_or-copy_in_new :
      (i : ℕ)
      → i < n
      → get_or (copy_in bytes capacity head input n) ((head + i) % capacity) 0 ≡ get_or input i 0
  get_or-copy_in_new i h = elim (index_add head i capacity (omega arith)) [
    | inl (below, e) ↦ rw e (copy_in_first i (ground arith))
    | inr (above, e) ↦
        copy_in_second ((head + i) % capacity) (ground arith)
        ∙ ap (λ k. get_or input k 0) (ground arith)
  ]

  -- An index outside the two chunks keeps its byte.
  copy_in_outside :
      (j : ℕ)
      → j < capacity
      → ((j < pos) × (pos + n ≤ j + capacity)) ⊎ (pos + n ≤ j)
      → get_or (copy_in bytes capacity head input n) j 0 ≡ get_or bytes j 0
  unfolding copy_in
  copy_in_outside j lt h = ground (
    arith,
    length-begun,
    get_or-memcpy_before bytes pos input (chunk n capacity pos) j 0,
    get_or-memcpy_after bytes pos input (chunk n capacity pos) j 0,
    get_or-memcpy_after (begun bytes capacity pos input n) 0 (drop (chunk n capacity pos) input)
        (n - chunk n capacity pos) j 0,
    length-drop (chunk n capacity pos) input,
  )

  -- A write keeps the bytes of the counters below `head` that are still unread.
  pub get_or-copy_in_old :
      (c k : ℕ)
      → head ≡ c + suc k
      → suc k + n ≤ capacity
      → 0 < n
      → get_or (copy_in bytes capacity head input n) (c % capacity) 0
        ≡ get_or bytes (c % capacity) 0
  get_or-copy_in_old c k e h some_byte =
      copy_in_outside (c % capacity) (omega arith)
        (ground (arith, index_add c (suc k) capacity (omega arith), ap (λ (h : ℕ). h % capacity) e))

module _ (bytes : List ℕ) (capacity tail : ℕ) (output : List ℕ) (n : ℕ)
    (sized : length bytes ≡ capacity) (positive : 0 < capacity) (room : n ≤ length output)
    (fits : n ≤ capacity) where
  abbrev from : ℕ
  from = tail % capacity

  abbrev copied : List ℕ
  copied = memcpy output 0 (drop from bytes) (chunk n capacity from)

  length-copied : length copied ≡ length output
  length-copied = ground (
    arith,
    length-memcpy output 0 (drop from bytes) (chunk n capacity from),
    length-drop from bytes,
  )

  pub length-copy_out : length (copy_out bytes capacity tail output n) ≡ length output
  unfolding copy_out
  length-copy_out = ground (
    arith,
    length-copied,
    length-memcpy copied (chunk n capacity from) bytes (n - chunk n capacity from),
  )

  copy_out_first :
      (i : ℕ)
      → i < chunk n capacity from
      → get_or (copy_out bytes capacity tail output n) i 0 ≡ get_or bytes (from + i) 0
  unfolding copy_out
  copy_out_first i h = ground (
    arith,
    length-copied,
    length-drop from bytes,
    get_or-memcpy_inside output 0 (drop from bytes) (chunk n capacity from) i 0,
    get_or-memcpy_before copied (chunk n capacity from) bytes (n - chunk n capacity from) i 0,
    get_or-drop from bytes i (from + i) 0,
  )

  copy_out_second :
      (j : ℕ)
      → chunk n capacity from + j < n
      → get_or (copy_out bytes capacity tail output n) (chunk n capacity from + j) 0
        ≡ get_or bytes j 0
  unfolding copy_out
  copy_out_second j h = ground (
    arith,
    length-copied,
    get_or-memcpy_inside copied (chunk n capacity from) bytes (n - chunk n capacity from) j 0,
  )

  -- The bytes that a read hands out are those of the counters from `tail` on.
  pub get_or-copy_out_new :
      (i : ℕ)
      → i < n
      → get_or (copy_out bytes capacity tail output n) i 0 ≡ get_or bytes ((tail + i) % capacity) 0
  get_or-copy_out_new i h = elim (index_add tail i capacity (omega arith)) [
    | inl (below, e) ↦ rw e (copy_out_first i (ground arith))
    | inr (above, e) ↦
        ap (λ k. get_or (copy_out bytes capacity tail output n) k 0) (ground arith)
        ∙ copy_out_second ((tail + i) % capacity) (ground arith)
  ]

  -- The rest of the caller's memory is untouched.
  pub get_or-copy_out_rest :
      (i : ℕ) → n ≤ i → get_or (copy_out bytes capacity tail output n) i 0 ≡ get_or output i 0
  unfolding copy_out
  get_or-copy_out_rest i h = ground (
    arith,
    length-copied,
    length-drop from bytes,
    get_or-memcpy_after output 0 (drop from bytes) (chunk n capacity from) i 0,
    get_or-memcpy_after copied (chunk n capacity from) bytes (n - chunk n capacity from) i 0,
  )
