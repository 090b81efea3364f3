-- ===== src/Ring/Write.antt =====
-- What `write` of ring_buffer.c does to the bytes that a ring holds.
use shiori.Base.{
  bytes_of, get_or-window, ℕ, ◌+◌, ◌-◌, ◌%◌, ◌≤◌, ◌<◌, ◌≡◌, ◌⊎◌, sym, ap, ◌∙◌, List, ◌++◌, some,
  arith, length, get_or, take, length-append, length-take, get_or-take, get_or-append_left,
  get_or-append_right, list_ext, min, add_size, size_mod, dec_lt,
}
use shiori.Ring.{Ring, copy_in, write, write_bytes, min_size}
use shiori.Ring.Bounds.{IsValid, used_snapshot_lem}
use shiori.Ring.Copy.{length-copy_in, get_or-copy_in_new, get_or-copy_in_old}
use shiori.Ring.Contents.{contents, length-contents}

module _ (r : Ring) (v : IsValid r) (input : List ℕ) (len : ℕ) (given : len ≤ length input)
    (room : r.head + len < size_mod) where
  abbrev to_write : ℕ
  to_write = min_size len (r.capacity - (r.head - r.tail))

  abbrev written : Ring
  written = (write r (some input) len).1

  write-counters :
      ((write r (some input) len).0 ≡ to_write)
      × (written.head ≡ r.head + to_write)
      × (written.tail ≡ r.tail)
      × (written.capacity ≡ r.capacity)
      × (written.overflow ≡ add_size r.overflow (len - to_write))
      × (written.underflow ≡ r.underflow)
  unfolding write write_bytes
  write-counters = ground (arith, used_snapshot_lem v)

  write-storage :
      ((to_write ≡ 0) × (written.storage ≡ r.storage))
      ⊎ ((0 < to_write)
          × (written.storage
              ≡ some (copy_in (bytes_of r.storage) r.capacity r.head input to_write)))
  unfolding write write_bytes
  write-storage = ground (arith, used_snapshot_lem v)

  to_write-le : (to_write ≤ len) × (to_write ≤ r.capacity - (r.head - r.tail))
  to_write-le = ground arith

  write-IsValid : IsValid written
  write-IsValid = ground (
    arith,
    write-counters,
    write-storage,
    length-copy_in (bytes_of r.storage) r.capacity r.head input to_write,
    v,
  )

  index_of_new : (i : ℕ) → ¬ (i < r.head - r.tail) → r.head + (i - (r.head - r.tail)) ≡ r.tail + i
  index_of_new i new = omega (arith, v)

  -- The byte of each counter after the write.
  get_or-written :
      (i : ℕ)
      → i < r.head - r.tail + to_write
      → get_or (bytes_of written.storage) ((r.tail + i) % r.capacity) 0
        ≡ get_or (contents r ++ take to_write input) i 0
  get_or-written i h = elim (dec_lt i (r.head - r.tail)) [
    | yes old ↦ ground (
      arith,
      v,
      write-storage,
      length-contents r,
      get_or-append_left (contents r) (take to_write input) i 0,
      get_or-window 0 (bytes_of r.storage) r.capacity r.tail (r.head - r.tail) i,
      get_or-copy_in_old (bytes_of r.storage) r.capacity r.head input to_write v.sized v.positive
          (omega (arith, to_write-le)) (omega (arith, to_write-le)) (r.tail + i)
          (r.head - r.tail - i - 1),
    )
    | no new ↦ ground (
      arith,
      v,
      write-storage,
      length-contents r,
      get_or-append_right (contents r) (take to_write input) i (i - (r.head - r.tail)) 0,
      get_or-take to_write input (i - (r.head - r.tail)) 0,
      get_or-copy_in_new (bytes_of r.storage) r.capacity r.head input to_write v.sized v.positive
          (omega (arith, to_write-le)) (omega (arith, to_write-le)) (i - (r.head - r.tail)),
      ap (λ (c : ℕ). c % r.capacity) (index_of_new i new),
    )
  ]

  contents-write : contents written ≡ contents r ++ take to_write input
  contents-write =
      list_ext 0 _ _
        (ground (
          arith,
          write-counters,
          length-contents written,
          length-contents r,
          length-append (contents r) (take to_write input),
          length-take to_write input,
        ))
        (λ i lt. ground (
          arith,
          write-counters,
          length-contents written,
          get_or-window 0 (bytes_of written.storage) written.capacity written.tail
              (written.head - written.tail) i,
          get_or-written i,
        ))

-- On a valid ring `write` takes as many of the `len` bytes as there is space for, returns their
-- number, appends exactly those bytes, in order, to what the ring holds, adds the number of the
-- others to the overflow counter (mod 2 ^ 64), leaves the underflow counter and the capacity alone,
-- and keeps the ring valid, as long as the byte counter `head` does not pass 2 ^ 64.
pub write_lem :
    (r : Ring) (input : List ℕ) (len : ℕ)
    → IsValid r
    → len ≤ length input
    → r.head + len < size_mod
    → let (n, r') = write r (some input) len in
      (n ≡ min len (r.capacity - length (contents r)))
      × (contents r' ≡ contents r ++ take n input)
      × (r'.overflow ≡ add_size r.overflow (len - n))
      × (r'.underflow ≡ r.underflow)
      × (r'.capacity ≡ r.capacity)
      × (r'.head ≡ r.head + n)
      × IsValid r'
write_lem r input len v given room =
    let c = write-counters r v input len given room in
    (
      ground (arith, c, length-contents r),
      contents-write r v input len given room ∙ ap (λ n. contents r ++ take n input) (sym c.0),
      ground (arith, c),
      c.5,
      c.3,
      ground (arith, c),
      write-IsValid r v input len given room,
    )
