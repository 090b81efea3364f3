-- ===== src/Ring/Read.antt =====
-- What `read` of ring_buffer.c does to the bytes that a ring holds.
use shiori.Base.{
  bytes_of, get_or-window, ℕ, ◌+◌, ◌-◌, ◌%◌, ◌≤◌, ◌<◌, ◌≡◌, ◌⊎◌, sym, ap, ◌∙◌, List, ◌++◌, some,
  arith, length, get_or, take, drop, length-append, length-take, length-drop, get_or-take,
  get_or-drop, get_or-append_left, get_or-append_right, list_ext, min, add_size, dec_lt,
}
use shiori.Ring.{Ring, copy_out, read, read_bytes, min_size}
use shiori.Ring.Bounds.{IsValid, used_snapshot_lem}
use shiori.Ring.Copy.{length-copy_out, get_or-copy_out_new, get_or-copy_out_rest}
use shiori.Ring.Contents.{contents, length-contents}

module _ (r : Ring) (v : IsValid r) (output : List ℕ) (len : ℕ) (room : len ≤ length output) where
  abbrev to_read : ℕ
  to_read = min_size len (r.head - r.tail)

  abbrev left : Ring
  left = (read r (some output) len).buffer

  to_read-le : (to_read ≤ len) × (to_read ≤ r.head - r.tail)
  to_read-le = ground arith

  read-counters :
      ((read r (some output) len).count ≡ to_read)
      × (left.head ≡ r.head)
      × (left.tail ≡ r.tail + to_read)
      × (left.capacity ≡ r.capacity)
      × (left.overflow ≡ r.overflow)
      × (left.underflow ≡ add_size r.underflow (len - to_read))
      × (left.storage ≡ r.storage)
  unfolding read read_bytes
  read-counters = ground (arith, used_snapshot_lem v)

  read-output :
      ((to_read ≡ 0) × ((read r (some output) len).output ≡ output))
      ⊎ ((0 < to_read)
          × ((read r (some output) len).output
              ≡ copy_out (bytes_of r.storage) r.capacity r.tail output to_read))
  unfolding read read_bytes
  read-output = ground (arith, used_snapshot_lem v)

  read-IsValid : IsValid left
  read-IsValid = ground (arith, read-counters, v)

  contents-read : contents left ≡ drop to_read (contents r)
  contents-read =
      list_ext 0 _ _
        (ground (
          arith,
          read-counters,
          length-contents left,
          length-contents r,
          length-drop to_read (contents r),
        ))
        (λ i lt. ground (
          arith,
          v,
          read-counters,
          length-contents left,
          get_or-window 0 (bytes_of left.storage) left.capacity left.tail (left.head - left.tail) i,
          get_or-drop to_read (contents r) i (to_read + i) 0,
          get_or-window 0 (bytes_of r.storage) r.capacity r.tail (r.head - r.tail) (to_read + i),
          ap (λ (c : ℕ). c % r.capacity) (regroup i),
        ))
    where
      regroup : (i : ℕ) → r.tail + to_read + i ≡ r.tail + (to_read + i)
      regroup i = omega arith

  get_or-output :
      (i : ℕ)
      → i < length output
      → get_or (read r (some output) len).output i 0
        ≡ get_or (take to_read (contents r) ++ drop to_read output) i 0
  get_or-output i lt = elim (dec_lt i to_read) [
    | yes new ↦ ground (
      arith,
      v,
      read-output,
      length-contents r,
      length-take to_read (contents r),
      get_or-append_left (take to_read (contents r)) (drop to_read output) i 0,
      get_or-take to_read (contents r) i 0,
      get_or-window 0 (bytes_of r.storage) r.capacity r.tail (r.head - r.tail) i,
      get_or-copy_out_new (bytes_of r.storage) r.capacity r.tail output to_read v.sized v.positive
          (omega (arith, to_read-le)) (omega (arith, to_read-le, v)) i,
    )
    | no rest ↦ ground (
      arith,
      v,
      read-output,
      length-contents r,
      length-take to_read (contents r),
      get_or-append_right (take to_read (contents r)) (drop to_read output) i (i - to_read) 0,
      get_or-drop to_read output (i - to_read) i 0,
      get_or-copy_out_rest (bytes_of r.storage) r.capacity r.tail output to_read v.sized v.positive
          (omega (arith, to_read-le)) (omega (arith, to_read-le, v)) i,
    )
  ]

  length-output : length (read r (some output) len).output ≡ length output
  length-output = ground (
    arith,
    v,
    read-output,
    to_read-le,
    length-copy_out (bytes_of r.storage) r.capacity r.tail output to_read,
  )

  length-handed : length (take to_read (contents r) ++ drop to_read output) ≡ length output
  length-handed = ground (
    arith,
    to_read-le,
    length-contents r,
    length-append (take to_read (contents r)) (drop to_read output),
    length-take to_read (contents r),
    length-drop to_read output,
  )

  output-read : (read r (some output) len).output ≡ take to_read (contents r) ++ drop to_read output
  output-read =
      list_ext 0 _ _ (length-output ∙ sym length-handed)
        (λ i lt. get_or-output i (omega (arith, length-output)))

-- On a valid ring `read` hands out as many of the `len` bytes as there are, returns their number,
-- puts exactly the oldest bytes, in order, at the front of the caller's memory and leaves the rest
-- of it alone; the ring keeps the bytes that follow, the number of missing bytes is added to the
-- underflow counter (mod 2 ^ 64), and the ring stays valid.
pub read_lem :
    (r : Ring) (output : List ℕ) (len : ℕ)
    → IsValid r
    → len ≤ length output
    → let out = read r (some output) len in
      (out.count ≡ min len (length (contents r)))
      × (out.output ≡ take out.count (contents r) ++ drop out.count output)
      × (contents out.buffer ≡ drop out.count (contents r))
      × (out.buffer.underflow ≡ add_size r.underflow (len - out.count))
      × (out.buffer.overflow ≡ r.overflow)
      × (out.buffer.capacity ≡ r.capacity)
      × (out.buffer.head ≡ r.head)
      × IsValid out.buffer
read_lem r output len v room =
    let c = read-counters r v output len room in
    (
      ground (arith, c, length-contents r),
      output-read r v output len room ∙ ap (λ n. take n (contents r) ++ drop n output) (sym c.0),
      contents-read r v output len room ∙ ap (λ n. drop n (contents r)) (sym c.0),
      ground (arith, c),
      c.4,
      c.3,
      c.1,
      read-IsValid r v output len room,
    )
