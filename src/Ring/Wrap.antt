-- ===== src/Ring/Wrap.antt =====
-- The end of the byte counters of ring_buffer.c: they are not reduced, so that `head` comes round at
-- 2 ^ 64.
use shiori.Base.{
  ℕ, ◌+◌, ◌-◌, ◌^◌, ◌≤◌, ◌<◌, ◌≡◌, ◌∙◌, List, some, arith, length, take, size_mod, bytes_of, window,
}
use shiori.Ring.{Ring, copy_in, write, write_bytes, available, used_snapshot}
use shiori.Ring.Bounds.{IsValid}
use shiori.Ring.Spsc.Windows.{window-copy_in}

module _ (r : Ring) (input : List ℕ) (len : ℕ) (v : IsValid r) (given : len ≤ length input)
    (small : r.capacity ≤ 2 ^ 62) (fits : len ≤ r.capacity - (r.head - r.tail))
    (wraps : size_mod ≤ r.head + len) where
  abbrev written : Ring
  written = (write r (some input) len).1

  write-all :
      ((write r (some input) len).0 ≡ len)
      × (0 < len)
      × (written.capacity ≡ r.capacity)
      × (written.storage ≡ some (copy_in (bytes_of r.storage) r.capacity r.head input len))
  unfolding write write_bytes used_snapshot
  write-all = ground (arith, v)

  available-written : available written ≡ 0
  unfolding write write_bytes available used_snapshot
  available-written = ground (arith, v)

-- A write on a valid ring of at most 2 ^ 62 bytes, of bytes that fit its free space and take `head` to
-- 2 ^ 64 or past it, returns their number and stores all of them, in order, at the counters from
-- `head` on; but the ring then reports no byte at all, neither those nor the ones it held before.
pub available-write_wrapped :
    (r : Ring) (input : List ℕ) (len : ℕ)
    → IsValid r
    → len ≤ length input
    → r.capacity ≤ 2 ^ 62
    → len ≤ r.capacity - (r.head - r.tail)
    → size_mod ≤ r.head + len
    → let (n, r') = write r (some input) len in
      (n ≡ len)
      × (0 < n)
      × (take len input ≡ window 0 (bytes_of r'.storage) r'.capacity r.head len)
      × (available r' ≡ 0)
available-write_wrapped r input len v given small fits wraps =
    let (count, positive, same, stored) = write-all r input len v given small fits wraps in
    let r' = (write r (some input) len).1 in
    let kept : window 0 (copy_in (bytes_of r.storage) r.capacity r.head input len) r.capacity r.head
          len
        ≡ window 0 (bytes_of r'.storage) r'.capacity r.head len =
      cc (stored, same) in
    (
      count,
      omega (arith, count, positive),
      window-copy_in (bytes_of r.storage) r.capacity v.sized v.positive r.head input len given
            (omega (arith, fits))
          ∙ kept,
      available-written r input len v given small fits wraps,
    )
