-- ===== src/Ring/Bounds.antt =====
-- The representation invariant of `assistantd_ring_buffer_t`.
use shiori.Base.{
  ℕ, ◌+◌, ◌-◌, ◌≤◌, ◌<◌, ◌≡◌, some, arith, length, size_mod, length-replicate, true, bytes_of,
}
use shiori.Status.{ok}
use shiori.Ring.{Ring, used_snapshot, init, available, space}

-- The counters only grow, and the unread bytes stand between them.
pub record IsValid (r : Ring) : Type 0 where
  pub stored : r.storage ≡ some (bytes_of r.storage)
  pub sized : length (bytes_of r.storage) ≡ r.capacity
  pub positive : 0 < r.capacity
  pub ordered : r.tail ≤ r.head
  pub fits : r.head ≤ r.tail + r.capacity
  pub counted : r.head < size_mod
  pub over : r.overflow < size_mod
  pub under : r.underflow < size_mod

pub used_snapshot_lem :
    {r : Ring} → IsValid r → used_snapshot r.head r.tail r.capacity ≡ r.head - r.tail
unfolding used_snapshot
used_snapshot_lem v = ground arith

-- A successful `init` gives a valid empty ring of the capacity asked for.
pub init-IsValid :
    (b : Ring) (capacity : ℕ)
    → 0 < capacity
    → let (status, r) = init true b capacity in
      (status ≡ ok) × IsValid r × (r.capacity ≡ capacity) × (available r ≡ 0)
unfolding init available used_snapshot
init-IsValid b capacity h = ground (arith, length-replicate {A = ℕ} capacity 0)

-- Of a valid ring, `available` is what was written and not read, and `space` is the rest.
pub space-add-available :
    {r : Ring} → IsValid r → (available r ≡ r.head - r.tail) × (space r + available r ≡ r.capacity)
unfolding available space
space-add-available {r} v = ground (arith, used_snapshot_lem v)
