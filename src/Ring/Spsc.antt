-- ===== src/Ring/Spsc.antt =====
-- The calls of `assistantd_ring_buffer_write` and `assistantd_ring_buffer_read` in
-- src/assistantd/ring_buffer.c, one atomic operation at a time, for a producer and a consumer that run
-- at the same time. The checks for NULL are before the first step. The copies of a call are one step.
-- A load of the other side's counter gives what the counter is or something it was before: `seen`,
-- any number that is not above it.
pub mod Windows
pub mod Alone
pub mod Invariant
pub mod Writing
pub mod Reading
pub mod Fifo
mod Tests
use shiori.Base.{
  ℕ, ◌+◌, ◌-◌, ◌≤◌, ◌<◌, ◌≡◌, List, [], ◌++◌, some, length, take, ltb, if◌then◌else◌, add_size,
  size_mod, bytes_of,
}
use shiori.Ring.{Ring, min_size, used_snapshot, copy_in, copy_out}

-- Where a call of `write` stands: called; with `head` loaded; before the copies; before the store of
-- `head`; before the overflow is counted; returned.
pub data Producer : Type 0 where
  write_called : List ℕ → ℕ → Producer
  write_loaded : List ℕ → ℕ → ℕ → Producer
  write_copies : List ℕ → ℕ → ℕ → ℕ → Producer
  write_stores : List ℕ → ℕ → ℕ → ℕ → Producer
  write_counts : ℕ → ℕ → Producer
  write_returned : ℕ → Producer

-- The next operation of a call of `write`.
unfoldable pub write_step : Ring → ℕ → Producer → Ring × Producer
write_step r seen (write_called input len) = (r, write_loaded input len r.head)
write_step r seen (write_loaded input len head) = (
  r,
  write_copies input len head (min_size len (r.capacity - used_snapshot head seen r.capacity)),
)
write_step r seen (write_copies input len head n) =
    if ltb 0 n
    then (
      record r { storage = some (copy_in (bytes_of r.storage) r.capacity head input n) },
      write_stores input len head n,
    )
    else (r, write_counts len n)
write_step r seen (write_stores input len head n) =
    (record r { head = add_size head n }, write_counts len n)
write_step r seen (write_counts len n) = (
  if ltb n len then record r { overflow = add_size r.overflow (len - n) } else r,
  write_returned n,
)
write_step r seen (write_returned n) = (r, write_returned n)

-- Where a call of `read` stands, with the memory at `output`.
pub data Consumer : Type 0 where
  read_called : List ℕ → ℕ → Consumer
  read_loaded : List ℕ → ℕ → ℕ → Consumer
  read_copies : List ℕ → ℕ → ℕ → ℕ → Consumer
  read_stores : List ℕ → ℕ → ℕ → ℕ → Consumer
  read_counts : List ℕ → ℕ → ℕ → Consumer
  read_returned : List ℕ → ℕ → Consumer

-- The next operation of a call of `read`.
unfoldable pub read_step : Ring → ℕ → Consumer → Ring × Consumer
read_step r seen (read_called output len) = (r, read_loaded output len r.tail)
read_step r seen (read_loaded output len tail) =
    (r, read_copies output len tail (min_size len (used_snapshot seen tail r.capacity)))
read_step r seen (read_copies output len tail n) =
    if ltb 0 n
    then (r, read_stores (copy_out (bytes_of r.storage) r.capacity tail output n) len tail n)
    else (r, read_counts output len n)
read_step r seen (read_stores output len tail n) =
    (record r { tail = add_size tail n }, read_counts output len n)
read_step r seen (read_counts output len n) = (
  if ltb n len then record r { underflow = add_size r.underflow (len - n) } else r,
  read_returned output n,
)
read_step r seen (read_returned output n) = (r, read_returned output n)

-- The bytes that a step of the producer adds to the ring, and those that a step of the consumer takes
-- off it: the stores of the counters do.
abbrev pub added : Producer → List ℕ
added (write_stores input len head n) = take n input
added _ = []

abbrev pub handed_out : Consumer → List ℕ
handed_out (read_stores output len tail n) = take n output
handed_out _ = []

-- The ring between its two users, with all the bytes that went in and came out so far.
pub record Shared : Type 0 where
  pub ring : Ring
  pub producer : Producer
  pub consumer : Consumer
  pub accepted : List ℕ
  pub handed : List ℕ

abbrev pub producer_steps : ℕ → Shared → Shared
producer_steps seen s =
    let (r, p) = write_step s.ring seen s.producer in
    record s { ring = r; producer = p; accepted = s.accepted ++ added s.producer }

abbrev pub consumer_steps : ℕ → Shared → Shared
consumer_steps seen s =
    let (r, c) = read_step s.ring seen s.consumer in
    record s { ring = r; consumer = c; handed = s.handed ++ handed_out s.consumer }

-- One step of one of the two, or a new call once the last has returned.
pub data Step : Shared → Shared → Type 0 where
  producer_calls :
      {s : Shared} (last : ℕ) (input : List ℕ) (len : ℕ)
      → s.producer ≡ write_returned last
      → len ≤ length input
      → s.ring.head + len < size_mod
      → Step s (record s { producer = write_called input len })
  producer_goes : {s : Shared} (seen : ℕ) → seen ≤ s.ring.tail → Step s (producer_steps seen s)
  consumer_calls :
      {s : Shared} (last : List ℕ) (n : ℕ) (output : List ℕ) (len : ℕ)
      → s.consumer ≡ read_returned last n
      → len ≤ length output
      → Step s (record s { consumer = read_called output len })
  consumer_goes : {s : Shared} (seen : ℕ) → seen ≤ s.ring.head → Step s (consumer_steps seen s)

-- Any number of steps, in any order.
pub data Steps : Shared → Shared → Type 0 where
  here : {s : Shared} → Steps s s
  after : {s t u : Shared} → Steps s t → Step t u → Steps s u

-- A ring before its first call.
abbrev pub quiet : Ring → Shared
quiet r = record {
  ring = r;
  producer = write_returned 0;
  consumer = read_returned [] 0;
  accepted = [];
  handed = [];
}
