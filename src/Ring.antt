-- ===== src/Ring.antt =====
-- The functions of src/assistantd/ring_buffer.c over the struct of
-- include/assistantd/ring_buffer.h, each call run to its end.
-- A call that updates `*buffer` returns the new ring beside its result. The data pointers may be
-- NULL (`none`); `buffer` itself is not.
pub mod Bounds
pub mod Copy
pub mod Contents
pub mod Write
pub mod Read
pub mod Wrap
pub mod Spsc
mod Tests
use shiori.Base.{
  ℕ, ◌-◌, ◌%◌, Bool, Option, none, some, List, [], replicate, drop, ltb, ◌==◌, if◌then◌else◌,
  add_size, memcpy,
}
use shiori.Status.{Status, ok, err_invalid_argument, err_io}

-- `assistantd_ring_buffer_t`; `storage` is the field `data`, `none` for NULL.
pub record Ring : Type 0 where
  pub storage : Option (List ℕ)
  pub capacity : ℕ
  pub head : ℕ
  pub tail : ℕ
  pub overflow : ℕ
  pub underflow : ℕ

abbrev pub min_size : ℕ → ℕ → ℕ
min_size a b = if ltb a b then a else b

unfoldable pub used_snapshot : ℕ → ℕ → ℕ → ℕ
used_snapshot head tail capacity =
    if ltb head tail then 0 else if ltb capacity (head - tail) then capacity else head - tail

-- `allocated` is whether `calloc` returns memory.
unfoldable pub init : Bool → Ring → ℕ → Status × Ring
init allocated buffer capacity =
    if capacity == 0
    then (err_invalid_argument, buffer)
    else if allocated
    then (
      ok,
      record {
        storage = some (replicate capacity 0);
        capacity = capacity;
        head = 0;
        tail = 0;
        overflow = 0;
        underflow = 0;
      },
    )
    else (err_io, record buffer { storage = none })

unfoldable pub free : Ring → Ring
free buffer = record {
  storage = none;
  capacity = 0;
  head = 0;
  tail = 0;
  overflow = 0;
  underflow = 0;
}

-- The two `memcpy` calls of a write of `n` bytes at the counter `head`.
unfoldable pub copy_in : List ℕ → ℕ → ℕ → List ℕ → ℕ → List ℕ
copy_in bytes capacity head input n =
    let write_pos = head % capacity in
    let first_chunk = min_size n (capacity - write_pos) in
    let start = memcpy bytes write_pos input first_chunk in
    if ltb first_chunk n then memcpy start 0 (drop first_chunk input) (n - first_chunk) else start

-- The two `memcpy` calls of a read of `n` bytes at the counter `tail`.
unfoldable pub copy_out : List ℕ → ℕ → ℕ → List ℕ → ℕ → List ℕ
copy_out bytes capacity tail output n =
    let read_pos = tail % capacity in
    let first_chunk = min_size n (capacity - read_pos) in
    let start = memcpy output 0 (drop read_pos bytes) first_chunk in
    if ltb first_chunk n then memcpy start first_chunk bytes (n - first_chunk) else start

-- The part of `write` below its checks, where `buffer->data` is `bytes`.
unfoldable pub write_bytes : List ℕ → Ring → List ℕ → ℕ → ℕ × Ring
write_bytes bytes buffer input len =
    let used = used_snapshot buffer.head buffer.tail buffer.capacity in
    let space = buffer.capacity - used in
    let to_write = min_size len space in
    let stored =
      if ltb 0 to_write
      then record buffer {
        storage = some (copy_in bytes buffer.capacity buffer.head input to_write);
        head = add_size buffer.head to_write;
      }
      else buffer in
    (
      to_write,
      if ltb to_write len
          then record stored { overflow = add_size stored.overflow (len - to_write) }
          else stored,
    )

-- `assistantd_ring_buffer_write`; the pointer `input` may be NULL.
unfoldable pub write : Ring → Option (List ℕ) → ℕ → ℕ × Ring
write buffer none len = (0, buffer)
write buffer (some input) len = elim buffer.storage [
  | none ↦ (0, buffer)
  | some bytes ↦ write_bytes bytes buffer input len
]

-- What a read hands back: the count, the bytes at `output`, and the ring.
pub record Reading : Type 0 where
  pub count : ℕ
  pub output : List ℕ
  pub buffer : Ring

unfoldable pub read_bytes : List ℕ → Ring → List ℕ → ℕ → Reading
read_bytes bytes buffer output len =
    let available = used_snapshot buffer.head buffer.tail buffer.capacity in
    let to_read = min_size len available in
    let taken =
      if ltb 0 to_read then record buffer { tail = add_size buffer.tail to_read } else buffer in
    record {
      count = to_read;
      output =
          if ltb 0 to_read
          then copy_out bytes buffer.capacity buffer.tail output to_read
          else output;
      buffer =
          if ltb to_read len
          then record taken { underflow = add_size taken.underflow (len - to_read) }
          else taken;
    }

-- `assistantd_ring_buffer_read`; the pointer `output` may be NULL.
unfoldable pub read : Ring → Option (List ℕ) → ℕ → Reading
read buffer none len = record { count = 0; output = []; buffer = buffer }
read buffer (some output) len = elim buffer.storage [
  | none ↦ record { count = 0; output = output; buffer = buffer }
  | some bytes ↦ read_bytes bytes buffer output len
]

unfoldable pub available : Ring → ℕ
available buffer = elim buffer.storage [
  | none ↦ 0
  | some _ ↦ used_snapshot buffer.head buffer.tail buffer.capacity
]

unfoldable pub space : Ring → ℕ
space buffer = elim buffer.storage [
  | none ↦ 0
  | some _ ↦
      if ltb buffer.capacity (available buffer) then 0 else buffer.capacity - available buffer
]
