-- ===== src/Ring/Spsc/Alone.antt =====
-- A call of ring_buffer.c that nothing interrupts.
use shiori.Base.{
  ℕ, zero, suc, ◌+◌, ◌-◌, ◌≤◌, ◌<◌, ◌≡◌, ap, ◌∙◌, List, ◌++◌, some, bytes_of, arith, length, take,
  drop, min, size_mod,
}
use shiori.Ring.{Ring, write, write_bytes, read, read_bytes}
use shiori.Ring.Bounds.{IsValid}
use shiori.Ring.Contents.{contents}
use shiori.Ring.Write.{write_lem}
use shiori.Ring.Read.{read_lem}
use shiori.Ring.Spsc.{
  Producer, Consumer, write_called, write_returned, read_called, read_returned, write_step,
  read_step,
}

-- So many steps of one call; the loads give what the counter is.
abbrev pub write_steps : ℕ → Ring → Producer → Ring × Producer
write_steps zero r p = (r, p)
write_steps (suc n) r p = let (r', p') = write_step r r.tail p in write_steps n r' p'

abbrev pub read_steps : ℕ → Ring → Consumer → Ring × Consumer
read_steps zero r c = (r, c)
read_steps (suc n) r c = let (r', c') = read_step r r.head c in read_steps n r' c'

pub write_steps-write :
    (r : Ring) (bytes input : List ℕ) (len : ℕ)
    → r.storage ≡ some bytes
    → let (n, r') = write r (some input) len in
      write_steps 5 r (write_called input len) ≡ (r', write_returned n)
unfolding write write_bytes write_step
write_steps-write r bytes input len e = ground arith

pub read_steps-read :
    (r : Ring) (bytes output : List ℕ) (len : ℕ)
    → r.storage ≡ some bytes
    → let out = read r (some output) len in
      read_steps 5 r (read_called output len) ≡ (out.buffer, read_returned out.output out.count)
unfolding read read_bytes read_step
read_steps-read r bytes output len e = ground arith

-- On a valid ring, a call of `write` and then a call of `read`, neither of them interrupted, are done
-- after five steps each, with the ring, the count and the memory that the functions as a whole give:
-- the write returns min(len, free space), the read min(wanted, what is there), and what the read puts
-- into the caller's memory is, in order, the bytes the ring held followed by those just written; given
-- that `head` stays below 2 ^ 64.
pub steps_alone :
    (r : Ring) (input output : List ℕ) (len wanted : ℕ)
    → IsValid r
    → len ≤ length input
    → r.head + len < size_mod
    → wanted ≤ length output
    → let (n, r') = write r (some input) len in
      let out = read r' (some output) wanted in
      (write_steps 5 r (write_called input len) ≡ (r', write_returned n))
      × (read_steps 5 r' (read_called output wanted)
          ≡ (out.buffer, read_returned out.output out.count))
      × (n ≡ min len (r.capacity - length (contents r)))
      × (out.count ≡ min wanted (length (contents r ++ take n input)))
      × (out.output ≡ take out.count (contents r ++ take n input) ++ drop out.count output)
steps_alone r input output len wanted v given room space =
    let (n, r') = write r (some input) len in
    let wrote = write_lem r input len v given room in
    let valid = wrote.6 in
    let took = read_lem r' output wanted valid space in
    let out = read r' (some output) wanted in
    (
      write_steps-write r (bytes_of r.storage) input len v.stored,
      read_steps-read r' (bytes_of r'.storage) output wanted valid.stored,
      wrote.0,
      took.0 ∙ ap (λ l. min wanted (length l)) wrote.1,
      took.1 ∙ ap (λ l. take out.count l ++ drop out.count output) wrote.1,
    )
