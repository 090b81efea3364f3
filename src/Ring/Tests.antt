-- ===== src/Ring/Tests.antt =====
-- Runs of ring_buffer.c, and its theorems at concrete inputs.
use shiori.Base.{
  ℕ, ◌+◌, ◌-◌, ◌^◌, ◌<◌, ◌≡◌, refl, some, List, [], ◌∷◌, ◌++◌, arith, length, take, drop, min,
  add_size, memcpy, window, bytes_of,
}
use shiori.Ring.{
  Ring, write, read, available, write_bytes, read_bytes, copy_in, copy_out, used_snapshot,
}
use shiori.Ring.Bounds.{IsValid}
use shiori.Ring.Contents.{contents}
use shiori.Ring.Write.{write_lem}
use shiori.Ring.Read.{read_lem}
use shiori.Ring.Wrap.{available-write_wrapped}

-- Three bytes, the last of them round the end of the storage.
abbrev wrapped : Ring
wrapped = record {
  storage = some (3 ∷ 0 ∷ 1 ∷ 2 ∷ []);
  capacity = 4;
  head = 5;
  tail = 2;
  overflow = 0;
  underflow = 0;
}

abbrev input : List ℕ
input = 7 ∷ 8 ∷ []

abbrev output : List ℕ
output = 0 ∷ 0 ∷ 0 ∷ 0 ∷ 0 ∷ []

-- A ring at the end of its counters.
abbrev late : Ring
late = record wrapped { head = 2 ^ 64 - 1; tail = 2 ^ 64 - 2 }

wrapped-IsValid : IsValid wrapped
wrapped-IsValid = ground arith

late-IsValid : IsValid late
late-IsValid = ground arith

contents-wrapped : contents wrapped ≡ 1 ∷ 2 ∷ 3 ∷ []
contents-wrapped = refl

write_drops :
    (write wrapped (some input) 2).1
    ≡ record wrapped { storage = some (3 ∷ 7 ∷ 1 ∷ 2 ∷ []); head = 6; overflow = 1 }
unfolding write write_bytes copy_in used_snapshot memcpy
write_drops = refl

read_across : (read wrapped (some output) 3).output ≡ 1 ∷ 2 ∷ 3 ∷ 0 ∷ 0 ∷ []
unfolding read read_bytes copy_out used_snapshot memcpy
read_across = refl

write_lem_example :
    let (n, r') = write wrapped (some input) 2 in
    (n ≡ min 2 (4 - length (contents wrapped)))
    × (contents r' ≡ contents wrapped ++ take n input)
    × (r'.overflow ≡ add_size 0 (2 - n))
    × (r'.underflow ≡ 0)
    × (r'.capacity ≡ 4)
    × (r'.head ≡ 5 + n)
    × IsValid r'
write_lem_example = write_lem wrapped input 2 wrapped-IsValid (omega arith) (omega arith)

read_lem_example :
    let out = read wrapped (some output) 5 in
    (out.count ≡ min 5 (length (contents wrapped)))
    × (out.output ≡ take out.count (contents wrapped) ++ drop out.count output)
    × (contents out.buffer ≡ drop out.count (contents wrapped))
    × (out.buffer.underflow ≡ add_size 0 (5 - out.count))
    × (out.buffer.overflow ≡ 0)
    × (out.buffer.capacity ≡ 4)
    × (out.buffer.head ≡ 5)
    × IsValid out.buffer
read_lem_example = read_lem wrapped output 5 wrapped-IsValid (omega arith)

available-write_wrapped_example :
    let (n, r') = write late (some input) 2 in
    (n ≡ 2)
    × (0 < n)
    × (take 2 input ≡ window 0 (bytes_of r'.storage) r'.capacity late.head 2)
    × (available r' ≡ 0)
available-write_wrapped_example =
    available-write_wrapped late input 2 late-IsValid (omega arith) (omega arith) (omega arith)
      (omega arith)
