-- ===== src/Ring/Spsc/Tests.antt =====
-- A producer and a consumer on a ring of four bytes.
use shiori.Base.{
  ℕ, ◌+◌, ◌%◌, ◌≡◌, ◌≢◌, refl, some, List, [], ◌∷◌, ◌++◌, arith, memcpy, ◌-◌, length, take, drop,
  min,
}
use shiori.Ring.{Ring, write, read, used_snapshot, copy_in, copy_out}
use shiori.Ring.Bounds.{IsValid}
use shiori.Ring.Contents.{contents}
use shiori.Ring.Spsc.{
  write_called, write_returned, read_called, read_returned, write_step, read_step, Shared,
  producer_steps, consumer_steps, producer_calls, producer_goes, consumer_calls, consumer_goes,
  Steps, here, after, quiet,
}
use shiori.Ring.Spsc.Alone.{write_steps, read_steps, steps_alone}
use shiori.Ring.Spsc.Fifo.{accepted-handed, copies-apart}

-- Empty, with its counters at the last index.
abbrev ring : Ring
ring = record {
  storage = some (9 ∷ 9 ∷ 9 ∷ 9 ∷ []);
  capacity = 4;
  head = 3;
  tail = 3;
  overflow = 0;
  underflow = 0;
}

ring-IsValid : IsValid ring
ring-IsValid = ground arith

abbrev two : List ℕ
two = 7 ∷ 8 ∷ []

-- Two bytes are written, round the end of the storage.
abbrev called : Shared
called = record (quiet ring) { producer = write_called two 2 }

abbrev written : Shared
written =
    producer_steps 3
      (producer_steps 3 (producer_steps 3 (producer_steps 3 (producer_steps 3 called))))

written_steps : Steps (quiet ring) written
unfolding write_step
written_steps =
    after
      (after
        (after
          (after
            (after
              (after here
                (producer_calls {s = quiet ring} 0 two 2 refl (omega arith) (omega arith)))
              (producer_goes 3 (omega arith)))
            (producer_goes 3 (ground arith)))
          (producer_goes 3 (ground arith)))
        (producer_goes 3 (ground arith)))
      (producer_goes 3 (ground arith))

-- The producer is about to copy one byte more, and the consumer both that are there.
abbrev recalled : Shared
recalled = record written { producer = write_called (5 ∷ []) 1 }

abbrev writing : Shared
writing = producer_steps 3 (producer_steps 3 recalled)

abbrev asked : Shared
asked = record writing { consumer = read_called (0 ∷ 0 ∷ 0 ∷ []) 3 }

abbrev meeting : Shared
meeting = consumer_steps 5 (consumer_steps 3 asked)

writing_steps : Steps (quiet ring) writing
unfolding write_step used_snapshot
writing_steps =
    after
      (after
        (after written_steps
          (producer_calls {s = written} 2 (5 ∷ []) 1 refl (omega arith) (ground arith)))
        (producer_goes 3 (ground arith)))
      (producer_goes 3 (ground arith))

meeting_steps : Steps (quiet ring) meeting
unfolding write_step read_step used_snapshot
meeting_steps =
    after
      (after
        (after writing_steps
          (consumer_calls {s = writing} [] 0 (0 ∷ 0 ∷ 0 ∷ []) 3 refl (omega arith)))
        (consumer_goes 3 (ground arith)))
      (consumer_goes 5 (ground arith))

-- The consumer takes what it saw.
abbrev taken : Shared
taken = consumer_steps 0 (consumer_steps 0 meeting)

taken_steps : Steps (quiet ring) taken
taken_steps =
    after (after meeting_steps (consumer_goes 0 (omega arith))) (consumer_goes 0 (omega arith))

handed-taken : (taken.handed ≡ two) × (taken.accepted ≡ two)
unfolding write_step read_step used_snapshot copy_in copy_out memcpy
handed-taken = (refl, refl)

accepted-handed_example :
    (taken.accepted ≡ taken.handed ++ contents taken.ring) × IsValid taken.ring
accepted-handed_example = accepted-handed ring-IsValid refl taken_steps

copies-apart_example : (5 + 0) % 4 ≢ (3 + 1) % 4
unfolding write_step read_step used_snapshot
copies-apart_example =
    copies-apart {r = ring} {s = meeting} (5 ∷ []) (0 ∷ 0 ∷ 0 ∷ []) 1 3 5 3 1 2 0 1 ring-IsValid
      refl meeting_steps refl refl (omega arith) (omega arith)

steps_alone_example :
    let (n, r') = write ring (some two) 2 in
    let out = read r' (some (0 ∷ 0 ∷ 0 ∷ [])) 3 in
    (write_steps 5 ring (write_called two 2) ≡ (r', write_returned n))
    × (read_steps 5 r' (read_called (0 ∷ 0 ∷ 0 ∷ []) 3)
        ≡ (out.buffer, read_returned out.output out.count))
    × (n ≡ min 2 (4 - length (contents ring)))
    × (out.count ≡ min 3 (length (contents ring ++ take n two)))
    × (out.output ≡ take out.count (contents ring ++ take n two) ++ drop out.count (0 ∷ 0 ∷ 0 ∷ []))
steps_alone_example =
    steps_alone ring two (0 ∷ 0 ∷ 0 ∷ []) 2 3 ring-IsValid (omega arith) (omega arith) (omega arith)
