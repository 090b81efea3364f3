-- ===== src/Ring/Spsc/Fifo.antt =====
-- A producer and a consumer that run at the same time lose no byte and reorder none.
use shiori.Base.{
  ℕ, ◌+◌, ◌-◌, ◌%◌, ◌≤◌, ◌<◌, ◌≡◌, ◌≢◌, sym, ap, subst, ◌∙◌, inl, inr, List, [], ◌++◌, append_assoc,
  arith, index_add,
}
use shiori.Ring.{Ring}
use shiori.Ring.Bounds.{IsValid}
use shiori.Ring.Contents.{contents}
use shiori.Ring.Spsc.{
  write_copies, read_copies, read_step, added, handed_out, Shared, producer_steps, consumer_steps,
  Step, producer_calls, producer_goes, consumer_calls, consumer_goes, Steps, here, after, quiet,
}
use shiori.Ring.Spsc.Invariant.{
  Fits, ProducerFits, ConsumerFits, Writes, Reads, ProducerFits-Drained, ConsumerFits-Filled,
}
use shiori.Ring.Spsc.Writing.{write_step-Written}
use shiori.Ring.Spsc.Reading.{read_step-Taken}

producer_steps-Fits :
    (seen : ℕ) (s : Shared) → seen ≤ s.ring.tail → Fits s → Fits (producer_steps seen s)
producer_steps-Fits seen s old f =
    let w = write_step-Written s.ring f.ring seen s.producer old f.producer in
    record {
      ring = w.ring;
      producer = w.fits;
      consumer = ConsumerFits-Filled s.consumer w.filled f.consumer;
      history =
          ap (λ l. l ++ added s.producer) f.history
          ∙ (append_assoc s.handed (contents s.ring) (added s.producer)
              ∙ ap (λ l. s.handed ++ l) (sym w.contains));
    }

consumer_steps-Fits :
    (seen : ℕ) (s : Shared) → seen ≤ s.ring.head → Fits s → Fits (consumer_steps seen s)
consumer_steps-Fits seen s old f =
    let t = read_step-Taken s.ring f.ring seen s.consumer old f.consumer in
    record {
      ring = t.ring;
      producer = ProducerFits-Drained s.producer t.drained f.producer;
      consumer = t.fits;
      history =
          f.history
          ∙ (ap (λ l. s.handed ++ l) t.contains
              ∙ sym (
                  append_assoc s.handed (handed_out s.consumer)
                    (contents (read_step s.ring seen s.consumer).0)));
    }

pub Step-Fits : {s t : Shared} → Step s t → Fits s → Fits t
Step-Fits {s} (producer_calls last input len idle given counted) f = record {
  ring = f.ring;
  producer = (given, counted);
  consumer = f.consumer;
  history = f.history;
}
Step-Fits {s} (producer_goes seen old) f = producer_steps-Fits seen s old f
Step-Fits {s} (consumer_calls last n output len idle room) f = record {
  ring = f.ring;
  producer = f.producer;
  consumer = room;
  history = f.history;
}
Step-Fits {s} (consumer_goes seen old) f = consumer_steps-Fits seen s old f

pub Steps-Fits : {s t : Shared} → Steps s t → Fits s → Fits t
Steps-Fits here f = f
Steps-Fits (after first step) f = Step-Fits step (Steps-Fits first f)

pub quiet-Fits : (r : Ring) → IsValid r → contents r ≡ [] → Fits (quiet r)
quiet-Fits r v empty = record { ring = v; producer = tt; consumer = tt; history = sym empty }

-- A ring that begins empty and that one producer and one consumer use at the same time, their calls
-- taking steps in any order and seeing the other's counter as it is or as it was: all the bytes that
-- writes have taken are, in order, those that reads have handed out followed by those in the ring, and
-- the ring is valid; given that `head` does not pass 2 ^ 64.
pub accepted-handed :
    {r : Ring} {s : Shared}
    → IsValid r
    → contents r ≡ []
    → Steps (quiet r) s
    → (s.accepted ≡ s.handed ++ contents s.ring) × IsValid s.ring
accepted-handed {r} v empty steps =
    let f = Steps-Fits steps (quiet-Fits r v empty) in (f.history, f.ring)

-- The indices that the two copy at, when both are about to.
apart :
    (r : Ring) (input output : List ℕ) (head tail n m i j : ℕ)
    → IsValid r
    → Writes r input head n
    → Reads r output tail m
    → i < n
    → j < m
    → (head + i) % r.capacity ≢ (tail + j) % r.capacity
apart r input output head tail n m i j v w d below below' e =
    elim (index_add (tail + j) (head + i - (tail + j)) r.capacity (omega (arith, w, d, v))) [
      | inl (at, f) ↦ omega (arith, w, d, e, f, ahead)
      | inr (at, f) ↦ omega (arith, w, d, v, e, f, ahead)
    ]
  where
    ahead : (tail + j + (head + i - (tail + j))) % r.capacity ≡ (head + i) % r.capacity
    ahead = ap (λ c. c % r.capacity) (omega (arith, w, d))

-- Between a producer and a consumer that run at the same time there is no race for a byte: where both
-- are about to copy, no index that the write stores to is one that the read loads from; given that the
-- ring began empty and that `head` does not pass 2 ^ 64.
pub copies-apart :
    {r : Ring} {s : Shared} (input output : List ℕ) (len wanted head tail n m i j : ℕ)
    → IsValid r
    → contents r ≡ []
    → Steps (quiet r) s
    → s.producer ≡ write_copies input len head n
    → s.consumer ≡ read_copies output wanted tail m
    → i < n
    → j < m
    → (head + i) % s.ring.capacity ≢ (tail + j) % s.ring.capacity
copies-apart {r} {s} input output len wanted head tail n m i j v empty steps p c below below' =
    let f = Steps-Fits steps (quiet-Fits r v empty) in
    apart s.ring input output head tail n m i j f.ring (subst (ProducerFits s.ring) p f.producer)
      (subst (ConsumerFits s.ring) c f.consumer) below below'
