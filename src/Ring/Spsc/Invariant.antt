-- ===== src/Ring/Spsc/Invariant.antt =====
-- What holds between the steps of a producer and a consumer on one ring.
use shiori.Base.{
  ℕ, ◌+◌, ◌≤◌, ◌<◌, ◌≡◌, sym, ap, ap₂, ◌∙◌, List, ◌++◌, arith, length, take, size_mod, bytes_of,
  window,
}
use shiori.Ring.{Ring}
use shiori.Ring.Bounds.{IsValid}
use shiori.Ring.Contents.{contents}
use shiori.Ring.Spsc.{
  Producer, Consumer, write_called, write_loaded, write_copies, write_stores, write_counts,
  write_returned, read_called, read_loaded, read_copies, read_stores, read_counts, read_returned,
  Shared,
}

abbrev pub held : Ring → ℕ → ℕ → List ℕ
held r c n = window 0 (bytes_of r.storage) r.capacity c n

-- The memory and the space that a write is to use.
pub record Writes (r : Ring) (input : List ℕ) (head n : ℕ) : Type 0 where
  pub given : n ≤ length input
  pub current : head ≡ r.head
  pub counted : head + n < size_mod
  pub space : head + n ≤ r.tail + r.capacity

abbrev pub ProducerFits : Ring → Producer → Type 0
ProducerFits r (write_called input len) = (len ≤ length input) × (r.head + len < size_mod)
ProducerFits r (write_loaded input len head) =
    (len ≤ length input) × (r.head + len < size_mod) × (head ≡ r.head)
ProducerFits r (write_copies input len head n) = Writes r input head n
ProducerFits r (write_stores input len head n) =
    Writes r input head n × (take n input ≡ held r head n)
ProducerFits r (write_counts len n) = Unit
ProducerFits r (write_returned n) = Unit

-- The memory and the bytes that a read is to use.
pub record Reads (r : Ring) (output : List ℕ) (tail n : ℕ) : Type 0 where
  pub room : n ≤ length output
  pub current : tail ≡ r.tail
  pub there : tail + n ≤ r.head

abbrev pub ConsumerFits : Ring → Consumer → Type 0
ConsumerFits r (read_called output len) = len ≤ length output
ConsumerFits r (read_loaded output len tail) = (len ≤ length output) × (tail ≡ r.tail)
ConsumerFits r (read_copies output len tail n) = Reads r output tail n
ConsumerFits r (read_stores output len tail n) =
    Reads r output tail n × (take n output ≡ held r tail n)
ConsumerFits r (read_counts output len n) = Unit
ConsumerFits r (read_returned output n) = Unit

pub record Fits (s : Shared) : Type 0 where
  pub ring : IsValid s.ring
  pub producer : ProducerFits s.ring s.producer
  pub consumer : ConsumerFits s.ring s.consumer
  pub history : s.accepted ≡ s.handed ++ contents s.ring

-- A read in between leaves a write its space.
pub record Drained (r r' : Ring) : Type 0 where
  pub storage : r'.storage ≡ r.storage
  pub capacity : r'.capacity ≡ r.capacity
  pub head : r'.head ≡ r.head
  pub tail : r.tail ≤ r'.tail

held-Drained : {r r' : Ring} → Drained r r' → (c n : ℕ) → held r' c n ≡ held r c n
held-Drained d c n = ap₂ (λ s k. window 0 (bytes_of s) k c n) d.storage d.capacity

Writes-Drained :
    {r r' : Ring} {input : List ℕ} {head n : ℕ}
    → Drained r r'
    → Writes r input head n
    → Writes r' input head n
Writes-Drained d w = ground arith

pub ProducerFits-Drained :
    {r r' : Ring} (p : Producer) → Drained r r' → ProducerFits r p → ProducerFits r' p
ProducerFits-Drained (write_called input len) d f = ground arith
ProducerFits-Drained (write_loaded input len head) d f = ground arith
ProducerFits-Drained (write_copies input len head n) d f = Writes-Drained d f
ProducerFits-Drained (write_stores input len head n) d f =
    (Writes-Drained d f.0, f.1 ∙ sym (held-Drained d head n))
ProducerFits-Drained (write_counts len n) d f = f
ProducerFits-Drained (write_returned n) d f = f

-- A write in between leaves a read its bytes.
pub record Filled (r r' : Ring) : Type 0 where
  pub tail : r'.tail ≡ r.tail
  pub head : r.head ≤ r'.head
  pub kept : (m : ℕ) → r.tail + m ≤ r.head → held r' r.tail m ≡ held r r.tail m

Reads-Filled :
    {r r' : Ring} {output : List ℕ} {tail n : ℕ}
    → Filled r r'
    → Reads r output tail n
    → Reads r' output tail n
Reads-Filled d w = record {
  room = w.room;
  current = w.current ∙ sym d.tail;
  there = omega (arith, w.there, d.head);
}

pub ConsumerFits-Filled :
    {r r' : Ring} (c : Consumer) → Filled r r' → ConsumerFits r c → ConsumerFits r' c
ConsumerFits-Filled (read_called output len) d f = f
ConsumerFits-Filled (read_loaded output len tail) d f = (f.0, f.1 ∙ sym d.tail)
ConsumerFits-Filled {r} {r'} (read_copies output len tail n) d f = Reads-Filled d f
ConsumerFits-Filled {r} {r'} (read_stores output len tail n) d (reads, e) = (
  Reads-Filled d reads,
  e
      ∙ (ap (λ t. held r t n) reads.current
          ∙ (sym (d.kept n (omega (arith, reads.there, reads.current)))
              ∙ ap (λ t. held r' t n) (sym reads.current))),
)
ConsumerFits-Filled (read_counts output len n) d f = f
ConsumerFits-Filled (read_returned output n) d f = f
