-- ===== src/Ring/Spsc/Reading.antt =====
-- A step of the consumer on a ring that a producer writes at the same time.
use shiori.Base.{
  ℕ, ◌+◌, ◌-◌, ◌≤◌, ◌≡◌, refl, sym, ap, ◌∙◌, List, [], ◌++◌, arith, length, take, ltb, if_both,
  if◌then◌else◌, bytes_of, add_size,
}
use shiori.Ring.{Ring, copy_out, min_size, used_snapshot}
use shiori.Ring.Bounds.{IsValid}
use shiori.Ring.Copy.{length-copy_out}
use shiori.Ring.Contents.{contents}
use shiori.Ring.Spsc.{
  Consumer, read_called, read_loaded, read_copies, read_stores, read_counts, read_returned,
  read_step, handed_out,
}
use shiori.Ring.Spsc.Windows.{window-add, window-copy_out}
use shiori.Ring.Spsc.Invariant.{ConsumerFits, Drained, Reads, held}

-- What the consumer's step from `c` leaves.
pub record Taken (r : Ring) (c : Consumer) (next : Ring × Consumer) : Type 0 where
  pub ring : IsValid next.0
  pub fits : ConsumerFits next.0 next.1
  pub drained : Drained r next.0
  pub contains : contents r ≡ handed_out c ++ contents next.0

module _ (r : Ring) (v : IsValid r) where
  abbrev Drained-refl : Drained r r
  Drained-refl = record { storage = refl; capacity = refl; head = refl; tail = omega arith }

  same : {c c' : Consumer} → handed_out c ≡ [] → ConsumerFits r c' → Taken r c (r, c')
  same e f = record {
    ring = v;
    fits = f;
    drained = Drained-refl;
    contains = ap (λ l. l ++ contents r) (sym e);
  }

  -- The number of bytes that a read takes is there, also where the head it saw is an old one.
  Reads-loaded :
      (seen : ℕ) (output : List ℕ) (len tail : ℕ)
      → seen ≤ r.head
      → len ≤ length output
      → tail ≡ r.tail
      → Reads r output tail (min_size len (used_snapshot seen tail r.capacity))
  unfolding used_snapshot
  Reads-loaded seen output len tail old room current = ground (arith, v)

  module _ (output : List ℕ) (len tail n : ℕ) (f : Reads r output tail n) where
    abbrev copy : List ℕ
    copy = copy_out (bytes_of r.storage) r.capacity tail output n

    n-le : n ≤ r.capacity
    n-le = omega (arith, f, v)

    copied : Taken r (read_copies output len tail n) (r, read_stores copy len tail n)
    copied = same refl (
      record {
        room = omega (
          arith,
          f,
          length-copy_out (bytes_of r.storage) r.capacity tail output n v.sized v.positive f.room
              n-le,
        );
        current = f.current;
        there = f.there;
      },
      window-copy_out (bytes_of r.storage) r.capacity v.sized v.positive tail output n f.room n-le,
    )

    abbrev released : Ring
    released = record r { tail = add_size tail n }

    tail-released : released.tail ≡ r.tail + n
    tail-released = ground (arith, f, v)

    contents-released :
        take n output ≡ held r tail n → contents r ≡ take n output ++ contents released
    contents-released same_bytes =
        let parts : r.head - r.tail ≡ n + (r.head - released.tail) =
          omega (arith, tail-released, f) in
        ap (λ k. held r r.tail k) parts
        ∙ (window-add (bytes_of r.storage) r.capacity r.tail n (r.head - released.tail)
            ∙ (ap (λ l. l ++ held r (r.tail + n) (r.head - released.tail))
                  (ap (λ t. held r t n) (sym f.current) ∙ sym same_bytes)
                ∙ ap (λ t. take n output ++ held r t (r.head - released.tail)) (sym tail-released)))

    stores :
        take n output ≡ held r tail n
        → Taken r (read_stores output len tail n) (released, read_counts output len n)
    stores same_bytes = record {
      ring = ground (arith, tail-released, v, f);
      fits = tt;
      drained = record {
        storage = refl;
        capacity = refl;
        head = refl;
        tail = omega (arith, tail-released);
      };
      contains = contents-released same_bytes;
    }

  counts :
      (output : List ℕ) (len n : ℕ)
      → Taken r (read_counts output len n) (
        if ltb n len then record r { underflow = add_size r.underflow (len - n) } else r,
        read_returned output n,
      )
  counts output len n =
      if_both (λ r'. Taken r (read_counts output len n) (r', read_returned output n)) (ltb n len)
        (record r { underflow = add_size r.underflow (len - n) }) r
        (λ _. record {
          ring = ground (arith, v);
          fits = tt;
          drained = record { storage = refl; capacity = refl; head = refl; tail = omega arith };
          contains = refl;
        })
        (λ _. same refl tt)

  pub read_step-Taken :
      (seen : ℕ) (c : Consumer) → seen ≤ r.head → ConsumerFits r c → Taken r c (read_step r seen c)
  unfolding read_step
  read_step-Taken seen (read_called output len) old f = same refl (f, refl)
  read_step-Taken seen (read_loaded output len tail) old (room, current) =
      same refl (Reads-loaded seen output len tail old room current)
  read_step-Taken seen (read_copies output len tail n) old f =
      if_both (Taken r (read_copies output len tail n)) (ltb 0 n) _ _
        (λ e. copied output len tail n f) (λ _. same refl tt)
  read_step-Taken seen (read_stores output len tail n) old (f, e) = stores output len tail n f e
  read_step-Taken seen (read_counts output len n) old f = counts output len n
  read_step-Taken seen (read_returned output n) old f = same refl tt
