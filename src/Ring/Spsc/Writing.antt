-- ===== src/Ring/Spsc/Writing.antt =====
-- A step of the producer on a ring that a consumer reads at the same time.
use shiori.Base.{
  ℕ, ◌+◌, ◌-◌, ◌≤◌, ◌<◌, ◌≡◌, refl, sym, ap, ◌∙◌, List, [], ◌++◌, some, append-nil, arith, length,
  take, ltb, if_both, if◌then◌else◌, ltb→lt, size_mod, bytes_of, add_size,
}
use shiori.Ring.{Ring, copy_in, min_size, used_snapshot}
use shiori.Ring.Bounds.{IsValid}
use shiori.Ring.Copy.{length-copy_in}
use shiori.Ring.Contents.{contents}
use shiori.Ring.Spsc.{
  Producer, write_called, write_loaded, write_copies, write_stores, write_counts, write_returned,
  write_step, added,
}
use shiori.Ring.Spsc.Windows.{window-add, window-copy_in, window-copy_in_old}
use shiori.Ring.Spsc.Invariant.{ProducerFits, Filled, Writes, held}

-- What the producer's step from `p` leaves.
pub record Written (r : Ring) (p : Producer) (next : Ring × Producer) : Type 0 where
  pub ring : IsValid next.0
  pub fits : ProducerFits next.0 next.1
  pub filled : Filled r next.0
  pub contains : contents next.0 ≡ contents r ++ added p

module _ (r : Ring) (v : IsValid r) where
  Filled-refl : Filled r r
  Filled-refl = record { tail = refl; head = omega arith; kept = λ m h. refl }

  same : {p p' : Producer} → added p ≡ [] → ProducerFits r p' → Written r p (r, p')
  same e f = record {
    ring = v;
    fits = f;
    filled = Filled-refl;
    contains = sym (append-nil (contents r)) ∙ ap (λ l. contents r ++ l) (sym e);
  }

  -- The number of bytes that a write takes fits, also where the tail it saw is an old one.
  Writes-loaded :
      (seen : ℕ) (input : List ℕ) (len head : ℕ)
      → seen ≤ r.tail
      → len ≤ length input
      → r.head + len < size_mod
      → head ≡ r.head
      → Writes r input head (min_size len (r.capacity - used_snapshot head seen r.capacity))
  unfolding used_snapshot
  Writes-loaded seen input len head old given counted current = ground (arith, v)

  module _ (input : List ℕ) (len head n : ℕ) (f : Writes r input head n) (some_byte : 0 < n) where
    abbrev bytes : List ℕ
    bytes = bytes_of r.storage

    abbrev stored : Ring
    stored = record r { storage = some (copy_in bytes r.capacity head input n) }

    n-le : n ≤ r.capacity
    n-le = omega (arith, f, v)

    kept : (m : ℕ) → r.tail + m ≤ r.head → held stored r.tail m ≡ held r r.tail m
    kept m h =
        window-copy_in_old bytes r.capacity v.sized v.positive head input n r.tail m f.given
          some_byte f.space (omega (arith, f.current))

    copied : Written r (write_copies input len head n) (stored, write_stores input len head n)
    copied = record {
      ring =
          ground (
            arith,
            v,
            length-copy_in bytes r.capacity head input n v.sized v.positive f.given n-le,
          );
      fits = (
        record { given = f.given; current = f.current; counted = f.counted; space = f.space },
        window-copy_in bytes r.capacity v.sized v.positive head input n f.given n-le,
      );
      filled = record { tail = refl; head = omega arith; kept = kept };
      contains = kept (r.head - r.tail) (omega (arith, v)) ∙ sym (append-nil (contents r));
    }

  module _ (input : List ℕ) (len head n : ℕ) (f : Writes r input head n)
      (same_bytes : take n input ≡ held r head n) where
    abbrev published : Ring
    published = record r { head = add_size head n }

    head-published : published.head ≡ r.head + n
    head-published = ground (arith, f)

    contents-published : contents published ≡ contents r ++ take n input
    contents-published =
        let long : published.head - r.tail ≡ r.head - r.tail + n =
          omega (arith, head-published, v) in
        let begins : r.tail + (r.head - r.tail) ≡ head = omega (arith, f.current, v) in
        ap (λ k. held r r.tail k) long
        ∙ (window-add (bytes_of r.storage) r.capacity r.tail (r.head - r.tail) n
            ∙ ap (λ l. contents r ++ l) (ap (λ c. held r c n) begins ∙ sym same_bytes))

    stores : Written r (write_stores input len head n) (published, write_counts len n)
    stores = record {
      ring = ground (arith, head-published, v, f);
      fits = tt;
      filled = record { tail = refl; head = omega (arith, head-published); kept = λ m h. refl };
      contains = contents-published;
    }

  counts :
      (len n : ℕ)
      → Written r (write_counts len n) (
        if ltb n len then record r { overflow = add_size r.overflow (len - n) } else r,
        write_returned n,
      )
  counts len n =
      if_both (λ r'. Written r (write_counts len n) (r', write_returned n)) (ltb n len)
        (record r { overflow = add_size r.overflow (len - n) }) r
        (λ _. record {
          ring = ground (arith, v);
          fits = tt;
          filled = record { tail = refl; head = omega arith; kept = λ m h. refl };
          contains = sym (append-nil (contents r));
        })
        (λ _. same refl tt)

  pub write_step-Written :
      (seen : ℕ) (p : Producer)
      → seen ≤ r.tail
      → ProducerFits r p
      → Written r p (write_step r seen p)
  unfolding write_step
  write_step-Written seen (write_called input len) old f = same refl (f.0, f.1, refl)
  write_step-Written seen (write_loaded input len head) old (given, counted, current) =
      same refl (Writes-loaded seen input len head old given counted current)
  write_step-Written seen (write_copies input len head n) old f =
      if_both (Written r (write_copies input len head n)) (ltb 0 n) _ _
        (λ e. copied input len head n f (ltb→lt 0 n e)) (λ _. same refl tt)
  write_step-Written seen (write_stores input len head n) old (f, e) = stores input len head n f e
  write_step-Written seen (write_counts len n) old f = counts len n
  write_step-Written seen (write_returned n) old f = same refl tt
