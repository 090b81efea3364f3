-- ===== src/Queue/Invariant.antt =====
-- The representation invariant of the queues of artifact_queue.c.
use native.Mathlib.Nat.{add-zero, add_assoc, mod-add-mod, mod-eq_of_lt, mod-eq-sub-mod}
use shiori.Base.{
  zero, replicate, refl, dec_lt, index_lt, true, false, le→leb, lt→leb, ne→eqb, ℕ, ◌+◌, ◌-◌, ◌%◌,
  ◌≤◌, ◌<◌, ◌≡◌, Option, none, some, arith, length, get_or, set, size_mod, length-set,
  length-replicate, get_or-set_at, get_or-set_elsewhere, ap, suc, ◌∙◌, sym,
}
use shiori.Queue.{Queue, init, enqueue, dequeue}

-- The free slots, of which there are `capacity - size`, hold the item of zero bytes.
pub record IsValid {ℓ} {A : Type ℓ} (capacity : ℕ) (zero_item : A) (q : Queue A) : Type ℓ where
  pub sized : length q.items ≡ capacity
  pub small : capacity < size_mod
  pub head_in : q.head < capacity
  pub tail_at : q.tail ≡ (q.head + q.size) % capacity
  pub fits : q.size ≤ capacity
  pub clean :
      (i : ℕ)
      → i < capacity - q.size
      → get_or q.items ((q.head + q.size + i) % capacity) zero_item ≡ zero_item

get_or-replicate {ℓ} : {A : Type ℓ} (n i : ℕ) (a : A) → get_or (replicate n a) i a ≡ a
get_or-replicate zero i a = refl
get_or-replicate (suc n) zero a = refl
get_or-replicate (suc n) (suc i) a = get_or-replicate n i a

no_wrap : (n : ℕ) → n + 1 < size_mod → (n + 1) % size_mod ≡ n + 1
no_wrap n h = mod-eq_of_lt h

after_head : (head size i : ℕ) → 0 < size → head + 1 + (size - 1 + i) ≡ head + (size + i)
after_head head size i h = omega arith

module _ {ℓ} {A : Type ℓ} (capacity : ℕ) (zero_item : A) where
  -- The initial queue is valid.
  pub init-IsValid :
      0 < capacity → capacity < size_mod → IsValid capacity zero_item (init capacity zero_item)
  unfolding init
  init-IsValid positive small = record {
    sized = length-replicate capacity zero_item;
    small = small;
    head_in = positive;
    tail_at = ground arith;
    fits = omega arith;
    clean = λ i h. get_or-replicate capacity ((0 + 0 + i) % capacity) zero_item;
  }

  pub enqueue_full :
      (q : Queue A) (item : A)
      → capacity ≤ q.size
      → enqueue capacity zero_item q (some item) ≡ (false, q)
  unfolding enqueue
  enqueue_full q item h = rw (le→leb capacity q.size h)

  pub dequeue-none : (q : Queue A) → q.size ≡ 0 → dequeue capacity zero_item q ≡ (none, q)
  unfolding dequeue
  dequeue-none q h = ground arith

  -- A call that succeeds, with its arithmetic done.
  pub enqueue_room :
      (q : Queue A) (item : A)
      → IsValid capacity zero_item q
      → q.size < capacity
      → enqueue capacity zero_item q (some item) ≡ (
        true,
        record {
          items = set q.items ((q.head + q.size) % capacity) item;
          head = q.head;
          tail = (q.head + (q.size + 1)) % capacity;
          size = q.size + 1;
        },
      )
  unfolding enqueue
  enqueue_room q item v h = rw (
    lt→leb capacity q.size h,
    no_wrap q.size (omega (arith, v.small)),
    v.tail_at,
    no_wrap ((q.head + q.size) % capacity)
        (omega (arith, v.small, index_lt (q.head + q.size) capacity)),
    mod-add-mod (q.head + q.size) capacity 1,
    add_assoc q.head q.size 1,
  )

  pub dequeue-some :
      (q : Queue A)
      → IsValid capacity zero_item q
      → 0 < q.size
      → dequeue capacity zero_item q ≡ (
        some (get_or q.items (q.head % capacity) zero_item),
        record {
          items = set q.items ((q.head + 0) % capacity) zero_item;
          head = (q.head + 1) % capacity;
          tail = q.tail;
          size = q.size - 1;
        },
      )
  unfolding dequeue
  dequeue-some q v h = rw (
    ne→eqb q.size 0 (omega arith),
    no_wrap q.head (omega (arith, v.small, v.head_in)),
    add-zero q.head,
    mod-eq_of_lt v.head_in,
  )

  -- The free slots by their distance from the head.
  slot :
      {q : Queue A}
      → IsValid capacity zero_item q
      → (k : ℕ) → q.size ≤ k
      → k < capacity
      → get_or q.items ((q.head + k) % capacity) zero_item ≡ zero_item
  slot {q} v k le lt =
      let e : q.head + k ≡ q.head + q.size + (k - q.size) = omega arith in
      rw e (v.clean (k - q.size) (omega arith))

  -- After the slot at the head is cleared, every slot past the items is clean, round to the head.
  cleared :
      {q : Queue A}
      → IsValid capacity zero_item q
      → (k : ℕ) → 0 < q.size
      → q.size ≤ k
      → k ≤ capacity
      → get_or (set q.items ((q.head + 0) % capacity) zero_item) ((q.head + k) % capacity) zero_item
        ≡ zero_item
  cleared {q} v k some_item le top = elim (dec_lt k capacity) [
    | yes lt ↦
        get_or-set_elsewhere q.items capacity q.head zero_item zero_item v.sized 0 k (omega arith)
          lt (omega arith)
        ∙ slot v k le lt
    | no round ↦
        ap (λ j. get_or (set q.items ((q.head + 0) % capacity) zero_item) j zero_item)
          (round_trip q.head k (omega arith))
        ∙ get_or-set_at q.items capacity q.head zero_item zero_item v.sized 0 (omega arith)
  ]
    where
      round_trip : (h k : ℕ) → k ≡ capacity → (h + k) % capacity ≡ (h + 0) % capacity
      round_trip h k e =
          mod-eq-sub-mod {n = h + k} {m = capacity} (omega arith)
          ∙ ap (λ j. j % capacity) (omega arith)

  -- An `enqueue`, successful or not, keeps the invariant.
  pub enqueue-IsValid :
      (q : Queue A) (item : Option A)
      → IsValid capacity zero_item q
      → IsValid capacity zero_item (enqueue capacity zero_item q item).1
  enqueue-IsValid q none v = unfold enqueue in v
  enqueue-IsValid q (some item) v = elim (dec_lt q.size capacity) [
    | yes room ↦ rw (enqueue_room q item v room) (record {
      sized = length-set q.items ((q.head + q.size) % capacity) item ∙ v.sized;
      small = v.small;
      head_in = v.head_in;
      tail_at = refl;
      fits = omega arith;
      clean = λ i h. rw (add_assoc q.head (q.size + 1) i) (
          get_or-set_elsewhere q.items capacity q.head item zero_item v.sized q.size
            (q.size + 1 + i) room (omega arith) (omega arith)
          ∙ slot v (q.size + 1 + i) (omega arith) (omega arith));
    })
    | no full ↦ rw (enqueue_full q item (omega arith)) v
  ]

  -- A `dequeue`, successful or not, keeps the invariant.
  pub dequeue-IsValid :
      (q : Queue A)
      → IsValid capacity zero_item q
      → IsValid capacity zero_item (dequeue capacity zero_item q).1
  dequeue-IsValid q v = elim (dec_lt 0 q.size) [
    | yes some_item ↦ rw (dequeue-some q v some_item) (record {
      sized = length-set q.items ((q.head + 0) % capacity) zero_item ∙ v.sized;
      small = v.small;
      head_in = index_lt (q.head + 1) capacity (omega (arith, v.head_in));
      tail_at =
          v.tail_at
          ∙ (ap (λ k. k % capacity) (omega arith)
              ∙ sym (mod-add-mod (q.head + 1) capacity (q.size - 1)));
      fits = omega (arith, v.fits);
      clean = λ i h.
          rw
            (
              add_assoc ((q.head + 1) % capacity) (q.size - 1) i,
              mod-add-mod (q.head + 1) capacity (q.size - 1 + i),
              after_head q.head q.size i some_item,
            )
            (cleared v (q.size + i) some_item (omega arith) (omega arith));
    })
    | no empty ↦ rw (dequeue-none q (omega arith)) v
  ]
