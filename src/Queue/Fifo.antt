-- ===== src/Queue/Fifo.antt =====
-- A valid queue of artifact_queue.c is a FIFO of at most `capacity` items.
use native.Mathlib.Numerals.{add-one}
use shiori.Base.{
  ℕ, suc, ◌+◌, ◌-◌, ◌%◌, ◌<◌, ◌≡◌, refl, ap, ap₂, ◌∙◌, Bool, true, false, Option, none, some, List,
  [], ◌∷◌, ◌++◌, arith, length, get_or, set, window, length-window, window-suc, window_ext,
  window-mod, window_of_pos, get_or-set_at, get_or-set_elsewhere, dec_lt, leb, le→leb, lt→leb,
  if◌then◌else◌,
}
use shiori.Queue.{Queue, enqueue, dequeue}
use shiori.Queue.Invariant.{
  IsValid, enqueue_full, enqueue_room, dequeue-none, dequeue-some, enqueue-IsValid, dequeue-IsValid,
}

-- The FIFO: its items, oldest first.
module _ {ℓ} {A : Type ℓ} where
  abbrev pub put : ℕ → List A → A → Bool × List A
  put capacity xs item = if leb capacity (length xs) then (false, xs) else (true, xs ++ item ∷ [])

  abbrev pub get : List A → Option A × List A
  get [] = (none, [])
  get (x ∷ xs) = (some x, xs)

module _ {ℓ} {A : Type ℓ} (capacity : ℕ) (zero_item : A) where
  abbrev pub contents : Queue A → List A
  contents q = window zero_item q.items capacity q.head q.size

  pub length-contents : (q : Queue A) → length (contents q) ≡ q.size
  length-contents q = length-window zero_item q.items capacity q.head q.size

  -- `enqueue` returns what the FIFO returns, and leaves the queue holding its items.
  pub enqueue_refines :
      (q : Queue A) (item : A)
      → IsValid capacity zero_item q
      → let (done, q') = enqueue capacity zero_item q (some item) in
        (done, contents q') ≡ put capacity (contents q) item
  enqueue_refines q item v = elim (dec_lt q.size capacity) [
    | yes room ↦
        rw
          (
            enqueue_room capacity zero_item q item v room,
            length-contents q,
            lt→leb capacity q.size room,
            add-one q.size,
          )
          (ap (λ l. (true, l)) (grown q item v room))
    | no full ↦ rw (
      enqueue_full capacity zero_item q item (omega arith),
      length-contents q,
      le→leb capacity q.size (omega arith),
    )
  ]
    where
      grown :
          (q : Queue A) (item : A)
          → IsValid capacity zero_item q
          → q.size < capacity
          → window zero_item
              (set q.items ((q.head + q.size) % capacity) item)
              capacity
              q.head
              (suc q.size)
            ≡ contents q ++ item ∷ []
      grown q item v room =
          window-suc zero_item (set q.items ((q.head + q.size) % capacity) item) capacity q.head
            q.size
          ∙ ap₂ (λ l x. l ++ x ∷ [])
              (window_ext zero_item _ q.items capacity q.head q.size (λ i h.
                get_or-set_elsewhere q.items capacity q.head item zero_item v.sized q.size i room
                  (omega arith) (omega arith)))
              (get_or-set_at q.items capacity q.head item zero_item v.sized q.size room)

  -- `dequeue` returns what the FIFO returns, and leaves the queue holding its items.
  pub dequeue_refines :
      (q : Queue A)
      → IsValid capacity zero_item q
      → let (out, q') = dequeue capacity zero_item q in (out, contents q') ≡ get (contents q)
  dequeue_refines q v = elim (dec_lt 0 q.size) [
    | yes pos ↦
        rw
          (
            dequeue-some capacity zero_item q v pos,
            window_of_pos zero_item q.items capacity q.head q.size pos,
          )
          (ap (λ l. (some (get_or q.items (q.head % capacity) zero_item), l)) (rest q v pos))
    | no empty ↦
        rw (dequeue-none capacity zero_item q (omega arith), window_of_empty q (omega arith))
  ]
    where
      rest :
          (q : Queue A)
          → IsValid capacity zero_item q
          → 0 < q.size
          → window zero_item
              (set q.items ((q.head + 0) % capacity) zero_item)
              capacity
              ((q.head + 1) % capacity)
              (q.size - 1)
            ≡ window zero_item q.items capacity (q.head + 1) (q.size - 1)
      rest q v pos =
          window-mod zero_item (set q.items ((q.head + 0) % capacity) zero_item) capacity
            (q.head + 1) (q.size - 1)
          ∙ window_ext zero_item (set q.items ((q.head + 0) % capacity) zero_item) q.items capacity
              (q.head + 1) (q.size - 1)
              (λ i h.
                let e : q.head + 1 + i ≡ q.head + (1 + i) = omega arith in
                rw e (
                  get_or-set_elsewhere q.items capacity q.head zero_item zero_item v.sized 0 (1 + i)
                    (omega (arith, v.head_in)) (omega (arith, v.fits)) (omega arith)))

      window_of_empty : (q : Queue A) → q.size ≡ 0 → contents q ≡ []
      window_of_empty q e = ap (window zero_item q.items capacity q.head) e

-- A client's calls, and what it sees of each.
pub data Op {ℓ} (A : Type ℓ) : Type ℓ where
  enqueued : A → Op A
  dequeued : Op A

pub data Reply {ℓ} (A : Type ℓ) : Type ℓ where
  stored : Bool → Reply A
  taken : Option A → Reply A

module _ {ℓ} {A : Type ℓ} (capacity : ℕ) (zero_item : A) where
  unfoldable pub run : Queue A → List (Op A) → List (Reply A)
  run q [] = []
  run q (enqueued item ∷ ops) =
      let (done, q') = enqueue capacity zero_item q (some item) in stored done ∷ run q' ops
  run q (dequeued ∷ ops) = let (out, q') = dequeue capacity zero_item q in taken out ∷ run q' ops

module _ {ℓ} {A : Type ℓ} (capacity : ℕ) where
  unfoldable pub run_fifo : List A → List (Op A) → List (Reply A)
  run_fifo xs [] = []
  run_fifo xs (enqueued item ∷ ops) =
      let (done, xs') = put capacity xs item in stored done ∷ run_fifo xs' ops
  run_fifo xs (dequeued ∷ ops) = let (out, xs') = get xs in taken out ∷ run_fifo xs' ops

module _ {ℓ} {A : Type ℓ} (capacity : ℕ) (zero_item : A) where
  -- Every sequence of calls on a valid queue returns what the bounded FIFO of its items returns.
  pub run_refines :
      (ops : List (Op A)) (q : Queue A)
      → IsValid capacity zero_item q
      → run capacity zero_item q ops ≡ run_fifo capacity (contents capacity zero_item q) ops
  unfolding run run_fifo
  run_refines [] q v = refl
  run_refines (enqueued item ∷ ops) q v = rw (
    run_refines ops _ (enqueue-IsValid capacity zero_item q (some item) v),
    ← enqueue_refines capacity zero_item q item v,
  )
  run_refines (dequeued ∷ ops) q v = rw (
    run_refines ops _ (dequeue-IsValid capacity zero_item q v),
    ← dequeue_refines capacity zero_item q v,
  )
