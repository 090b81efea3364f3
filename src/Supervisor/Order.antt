-- ===== src/Supervisor/Order.antt =====
-- The numbers of queued utterances of supervisor.c: they increase along the queue.
use native.Mathlib.Numerals.{add-one}
use shiori.Base.{ℕ, suc, ◌+◌, ◌≤◌, sym, ap, Bool, some, List, [], ◌∷◌, ◌++◌, arith, if_both, subst}
use shiori.Queue.{
  Artifact, zero_artifact, artifact_queue_enqueue, artifact_queue_dequeue, ArtifactQueue,
}
use shiori.Queue.Invariant.{IsValid, enqueue-IsValid, dequeue-IsValid}
use shiori.Queue.Fifo.{contents, get, enqueue_refines, dequeue_refines}

-- The numbers of the artifacts start at `low` or above, increase, and stay below `high`.
abbrev pub Increasing : ℕ → List Artifact → ℕ → Type 0
Increasing low [] high = low ≤ high
Increasing low (a ∷ rest) high = (low ≤ a.sequence_id) × Increasing (suc a.sequence_id) rest high

Increasing-lower :
    (low low' : ℕ) (xs : List Artifact) (high : ℕ)
    → low' ≤ low
    → Increasing low xs high
    → Increasing low' xs high
Increasing-lower low low' [] high h k = omega arith
Increasing-lower low low' (a ∷ rest) high h k = (omega (arith, k.0), k.1)

Increasing-raise :
    (low : ℕ) (xs : List Artifact) (high high' : ℕ)
    → high ≤ high'
    → Increasing low xs high
    → Increasing low xs high'
Increasing-raise low [] high high' h k = omega arith
Increasing-raise low (a ∷ rest) high high' h k =
    (k.0, Increasing-raise (suc a.sequence_id) rest high high' h k.1)

Increasing-snoc :
    (low : ℕ) (xs : List Artifact) (a : Artifact)
    → Increasing low xs a.sequence_id
    → Increasing low (xs ++ a ∷ []) (suc a.sequence_id)
Increasing-snoc low [] a k = (k, omega arith)
Increasing-snoc low (x ∷ rest) a k = (k.0, Increasing-snoc (suc x.sequence_id) rest a k.1)

-- A valid queue of artifacts in order, all numbered below `next`.
pub record InOrder (q : ArtifactQueue) (next : ℕ) : Type 0 where
  pub valid : IsValid 16 zero_artifact q
  pub order : Increasing 0 (contents 16 zero_artifact q) next

pub InOrder-raise :
    (q : ArtifactQueue) (next next' : ℕ) → next ≤ next' → InOrder q next → InOrder q next'
InOrder-raise q next next' h o = record {
  valid = o.valid;
  order = Increasing-raise 0 (contents 16 zero_artifact q) next next' h o.order;
}

-- Enqueuing the artifact with the next number, room or not, keeps the order.
pub enqueue-InOrder :
    (q : ArtifactQueue) (a : Artifact)
    → InOrder q a.sequence_id
    → InOrder (artifact_queue_enqueue q (some a)).1 (a.sequence_id + 1)
enqueue-InOrder q a o = record {
  valid = enqueue-IsValid 16 zero_artifact q (some a) o.valid;
  order =
      subst (λ xs. Increasing 0 xs (a.sequence_id + 1))
        (sym (ap (λ r. r.1) (enqueue_refines 16 zero_artifact q a o.valid)))
        (if_both (λ (r : Bool × List Artifact). Increasing 0 r.1 (a.sequence_id + 1)) _ _ _
          (λ _.
            Increasing-raise 0 (contents 16 zero_artifact q) a.sequence_id (a.sequence_id + 1)
              (omega arith) o.order)
          (λ _.
            subst (Increasing 0 (contents 16 zero_artifact q ++ a ∷ []))
              (sym (add-one a.sequence_id))
              (Increasing-snoc 0 (contents 16 zero_artifact q) a o.order)));
}

get-Increasing :
    (xs : List Artifact) (next : ℕ) → Increasing 0 xs next → Increasing 0 (get xs).1 next
get-Increasing [] next k = k
get-Increasing (a ∷ rest) next k =
    Increasing-lower (suc a.sequence_id) 0 rest next (omega arith) k.1

-- Dequeuing keeps the order.
pub dequeue-InOrder :
    (q : ArtifactQueue) (next : ℕ) → InOrder q next → InOrder (artifact_queue_dequeue q).1 next
dequeue-InOrder q next o = record {
  valid = dequeue-IsValid 16 zero_artifact q o.valid;
  order =
      subst (λ xs. Increasing 0 xs next)
        (sym (ap (λ r. r.1) (dequeue_refines 16 zero_artifact q o.valid)))
        (get-Increasing (contents 16 zero_artifact q) next o.order);
}
