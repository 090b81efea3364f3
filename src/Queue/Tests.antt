-- ===== src/Queue/Tests.antt =====
-- Runs of artifact_queue.c, and its theorems at concrete inputs.
use shiori.Base.{◌≡◌, refl, true, some, none, List, [], ◌∷◌, arith}
use shiori.Queue.{
  Artifact, LlmResponse, llm_response_queue_capacity, zero_artifact, zero_response,
  artifact_queue_init, llm_response_queue_init, init, enqueue, dequeue,
}
use shiori.Queue.Invariant.{IsValid, init-IsValid}
use shiori.Queue.Fifo.{contents, run, run_fifo, run_refines, Op, enqueued, dequeued, taken, stored}

abbrev first : Artifact
first = record { sequence_id = 0; pcm_bytes = 640; wav_path = 47 ∷ 97 ∷ [] }

abbrev script : List (Op Artifact)
script = enqueued first ∷ dequeued ∷ dequeued ∷ []

abbrev reply : LlmResponse
reply = record { sequence_id = 3; used_fallback = true; response_text = 104 ∷ 105 ∷ [] }

runs :
    run 16 zero_artifact artifact_queue_init script
    ≡ stored true ∷ taken (some first) ∷ taken none ∷ []
unfolding run init enqueue dequeue
runs = refl

responses-IsValid : IsValid llm_response_queue_capacity zero_response llm_response_queue_init
responses-IsValid =
    init-IsValid llm_response_queue_capacity zero_response (omega arith) (omega arith)

artifacts-IsValid : IsValid 16 zero_artifact artifact_queue_init
artifacts-IsValid = init-IsValid 16 zero_artifact (omega arith) (omega arith)

run_refines_example :
    run 16 zero_artifact artifact_queue_init script
    ≡ run_fifo 16 (contents 16 zero_artifact artifact_queue_init) script
run_refines_example = run_refines 16 zero_artifact script artifact_queue_init artifacts-IsValid
