-- ===== src/Queue.antt =====
-- The bounded FIFO of src/assistantd/utilities/artifact_queue.c, over the two structs of
-- include/assistantd/utilities/artifact_queue.h. The file has the same code twice, once for each
-- kind of item; here it is written once, over the type of the items, the capacity and the item of
-- zero bytes that `memset` leaves, and used at the two kinds below.
pub mod Invariant
pub mod Fifo
mod Tests
use shiori.Base.{
  ℕ, ◌+◌, ◌-◌, ◌%◌, ◌^◌, Bool, true, false, Option, none, some, List, [], replicate, set, get_or,
  leb, ◌==◌, if◌then◌else◌, add_size,
}

pub record Queue {ℓ} (A : Type ℓ) : Type ℓ where
  pub items : List A
  pub head : ℕ
  pub tail : ℕ
  pub size : ℕ

module _ {ℓ} {A : Type ℓ} (capacity : ℕ) (zero_item : A) where
  unfoldable pub init : Queue A
  init = record { items = replicate capacity zero_item; head = 0; tail = 0; size = 0 }

  -- The item's pointer may be NULL. The result is the C `int` as a Boolean.
  unfoldable pub enqueue : Queue A → Option A → Bool × Queue A
  enqueue queue none = (false, queue)
  enqueue queue (some item) = if leb capacity queue.size then (false, queue) else (
    true,
    record queue {
      items = set queue.items queue.tail item;
      tail = add_size queue.tail 1 % capacity;
      size = add_size queue.size 1;
    },
  )

  -- The option is what is stored through the out pointer, which is written only if 1 is returned.
  -- `size--` runs at a size that is not 0.
  unfoldable pub dequeue : Queue A → Option A × Queue A
  dequeue queue = if queue.size == 0 then (none, queue) else (
    some (get_or queue.items queue.head zero_item),
    record queue {
      items = set queue.items queue.head zero_item;
      head = add_size queue.head 1 % capacity;
      size = queue.size - 1;
    },
  )

-- `assistantd_supervisor_artifact_t`; a `char` array is the C string in it.
pub record Artifact : Type 0 where
  pub sequence_id : ℕ
  pub pcm_bytes : ℕ
  pub wav_path : List ℕ

-- `assistantd_supervisor_llm_response_t`
pub record LlmResponse : Type 0 where
  pub sequence_id : ℕ
  pub used_fallback : Bool
  pub response_text : List ℕ

abbrev pub artifact_queue_capacity : ℕ
artifact_queue_capacity = 16

abbrev pub llm_response_queue_capacity : ℕ
llm_response_queue_capacity = 16

-- ASSISTANTD_SUPERVISOR_LLM_RESPONSE_TEXT_MAX
abbrev pub llm_response_text_max : ℕ
llm_response_text_max = 8192

abbrev pub zero_artifact : Artifact
zero_artifact = record { sequence_id = 0; pcm_bytes = 0; wav_path = [] }

abbrev pub zero_response : LlmResponse
zero_response = record { sequence_id = 0; used_fallback = false; response_text = [] }

abbrev pub ArtifactQueue : Type 0
ArtifactQueue = Queue Artifact

abbrev pub LlmResponseQueue : Type 0
LlmResponseQueue = Queue LlmResponse

-- The functions `assistantd_artifact_queue_*`.
abbrev pub artifact_queue_init : ArtifactQueue
artifact_queue_init = init artifact_queue_capacity zero_artifact

abbrev pub artifact_queue_enqueue : ArtifactQueue → Option Artifact → Bool × ArtifactQueue
artifact_queue_enqueue = enqueue artifact_queue_capacity zero_artifact

abbrev pub artifact_queue_dequeue : ArtifactQueue → Option Artifact × ArtifactQueue
artifact_queue_dequeue = dequeue artifact_queue_capacity zero_artifact

-- The functions `assistantd_llm_response_queue_*`.
abbrev pub llm_response_queue_init : LlmResponseQueue
llm_response_queue_init = init llm_response_queue_capacity zero_response

abbrev pub llm_response_queue_enqueue :
    LlmResponseQueue → Option LlmResponse → Bool × LlmResponseQueue
llm_response_queue_enqueue = enqueue llm_response_queue_capacity zero_response

abbrev pub llm_response_queue_dequeue : LlmResponseQueue → Option LlmResponse × LlmResponseQueue
llm_response_queue_dequeue = dequeue llm_response_queue_capacity zero_response

-- `assistantd_artifact_queue_size` and `assistantd_llm_response_queue_size`
abbrev pub artifact_queue_size : ArtifactQueue → ℕ
artifact_queue_size queue = queue.size

abbrev pub llm_response_queue_size : LlmResponseQueue → ℕ
llm_response_queue_size queue = queue.size
