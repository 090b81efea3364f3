-- ===== src/Llm/Body.antt =====
-- A whole response of the model's server: the write callback is called for each chunk of it.
use shiori.Base.{
  ℕ, Bool, true, false, ◌==◌, ◌+◌, ◌*◌, ◌^◌, ◌≤◌, ◌≡◌, ◌≢◌, refl, sym, ap, ◌∙◌, Option, none, some,
  List, [], ◌∷◌, ◌++◌, append_assoc, append-nil, arith, length, take, take_all, bytes_of,
}
use shiori.Stt.Buffer.{text, IsValid}
use shiori.Llm.{ResponseBuffer, write_callback}
use shiori.Llm.Buffer.{as_stt, Sized, IsValid-Sized, write_callback_lem}

-- The buffer that `generate` starts with.
abbrev pub empty_buffer : ResponseBuffer
empty_buffer = record { block = none; size = 0; capacity = 0 }

abbrev pub join : List (List ℕ) → List ℕ
join [] = []
join (chunk ∷ chunks) = chunk ++ join chunks

abbrev pub total : List (List ℕ) → ℕ
total [] = 0
total (chunk ∷ chunks) = length chunk + total chunks

take_whole : (xs : List ℕ) → take (1 * length xs) xs ≡ xs
take_whole xs = take_all (1 * length xs) xs (omega arith)

-- The count that the callback returns is the chunk's length.
taken : (n : ℕ) → (1 * n == n) ≡ true
taken n = ground arith

empty-Sized : Sized (as_stt empty_buffer)
unfolding as_stt
empty-Sized = record { sized = refl; inside = omega arith; small = omega arith }

module _ {W : Type 0} (realloc : W → Option (List ℕ) → ℕ → Option (List ℕ) × W) where
  -- One call for each chunk; libcurl ends the transfer at a call that does not return the chunk's
  -- length. The Boolean is whether all the chunks were taken.
  unfoldable pub gather : W → ResponseBuffer → List (List ℕ) → Option (Bool × (ResponseBuffer × W))
  gather w buf [] = some (true, (buf, w))
  gather w buf (chunk ∷ chunks) = elim (write_callback realloc w buf chunk 1 (length chunk)) [
    | none ↦ none
    | some (n, (buf', w')) ↦ elim (n == length chunk) [
      | false ↦ some (false, (buf', w'))
      | true ↦ gather w' buf' chunks
    ]
  ]

  module _
      (sized : (w : W) (p : Option (List ℕ)) (n : ℕ) (block : List ℕ)
        → (realloc w p n).0 ≡ some block
        → length block ≡ n)
      (kept : (w : W) (p : Option (List ℕ)) (n : ℕ) (block : List ℕ)
        → (realloc w p n).0 ≡ some block
        → length (bytes_of p) ≤ n
        → take (length (bytes_of p)) block ≡ bytes_of p)
      (memory : (w : W) (p : Option (List ℕ)) (n : ℕ) → (realloc w p n).0 ≢ none) where
    -- What is left of the buffer after the chunks.
    pub record Gathered (buf : ResponseBuffer) (chunks : List (List ℕ))
        (out : Option (Bool × (ResponseBuffer × W))) : Type 0 where
      pub after : ResponseBuffer
      pub world : W
      pub ended : out ≡ some (true, (after, world))
      pub valid : IsValid (as_stt after)
      pub whole : text (as_stt after) ≡ text (as_stt buf) ++ join chunks

    -- The first chunk, with what the others do.
    gather_next :
        (w : W) (buf : ResponseBuffer) (chunk : List ℕ) (chunks : List (List ℕ))
        → Sized (as_stt buf)
        → buf.size + total (chunk ∷ chunks) + 1 ≤ 2 ^ 63
        → ((at : W) (b : ResponseBuffer)
            → IsValid (as_stt b)
            → b.size + total chunks + 1 ≤ 2 ^ 63
            → Gathered b chunks (gather at b chunks))
        → Gathered buf (chunk ∷ chunks) (gather w buf (chunk ∷ chunks))
    unfolding gather
    gather_next w buf chunk chunks v small others =
        let n = length chunk in
        let step =
          write_callback_lem realloc sized kept memory w buf chunk 1 n v (omega arith)
            (omega (arith, small)) in
        let rest = others step.world step.after step.valid (omega (arith, step.longer, small)) in
        record {
          after = rest.after;
          world = rest.world;
          ended = rw (step.returned, taken n, gather) rest.ended;
          valid = rest.valid;
          whole =
              rest.whole
              ∙ ap (λ t. t ++ join chunks) step.grown
              ∙ append_assoc (text (as_stt buf)) (take (1 * n) chunk) (join chunks)
              ∙ ap (λ t. text (as_stt buf) ++ (t ++ join chunks)) (take_whole chunk);
        }

    gather_lem :
        (chunks : List (List ℕ)) (w : W) (buf : ResponseBuffer)
        → IsValid (as_stt buf)
        → buf.size + total chunks + 1 ≤ 2 ^ 63
        → Gathered buf chunks (gather w buf chunks)
    unfolding gather
    gather_lem [] w buf v small = record {
      after = buf;
      world = w;
      ended = refl;
      valid = v;
      whole = sym (append-nil (text (as_stt buf)));
    }
    gather_lem (chunk ∷ chunks) w buf v small =
        gather_next w buf chunk chunks (IsValid-Sized (as_stt buf) v) small (gather_lem chunks)

    -- The callback gathers a response of less than 2 ^ 63 bytes whole: where memory is to be had,
    -- every call for a chunk ends and returns the chunk's length, so that libcurl goes on, and the
    -- buffer then holds the chunks in order, with a NUL after them.
    pub gather_whole :
        (w : W) (chunk : List ℕ) (chunks : List (List ℕ))
        → total (chunk ∷ chunks) + 1 ≤ 2 ^ 63
        → Gathered empty_buffer (chunk ∷ chunks) (gather w empty_buffer (chunk ∷ chunks))
    gather_whole w chunk chunks small =
        gather_next w empty_buffer chunk chunks empty-Sized (omega (arith, small))
          (gather_lem chunks)
