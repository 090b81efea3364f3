-- ===== src/Llm/Buffer.antt =====
-- The write callback of llm_adapter.c is the one of stt_adapter.c, and gathers the body in the same way.
use shiori.Base.{
  ℕ, zero, suc, ◌+◌, ◌*◌, ◌%◌, ◌^◌, ◌≤◌, ◌<◌, ◌≡◌, ◌≢◌, refl, sym, ap, ◌∙◌, subst, Option, none,
  some, List, ◌++◌, arith, length, take, take-take, ltb, leb, ◌==◌, if◌then◌else◌, add_size,
  size_mod, bytes_of, inl, inr, Bool-cases, Option-cases,
}
use shiori.Stt.{double_until}
use shiori.Stt.{ResponseBuffer as SttBuffer, put_bytes as stt_put_bytes}
use shiori.Stt.Buffer.{IsValid, text, double_until_enough, put_bytes-IsValid, text-put_bytes}
use shiori.Llm.{ResponseBuffer, double_past, put_bytes, receive, write_callback}

-- The two loops test `new_cap <= total` and `new_cap < total + 1`.
double_past-double_until :
    (fuel new_cap total : ℕ)
    → double_past fuel new_cap total ≡ double_until fuel new_cap (total + 1)
unfolding double_past double_until
double_past-double_until zero new_cap total = refl
double_past-double_until (suc fuel) new_cap total =
    rw (double_past-double_until fuel (new_cap * 2 % size_mod) total, same_test) refl
  where
    same_test : leb new_cap total ≡ ltb new_cap (total + 1)
    same_test = ground arith

-- The same buffer, as the other adapter's record; NULL is a block of no byte.
unfoldable pub as_stt : ResponseBuffer → SttBuffer
as_stt b = record { block = bytes_of b.block; size = b.size; capacity = b.capacity }

as_stt-put_bytes :
    (b : ResponseBuffer) (ptr : List ℕ) (n : ℕ)
    → as_stt (put_bytes b ptr n) ≡ stt_put_bytes (as_stt b) ptr n
unfolding as_stt put_bytes stt_put_bytes
as_stt-put_bytes b ptr n = refl

size-put_bytes :
    (b : ResponseBuffer) (ptr : List ℕ) (n : ℕ)
    → b.size + n < size_mod
    → (put_bytes b ptr n).size ≡ b.size + n
unfolding put_bytes
size-put_bytes b ptr n h = omega (arith, h)

-- The block has `capacity` bytes, and the text is in it: so is the empty buffer, and every valid one.
pub record Sized (b : SttBuffer) : Type 0 where
  pub sized : length b.block ≡ b.capacity
  pub inside : b.size ≤ b.capacity
  pub small : b.capacity < size_mod

pub IsValid-Sized : (b : SttBuffer) → IsValid b → Sized b
IsValid-Sized b v = record { sized = v.sized; inside = omega (arith, v.fits); small = v.small }

module _ (b : ResponseBuffer) (ptr : List ℕ) (n : ℕ) (given : n ≤ length ptr)
    (sized : length (bytes_of b.block) ≡ b.capacity) (small : b.capacity < size_mod)
    (room : b.size + n < b.capacity) where
  put_bytes-Valid : IsValid (as_stt (put_bytes b ptr n))
  unfolding as_stt
  put_bytes-Valid =
      subst IsValid (sym (as_stt-put_bytes b ptr n))
        (put_bytes-IsValid (as_stt b) ptr n given sized small room)

  text-as_stt-put_bytes : text (as_stt (put_bytes b ptr n)) ≡ text (as_stt b) ++ take n ptr
  unfolding as_stt
  text-as_stt-put_bytes =
      ap text (as_stt-put_bytes b ptr n) ∙ text-put_bytes (as_stt b) ptr n given sized small room

start_reaches :
    (c total : ℕ)
    → c < total + 1
    → total + 1 ≤ 2 ^ 63
    → let start = if c == 0 then 4096 else c * 2 % size_mod in
      (0 < start) × (start < size_mod) × (total + 1 ≤ start * 2 ^ 64)
start_reaches c total less small = ground arith

module _ {W : Type 0} (realloc : W → Option (List ℕ) → ℕ → Option (List ℕ) × W)
    (sized : (w : W) (p : Option (List ℕ)) (n : ℕ) (block : List ℕ)
      → (realloc w p n).0 ≡ some block
      → length block ≡ n)
    (kept : (w : W) (p : Option (List ℕ)) (n : ℕ) (block : List ℕ)
      → (realloc w p n).0 ≡ some block
      → length (bytes_of p) ≤ n
      → take (length (bytes_of p)) block ≡ bytes_of p)
    (memory : (w : W) (p : Option (List ℕ)) (n : ℕ) → (realloc w p n).0 ≢ none) where
  -- What one call does with a chunk of `n` bytes.
  pub record Appended (b : ResponseBuffer) (ptr : List ℕ) (n : ℕ)
      (out : Option (ℕ × (ResponseBuffer × W))) : Type 0 where
    pub after : ResponseBuffer
    pub world : W
    pub returned : out ≡ some (n, (after, world))
    pub longer : after.size ≡ b.size + n
    pub valid : IsValid (as_stt after)
    pub grown : text (as_stt after) ≡ text (as_stt b) ++ take n ptr

  receive_lem :
      (w : W) (b : ResponseBuffer) (ptr : List ℕ) (n : ℕ)
      → Sized (as_stt b)
      → n ≤ length ptr
      → b.size + n + 1 ≤ 2 ^ 63
      → Appended b ptr n (receive realloc w b ptr n)
  unfolding receive as_stt text
  receive_lem w b ptr n v given small =
      let total : add_size b.size n ≡ b.size + n = omega (arith, small) in
      elim (Bool-cases (leb b.capacity (b.size + n))) [
        | inr enough ↦
            let room : b.size + n < b.capacity = ground (arith, enough) in
            record {
              after = put_bytes b ptr n;
              world = w;
              returned = rw (total, enough) refl;
              longer = size-put_bytes b ptr n (omega (arith, small));
              valid = put_bytes-Valid b ptr n given v.sized v.small room;
              grown = text-as_stt-put_bytes b ptr n given v.sized v.small room;
            }
        | inl more ↦
            let less : b.capacity < b.size + n + 1 = ground (arith, more) in
            let start = if b.capacity == 0 then 4096 else b.capacity * 2 % size_mod in
            let (pos, word, reach) = start_reaches b.capacity (b.size + n) less small in
            let (m, e, covered, over, fits) =
              double_until_enough 64 start (b.size + n + 1) pos word small reach in
            let ends : double_past 65 start (b.size + n) ≡ some m =
              double_past-double_until 65 start (b.size + n) ∙ e in
            elim (Option-cases (realloc w b.block m).0) [
              | inl null ↦ absurd (memory w b.block m null)
              | inr (block, got) ↦
                  let grown_b = record b { block = some block; capacity = m } in
                  let long = sized w b.block m block got in
                  let wide : length (bytes_of b.block) ≤ m =
                    omega (arith, v.sized, less, covered) in
                  let same : text (as_stt grown_b) ≡ text (as_stt b) =
                    sym (
                      take-take b.size (length (bytes_of b.block)) block
                        (omega (arith, v.sized, v.inside)))
                    ∙ ap (take b.size) (kept w b.block m block got wide) in
                  let room : b.size + n < m = omega (arith, covered) in
                  record {
                    after = put_bytes grown_b ptr n;
                    world = (realloc w b.block m).1;
                    returned = rw (total, more, ends, got) refl;
                    longer = size-put_bytes grown_b ptr n (omega (arith, small));
                    valid = put_bytes-Valid grown_b ptr n given long fits room;
                    grown =
                        text-as_stt-put_bytes grown_b ptr n given long fits room
                        ∙ ap (λ l. l ++ take n ptr) same;
                  }
            ]
      ]

  -- On a buffer that is empty or valid, with memory to be had and less than 2 ^ 63 bytes in all, the
  -- callback's loop ends, and it takes the whole chunk, appends exactly it to the text, and leaves a
  -- valid buffer with a NUL after the text.
  pub write_callback_lem :
      (w : W) (b : ResponseBuffer) (ptr : List ℕ) (size nmemb : ℕ)
      → Sized (as_stt b)
      → size * nmemb ≤ length ptr
      → b.size + size * nmemb + 1 ≤ 2 ^ 63
      → Appended b ptr (size * nmemb) (write_callback realloc w b ptr size nmemb)
  unfolding write_callback
  write_callback_lem w b ptr size nmemb v given small =
      subst (λ k. Appended b ptr (size * nmemb) (receive realloc w b ptr k))
        (sym (in_word (size * nmemb) (omega (arith, small))))
        (receive_lem w b ptr (size * nmemb) v given small)
    where
      in_word : (n : ℕ) → n + 1 ≤ 2 ^ 63 → n % size_mod ≡ n
      in_word n h = omega arith
