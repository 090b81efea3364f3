-- ===== src/Stt/Buffer.antt =====
-- What the write callback of stt_adapter.c gathers.
use shiori.Base.{
  double_mod, reach_next, ℕ, zero, suc, ◌+◌, ◌*◌, ◌%◌, ◌^◌, ◌≤◌, ◌<◌, ◌≡◌, ◌≢◌, refl, sym, ap, ◌∙◌,
  subst, Option, none, some, List, [], ◌∷◌, ◌++◌, append_assoc, bytes_of, take-take, arith, length,
  take, drop, set, get_or, take-append, length-append, length-take, length-set, ◌==◌, memcpy,
  length-memcpy, size_mod, add_size, dec_lt, Option-cases, inl, inr, if◌then◌else◌, lt→ltb, le→ltb,
  get_or-set_self,
}
use shiori.Stt.{ResponseBuffer, double_until, put_bytes, receive, write_callback}

pub double_until_enough :
    (fuel c required : ℕ)
    → 0 < c
    → c < size_mod
    → required ≤ 2 ^ 63
    → required ≤ c * 2 ^ fuel
    → (n : ℕ) × (double_until (suc fuel) c required ≡ some n)
      × (required ≤ n)
      × (c ≤ n)
      × (n < size_mod)
unfolding double_until
double_until_enough zero c required pos word small reach =
    (c, ground arith, omega arith, omega arith, omega arith)
double_until_enough (suc fuel) c required pos word small reach = elim (dec_lt c required) [
  | no enough ↦ (c, ground arith, omega arith, omega arith, omega arith)
  | yes more ↦
      let (n, e, covered, over, fits) =
        double_until_enough fuel (c * 2) required (omega arith) (omega arith) small
          (reach_next c required fuel reach) in
      (n, ground (arith, e, double_mod c required more small), covered, omega (arith, over), fits)
]

-- The block has `capacity` bytes, and the NUL stands after the text.
pub record IsValid (b : ResponseBuffer) : Type 0 where
  pub sized : length b.block ≡ b.capacity
  pub fits : b.size < b.capacity
  pub small : b.capacity < size_mod
  pub ended : get_or b.block b.size 0 ≡ 0

unfoldable pub text : ResponseBuffer → List ℕ
text b = take b.size b.block

take-set {ℓ} : {A : Type ℓ} (n : ℕ) (xs : List A) (v : A) → take n (set xs n v) ≡ take n xs
take-set zero xs v = refl
take-set (suc n) [] v = refl
take-set (suc n) (x ∷ xs) v = ap (λ l. x ∷ l) (take-set n xs v)

module _ (b : ResponseBuffer) (chunk : List ℕ) (n : ℕ) (given : n ≤ length chunk)
    (sized : length b.block ≡ b.capacity) (small : b.capacity < size_mod)
    (room : b.size + n < b.capacity) where
  added : add_size b.size n ≡ b.size + n
  added = omega arith

  copied : List ℕ
  copied = memcpy b.block b.size chunk n

  length-copied : length copied ≡ b.capacity
  unfolding copied
  length-copied = length-memcpy b.block b.size chunk n (omega arith) given ∙ sized

  put_bytes-same :
      put_bytes b chunk n ≡ record b { block = set copied (b.size + n) 0; size = b.size + n }
  unfolding put_bytes copied
  put_bytes-same = ap (λ k. record b { block = set copied k 0; size = k }) added

  pub put_bytes-IsValid : IsValid (put_bytes b chunk n)
  put_bytes-IsValid = subst IsValid (sym put_bytes-same) (record {
    sized = length-set copied (b.size + n) 0 ∙ length-copied;
    fits = room;
    small = small;
    ended = get_or-set_self copied (b.size + n) 0 0 (omega (arith, length-copied));
  })

  pub text-put_bytes : text (put_bytes b chunk n) ≡ text b ++ take n chunk
  unfolding text copied memcpy
  text-put_bytes =
      ap text put_bytes-same
      ∙ (take-set (b.size + n) copied 0
          ∙ (ap (take (b.size + n)) (
                sym (append_assoc (take b.size b.block) (take n chunk) (drop (b.size + n) b.block)))
              ∙ take-append (b.size + n) (take b.size b.block ++ take n chunk)
                  (drop (b.size + n) b.block)
                  (omega (
                    arith,
                    length-append (take b.size b.block) (take n chunk),
                    length-take b.size b.block,
                    length-take n chunk,
                  ))))

start_reaches :
    (b : ResponseBuffer) (n : ℕ)
    → b.size + n + 1 ≤ 2 ^ 63
    → b.size + n + 1 ≤ (if b.capacity == 0 then 4096 else b.capacity) * 2 ^ 64
start_reaches b n small = ground arith

module _ {W : Type 0} (realloc : W → Option (List ℕ) → ℕ → Option (List ℕ) × W)
    (sized : (w : W) (p : Option (List ℕ)) (n : ℕ) (block : List ℕ)
      → (realloc w p n).0 ≡ some block
      → length block ≡ n)
    (kept : (w : W) (p : Option (List ℕ)) (n : ℕ) (block : List ℕ)
      → (realloc w p n).0 ≡ some block
      → length (bytes_of p) ≤ n
      → take (length (bytes_of p)) block ≡ bytes_of p)
    (memory : (w : W) (p : Option (List ℕ)) (n : ℕ) → (realloc w p n).0 ≢ none) where
  receive_lem :
      (w : W) (b : ResponseBuffer) (chunk : List ℕ) (n : ℕ)
      → IsValid b
      → n ≤ length chunk
      → b.size + n + 1 ≤ 2 ^ 63
      → (b' : ResponseBuffer) × (w' : W) × (receive realloc w b chunk n ≡ some (n, (b', w')))
        × IsValid b'
        × (text b' ≡ text b ++ take n chunk)
  unfolding receive text
  receive_lem w b chunk n v given small =
      let required : add_size (add_size b.size n) 1 ≡ b.size + n + 1 = omega arith in
      elim (dec_lt b.capacity (b.size + n + 1)) [
        | no enough ↦ (
          put_bytes b chunk n,
          w,
          rw (required, le→ltb b.capacity (b.size + n + 1) (omega arith)) refl,
          put_bytes-IsValid b chunk n given v.sized v.small (omega arith),
          text-put_bytes b chunk n given v.sized v.small (omega arith),
        )
        | yes more ↦
            let start = if b.capacity == 0 then 4096 else b.capacity in
            let (m, e, covered, over, fits) =
              double_until_enough 64 start (b.size + n + 1) (ground arith) (ground (arith, v.small))
                small (start_reaches b n small) in
            elim (Option-cases (realloc w (some b.block) m).0) [
              | inl null ↦ absurd (memory w (some b.block) m null)
              | inr (block, got) ↦
                  let grown = record b { block = block; capacity = m } in
                  let long = sized w (some b.block) m block got in
                  let wide : length b.block ≤ m = omega (arith, v.sized, more, covered) in
                  let same : text grown ≡ text b =
                    sym (take-take b.size (length b.block) block (omega (arith, v.sized)))
                    ∙ ap (take b.size) (kept w (some b.block) m block got wide) in
                  (
                    put_bytes grown chunk n,
                    (realloc w (some b.block) m).1,
                    rw (required, lt→ltb b.capacity (b.size + n + 1) more, e, got) refl,
                    put_bytes-IsValid grown chunk n given long fits (omega (arith, covered)),
                    text-put_bytes grown chunk n given long fits (omega (arith, covered))
                        ∙ ap (λ l. l ++ take n chunk) same,
                  )
            ]
      ]

  -- On a valid buffer, with memory to be had and less than 2 ^ 63 bytes in all, the callback ends,
  -- takes the whole chunk, appends exactly it to the text, and leaves a valid buffer with a NUL after
  -- the text.
  pub write_callback_lem :
      (w : W) (b : ResponseBuffer) (chunk : List ℕ) (size nmemb : ℕ)
      → IsValid b
      → size * nmemb ≤ length chunk
      → b.size + size * nmemb + 1 ≤ 2 ^ 63
      → (b' : ResponseBuffer) × (w' : W) × (write_callback realloc w b (some chunk) size nmemb
          ≡ some (size * nmemb, (b', w')))
        × IsValid b'
        × (text b' ≡ text b ++ take (size * nmemb) chunk)
  unfolding write_callback
  write_callback_lem w b chunk size nmemb v given small =
      let whole : size * nmemb % size_mod ≡ size * nmemb = in_word (size * nmemb) (omega arith) in
      let (b', w', e, valid, grown) = receive_lem w b chunk (size * nmemb) v given small in
      (b', w', ap (receive realloc w b chunk) whole ∙ e, valid, grown)
    where
      in_word : (n : ℕ) → n + 1 ≤ 2 ^ 63 → n % size_mod ≡ n
      in_word n h = omega arith
