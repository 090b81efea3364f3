-- ===== src/Utterance/Samples.antt =====
-- An allocator for tests, and what `realloc` documents, proved of it.
use shiori.Base.{
  take-take, ℕ, suc, ◌≤◌, ◌≡◌, ◌≢◌, none, refl, sym, ap, ◌∙◌, Option, some, List, ◌++◌, arith,
  length, take, replicate, bytes_of, length-append, length-take, length-replicate, take-append,
}

-- A `realloc` that always has memory, and zeroes what it adds; it counts its calls.
abbrev pub plenty : ℕ → Option (List ℕ) → ℕ → Option (List ℕ) × ℕ
plenty w p n = (some (take n (bytes_of p ++ replicate n 0)), suc w)

pub plenty_sized :
    (w : ℕ) (p : Option (List ℕ)) (n : ℕ) (block : List ℕ)
    → (plenty w p n).0 ≡ some block
    → length block ≡ n
plenty_sized w p n block e =
    let same : take n (bytes_of p ++ replicate n 0) ≡ block = cc e in
    ap length (sym same)
    ∙ omega (
      arith,
      length-take n (bytes_of p ++ replicate n 0),
      length-append (bytes_of p) (replicate n 0),
      length-replicate {A = ℕ} n 0,
    )

pub plenty_kept :
    (w : ℕ) (p : Option (List ℕ)) (n : ℕ) (block : List ℕ)
    → (plenty w p n).0 ≡ some block
    → length (bytes_of p) ≤ n
    → take (length (bytes_of p)) block ≡ bytes_of p
plenty_kept w p n block e h =
    let same : take n (bytes_of p ++ replicate n 0) ≡ block = cc e in
    ap (take (length (bytes_of p))) (sym same)
    ∙ (take-take (length (bytes_of p)) n (bytes_of p ++ replicate n 0) h
        ∙ take-append (length (bytes_of p)) (bytes_of p) (replicate n 0) refl)

pub plenty_memory : (w : ℕ) (p : Option (List ℕ)) (n : ℕ) → (plenty w p n).0 ≢ none
plenty_memory w p n h = cc h
