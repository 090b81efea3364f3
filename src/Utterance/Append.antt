-- ===== src/Utterance/Append.antt =====
-- What `append_utterance_pcm` does to the bytes of the utterance.
use shiori.Base.{
  take-take, ℕ, ◌+◌, ◌-◌, ◌^◌, ◌≤◌, ◌<◌, ◌≡◌, ◌≢◌, ◌⊎◌, inl, inr, refl, sym, ap, ap₂, ◌∙◌, subst,
  Option, none, some, List, ◌++◌, append_assoc, arith, length, take, drop, take-append,
  length-append, length-take, bytes_of, ◌==◌, memcpy, length-memcpy, size_mod, add_size, dec_lt,
  Option-cases, if◌then◌else◌, lt→ltb, le→ltb, ne→eqb,
}
use shiori.Status.{Status, ok, err_io, then_ok}
use shiori.Utterance.{
  Utterance, grow_capacity, growth_fuel, initial_utterance_capacity, reserve, store,
  append_utterance_pcm, size_max,
}
use shiori.Utterance.Growth.{grow_capacity_bounds, grow_capacity_enough}

-- The block has `capacity` bytes, of which the first `size` are the utterance.
pub record IsValid (u : Utterance) : Type 0 where
  pub sized : length (bytes_of u.pcm) ≡ u.capacity
  pub stored : 0 < u.capacity → u.pcm ≡ some (bytes_of u.pcm)
  pub fits : u.size ≤ u.capacity
  pub small : u.capacity < size_mod

pub contents : Utterance → List ℕ
contents u = take u.size (bytes_of u.pcm)

start_small :
    (u : Utterance)
    → IsValid u
    → (if u.capacity == 0 then initial_utterance_capacity else u.capacity) < size_mod
start_small u v = ground (arith, v.small)

start_over :
    (u : Utterance)
    → u.capacity ≤ (if u.capacity == 0 then initial_utterance_capacity else u.capacity)
start_over u = ground arith

-- Where there is room the bytes are stored.
module _ (u : Utterance) (v : IsValid u) (b : List ℕ) (input : List ℕ) (n : ℕ)
    (given : n ≤ length input) (room : u.size + n ≤ length b) (small : length b < size_mod)
    (same : take u.size b ≡ contents u) where
  abbrev grown : Utterance
  grown = record { pcm = some b; size = u.size; capacity = length b }

  added : add_size u.size n ≡ u.size + n
  added = omega arith

  store-IsValid : IsValid (store grown input n)
  unfolding store
  store-IsValid = record {
    sized = length-memcpy b u.size input n room given;
    stored = λ h. refl;
    fits = omega (arith, added);
    small = small;
  }

  contents-store : contents (store grown input n) ≡ contents u ++ take n input
  unfolding store contents memcpy
  contents-store =
      ap (λ k. take k (take u.size b ++ (take n input ++ drop (u.size + n) b))) added
      ∙ (ap (take (u.size + n))
            (sym (append_assoc (take u.size b) (take n input) (drop (u.size + n) b)))
          ∙ (take-append (u.size + n) (take u.size b ++ take n input) (drop (u.size + n) b) (
                omega (
                  arith,
                  length-append (take u.size b) (take n input),
                  length-take u.size b,
                  length-take n input,
                ))
              ∙ ap (λ l. l ++ take n input) same))

module _ {W : Type 0} (realloc : W → Option (List ℕ) → ℕ → Option (List ℕ) × W)
    (sized : (w : W) (p : Option (List ℕ)) (n : ℕ) (block : List ℕ)
      → (realloc w p n).0 ≡ some block
      → length block ≡ n)
    (kept : (w : W) (p : Option (List ℕ)) (n : ℕ) (block : List ℕ)
      → (realloc w p n).0 ≡ some block
      → length (bytes_of p) ≤ n
      → take (length (bytes_of p)) block ≡ bytes_of p) where
  -- A block with room for what is required, that starts with the utterance.
  Room : W → Utterance → ℕ → Type 0
  Room w u required =
      (b : List ℕ) × (w' : W) × (reserve realloc w u required
        ≡ (ok, (record { pcm = some b; size = u.size; capacity = length b }, w')))
      × (required ≤ length b)
      × (length b < size_mod)
      × (take u.size b ≡ contents u)

  reserve_lem :
      (w : W) (u : Utterance) (required : ℕ)
      → IsValid u
      → 0 < required
      → ((reserve realloc w u required).0 ≡ err_io) × ((reserve realloc w u required).1.0 ≡ u)
        ⊎ Room w u required
  unfolding reserve contents Room
  reserve_lem w u required v pos = elim (dec_lt u.capacity required) [
    | no enough ↦ inr (
      bytes_of u.pcm,
      w,
      rw (le→ltb u.capacity required (omega arith)) (
          ap₂ (λ p c. (ok, (record { pcm = p; size = u.size; capacity = c }, w)))
            (v.stored (omega arith)) (sym v.sized)),
      omega (arith, v.sized),
      omega (arith, v.sized, v.small),
      refl,
    )
    | yes more ↦
        let below = lt→ltb u.capacity required more in
        let start = if u.capacity == 0 then initial_utterance_capacity else u.capacity in
        elim (Option-cases (grow_capacity growth_fuel start required)) [
          | inl none_big ↦ inl (rw (below, none_big) (refl, refl))
          | inr (n, e) ↦
              let bounds = grow_capacity_bounds growth_fuel start required n (start_small u v) e in
              let over : u.capacity ≤ n = omega (arith, start_over u, bounds) in
              elim (Option-cases (realloc w u.pcm n).0) [
                | inl null ↦ inl (rw (below, e, null) (refl, refl))
                | inr (b, got) ↦
                    let long = sized w u.pcm n b got in
                    inr (
                      b,
                      (realloc w u.pcm n).1,
                      rw (below, e, got)
                          (ap
                            (λ c. (
                              ok,
                              (
                                record { pcm = some b; size = u.size; capacity = c },
                                (realloc w u.pcm n).1,
                              ),
                            ))
                            (sym long)),
                      omega (arith, bounds),
                      omega (arith, bounds),
                      sym (take-take u.size (length (bytes_of u.pcm)) b (omega (arith, v.sized)))
                          ∙ ap (take u.size) (kept w u.pcm n b got (omega (arith, v.sized))),
                    )
              ]
        ]
  ]

  Outcome : Utterance → List ℕ → ℕ → Status × (Utterance × W) → Type 0
  Outcome u input n r =
      IsValid r.1.0
      × ((r.0 ≡ ok) × (contents r.1.0 ≡ contents u ++ take n input) ⊎ (r.0 ≡ err_io) × (r.1.0 ≡ u))

  -- What follows the reservation.
  appended : List ℕ → ℕ → Utterance × W → Status × (Utterance × W)
  appended input n r = (ok, (store r.0 input n, r.1))

  appended-Outcome :
      (u : Utterance) (input : List ℕ) (n : ℕ) (r : Status × (Utterance × W))
      → IsValid u
      → (r.0 ≡ err_io) × (r.1.0 ≡ u)
      → Outcome u input n (then_ok r (appended input n))
  unfolding Outcome
  appended-Outcome u input n (status, (u', w')) v (failed, same) =
      rw failed (subst IsValid (sym same) v, inr (refl, same))

  -- On a valid utterance, appending `n` bytes either stores exactly those after the ones that are
  -- there, or fails with ASSISTANTD_ERR_IO and leaves the utterance as it was; it stays valid.
  pub append_utterance_pcm_lem :
      (w : W) (u : Utterance) (input : List ℕ) (n : ℕ)
      → IsValid u
      → 0 < n
      → n ≤ length input
      → n < size_mod
      → let (status, (u', w')) = append_utterance_pcm realloc w u (some input) n in
        IsValid u'
        × ((status ≡ ok) × (contents u' ≡ contents u ++ take n input)
            ⊎ (status ≡ err_io) × (u' ≡ u))
  unfolding append_utterance_pcm Outcome appended Room
  append_utterance_pcm_lem w u input n v pos given word = elim (dec_lt (size_max - n) u.size) [
    | yes over ↦
        rw (lt→ltb (size_max - n) u.size over, ne→eqb n 0 (omega arith)) (v, inr (refl, refl))
    | no fits ↦
        rw (le→ltb (size_max - n) u.size (omega arith), ne→eqb n 0 (omega arith))
          (elim (reserve_lem w u (add_size u.size n) v (omega arith)) [
            | inl failed ↦ appended-Outcome u input n _ v failed
            | inr (b, w', e, room, small, same) ↦ rw e (
              store-IsValid u v b input n given (omega arith) small same,
              inl (refl, contents-store u v b input n given (omega arith) small same),
            )
          ])
  ]

  -- Memory that never runs out gives room for every size up to 2 ^ 63.
  reserve-ok :
      (w : W) (u : Utterance) (required : ℕ)
      → ((w : W) (p : Option (List ℕ)) (n : ℕ) → (realloc w p n).0 ≢ none)
      → required ≤ 2 ^ 63
      → (reserve realloc w u required).0 ≡ ok
  unfolding reserve
  reserve-ok w u required memory small = elim (dec_lt u.capacity required) [
    | no enough ↦ rw (le→ltb u.capacity required (omega arith)) refl
    | yes more ↦
        let start = if u.capacity == 0 then initial_utterance_capacity else u.capacity in
        let (n, e) = grow_capacity_enough start required (ground arith) small in
        elim (Option-cases (realloc w u.pcm n).0) [
          | inl null ↦ absurd (memory w u.pcm n null)
          | inr (b, got) ↦ rw (lt→ltb u.capacity required more, e, got) refl
        ]
  ]

  append_utterance_pcm-status :
      (w : W) (u : Utterance) (input : List ℕ) (n : ℕ)
      → ((w : W) (p : Option (List ℕ)) (n : ℕ) → (realloc w p n).0 ≢ none)
      → 0 < n
      → u.size + n ≤ 2 ^ 63
      → (append_utterance_pcm realloc w u (some input) n).0 ≡ ok
  unfolding append_utterance_pcm
  append_utterance_pcm-status w u input n memory pos small =
      rw (le→ltb (size_max - n) u.size (omega arith), ne→eqb n 0 (omega arith))
        (rw (reserve-ok w u (add_size u.size n) memory (omega arith)) refl)

  -- On a valid utterance, appending succeeds up to 2 ^ 63 bytes if `realloc` gives memory: the loop
  -- that doubles the capacity ends with one that is enough.
  pub append_utterance_pcm-ok :
      (w : W) (u : Utterance) (input : List ℕ) (n : ℕ)
      → ((w : W) (p : Option (List ℕ)) (n : ℕ) → (realloc w p n).0 ≢ none)
      → IsValid u
      → 0 < n
      → n ≤ length input
      → u.size + n ≤ 2 ^ 63
      → let (status, (u', w')) = append_utterance_pcm realloc w u (some input) n in
        (status ≡ ok) × (contents u' ≡ contents u ++ take n input) × IsValid u'
  append_utterance_pcm-ok w u input n memory v pos given small =
      let (valid, out) = append_utterance_pcm_lem w u input n v pos given (omega arith) in
      elim out [
        | inl (done, grown) ↦ (done, grown, valid)
        | inr (failed, same) ↦ cc (failed, append_utterance_pcm-status w u input n memory pos small)
      ]
