-- ===== src/Base/Window.antt =====
-- Storage that is used round and round: the item of counter `c` stands at the index `c % capacity`.
use Prim.Native.Nat.{ℕ, zero, suc, ◌+◌, ◌-◌, ◌%◌, ◌≤◌, ◌<◌}
use mathlib.Core.Path.{◌≡◌, refl, sym, ap, ap₂, ◌∙◌}
use mathlib.Core.Logic.{◌≢◌, ◌⊎◌, inl, inr}
use mathlib.Core.List.{List, [], ◌∷◌, ◌++◌}
use native.Mathlib.Decide.{dec_lt}
use native.Mathlib.Nat.{add-zero, mod-add-mod, mod-eq_of_lt, mod-eq-sub-mod, mod-mod}
use native.Mathlib.Omega.{arith}
use shiori.Base.Lists.{length, get_or, set, list_ext, get_or-set_self, get_or-set_ne}

-- The index of the counter `c + k`, from that of `c`.
pub index_add :
    (c k m : ℕ)
    → k < m
    → ((c % m + k < m) × ((c + k) % m ≡ c % m + k))
      ⊎ ((m ≤ c % m + k) × ((c + k) % m + m ≡ c % m + k))
index_add c k m h = elim (dec_lt (c % m + k) m) [
  | yes p ↦ inl (p, sym (mod-add-mod c m k) ∙ mod-eq_of_lt p)
  | no p ↦ inr (
    omega arith,
    omega (
      arith,
      mod-add-mod c m k,
      mod-eq-sub-mod {n = c % m + k} {m = m} (omega arith),
      mod-eq_of_lt {n = c % m + k - m} {m = m} (omega arith),
    ),
  )
]

module _ {ℓ} {A : Type ℓ} (d : A) (items : List A) (capacity : ℕ) where
  -- The items of the counters `c`, `c + 1`, and so on, `n` of them.
  abbrev pub window : ℕ → ℕ → List A
  window c zero = []
  window c (suc n) = get_or items (c % capacity) d ∷ window (c + 1) n

  pub length-window : (c n : ℕ) → length (window c n) ≡ n
  length-window c zero = refl
  length-window c (suc n) = ap suc (length-window (c + 1) n)

  pub get_or-window :
      (c n i : ℕ) → i < n → get_or (window c n) i d ≡ get_or items ((c + i) % capacity) d
  get_or-window c zero i h = absurd (omega arith)
  get_or-window c (suc n) zero h = rw add-zero
  get_or-window c (suc n) (suc i) h =
      get_or-window (c + 1) n i (omega arith)
      ∙ ap (λ k. get_or items (k % capacity) d) (omega arith)

  -- A window depends on the index at which it begins only.
  pub window_of_mod_eq : (c e n : ℕ) → c % capacity ≡ e % capacity → window c n ≡ window e n
  window_of_mod_eq c e zero h = refl
  window_of_mod_eq c e (suc n) h = ap₂ ◌∷◌ (ap (λ k. get_or items k d) h) (
      window_of_mod_eq (c + 1) (e + 1) n (
        sym (mod-add-mod c capacity 1)
        ∙ (ap (λ k. (k + 1) % capacity) h ∙ mod-add-mod e capacity 1)))

  pub window-mod : (c n : ℕ) → window (c % capacity) n ≡ window c n
  window-mod c n = window_of_mod_eq (c % capacity) c n (mod-mod c capacity)

  -- The code tests `n`, a window matches on it.
  pub window_of_pos :
      (c n : ℕ) → 0 < n → window c n ≡ get_or items (c % capacity) d ∷ window (c + 1) (n - 1)
  window_of_pos c zero h = absurd (omega arith)
  window_of_pos c (suc n) h =
      ap (λ k. get_or items (c % capacity) d ∷ window (c + 1) k) (omega arith)

  -- A window grows at its end.
  pub window-suc :
      (c n : ℕ) → window c (suc n) ≡ window c n ++ get_or items ((c + n) % capacity) d ∷ []
  window-suc c zero = rw add-zero
  window-suc c (suc n) =
      ap (λ l. get_or items (c % capacity) d ∷ l)
        (window-suc (c + 1) n
          ∙ ap (λ k. window (c + 1) n ++ get_or items (k % capacity) d ∷ []) (omega arith))

-- Storage with the same items at the counters of a window has the same window.
pub window_ext {ℓ} :
    {A : Type ℓ} (d : A) (items items' : List A) (capacity c n : ℕ)
    → ((i : ℕ) → i < n → get_or items ((c + i) % capacity) d ≡ get_or items' ((c + i) % capacity) d)
    → window d items capacity c n ≡ window d items' capacity c n
window_ext d items items' capacity c n same =
    list_ext d (window d items capacity c n) (window d items' capacity c n)
      (length-window d items capacity c n ∙ sym (length-window d items' capacity c n))
      (λ i h.
        let lt : i < n = omega (arith, length-window d items capacity c n) in
        get_or-window d items capacity c n i lt
        ∙ (same i lt ∙ sym (get_or-window d items' capacity c n i lt)))

-- Within one round, different counters have different indices.
index_injective : (c i k m : ℕ) → i < m → k < m → (c + i) % m ≡ (c + k) % m → i ≡ k
index_injective c i k m hi hk e = ground (arith, index_add c i m hi, index_add c k m hk)

pub index_lt : (c m : ℕ) → 0 < m → c % m < m
index_lt c m h = omega arith

module _ {ℓ} {A : Type ℓ} (items : List A) (capacity c : ℕ) (v d : A)
    (sized : length items ≡ capacity) where
  pub get_or-set_at :
      (k : ℕ) → k < capacity → get_or (set items ((c + k) % capacity) v) ((c + k) % capacity) d ≡ v
  get_or-set_at k h =
      get_or-set_self items ((c + k) % capacity) v d (omega (arith, index_lt (c + k) capacity))

  pub get_or-set_elsewhere :
      (k i : ℕ)
      → k < capacity
      → i < capacity
      → k ≢ i
      → get_or (set items ((c + k) % capacity) v) ((c + i) % capacity) d
        ≡ get_or items ((c + i) % capacity) d
  get_or-set_elsewhere k i hk hi ne =
      get_or-set_ne items ((c + k) % capacity) ((c + i) % capacity) v d
        (λ e. ne (index_injective c k i capacity hk hi e))
