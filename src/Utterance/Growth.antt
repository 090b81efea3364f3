-- ===== src/Utterance/Growth.antt =====
-- The doubling loop of the utterance buffer.
use shiori.Base.{
  reach_next, double_mod, ℕ, zero, suc, ◌*◌, ◌%◌, ◌^◌, ◌≤◌, ◌<◌, ◌≡◌, some, arith, dec_lt, size_mod,
}
use shiori.Utterance.{grow_capacity, growth_fuel}

-- What the loop returns is at least what is required, and fits `size_t`.
pub grow_capacity_bounds :
    (fuel c required n : ℕ)
    → c < size_mod
    → grow_capacity fuel c required ≡ some n
    → (required ≤ n) × (c ≤ n) × (n < size_mod)
unfolding grow_capacity
grow_capacity_bounds zero c required n h e = cc
grow_capacity_bounds (suc fuel) c required n h e = elim (dec_lt c required) [
  | no enough ↦ ground arith
  | yes more ↦
      let rest = grow_capacity_bounds fuel (c * 2 % size_mod) required n (omega arith) in
      ground arith
]

-- The loop finds a capacity where the size required is at most 2 ^ 63.
grow_capacity-some :
    (fuel c required : ℕ)
    → 0 < c
    → required ≤ 2 ^ 63
    → required ≤ c * 2 ^ fuel
    → (n : ℕ) × (grow_capacity (suc fuel) c required ≡ some n)
unfolding grow_capacity
grow_capacity-some zero c required pos small reach = (c, ground arith)
grow_capacity-some (suc fuel) c required pos small reach = elim (dec_lt c required) [
  | no enough ↦ (c, ground arith)
  | yes more ↦
      let (n, e) =
        grow_capacity-some fuel (c * 2) required (omega arith) small
          (reach_next c required fuel reach) in
      (n, ground (arith, e, double_mod c required more small))
]

pub grow_capacity_enough :
    (c required : ℕ)
    → 0 < c
    → required ≤ 2 ^ 63
    → (n : ℕ) × (grow_capacity growth_fuel c required ≡ some n)
grow_capacity_enough c required pos small = grow_capacity-some 64 c required pos small (omega arith)
