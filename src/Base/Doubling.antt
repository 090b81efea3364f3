-- ===== src/Base/Doubling.antt =====
-- The arithmetic of buffers that double until they are large enough.
use native.Mathlib.Nat.{pow-suc}
use native.Mathlib.Omega.{arith}
use Prim.Native.Nat.{ℕ, suc, ◌*◌, ◌%◌, ◌^◌, ◌≤◌, ◌<◌}
use mathlib.Core.Path.{◌≡◌}
use shiori.Base.Memory.{size_mod}

pub double_mod : (c required : ℕ) → c < required → required ≤ 2 ^ 63 → c * 2 % size_mod ≡ c * 2
double_mod c required more small = ground arith

pub reach_next : (c required fuel : ℕ) → required ≤ c * 2 ^ suc fuel → required ≤ c * 2 * 2 ^ fuel
reach_next c required fuel h = product c (2 ^ fuel) (rw pow-suc at h)
  where
    product : (c p : ℕ) → required ≤ c * (p * 2) → required ≤ c * 2 * p
    product c p h = omega arith
