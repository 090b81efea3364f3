-- ===== src/Capture/Reading.antt =====
-- The bounds of `assistantd_audio_capture_read`.
use shiori.Base.{
  ℕ, ◌≤◌, ◌≡◌, refl, arith, not, ◌||◌, Option, some, List, length, memcpy, length-memcpy, if_both,
  ◌==◌,
}
use shiori.Base.Int.{pos, pos_part, ltb_ℤ, eq_int}
use shiori.Status.{Status, ok, err_invalid_argument, err_io, err_child_process}
use shiori.Status.Flow.{case_ok_both}
use shiori.Os.{Os, is_retry}
use shiori.Os.Table.{Table}
use shiori.Os.Posix.{IsPosix}
use shiori.Capture.{Capture, reap_child, audio_capture_read}

-- The number of bytes is within the capacity and the buffer, and the buffer keeps its size.
pub record InBounds {W : Type 0} (buffer : List ℕ) (capacity : ℕ)
    (out : Status × ((Option (List ℕ) × ℕ) × (Capture × W))) : Type 0 where
  pub contents : List ℕ
  pub filled : out.1.0.0 ≡ some contents
  pub whole : length contents ≡ length buffer
  pub within : out.1.0.1 ≤ capacity

untouched-InBounds :
    {W : Type 0} (buffer : List ℕ) (capacity : ℕ) (status : Status) (state : Capture × W)
    → InBounds buffer capacity (status, ((some buffer, 0), state))
untouched-InBounds buffer capacity status state = record {
  contents = buffer;
  filled = refl;
  whole = refl;
  within = omega arith;
}

module _ {W : Type 0} (os : Os W) (files children : W → Table)
    (posix : IsPosix os files children) where
  -- A read into a buffer of at least the capacity stores no more than the capacity, and keeps the
  -- buffer's size. It is given what POSIX documents of `read`.
  pub audio_capture_read-InBounds :
      (w : W) (capture : Capture) (buffer : List ℕ) (capacity : ℕ)
      → capacity ≤ length buffer
      → InBounds buffer capacity (audio_capture_read os w capture (some buffer) capacity)
  unfolding audio_capture_read
  audio_capture_read-InBounds w capture buffer capacity room =
      let (r, w') = os.read w capture.stdout_fd capacity in
      let n = pos_part r.count in
      let (most, stored) = posix.read_stores w capture.stdout_fd capacity in
      let fits : n ≤ capacity = omega (arith, most) in
      let whole =
        length-memcpy buffer 0 r.data_read n (omega (arith, stored)) (omega (arith, fits, room)) in
      let reaped = reap_child os w' capture in
      let P = InBounds buffer capacity in
      let same : (status : Status) (state : Capture × W) → P (status, ((some buffer, 0), state)) =
        untouched-InBounds buffer capacity in
      if_both P (capacity == 0) _ _ (λ _. same err_invalid_argument (capture, w))
        (λ _.
          if_both P
            (not capture.active
              || ltb_ℤ capture.stdout_fd (pos 0)
              || not (ltb_ℤ (pos 0) capture.child_pid))
            _ _ (λ _. same err_child_process (capture, w))
            (λ _.
              if_both P (ltb_ℤ (pos 0) r.count) _ _
                (λ _. record {
                  contents = memcpy buffer 0 r.data_read n;
                  filled = refl;
                  whole = whole;
                  within = fits;
                })
                (λ _.
                  if_both P (eq_int r.count (pos 0)) _ _ (λ _. same err_child_process reaped.1)
                    (λ _.
                      if_both P (is_retry r.errno) _ _
                        (λ _. case_ok_both P reaped.0 _ _ (same ok reaped.1) (λ e. same e reaped.1))
                        (λ _. same err_io (capture, w'))))))
