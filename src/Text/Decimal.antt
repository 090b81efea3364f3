-- ===== src/Text/Decimal.antt =====
-- Printing an `int` with `%d` and reading it back with `atoi`.
use native.Mathlib.Nat.{pow-suc}
use shiori.Base.{
  ℕ, zero, suc, ◌+◌, ◌-◌, ◌*◌, ◌/◌, ◌%◌, ◌^◌, ◌≤◌, ◌<◌, ◌≡◌, ap, ◌∙◌, true, false, List, [], ◌∷◌,
  ◌++◌, arith, length, length-append, dec_lt, lt→ltb, le→ltb,
}
use shiori.Base.Int.{ℤ, pos, negsuc, ◌≤ℤ◌}
use shiori.Text.{
  is_digit, print_nat, print_int, parse_digits, parse_signed, clamp_long, to_int, skip_space, atoi,
}

abbrev pub AllDigits : List ℕ → Type 0
AllDigits [] = Unit
AllDigits (c ∷ s) = (is_digit c ≡ true) × AllDigits s

AllDigits-snoc : (s : List ℕ) (c : ℕ) → AllDigits s → is_digit c ≡ true → AllDigits (s ++ c ∷ [])
AllDigits-snoc [] c h d = (d, tt)
AllDigits-snoc (x ∷ s) c h d = (h.0, AllDigits-snoc s c h.1 d)

pub print_nat-AllDigits : (fuel n : ℕ) → AllDigits (print_nat fuel n)
unfolding print_nat
print_nat-AllDigits zero n = tt
print_nat-AllDigits (suc fuel) n = elim (dec_lt n 10) [
  | yes small ↦ rw (lt→ltb n 10 small) (ground arith, tt)
  | no big ↦ rw (le→ltb n 10 (omega arith)) (
      AllDigits-snoc (print_nat fuel (n / 10)) (b'0' + n % 10) (print_nat-AllDigits fuel (n / 10))
        (ground arith))
]

parse_digits-snoc :
    (acc : ℕ) (s : List ℕ) (c : ℕ)
    → AllDigits s
    → is_digit c ≡ true
    → parse_digits acc (s ++ c ∷ []) ≡ parse_digits acc s * 10 + (c - b'0')
unfolding parse_digits
parse_digits-snoc acc [] c h d = rw d
parse_digits-snoc acc (x ∷ s) c h d = rw h.0 (parse_digits-snoc (acc * 10 + (x - b'0')) s c h.1 d)

pub parse_digits-print_nat : (fuel n : ℕ) → n < fuel → parse_digits 0 (print_nat fuel n) ≡ n
unfolding parse_digits print_nat
parse_digits-print_nat zero n h = elim h [ ]
parse_digits-print_nat (suc fuel) n h = elim (dec_lt n 10) [
  | yes small ↦ rw (lt→ltb n 10 small) (ground arith)
  | no big ↦ rw (le→ltb n 10 (omega arith)) (
      ground (
        arith,
        parse_digits-snoc 0 (print_nat fuel (n / 10)) (b'0' + n % 10),
        print_nat-AllDigits fuel (n / 10),
        parse_digits-print_nat fuel (n / 10),
      ))
]

print_nat-pos : (fuel n : ℕ) → 0 < length (print_nat (suc fuel) n)
unfolding print_nat
print_nat-pos fuel n = elim (dec_lt n 10) [
  | yes small ↦ rw (lt→ltb n 10 small) (omega arith)
  | no big ↦
      rw (le→ltb n 10 (omega arith))
        (omega (arith, length-append (print_nat fuel (n / 10)) ((b'0' + n % 10) ∷ [])))
]

-- Digits carry no sign and no space.
parse_signed-digits :
    (s : List ℕ)
    → AllDigits s
    → 0 < length s
    → parse_signed (skip_space s) ≡ clamp_long false (parse_digits 0 s)
unfolding parse_signed skip_space
parse_signed-digits [] h ne = absurd (omega arith)
parse_signed-digits (c ∷ s) h ne = ground (arith, h.0)

to_int_small : (z : ℤ) → negsuc (2 ^ 31 - 1) ≤ℤ z → z ≤ℤ pos (2 ^ 31 - 1) → to_int z ≡ z
unfolding to_int
to_int_small (pos n) lo hi = ground arith
to_int_small (negsuc n) lo hi = ground arith

parse-print_int :
    (z : ℤ)
    → negsuc (2 ^ 31 - 1) ≤ℤ z
    → z ≤ℤ pos (2 ^ 31 - 1)
    → parse_signed (skip_space (print_int z)) ≡ z
unfolding print_int
parse-print_int (pos n) lo hi =
    parse_signed-digits (print_nat (suc n) n) (print_nat-AllDigits (suc n) n) (print_nat-pos n n)
    ∙ rw (parse_digits-print_nat (suc n) n (omega arith)) (unfold clamp_long in ground arith)
parse-print_int (negsuc n) lo hi =
    unfold skip_space parse_signed in
    rw (parse_digits-print_nat (suc (suc n)) (suc n) (omega arith))
      (unfold clamp_long in ground arith)

-- `atoi` reads back what `%d` prints of any `int`.
pub atoi-print_int :
    (z : ℤ) → negsuc (2 ^ 31 - 1) ≤ℤ z → z ≤ℤ pos (2 ^ 31 - 1) → atoi (print_int z) ≡ z
unfolding atoi
atoi-print_int z lo hi = ap to_int (parse-print_int z lo hi) ∙ to_int_small z lo hi

-- A number below a power of ten has few digits.
pub length-print_nat : (d fuel n : ℕ) → n < 10 ^ suc d → length (print_nat fuel n) ≤ suc d
unfolding print_nat
length-print_nat d zero n h = omega arith
length-print_nat zero (suc fuel) n h = rw (lt→ltb n 10 h) (omega arith)
length-print_nat (suc d) (suc fuel) n h = elim (dec_lt n 10) [
  | yes small ↦ rw (lt→ltb n 10 small) (omega arith)
  | no big ↦ rw (le→ltb n 10 (omega arith)) (
      omega (
        arith,
        length-append (print_nat fuel (n / 10)) ((b'0' + n % 10) ∷ []),
        length-print_nat d fuel (n / 10) (fewer n d (rw pow-suc at h)),
      ))
]
  where
    fewer : (n d : ℕ) → n < 10 ^ suc d * 10 → n / 10 < 10 ^ suc d
    fewer n d h = omega arith
