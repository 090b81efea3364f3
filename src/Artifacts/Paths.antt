-- ===== src/Artifacts/Paths.antt =====
-- The paths of utterance files: each utterance has its own, and it fits where the directory's name
-- is short enough.
use shiori.Base.{
  ℕ, zero, suc, ◌+◌, ◌-◌, ◌*◌, ◌^◌, ◌≤◌, ◌<◌, ◌≡◌, ◌↔◌, refl, sym, ap, ◌∙◌, false, List, [], ◌∷◌,
  ◌++◌, append_assoc, arith, length, drop, take, length-take, take_all, drop-append, length-append,
  length-replicate, replicate, dec_lt, le→leb, lt→leb,
}
use shiori.Status.{ok, err_io}
use shiori.Text.{bytes, is_digit, print_nat, parse_digits}
use shiori.Text.Decimal.{AllDigits, print_nat-AllDigits, parse_digits-print_nat, length-print_nat}
use shiori.Config.{Config}
use shiori.Artifacts.{zero_pad, artifact_path, build_artifact_path, wav_path_max}

parse_digits-append :
    (acc : ℕ) (s : List ℕ) (c : ℕ) (t : List ℕ)
    → AllDigits s
    → is_digit c ≡ false
    → parse_digits acc (s ++ c ∷ t) ≡ parse_digits acc s
unfolding parse_digits
parse_digits-append acc [] c t h stop = rw stop refl
parse_digits-append acc (x ∷ s) c t h stop =
    rw h.0 (parse_digits-append (acc * 10 + (x - b'0')) s c t h.1 stop)

parse_digits-zeros :
    (k : ℕ) (s : List ℕ) → parse_digits 0 (replicate k b'0' ++ s) ≡ parse_digits 0 s
unfolding parse_digits
parse_digits-zeros zero s = refl
parse_digits-zeros (suc k) s = parse_digits-zeros k s

AllDigits-zeros : (k : ℕ) (s : List ℕ) → AllDigits s → AllDigits (replicate k b'0' ++ s)
AllDigits-zeros zero s h = h
AllDigits-zeros (suc k) s h = (refl, AllDigits-zeros k s h)

-- The number that stands behind the directory and "/utterance-".
read_id : List ℕ → List ℕ → ℕ
read_id runtime_dir path = parse_digits 0 (drop (length runtime_dir + 11) path)

read_id-artifact_path :
    (runtime_dir : List ℕ) (n : ℕ) → read_id runtime_dir (artifact_path runtime_dir n) ≡ n
unfolding read_id artifact_path zero_pad
read_id-artifact_path runtime_dir n =
    let digits = print_nat (suc n) n in
    let padded = replicate (20 - length digits) b'0' ++ digits in
    ap (λ l. parse_digits 0 (drop (length runtime_dir + 11) l))
      (sym (append_assoc runtime_dir (bytes "/utterance-") (padded ++ bytes ".wav")))
    ∙ (ap (parse_digits 0) (
          drop-append (length runtime_dir + 11) (runtime_dir ++ bytes "/utterance-")
            (padded ++ bytes ".wav") (sym (length-append runtime_dir (bytes "/utterance-"))))
        ∙ (parse_digits-append 0 padded b'.' (bytes "wav")
              (AllDigits-zeros (20 - length digits) digits (print_nat-AllDigits (suc n) n)) refl
            ∙ (parse_digits-zeros (20 - length digits) digits
                ∙ parse_digits-print_nat (suc n) n (omega arith))))

build-fits :
    (c : Config) (n : ℕ)
    → length (artifact_path c.runtime_dir n) < 512
    → build_artifact_path c n wav_path_max ≡ (ok, artifact_path c.runtime_dir n)
unfolding build_artifact_path
build-fits c n short =
    let path = artifact_path c.runtime_dir n in
    rw (lt→leb 512 (length path) short) (ap (λ l. (ok, l)) (take_all 511 path (omega arith)))

build-over :
    (c : Config) (n : ℕ)
    → 512 ≤ length (artifact_path c.runtime_dir n)
    → build_artifact_path c n wav_path_max ≡ (err_io, take 511 (artifact_path c.runtime_dir n))
unfolding build_artifact_path
build-over c n long = rw (le→leb 512 (length (artifact_path c.runtime_dir n)) long) refl

build_artifact_path-path :
    (c : Config) (n : ℕ)
    → (build_artifact_path c n wav_path_max).0 ≡ ok
    → (build_artifact_path c n wav_path_max).1 ≡ artifact_path c.runtime_dir n
build_artifact_path-path c n h = elim (dec_lt (length (artifact_path c.runtime_dir n)) 512) [
  | yes short ↦ ap (λ r. r.1) (build-fits c n short)
  | no long ↦ cc (h, ap (λ r. r.0) (build-over c n (omega arith)))
]

-- Two utterances whose numbers differ get different paths, where a path is built for both.
pub build_artifact_path_injective :
    (c : Config) (n m : ℕ)
    → (build_artifact_path c n wav_path_max).0 ≡ ok
    → (build_artifact_path c m wav_path_max).0 ≡ ok
    → (build_artifact_path c n wav_path_max).1 ≡ (build_artifact_path c m wav_path_max).1
    → n ≡ m
build_artifact_path_injective c n m hn hm e =
    sym (read_id-artifact_path c.runtime_dir n)
    ∙ (ap (read_id c.runtime_dir)
          (sym (build_artifact_path-path c n hn) ∙ (e ∙ build_artifact_path-path c m hm))
        ∙ read_id-artifact_path c.runtime_dir m)

-- The number takes twenty digits, as every `uint64_t` does.
length-artifact_path :
    (runtime_dir : List ℕ) (n : ℕ)
    → n < 2 ^ 64
    → length (artifact_path runtime_dir n) ≡ length runtime_dir + 35
unfolding artifact_path zero_pad
length-artifact_path runtime_dir n h =
    let digits = print_nat (suc n) n in
    let padded = replicate (20 - length digits) b'0' ++ digits in
    omega (
      arith,
      length-append runtime_dir (bytes "/utterance-" ++ (padded ++ bytes ".wav")),
      length-append (bytes "/utterance-") (padded ++ bytes ".wav"),
      length-append padded (bytes ".wav"),
      length-append (replicate (20 - length digits) b'0') digits,
      length-replicate {A = ℕ} (20 - length digits) b'0',
      length-print_nat 19 (suc n) n (omega arith),
    )

-- A path is built for every utterance, or for none: it depends on the directory alone, whose name
-- may have up to 476 bytes. What is built fits its array.
pub build_artifact_path-ok_iff :
    (c : Config) (n : ℕ)
    → n < 2 ^ 64
    → (((build_artifact_path c n wav_path_max).0 ≡ ok) ↔ (length c.runtime_dir ≤ 476))
      × (length (build_artifact_path c n wav_path_max).1 ≤ 511)
build_artifact_path-ok_iff c n h =
    let long = length-artifact_path c.runtime_dir n h in
    elim (dec_lt (length (artifact_path c.runtime_dir n)) 512) [
      | yes short ↦ rw (build-fits c n short) ((λ e. omega arith, λ e. refl), omega arith)
      | no over ↦ rw (build-over c n (omega arith)) (
        (λ e. cc e, λ e. absurd (omega arith)),
        omega (arith, length-take 511 (artifact_path c.runtime_dir n)),
      )
    ]
