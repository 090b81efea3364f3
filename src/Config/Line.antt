-- ===== src/Config/Line.antt =====
-- One line `KEY=value` through the loop of `load_file`.
use shiori.Base.{
  ℕ, ◌+◌, ◌≤◌, ◌<◌, ◌≡◌, refl, sym, ap, ◌∙◌, false, List, [], ◌∷◌, ◌++◌, append_assoc, append-nil,
  arith, length, length-append, ◌==◌, if◌then◌else◌, Bool-cases, inl, inr,
}
use shiori.Text.{fgets, skip_space, trim_end, is_space}
use shiori.Text.Trim.{
  Without, Without-append, c_string-Without, split_at-append, fgets-line, trim_end-space,
  trim_end-append,
}
use shiori.Config.{Config, trim, set_key, set_pair, apply_cursor, apply_line, load_lines, entry}
use shiori.Config.Fuel.{load_lines_same}

-- The loop with the fuel of `load_file`.
abbrev pub load_all : Config → List ℕ → Config
load_all c file = (load_lines (length file) c file).0

-- A value that a line can carry: a C string on one line, with no space at its ends.
pub record IsClean (v : List ℕ) : Type 0 where
  pub no_nul : Without 0 v
  pub no_newline : Without b'\n' v
  pub no_lead : skip_space v ≡ v
  pub no_trail : trim_end v ≡ v

-- A key `x ∷ k`: it has no mark, and is not taken for a comment.
pub record IsKey (x : ℕ) (k : List ℕ) : Type 0 where
  pub no_nul : Without 0 (x ∷ k)
  pub no_newline : Without b'\n' (x ∷ k)
  pub no_equals : Without b'=' (x ∷ k)
  pub no_space : is_space x ≡ false
  pub no_comment : (x == b'#') ≡ false
  pub no_trail : trim_end k ≡ k

trim_end-cons :
    (c : ℕ) (v : List ℕ) → is_space c ≡ false → trim_end v ≡ v → trim_end (c ∷ v) ≡ c ∷ v
unfolding trim_end
trim_end-cons c [] e h = rw e
trim_end-cons c (d ∷ v) e h = rw h

skip_space-first : (x : ℕ) (s : List ℕ) → is_space x ≡ false → skip_space (x ∷ s) ≡ x ∷ s
unfolding skip_space
skip_space-first x s e = rw e

trim-first : (x : ℕ) (s : List ℕ) → is_space x ≡ false → trim (x ∷ s) ≡ x ∷ trim_end s
unfolding trim
trim-first x s e = rw (skip_space-first x s e, trim)

trim-key : (x : ℕ) (k : List ℕ) → is_space x ≡ false → trim_end k ≡ k → trim (x ∷ k) ≡ x ∷ k
trim-key x k e h = trim-first x k e ∙ ap (λ t. x ∷ t) h

-- A space at the front would have been skipped.
length-skip_space : (s : List ℕ) → length (skip_space s) ≤ length s
unfolding skip_space
length-skip_space [] = omega arith
length-skip_space (c ∷ s) = ground (arith, length-skip_space s)

first_of-trimmed : (c : ℕ) (s : List ℕ) → skip_space (c ∷ s) ≡ c ∷ s → is_space c ≡ false
unfolding skip_space
first_of-trimmed c s h = elim (Bool-cases (is_space c)) [
  | inl e ↦ absurd (longer (rw e at h))
  | inr e ↦ e
]
  where
    longer : skip_space s ≡ c ∷ s → ⊥
    longer h = omega (arith, length-skip_space s, ap (length {A = ℕ}) h)

tail_of_trimmed :
    (t : List ℕ) (c : ℕ) (s : List ℕ)
    → (elim t [ [] ↦ if is_space c then [] else c ∷ [] | (d ∷ r) ↦ c ∷ d ∷ r ]) ≡ c ∷ s
    → t ≡ s
tail_of_trimmed [] c s h = ground arith
tail_of_trimmed (d ∷ r) c s h = cc

tail-trimmed : (c : ℕ) (s : List ℕ) → trim_end (c ∷ s) ≡ c ∷ s → trim_end s ≡ s
unfolding trim_end
tail-trimmed c s h = tail_of_trimmed (trim_end s) c s h

trim-clean : (v : List ℕ) → IsClean v → trim v ≡ v
unfolding trim skip_space
trim-clean [] h = refl
trim-clean (c ∷ s) h = trim-key c s (first_of-trimmed c s h.no_lead) (tail-trimmed c s h.no_trail)

-- The cursor of the line of an entry.
trim-entry :
    (x : ℕ) (k v : List ℕ) → IsKey x k → IsClean v → trim (entry (x ∷ k) v) ≡ x ∷ (k ++ b'=' ∷ v)
trim-entry x k v hk hv =
    trim-first x (k ++ b'=' ∷ (v ++ b'\n' ∷ [])) hk.no_space
    ∙ ap (λ t. x ∷ t)
        (ap trim_end (sym (append_assoc k (b'=' ∷ v) (b'\n' ∷ [])))
          ∙ (trim_end-space (k ++ b'=' ∷ v) b'\n' refl
              ∙ trim_end-append k (b'=' ∷ v) (trim_end-cons b'=' v refl hv.no_trail) (λ e. cc)))

entry-Without :
    (c x : ℕ) (k v : List ℕ)
    → Without c (x ∷ k)
    → (b'=' == c) ≡ false
    → Without c v
    → Without c ((x ∷ k) ++ b'=' ∷ v)
entry-Without c x k v hk e hv = Without-append c (x ∷ k) (b'=' ∷ v) hk (e, hv)

set_pair-key :
    (c : Config) (x : ℕ) (k v : List ℕ)
    → IsKey x k
    → IsClean v
    → set_pair c (x ∷ (k ++ b'=' ∷ v)) ≡ set_key c (x ∷ k) v
unfolding set_pair
set_pair-key c x k v hk hv = rw (
  split_at-append b'=' (x ∷ k) v hk.no_equals,
  set_pair,
  trim-key x k hk.no_space hk.no_trail,
  trim-clean v hv,
)

apply_line-entry :
    (c : Config) (x : ℕ) (k v : List ℕ)
    → IsKey x k
    → IsClean v
    → apply_line c (entry (x ∷ k) v) ≡ set_key c (x ∷ k) v
unfolding apply_line apply_cursor
apply_line-entry c x k v hk hv =
    rw
      (
        c_string-Without (entry (x ∷ k) v) (
            Without-append 0 (x ∷ k) (b'=' ∷ (v ++ b'\n' ∷ [])) hk.no_nul
              (refl, Without-append 0 v (b'\n' ∷ []) hv.no_nul (refl, tt))),
        trim-entry x k v hk hv,
        apply_cursor,
        hk.no_comment,
      )
      (set_pair-key c x k v hk hv)

read-entry :
    (x : ℕ) (k v rest : List ℕ)
    → IsKey x k
    → IsClean v
    → length k + length v < 1021
    → fgets 1023 (entry (x ∷ k) v ++ rest) ≡ (entry (x ∷ k) v, rest)
read-entry x k v rest hk hv short =
    ap (fgets 1023) (
      ap (λ l. l ++ rest) (sym (append_assoc (x ∷ k) (b'=' ∷ v) (b'\n' ∷ [])))
      ∙ append_assoc ((x ∷ k) ++ b'=' ∷ v) (b'\n' ∷ []) rest)
    ∙ (fgets-line 1023 ((x ∷ k) ++ b'=' ∷ v) rest
          (entry-Without b'\n' x k v hk.no_newline refl hv.no_newline)
          (omega (arith, length-append (x ∷ k) (b'=' ∷ v)))
        ∙ ap (λ l. (l, rest)) (append_assoc (x ∷ k) (b'=' ∷ v) (b'\n' ∷ [])))

-- Loading a file that begins with an entry sets its key, and goes on with the rest.
pub load_all-entry :
    (c : Config) (x : ℕ) (k v rest : List ℕ)
    → IsKey x k
    → IsClean v
    → length k + length v < 1021
    → load_all c (entry (x ∷ k) v ++ rest) ≡ load_all (set_key c (x ∷ k) v) rest
unfolding load_lines
load_all-entry c x k v rest hk hv short =
    rw (read-entry x k v rest hk hv short, apply_line-entry c x k v hk hv)
      (ap (λ p. p.0)
        (load_lines_same (length (k ++ b'=' ∷ (v ++ b'\n' ∷ []) ++ rest)) (length rest)
          (set_key c (x ∷ k) v) rest
          (omega (arith, length-append (k ++ b'=' ∷ (v ++ b'\n' ∷ [])) rest)) (omega arith)))

-- The last line of a file.
pub load_all-last :
    (c : Config) (x : ℕ) (k v : List ℕ)
    → IsKey x k
    → IsClean v
    → length k + length v < 1021
    → load_all c (entry (x ∷ k) v) ≡ set_key c (x ∷ k) v
unfolding load_lines
load_all-last c x k v hk hv short =
    ap (load_all c) (sym (append-nil (entry (x ∷ k) v))) ∙ load_all-entry c x k v [] hk hv short
