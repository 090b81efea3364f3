-- ===== src/Stt/Transcript.antt =====
-- What a transcript of stt_adapter.c is, and where its requests go.
use shiori.Base.{
  ℕ, zero, suc, ◌-◌, ◌<◌, ◌≡◌, ◌≢◌, refl, sym, ap, ◌∙◌, true, false, Bool-cases, Option-cases,
  Option, none, some, List, [], ◌∷◌, ◌++◌, arith, length, take, length-take, leb, ◌==◌, ne→eqb, inl,
  inr, ◌⊎◌, if◌then◌else◌, append_assoc,
}
use shiori.Status.{ok, err_io}
use shiori.Text.{bytes, is_space, skip_space, trim_end, copy_string}
use shiori.Stt.{
  Json, parse_json_response, copy_span, trim_span, build_inference_url, ends_with_slash,
}

-- What is left of a trimmed span starts with a byte that is no space.
Trimmed : List ℕ → Type 0
Trimmed span = (span ≡ []) ⊎ ((c : ℕ) × (rest : List ℕ) × (span ≡ c ∷ rest) × (is_space c ≡ false))

skip_space-Trimmed : (s : List ℕ) → Trimmed (skip_space s)
unfolding skip_space Trimmed
skip_space-Trimmed [] = inl refl
skip_space-Trimmed (c ∷ s) = elim (Bool-cases (is_space c)) [
  | inl space ↦ rw space (skip_space-Trimmed s)
  | inr byte ↦ inr (c, s, rw byte refl, byte)
]

trim_end-cons : (c : ℕ) (s : List ℕ) → is_space c ≡ false → trim_end (c ∷ s) ≡ c ∷ trim_end s
unfolding trim_end
trim_end-cons c s byte = closed (trim_end s)
  where
    closed :
        (t : List ℕ)
        → Path
            (List ℕ)
            (elim t [ [] ↦ if is_space c then [] else c ∷ [] | (d ∷ u) ↦ c ∷ d ∷ u ])
            (c ∷ t)
    closed [] = rw byte refl
    closed (d ∷ u) = refl

trim_span-Trimmed : (s : List ℕ) → Trimmed (trim_span s)
unfolding Trimmed
trim_span-Trimmed s = elim (skip_space-Trimmed s) [
  | inl e ↦ inl (ap trim_end e ∙ unfold trim_end in refl)
  | inr (c, rest, e, byte) ↦ inr (c, trim_end rest, ap trim_end e ∙ trim_end-cons c rest byte, byte)
]

-- A transcript of at most `size - 1` bytes, not empty, that starts with no space.
abbrev pub IsTranscript : ℕ → List ℕ → Type 0
IsTranscript size t = (t ≢ []) × (length t < size) × (skip_space t ≡ t)

copied-IsTranscript :
    (size n c : ℕ) (rest : List ℕ)
    → 0 < n
    → n < size
    → is_space c ≡ false
    → IsTranscript size (take n (c ∷ rest))
unfolding skip_space
copied-IsTranscript size zero c rest pos fits byte = absurd (omega arith)
copied-IsTranscript size (suc n) c rest pos fits byte =
    (λ h. cc h, omega (arith, length-take n rest), rw byte refl)

copy_span-IsTranscript :
    (size : ℕ) (span : List ℕ)
    → 1 < size
    → Trimmed span
    → (copy_span span size).0 ≡ ok
    → (t : List ℕ) × ((copy_span span size).1 ≡ some t) × IsTranscript size t
unfolding copy_span Trimmed
copy_span-IsTranscript size [] big shape e = cc e
copy_span-IsTranscript size (x ∷ span) big shape e =
    let n = if leb size (length (x ∷ span)) then size - 1 else length (x ∷ span) in
    let byte : is_space x ≡ false = elim shape [
      | inl empty ↦ cc empty
      | inr (c, rest, same, byte) ↦ ap is_space (first same) ∙ byte
    ] in
    (
      take n (x ∷ span),
      refl,
      copied-IsTranscript size n x span (copied_pos size (length span) big)
          (copied_fits size (length span) big) byte,
    )
  where
    first : {a b : ℕ} {s t : List ℕ} → Path (List ℕ) (a ∷ s) (b ∷ t) → a ≡ b
    first h = cc h

    copied_pos : (size n : ℕ) → 1 < size → 0 < (if leb size (suc n) then size - 1 else suc n)
    copied_pos size n big = ground arith

    copied_fits : (size n : ℕ) → 1 < size → (if leb size (suc n) then size - 1 else suc n) < size
    copied_fits size n big = ground arith

-- A response that is accepted gives a transcript that is not empty, fits its array with the NUL, and
-- starts with no space.
pub parse_json_response-ok :
    (json : Json) (raw : Option (List ℕ)) (size : ℕ)
    → 1 < size
    → (parse_json_response json raw size).0 ≡ ok
    → (t : List ℕ) × ((parse_json_response json raw size).1 ≡ some t) × IsTranscript size t
unfolding parse_json_response
parse_json_response-ok json none size big e = cc e
parse_json_response-ok json (some raw) size big e = elim (Option-cases (json.parse raw)) [
  | inl bad ↦ cc (e, ap (λ r. r.0) (unparsed bad))
  | inr (root, parsed) ↦ elim (Option-cases (json.text_item root)) [
    | inl missing ↦ cc (e, ap (λ r. r.0) (textless root parsed missing))
    | inr (text, found) ↦
        let same = copied root text parsed found in
        let (t, stored, fine) =
          copy_span-IsTranscript size (trim_span text) big (trim_span-Trimmed text)
            (ap (λ r. r.0) (sym same) ∙ e) in
        (t, ap (λ r. r.1) same ∙ stored, fine)
  ]
]
  where
    unparsed : json.parse raw ≡ none → parse_json_response json (some raw) size ≡ (err_io, none)
    unparsed bad = rw (ne→eqb size 0 (omega arith), bad) refl

    textless :
        (root : json.Root)
        → json.parse raw ≡ some root
        → json.text_item root ≡ none
        → parse_json_response json (some raw) size ≡ (err_io, none)
    textless root parsed missing = rw (ne→eqb size 0 (omega arith), parsed, missing) refl

    copied :
        (root : json.Root) (text : List ℕ)
        → json.parse raw ≡ some root
        → json.text_item root ≡ some text
        → parse_json_response json (some raw) size ≡ copy_span (trim_span text) size
    copied root text parsed found = rw (ne→eqb size 0 (omega arith), parsed, found) refl

ends_with_slash-snoc : (s : List ℕ) → ends_with_slash (s ++ b'/' ∷ []) ≡ true
ends_with_slash-snoc [] = refl
ends_with_slash-snoc (c ∷ []) = refl
ends_with_slash-snoc (c ∷ d ∷ s) = ends_with_slash-snoc (d ∷ s)

-- A base URL gives the same URL with and without a slash at its end.
pub build_inference_url_slash :
    (base_url : List ℕ) (size : ℕ)
    → ends_with_slash base_url ≡ false
    → build_inference_url (some base_url) size
      ≡ build_inference_url (some (base_url ++ b'/' ∷ [])) size
unfolding build_inference_url
build_inference_url_slash base_url size bare =
    rw (bare, ends_with_slash-snoc base_url)
      (ap (λ l. if size == 0 then none else some (copy_string size l))
        (sym (append_assoc base_url (b'/' ∷ []) (bytes "inference"))))
