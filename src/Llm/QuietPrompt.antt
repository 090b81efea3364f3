-- ===== src/Llm/QuietPrompt.antt =====
-- The reading of the prompt in llm_adapter.c starts no child and leaves no pipe open.
use shiori.Base.{
  ℕ, zero, suc, ◌-◌, ◌++◌, not, Option, none, some, List, [], ◌∷◌, ◌==◌, ltb, length, if_both,
  option_both, Bool-cases, inl, inr, if◌then◌else◌,
}
use shiori.Base.Int.{pos, eq_int}
use shiori.Status.{Status, ok, err_io, err_config}
use shiori.Os.Table.{Table}
use shiori.Os.Posix.{Quiet, Quiet-refl, Quiet-trans}
use shiori.Llm.{Files, fill_prompt, load_system_prompt}

-- Each call on the prompt's file leaves the two sets as they are.
pub record IsQuietFiles {W : Type 0} (files children : W → Table) (access : Files W) : Type 0 where
  pub fopen_quiet : (w : W) (path : List ℕ) → Quiet files children w (access.fopen w path).1
  pub fread_quiet : (w : W) (file : _) (n : ℕ) → Quiet files children w (access.fread w file n).1
  pub ferror_quiet : (w : W) (file : _) → Quiet files children w (access.ferror w file).1
  pub fclose_quiet : (w : W) (file : _) → Quiet files children w (access.fclose w file)

module _ {W : Type 0} (open_files children : W → Table) (files : Files W)
    (quiet_files : IsQuietFiles open_files children files) where
  -- From a world before it.
  abbrev From : W → W → Type 0
  From w0 w = Quiet open_files children w0 w

  abbrev then_quiet : {u v w : W} → From u v → From v w → From u w
  then_quiet {u} {v} {w} q r = Quiet-trans open_files children u v w q r

  abbrev same : (w : W) → From w w
  same w = Quiet-refl open_files children w

  abbrev FilledQuietly : W → Option (List ℕ × W) → Type 0
  FilledQuietly w none = From w w
  FilledQuietly w (some out) = From w out.1

  FilledQuietly-earlier :
      (u w : W) (o : Option (List ℕ × W)) → From u w → FilledQuietly w o → FilledQuietly u o
  FilledQuietly-earlier u w none q r = same u
  FilledQuietly-earlier u w (some out) q r = then_quiet q r

  fill_prompt-Quiet :
      (fuel : ℕ) (w : W) (file : files.File) (prompt : List ℕ)
      → FilledQuietly w (fill_prompt files fuel w file prompt)
  unfolding fill_prompt
  fill_prompt-Quiet zero w file prompt = same w
  fill_prompt-Quiet (suc fuel) w file prompt =
      let (got, w') = files.fread w file (4095 - length prompt) in
      let read = quiet_files.fread_quiet w file (4095 - length prompt) in
      elim (Bool-cases (ltb (length prompt) 4095)) [
        | inr full ↦ rw (full, fill_prompt) (same w)
        | inl room ↦
            rw (room, fill_prompt)
              (by_bytes got w' read (λ longer.
                FilledQuietly-earlier w w' (fill_prompt files fuel w' file longer) read
                  (fill_prompt-Quiet fuel w' file longer)))
      ]
    where
      by_bytes :
          (got : List ℕ) (w' : W)
          → From w w'
          → ((longer : List ℕ) → FilledQuietly w (fill_prompt files fuel w' file longer))
          → FilledQuietly w (elim got [
            | [] ↦ some (prompt, w')
            | c ∷ rest ↦ fill_prompt files fuel w' file (prompt ++ (c ∷ rest))
          ])
      by_bytes [] w' read rest_quiet = read
      by_bytes (c ∷ rest) w' read rest_quiet = rest_quiet (prompt ++ (c ∷ rest))

  pub load_system_prompt-Quiet :
      (w : W) (path : List ℕ) → From w (load_system_prompt files w path).1.1
  unfolding load_system_prompt
  load_system_prompt-Quiet w path =
      let After : Status × (List ℕ × W) → Type 0 = λ t. From w t.1.1 in
      let (opened, w1) = files.fopen w path in
      let begun = quiet_files.fopen_quiet w path in
      option_both After opened _ _ begun (λ file. filled file (fill_prompt files 4096 w1 file []) (
        FilledQuietly-earlier w w1 (fill_prompt files 4096 w1 file []) begun
          (fill_prompt-Quiet 4096 w1 file [])))
    where
      filled :
          (file : files.File) (o : Option (List ℕ × W))
          → FilledQuietly w o
          → let out : Status × (List ℕ × W) = elim o [
            | none ↦ (err_io, ([], (files.fopen w path).1))
            | some (prompt, w2) ↦
                let (failed, w3) = files.ferror w2 file in
                if not (eq_int failed (pos 0))
                then (err_io, (prompt, files.fclose w3 file))
                else if length prompt == 0
                then (err_config, (prompt, files.fclose w3 file))
                else (ok, (prompt, files.fclose w3 file))
          ] in
            From w out.1.1
      filled file none q = quiet_files.fopen_quiet w path
      filled file (some (prompt, w2)) q =
          let After : Status × (List ℕ × W) → Type 0 = λ t. From w t.1.1 in
          let (failed, w3) = files.ferror w2 file in
          let closed =
            then_quiet q
              (then_quiet (quiet_files.ferror_quiet w2 file) (quiet_files.fclose_quiet w3 file)) in
          if_both After (not (eq_int failed (pos 0))) _ _ (λ _. closed)
            (λ _. if_both After (length prompt == 0) _ _ (λ _. closed) (λ _. closed))
