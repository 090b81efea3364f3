-- ===== src/Llm/Prompt.antt =====
-- The reading of the system prompt ends, and fits its array.
use shiori.Base.{
  ℕ, zero, suc, ◌+◌, ◌-◌, ◌≤◌, ◌<◌, ◌≡◌, ◌≢◌, refl, arith, not, Option, some, List, [], ◌∷◌, ◌++◌,
  length, length-append, ltb, ltb→lt, ◌==◌, ◌⊎◌, inl, inr, Bool-cases, if_both, option_both,
}
use shiori.Base.Int.{pos, eq_int}
use shiori.Status.{Status, ok, err_io, err_config}
use shiori.Llm.{Files, system_prompt_max, fill_prompt, load_system_prompt}

-- The prompt fits its array with the NUL, and is not empty on success.
pub Loaded : {W : Type 0} → Status × (List ℕ × W) → Type 0
Loaded (status, (prompt, w)) = (length prompt < 4096) × ((status ≢ ok) ⊎ (0 < length prompt))

-- The loop has not run out of fuel.
pub Ended : {W : Type 0} → Option (List ℕ × W) → Type 0
Ended {W} out = (prompt : List ℕ) × (w : W) × (out ≡ some (prompt, w))

module _ {W : Type 0} (files : Files W)
    (at_most : (w : W) (file : files.File) (n : ℕ) → length (files.fread w file n).0 ≤ n) where
  -- The loop has ended, with a prompt that fits its array with the NUL.
  record Filled (out : Option (List ℕ × W)) : Type 0 where
    pub prompt : List ℕ
    pub world : W
    pub ended : out ≡ some (prompt, world)
    pub fits : length prompt < 4096

  Filled-Ended : {out : Option (List ℕ × W)} → Filled out → Ended out
  unfolding Ended
  Filled-Ended f = (f.prompt, f.world, f.ended)

  fill_prompt-Filled :
      (fuel : ℕ) (w : W) (file : files.File) (prompt : List ℕ)
      → 4096 ≤ length prompt + fuel
      → length prompt < 4096
      → Filled (fill_prompt files fuel w file prompt)
  unfolding fill_prompt
  fill_prompt-Filled zero w file prompt enough fits = absurd (omega (arith, enough, fits))
  fill_prompt-Filled (suc fuel) w file prompt enough fits =
      elim (Bool-cases (ltb (length prompt) 4095)) [
        | inr full ↦ record {
          prompt = prompt;
          world = w;
          ended = rw (full, fill_prompt) refl;
          fits = fits;
        }
        | inl room ↦
            rw (room, fill_prompt)
              (more (files.fread w file (4095 - length prompt)).0
                (files.fread w file (4095 - length prompt)).1
                (at_most w file (4095 - length prompt)) (ltb→lt (length prompt) 4095 room)
                (fill_prompt-Filled fuel))
      ]
    where
      more :
          (got : List ℕ) (w' : W)
          → length got ≤ 4095 - length prompt
          → length prompt < 4095
          → ((at : W) (f : files.File) (longer : List ℕ)
              → 4096 ≤ length longer + fuel
              → length longer < 4096
              → Filled (fill_prompt files fuel at f longer))
          → Filled (elim got [
            | [] ↦ some (prompt, w')
            | c ∷ rest ↦ fill_prompt files fuel w' file (prompt ++ (c ∷ rest))
          ])
      more [] w' most less rest_fills = record {
        prompt = prompt;
        world = w';
        ended = refl;
        fits = fits;
      }
      more (c ∷ rest) w' most less rest_fills =
          rest_fills w' file (prompt ++ (c ∷ rest))
            (omega (arith, length-append prompt (c ∷ rest), enough))
            (omega (arith, length-append prompt (c ∷ rest), most, less))

  load_system_prompt_lem : (w : W) (path : List ℕ) → Loaded (load_system_prompt files w path)
  unfolding load_system_prompt Loaded
  load_system_prompt_lem w path =
      option_both Loaded (files.fopen w path).0 _ _ (omega arith, inl (λ h. cc h))
        (λ file.
          let filled =
            fill_prompt-Filled 4096 (files.fopen w path).1 file [] (omega arith) (omega arith) in
          let (failed, w3) = files.ferror filled.world file in
          let bounded : (e : Status) → e ≢ ok → Loaded (e, (filled.prompt, files.fclose w3 file)) =
            λ e bad. (filled.fits, inl bad) in
          rw (filled.ended, load_system_prompt)
            (if_both Loaded (not (eq_int failed (pos 0))) _ _ (λ _. bounded err_io (λ h. cc h))
              (λ _.
                if_both Loaded (length filled.prompt == 0) _ _ (λ _. bounded err_config (λ h. cc h))
                  (λ ne. (filled.fits, inr (ground (arith, ne)))))))

  -- Where `fread` gives at most what it is asked for, the reading of the prompt ends: whatever the file
  -- holds, the loop ends by its own tests within the fuel that `load_system_prompt` gives it. The
  -- prompt fits its array with the NUL, and is not empty on success.
  pub load_system_prompt-Loaded :
      (w : W) (path : List ℕ)
      → ((file : files.File)
          → Ended (fill_prompt files system_prompt_max (files.fopen w path).1 file []))
        × Loaded (load_system_prompt files w path)
  load_system_prompt-Loaded w path = (
    (λ file.
        let filled =
          fill_prompt-Filled 4096 (files.fopen w path).1 file [] (omega arith) (omega arith) in
        Filled-Ended filled),
    load_system_prompt_lem w path,
  )
