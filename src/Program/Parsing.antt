-- ===== src/Program/Parsing.antt =====
-- The arguments of main.c, read back from what a user means by them.
use shiori.Base.{◌≡◌, refl, ◌∙◌, ℕ, Bool, true, List, [], ◌∷◌, ◌++◌}
use shiori.Status.{ok}
use shiori.Text.{bytes, str_equal}
use shiori.Program.{proceed, leave, parse_arguments}

-- An option of the usage text, but for `--help`.
pub data Choice : Type 0 where
  config_from : List ℕ → Choice
  in_foreground : Choice

abbrev pub spell : List Choice → List (List ℕ)
spell [] = []
spell (config_from path ∷ choices) = bytes "--config" ∷ path ∷ spell choices
spell (in_foreground ∷ choices) = bytes "--foreground" ∷ spell choices

-- The last path counts, and one `--foreground` is enough.
abbrev pub chosen_path : List ℕ → List Choice → List ℕ
chosen_path path [] = path
chosen_path path (config_from p ∷ choices) = chosen_path p choices
chosen_path path (in_foreground ∷ choices) = chosen_path path choices

abbrev pub chosen_foreground : Bool → List Choice → Bool
chosen_foreground foreground [] = foreground
chosen_foreground foreground (config_from p ∷ choices) = chosen_foreground foreground choices
chosen_foreground foreground (in_foreground ∷ choices) = chosen_foreground true choices

parse_foreground :
    (path : List ℕ) (foreground : Bool) (arguments : List (List ℕ))
    → parse_arguments path foreground (bytes "--foreground" ∷ arguments)
      ≡ parse_arguments path true arguments
unfolding parse_arguments str_equal
parse_foreground path foreground [] = refl
parse_foreground path foreground (a ∷ arguments) = refl

parse_help :
    (path : List ℕ) (foreground : Bool) (arguments : List (List ℕ))
    → parse_arguments path foreground (bytes "--help" ∷ arguments) ≡ leave ok
unfolding parse_arguments str_equal
parse_help path foreground [] = refl
parse_help path foreground (a ∷ arguments) = refl

-- The arguments that spell any choices, in any order and number, are read as those choices, whatever
-- the paths are; and with `--help` after them, whatever follows, the program ends with ASSISTANTD_OK.
pub parse_arguments-spell :
    (choices : List Choice) (path : List ℕ) (foreground : Bool) (others : List (List ℕ))
    → (parse_arguments path foreground (spell choices)
        ≡ proceed (chosen_path path choices) (chosen_foreground foreground choices))
      × (parse_arguments path foreground (spell choices ++ (bytes "--help" ∷ others)) ≡ leave ok)
unfolding parse_arguments str_equal
parse_arguments-spell [] path foreground others = (refl, parse_help path foreground others)
parse_arguments-spell (config_from p ∷ choices) path foreground others =
    parse_arguments-spell choices p foreground others
parse_arguments-spell (in_foreground ∷ choices) path foreground others =
    let (alone, helped) = parse_arguments-spell choices path true others in
    (
      parse_foreground path foreground (spell choices) ∙ alone,
      parse_foreground path foreground (spell choices ++ (bytes "--help" ∷ others)) ∙ helped,
    )
