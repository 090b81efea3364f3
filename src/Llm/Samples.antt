-- ===== src/Llm/Samples.antt =====
-- A small JSON for the tests.
use shiori.Base.{ℕ, true, none, some, List, [], ◌∷◌, ◌++◌}
use shiori.Llm.{Cjson}

-- An item is its text: an object prints as what was added to it, and the response is the content.
abbrev pub flat : Cjson
flat = record {
  Item = List ℕ;
  create_object = some [];
  add_string = λ item key value. item ++ (key ++ (b'=' ∷ value));
  add_array = λ item key. some (item ++ key);
  add_item_to_array = λ item key child. elim child [ none ↦ item | some c ↦ item ++ c ];
  add_number = λ item key value. item ++ (key ++ value);
  print_unformatted = λ item. some item;
  parse = λ raw. some raw;
  get_object_item = λ item key. item;
  is_array = λ item. true;
  get_array_size = λ item. 1;
  get_array_item = λ item n. item;
  string_value = λ item. item;
}
