-- ===== src/Stt/Tests.antt =====
-- Runs of stt_adapter.c, and its theorems at concrete inputs.
use shiori.Base.{ℕ, ◌≡◌, refl, some, List, [], ◌∷◌, ◌++◌, arith, take, memcpy}
use shiori.Status.{ok}
use shiori.Text.{bytes, skip_space, trim_end}
use shiori.Utterance.Samples.{plenty, plenty_sized, plenty_kept, plenty_memory}
use shiori.Stt.{
  ResponseBuffer, double_until, put_bytes, receive, write_callback, Json, parse_json_response,
  copy_span,
}
use shiori.Stt.Buffer.{IsValid, text, write_callback_lem}

-- The buffer that `transcribe` starts with.
abbrev empty : ResponseBuffer
empty = record { block = 0 ∷ []; size = 0; capacity = 1 }

empty-IsValid : IsValid empty
empty-IsValid = record { sized = refl; fits = omega arith; small = omega arith; ended = refl }

callback_grows :
    write_callback plenty 0 empty (some (bytes "abc")) 1 3
    ≡ some (3, (record { block = 97 ∷ 98 ∷ 99 ∷ 0 ∷ []; size = 3; capacity = 4 }, 1))
unfolding write_callback receive put_bytes double_until memcpy
callback_grows = refl

write_callback_lem_example :
    (b' : ResponseBuffer) × (w' : ℕ) × (write_callback plenty 0 empty (some (bytes "abc")) 1 3
      ≡ some (3, (b', w')))
    × IsValid b'
    × (text b' ≡ text empty ++ take 3 (bytes "abc"))
write_callback_lem_example =
    write_callback_lem plenty plenty_sized plenty_kept plenty_memory 0 empty (bytes "abc") 1 3
      empty-IsValid (omega arith) (omega arith)

-- A parser whose tree is the whole response, which is the text.
abbrev plain : Json
plain = record { Root = List ℕ; parse = λ raw. some raw; text_item = λ root. some root }

plain_parses : parse_json_response plain (some (bytes " hello \n")) 5 ≡ (ok, some (bytes "hell"))
unfolding parse_json_response copy_span skip_space trim_end
plain_parses = refl
