-- ===== src/Utterance/Tests.antt =====
-- The utterance buffer of supervisor.c at concrete inputs.
use shiori.Base.{ℕ, ◌≡◌, ◌⊎◌, refl, none, some, List, [], ◌∷◌, ◌++◌, arith, take, memcpy}
use shiori.Status.{ok, err_io}
use shiori.Utterance.{Utterance, append_utterance_pcm, reserve, store, grow_capacity}
use shiori.Utterance.Samples.{plenty, plenty_sized, plenty_kept, plenty_memory}
use shiori.Utterance.Append.{IsValid, contents, append_utterance_pcm_lem, append_utterance_pcm-ok}

abbrev fresh : Utterance
fresh = record { pcm = none; size = 0; capacity = 0 }

fresh-IsValid : IsValid fresh
fresh-IsValid = ground arith

-- Three bytes in a block of four.
abbrev full : Utterance
full = record { pcm = some (1 ∷ 2 ∷ 3 ∷ 0 ∷ []); size = 3; capacity = 4 }

full-IsValid : IsValid full
full-IsValid = ground arith

abbrev more : List ℕ
more = 4 ∷ 5 ∷ 6 ∷ []

-- The block doubles to eight bytes.
append_doubles :
    append_utterance_pcm plenty 0 full (some more) 2
    ≡ (ok, (record { pcm = some (1 ∷ 2 ∷ 3 ∷ 4 ∷ 5 ∷ 0 ∷ 0 ∷ 0 ∷ []); size = 5; capacity = 8 }, 1))
unfolding append_utterance_pcm reserve store grow_capacity memcpy
append_doubles = refl

append_utterance_pcm_lem_example :
    let (status, (u', w')) = append_utterance_pcm plenty 0 full (some more) 2 in
    IsValid u'
    × ((status ≡ ok) × (contents u' ≡ contents full ++ take 2 more)
        ⊎ (status ≡ err_io) × (u' ≡ full))
append_utterance_pcm_lem_example =
    append_utterance_pcm_lem plenty plenty_sized plenty_kept 0 full more 2 full-IsValid
      (omega arith) (omega arith) (omega arith)

append_utterance_pcm-ok_example :
    let (status, (u', w')) = append_utterance_pcm plenty 0 fresh (some more) 3 in
    (status ≡ ok) × (contents u' ≡ contents fresh ++ take 3 more) × IsValid u'
append_utterance_pcm-ok_example =
    append_utterance_pcm-ok plenty plenty_sized plenty_kept 0 fresh more 3 plenty_memory
      fresh-IsValid (omega arith) (omega arith) (omega arith)
