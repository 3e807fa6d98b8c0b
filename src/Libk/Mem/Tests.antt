-- ===== src/Libk/Mem/Tests.antt =====
-- Copies and fills of a few bytes.
use camellia.Base.{ℕ, ◌≡◌, refl, List, [], ◌∷◌, map, none, some, neg}
use camellia.Libk.Mem.{
  memmove, memcpy, backward, align, words, bytes, byte_step, word_step, memset, fill_from,
  fill_bytes, fill_word, memcmp, memchr, strlen,
}
use camellia.Libk.Mem.Move.{Moved, memmove-Moved}

-- each byte is its address
abbrev line : ℕ → ℕ
line a = a

abbrev from_six : List ℕ
from_six = 6 ∷ 7 ∷ 8 ∷ 9 ∷ 10 ∷ 17 ∷ 18 ∷ []

moves :
    (map (memmove line 6 7 11) from_six ≡ 7 ∷ 8 ∷ 9 ∷ 10 ∷ 11 ∷ 17 ∷ 18 ∷ [])
    × (map (memmove line 7 6 11) from_six ≡ 6 ∷ 6 ∷ 7 ∷ 8 ∷ 9 ∷ 16 ∷ 18 ∷ [])
    × (map (memset line 7 258 10) from_six ≡ 6 ∷ 2 ∷ 2 ∷ 2 ∷ 2 ∷ 17 ∷ 18 ∷ [])
unfolding memmove memcpy backward align words bytes byte_step word_step memset fill_from fill_bytes
    fill_word
moves = (refl, refl, refl)

compares :
    (memcmp line 4 5 3 ≡ neg 1) × (memchr line 4 262 5 ≡ some 6) × (strlen 5 (λ a. 3) 0 ≡ none)
unfolding memcmp memchr strlen
compares = (refl, refl, refl)

memmove-Moved_example : Moved line (memmove line 7 6 11) 7 6 11
memmove-Moved_example = memmove-Moved line 7 6 11
