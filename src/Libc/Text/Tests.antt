-- ===== src/Libc/Text/Tests.antt =====
-- Searches in short strings.
use camellia.Base.{ℕ, ◌≡◌, refl, text, ◌∷◌, ◌++◌, get_or, none, some, neg}
use camellia.Libk.Mem.{memcmp, strlen}
use camellia.Libc.Text.{
  strchr, strrchr, strrchr_from, strspn, strcspn, span, strncmp, strstr, strstr_from,
}

-- "abca" at 0, "ca" at 5, and then more
abbrev line : ℕ → ℕ
line a = get_or (text "abca" ++ (0 ∷ text "ca") ++ (0 ∷ text "z")) a 0

finds :
    (strchr line 9 0 b'c' ≡ some (some 2))
    × (strchr line 9 0 b'x' ≡ some none)
    × (strspn line 9 0 5 ≡ some 1)
    × (strcspn line 9 0 5 ≡ some 0)
    × (strstr line 9 0 5 ≡ some (some 2))
unfolding strchr strspn strcspn span strstr strstr_from memcmp strlen
finds = (refl, refl, refl, refl, refl)

-- strrchr looks at the byte behind the end, and strncmp goes on there.
past_the_end : (strrchr line 9 5 b'z' ≡ some (some 8)) × (strncmp line 4 7 2 ≡ neg 1)
unfolding strrchr strrchr_from strncmp strlen
past_the_end = (refl, refl)
