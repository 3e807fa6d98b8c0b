-- ===== src/Libc/Text.antt =====
-- src/libc/string/basic.c. Memory is a function from addresses to bytes, and a character is a byte. A
-- function that reads up to a NUL byte has fuel for the characters before it, and is `none` without it.
mod Tests
use camellia.Base.{
  ℕ, zero, suc, ◌+◌, ◌-◌, ◌%◌, Bool, true, false, ◌&&◌, ◌||◌, not, Option, none, some, ℤ, pos, neg,
  ltb, leb, ◌==◌, if◌then◌else◌,
}
use camellia.Libk.Mem.{write_byte, memcmp, strlen}

module _ (mem : ℕ → ℕ) where
  -- strchr: the address, or NULL
  unfoldable pub strchr : (fuel s c : ℕ) → Option (Option ℕ)
  strchr zero s c = none
  strchr (suc fuel) s c =
      let rest = strchr fuel (s + 1) c in
      if not (mem s == 0) || c == 0 then (if mem s == c then some (some s) else rest) else some none

  -- the loop of strrchr, with `n` indices to go
  unfoldable pub strrchr_from : (n s c : ℕ) → Option ℕ
  strrchr_from zero s c = none
  strrchr_from (suc n) s c =
      let rest = strrchr_from n s c in if mem (s + n) == c then some (s + n) else rest

  -- strrchr: it starts at the index strlen(s) + 1
  unfoldable pub strrchr : (fuel s c : ℕ) → Option (Option ℕ)
  strrchr fuel s c = elim (strlen fuel mem s) [
    | none ↦ none
    | some n ↦ some (strrchr_from (n + 2) s c)
  ]

  -- whether strchr finds a character
  abbrev found : Option (Option ℕ) → Bool
  found (some (some a)) = true
  found _ = false

  -- strspn (`wanted`) and strcspn (not); a set of characters has at most `fuel` ones, too
  unfoldable pub span : (wanted : Bool) (fuel s set l n : ℕ) → Option ℕ
  span wanted fuel s set l zero = none
  span wanted fuel s set l (suc n) =
      let rest = span wanted fuel s set (l + 1) n in
      let hit = found (strchr fuel set (mem (s + l))) in
      if not (mem (s + l) == 0) && (if wanted then hit else not hit) then rest else some l

  unfoldable pub strspn : (fuel s accept : ℕ) → Option ℕ
  strspn fuel s accept = span true fuel s accept 0 fuel

  unfoldable pub strcspn : (fuel s reject : ℕ) → Option ℕ
  strcspn fuel s reject = span false fuel s reject 0 fuel

  unfoldable pub strpbrk_from : (n fuel s1 s2 : ℕ) → Option (Option ℕ)
  strpbrk_from zero fuel s1 s2 = none
  strpbrk_from (suc n) fuel s1 s2 =
      let rest = strpbrk_from n fuel (s1 + 1) s2 in
      if mem s1 == 0
      then some none
      else if found (strchr fuel s2 (mem s1))
      then some (some s1)
      else rest

  unfoldable pub strpbrk : (fuel s1 s2 : ℕ) → Option (Option ℕ)
  strpbrk fuel s1 s2 = strpbrk_from fuel fuel s1 s2

  -- a `char` is signed
  abbrev below : (a b : ℕ) → Bool
  below a b = ltb ((a + 128) % 256) ((b + 128) % 256)

  unfoldable pub strncmp : (s1 s2 n : ℕ) → ℤ
  strncmp s1 s2 zero = pos 0
  strncmp s1 s2 (suc n) =
      let rest = strncmp (s1 + 1) (s2 + 1) n in
      if below (mem s1) (mem s2) then neg 1 else if below (mem s2) (mem s1) then pos 1 else rest

  abbrev is_same : ℤ → Bool
  is_same (pos zero) = true
  is_same _ = false

  -- the loop of strstr, with `n` of the places that it can be at
  unfoldable pub strstr_from : (n s1 s2 l2 : ℕ) → Option ℕ
  strstr_from zero s1 s2 l2 = none
  strstr_from (suc n) s1 s2 l2 =
      let rest = strstr_from n (s1 + 1) s2 l2 in
      if is_same (memcmp mem s1 s2 l2) then some s1 else rest

  -- strstr
  unfoldable pub strstr : (fuel s1 s2 : ℕ) → Option (Option ℕ)
  strstr fuel s1 s2 = elim (strlen fuel mem s1) [
    | none ↦ none
    | some l1 ↦ elim (strlen fuel mem s2) [
      | none ↦ none
      | some l2 ↦ some (strstr_from (l1 + 1 - l2) s1 s2 l2)
    ]
  ]

  unfoldable pub strnlen : (s len : ℕ) → ℕ
  strnlen s zero = 0
  strnlen s (suc len) = let rest = strnlen (s + 1) len in if mem s == 0 then 0 else rest + 1

-- strcpy: the memory with the copy
unfoldable pub strcpy : (fuel : ℕ) (mem : ℕ → ℕ) (s1 s2 : ℕ) → Option (ℕ → ℕ)
strcpy zero mem s1 s2 = none
strcpy (suc fuel) mem s1 s2 =
    let rest = strcpy fuel (write_byte mem s1 (mem s2)) (s1 + 1) (s2 + 1) in
    if mem s2 == 0 then some (write_byte mem s1 (mem s2)) else rest

-- strcat
unfoldable pub strcat : (fuel : ℕ) (mem : ℕ → ℕ) (dst src : ℕ) → Option (ℕ → ℕ)
strcat fuel mem dst src = elim (strlen fuel mem dst) [
  | none ↦ none
  | some n ↦ strcpy fuel mem (dst + n) src
]

-- the loop of strncpy, with `n` bytes to go: the memory, and the pointer that is returned
unfoldable pub strncpy_from : (n : ℕ) (mem : ℕ → ℕ) (dst at src : ℕ) → (ℕ → ℕ) × ℕ
strncpy_from zero mem dst at src = (mem, dst)
strncpy_from (suc n) mem dst at src =
    let mem' = write_byte mem at (mem src) in
    let rest = strncpy_from n mem' dst (at + 1) (src + 1) in
    if mem' at == 0 then (mem', at) else rest

unfoldable pub strncpy : (mem : ℕ → ℕ) (dst src n : ℕ) → (ℕ → ℕ) × ℕ
strncpy mem dst src n = strncpy_from n mem dst dst src

-- the end of strtok_r: the token at `s` ends at `end`
unfoldable pub end_token : (mem : ℕ → ℕ) (s end : ℕ) → (ℕ → ℕ) × Option ℕ × ℕ
end_token mem s end =
    if mem end == 0 then (mem, some s, end) else (write_byte mem end 0, some s, end + 1)

-- strtok_r from `s` on
unfoldable pub token_at :
    (fuel : ℕ) (mem : ℕ → ℕ) (s sep state : ℕ) → Option ((ℕ → ℕ) × Option ℕ × ℕ)
token_at fuel mem s sep state = elim (strspn mem fuel s sep) [
  | none ↦ none
  | some skipped ↦
      let begin = s + skipped in
      elim (mem begin == 0) [
        | true ↦ some (mem, none, state)
        | false ↦ elim (strcspn mem fuel begin sep) [
          | none ↦ none
          | some taken ↦ some (end_token mem begin (begin + taken))
        ]
      ]
]

-- strtok_r: the memory, the token and the state; strtok has the state in a variable
unfoldable pub strtok_r :
    (fuel : ℕ) (mem : ℕ → ℕ) (s : Option ℕ) (sep state : ℕ) → Option ((ℕ → ℕ) × Option ℕ × ℕ)
strtok_r fuel mem none sep state = token_at fuel mem state sep state
strtok_r fuel mem (some s) sep state = token_at fuel mem s sep state
