-- ===== src/Libk/Mem.antt =====
-- src/libk/mem.c. Memory is a function from addresses to bytes; a word is eight bytes that
-- are read before they are written. `Copy` has the state of the loops of memcpy: the memory, the
-- pointers `d` and `s`, and the number `n` of bytes that are left.
pub mod Move
mod Tests
use camellia.Base.{
  ℕ, zero, suc, ◌+◌, ◌-◌, ◌*◌, ◌/◌, ◌%◌, ◌^◌, ◌<◌, not, Option, none, some, ℤ, pos, neg, Bool, true,
  false, ◌&&◌, ◌||◌, ltb, leb, ◌==◌, if◌then◌else◌,
}

-- the memory with the byte `b` at `a`
abbrev pub write_byte : (mem : ℕ → ℕ) (a b : ℕ) → ℕ → ℕ
write_byte mem a b x = if a == x then b else mem x

pub record Copy : Type 0 where
  pub mem : ℕ → ℕ
  pub d : ℕ
  pub s : ℕ
  pub n : ℕ

-- *(d.c)++ = *(s.c)++ and n--
unfoldable pub byte_step : Copy → Copy
byte_step c = record {
  mem = write_byte c.mem c.d (c.mem c.s);
  d = c.d + 1;
  s = c.s + 1;
  n = c.n - 1;
}

-- *(d.w)++ = *(s.w)++ and n -= 8
unfoldable pub word_step : Copy → Copy
word_step c = record {
  mem = λ a. if leb c.d a && ltb a (c.d + 8) then c.mem (c.s + (a - c.d)) else c.mem a;
  d = c.d + 8;
  s = c.s + 8;
  n = c.n - 8;
}

-- the first loop: single bytes up to a multiple of 8
unfoldable pub align : (fuel : ℕ) → Copy → Copy
align zero c = c
align (suc fuel) c =
    let rest = align fuel (byte_step c) in if c.d % 8 == 0 || c.n == 0 then c else rest

-- the second loop: words
unfoldable pub words : (fuel : ℕ) → Copy → Copy
words zero c = c
words (suc fuel) c = let rest = words fuel (word_step c) in if ltb c.n 8 then c else rest

-- the third loop: the bytes that are left
unfoldable pub bytes : (fuel : ℕ) → Copy → Copy
bytes zero c = c
bytes (suc fuel) c = let rest = bytes fuel (byte_step c) in if c.n == 0 then c else rest

-- memcpy; each loop has one unit of fuel for each byte
unfoldable pub memcpy : (mem : ℕ → ℕ) (dest src n : ℕ) → (ℕ → ℕ)
memcpy mem dest src n =
    if dest == src
    then mem
    else (bytes n (words n (align n (record { mem = mem; d = dest; s = src; n = n })))).mem

-- the loop of memmove that copies from the end
unfoldable pub backward : (mem : ℕ → ℕ) (dest src n : ℕ) → (ℕ → ℕ)
backward mem dest src zero = mem
backward mem dest src (suc n) = backward (write_byte mem (dest + n) (mem (src + n))) dest src n

-- memmove
unfoldable pub memmove : (mem : ℕ → ℕ) (dest src n : ℕ) → (ℕ → ℕ)
memmove mem dest src n =
    if leb dest src || ltb (src + n) dest then memcpy mem dest src n else backward mem dest src n

-- memchr: the address of the byte
unfoldable pub memchr : (mem : ℕ → ℕ) (s c n : ℕ) → Option ℕ
memchr mem s c zero = none
memchr mem s c (suc n) =
    let rest = memchr mem (s + 1) c n in if mem s == c % 256 then some s else rest

-- memcmp
unfoldable pub memcmp : (mem : ℕ → ℕ) (s1 s2 n : ℕ) → ℤ
memcmp mem s1 s2 zero = pos 0
memcmp mem s1 s2 (suc n) =
    let rest = memcmp mem (s1 + 1) (s2 + 1) n in
    if mem s1 == mem s2 then rest else if ltb (mem s1) (mem s2) then neg 1 else pos 1

-- *(d.w)++ = fill, lowest byte first
unfoldable pub fill_word : (mem : ℕ → ℕ) (d fill : ℕ) → (ℕ → ℕ)
fill_word mem d fill a = if leb d a && ltb a (d + 8) then fill / 256 ^ (a - d) % 256 else mem a

-- the last loop of memset
unfoldable pub fill_bytes : (mem : ℕ → ℕ) (d c n : ℕ) → (ℕ → ℕ)
fill_bytes mem d c zero = mem
fill_bytes mem d c (suc n) = fill_bytes (write_byte mem d (c % 256)) (d + 1) c n

-- the loop of memset over words, and then the last one; one unit of fuel for each byte
unfoldable pub fill_from : (fuel : ℕ) (mem : ℕ → ℕ) (d c fill n : ℕ) → (ℕ → ℕ)
fill_from zero mem d c fill n = fill_bytes mem d c n
fill_from (suc fuel) mem d c fill n =
    let rest = fill_from fuel (fill_word mem d fill) (d + 8) c fill (n - 8) in
    if ltb n 8 then fill_bytes mem d c n else rest

-- memset
unfoldable pub memset : (mem : ℕ → ℕ) (s c n : ℕ) → (ℕ → ℕ)
memset mem s c n = fill_from n mem s c (c % 256 * 72340172838076673 % 2 ^ 64) n

-- the comparison at the end of strcmp; a `char` is signed
unfoldable pub compare_chars : (a b : ℕ) → ℤ
compare_chars a b =
    if a == b then pos 0 else if ltb ((a + 128) % 256) ((b + 128) % 256) then neg 1 else pos 1

-- strcmp, on at most `fuel` characters; `none` is a string that has not ended there
unfoldable pub strcmp : (fuel : ℕ) (mem : ℕ → ℕ) (s1 s2 : ℕ) → Option ℤ
strcmp zero mem s1 s2 = none
strcmp (suc fuel) mem s1 s2 =
    let rest = strcmp fuel mem (s1 + 1) (s2 + 1) in
    if not (mem s1 == 0) && mem s1 == mem s2 then rest else some (compare_chars (mem s1) (mem s2))

-- strlen, on at most `fuel` characters
unfoldable pub strlen : (fuel : ℕ) (mem : ℕ → ℕ) (s : ℕ) → Option ℕ
strlen zero mem s = none
strlen (suc fuel) mem s =
    let rest = strlen fuel mem (s + 1) in
    if mem s == 0 then some 0 else elim rest [ none ↦ none | some n ↦ some (n + 1) ]
