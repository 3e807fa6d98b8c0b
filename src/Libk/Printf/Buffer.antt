-- ===== src/Libk/Printf/Buffer.antt =====
-- src/libk/printf.c: `vsnprintf`, whose `back` writes to a buffer in memory, and snprintf, which is the
-- same on its variable arguments.
use camellia.Base.Options.{◌>>=◌}
use mathlib.Core.Path.{fun_ext}
use native.Mathlib.Decide.{dec_le}
use camellia.Base.{
  ℕ, zero, suc, ◌+◌, ◌-◌, ◌%◌, ◌^◌, ◌<◌, ◌≤◌, ◌≡◌, ◌∙◌, ◌⊎◌, refl, sym, ap, List, [], ◌∷◌, ◌++◌,
  false, Option, none, some, ltb, ◌==◌, if◌then◌else◌, length, take, take-nil, is_empty,
  length-take, take_all, length-append, arith, min,
}
use camellia.Libk.Mem.{write_byte}
use camellia.Libk.Printf.{Arg}
use camellia.Libk.Printf.Directive.{printf_internal}
use camellia.Libk.Printf.Rendered.{rendered}
use camellia.Libk.Printf.Cache.{Sink}
use camellia.Libk.Printf.Agree.{printf_internal-rendered, printed}

-- the bytes from an address on
unfoldable pub write_bytes : (mem : ℕ → ℕ) (a : ℕ) → List ℕ → (ℕ → ℕ)
write_bytes mem a [] = mem
write_bytes mem a (b ∷ bs) = write_bytes (write_byte mem a b) (a + 1) bs

-- `ptrs` and the memory behind it
pub record Ptrs : Type 0 where
  pub mem : ℕ → ℕ
  pub pos : ℕ
  pub last : ℕ

unfoldable pub vsnprintf_backend : Ptrs → List ℕ → Ptrs
vsnprintf_backend p buf =
    let space = (p.last + 2 ^ 64 - p.pos) % 2 ^ 64 in
    let len = if ltb space (length buf) then space else length buf in
    let pos = (p.pos + len) % 2 ^ 64 in
    if p.pos == 0
    then p
    else record p { mem = write_byte (write_bytes p.mem p.pos (take len buf)) pos 0; pos = pos }

abbrev pub final : Ptrs × ℕ → Option ((ℕ → ℕ) × ℕ)
final (p, written) = some (p.mem, written)

-- the memory and the bits of the result
unfoldable pub vsnprintf :
    (mem : ℕ → ℕ) (str len : ℕ) → (fmt : List ℕ) → List Arg → Option ((ℕ → ℕ) × ℕ)
vsnprintf mem str len fmt args =
    printf_internal vsnprintf_backend
      (record { mem = mem; pos = str; last = (str + len + 2 ^ 64 - 1) % 2 ^ 64 }) fmt args
    >>= final

-- what `bs` leaves at the end of the buffer: the bytes that fit, and a NUL
abbrev pub stored : (mem : ℕ → ℕ) (a space : ℕ) → List ℕ → (ℕ → ℕ)
stored mem a space bs = write_byte (write_bytes mem a (take space bs)) (a + min space (length bs)) 0

-- the memory and the result that `out` leaves when it is printed
abbrev pub left_by : (mem : ℕ → ℕ) (str len : ℕ) → List ℕ → (ℕ → ℕ) × ℕ
left_by mem str len out =
    ((if is_empty out then mem else stored mem str (len - 1) out), length out % 2 ^ 32)

record Inside (p : Ptrs) : Type 0 where
  some_buffer : 0 < p.pos
  before : p.pos ≤ p.last
  below : p.last < 2 ^ 64

take-min : (n : ℕ) (bs : List ℕ) → take (min n (length bs)) bs ≡ take n bs
take-min n bs = elim (dec_le (length bs) n) [
  | yes h ↦
      let e : min n (length bs) ≡ length bs = omega arith in
      rw e (take_all bs (length bs) (omega arith) ∙ sym (take_all bs n h))
  | no h ↦ ap (λ k. take k bs) (omega arith)
]

take-append : (n : ℕ) (xs bs : List ℕ) → take n (xs ++ bs) ≡ take n xs ++ take (n - length xs) bs
take-append n [] bs = let e : n - 0 ≡ n = omega arith in rw (take-nil, e) refl
take-append zero (a ∷ xs) bs = let e : 0 - length (a ∷ xs) ≡ 0 = omega arith in rw e refl
take-append (suc n) (a ∷ xs) bs =
    ap (λ l. a ∷ l) (take-append n xs bs ∙ ap (λ k. take n xs ++ take k bs) (omega arith))

-- a call, while the buffer has room for its NUL
backend_lem :
    (p : Ptrs) (buf : List ℕ)
    → Inside p
    → vsnprintf_backend p buf ≡ record p {
      mem = stored p.mem p.pos (p.last - p.pos) buf;
      pos = p.pos + min (p.last - p.pos) (length buf);
    }
unfolding vsnprintf_backend
backend_lem p buf h =
    let n = p.last - p.pos in
    let room : (p.last + 2 ^ 64 - p.pos) % 2 ^ 64 ≡ n = omega (arith, h.before, h.below) in
    let fits : (if ltb n (length buf) then n else length buf) ≡ min n (length buf) = ground arith in
    let no_wrap : (p.pos + min n (length buf)) % 2 ^ 64 ≡ p.pos + min n (length buf) =
      omega (arith, h.before, h.below) in
    let not_null : (p.pos == 0) ≡ false = ground (arith, h.some_buffer) in
    rw (room, fits, no_wrap, not_null, take-min n buf) refl

write_bytes-append :
    (mem : ℕ → ℕ) (a : ℕ) (xs bs : List ℕ)
    → write_bytes mem a (xs ++ bs) ≡ write_bytes (write_bytes mem a xs) (a + length xs) bs
unfolding write_bytes
write_bytes-append mem a [] bs = ap (λ k. write_bytes mem k bs) (omega arith)
write_bytes-append mem a (b ∷ xs) bs =
    write_bytes-append (write_byte mem a b) (a + 1) xs bs
    ∙ ap (λ k. write_bytes (write_bytes (write_byte mem a b) (a + 1) xs) k bs) (omega arith)

-- the second write to an address counts
write_byte-twice :
    (mem : ℕ → ℕ) (a b c : ℕ) → write_byte (write_byte mem a b) a c ≡ write_byte mem a c
write_byte-twice mem a b c = fun_ext (λ x. ground arith)

-- the NUL of a call is overwritten by the next
nul_over :
    (mem : ℕ → ℕ) (a : ℕ) (bs : List ℕ)
    → write_byte (write_bytes (write_byte mem a 0) a bs) (a + length bs) 0
      ≡ write_byte (write_bytes mem a bs) (a + length bs) 0
unfolding write_bytes
nul_over mem a [] = let e : a + 0 ≡ a = omega arith in rw e (write_byte-twice mem a 0 0)
nul_over mem a (b ∷ bs) =
    ap (λ m. write_byte (write_bytes m (a + 1) bs) (a + length (b ∷ bs)) 0)
      (write_byte-twice mem a 0 b)

stored-parts :
    (mem : ℕ → ℕ) (a n : ℕ) (xs ys : List ℕ)
    → stored (stored mem a n xs) (a + min n (length xs)) (n - min n (length xs)) ys
      ≡ stored mem a n (xs ++ ys)
stored-parts mem a n xs ys =
    let k = min n (length xs) in
    let out = take n xs in
    let more = take (n - k) ys in
    let ends : a + k + min (n - k) (length ys) ≡ a + k + length more =
      omega (arith, length-take (n - k) ys) in
    let ends' : a + min n (length (xs ++ ys)) ≡ a + k + length more =
      omega (arith, length-take (n - k) ys, length-append xs ys) in
    let both : take n (xs ++ ys) ≡ out ++ more =
      take-append n xs ys ∙ ap (λ j. out ++ take j ys) (omega arith) in
    let halves : write_bytes mem a (out ++ more)
        ≡ write_bytes (write_bytes mem a out) (a + k) more =
      write_bytes-append mem a out more
      ∙ ap (λ j. write_bytes (write_bytes mem a out) (a + j) more) (length-take n xs) in
    rw (ends, ends', both, halves) (nul_over (write_bytes mem a out) (a + k) more)

backend-Inside : (p : Ptrs) (xs : List ℕ) → Inside p → Inside (vsnprintf_backend p xs)
backend-Inside p xs h = rw (backend_lem p xs h) (record {
  some_buffer = omega (arith, h.some_buffer);
  before = omega (arith, h.before);
  below = h.below;
})

backend-parts :
    (p : Ptrs) (xs ys : List ℕ)
    → Inside p
    → vsnprintf_backend (vsnprintf_backend p xs) ys ≡ vsnprintf_backend p (xs ++ ys)
backend-parts p xs ys h =
    let k = min (p.last - p.pos) (length xs) in
    let left : p.last - (p.pos + k) ≡ p.last - p.pos - k = omega arith in
    let ends : p.pos + k + min (p.last - p.pos - k) (length ys)
        ≡ p.pos + min (p.last - p.pos) (length (xs ++ ys)) =
      omega (arith, length-append xs ys) in
    backend_lem (vsnprintf_backend p xs) ys (backend-Inside p xs h)
    ∙ rw
        (
          backend_lem p xs h,
          left,
          backend_lem p (xs ++ ys) h,
          stored-parts p.mem p.pos (p.last - p.pos) xs ys,
          ends,
        )
        refl

buffer_sink : (p : Ptrs) → Inside p → Sink vsnprintf_backend p
buffer_sink p h = record {
  Ok = Inside;
  start_ok = h;
  keeps = backend-Inside;
  parts = backend-parts;
}

-- the buffer that `vsnprintf` starts with
abbrev buffer : (mem : ℕ → ℕ) (str len : ℕ) → Ptrs
buffer mem str len = record { mem = mem; pos = str; last = str + (len - 1) }

module _ (mem : ℕ → ℕ) (str len : ℕ) (h : 0 < str) (k : 0 < len) (l : str + len ≤ 2 ^ 64) where
  buffer-Inside : Inside (buffer mem str len)
  buffer-Inside = record { some_buffer = h; before = omega arith; below = omega (arith, k, l) }

  printed-stored :
      (r : Option (List ℕ))
      → ((r >>= λ out.
            some (printed vsnprintf_backend (buffer mem str len) (buffer_sink _ buffer-Inside) out))
          >>= final)
        ≡ (r >>= λ out. some (left_by mem str len out))
  printed-stored none = refl
  printed-stored (some []) = refl
  printed-stored (some (b ∷ bs)) =
      let e : str + (len - 1) - str ≡ len - 1 = omega arith in
      rw (backend_lem _ (b ∷ bs) buffer-Inside, e) refl

-- In a buffer of `len` bytes, 1 or more, `vsnprintf` puts the first `len` - 1 bytes that the format
-- prints and a NUL behind them, and returns how many bytes it prints in all. It is undefined
-- where the format is. A format that prints nothing leaves the memory as it was, with no NUL.
pub vsnprintf-stored :
    (mem : ℕ → ℕ) (str len : ℕ) (fmt : List ℕ) (args : List Arg)
    → 0 < str
    → 0 < len
    → str + len ≤ 2 ^ 64
    → vsnprintf mem str len fmt args
      ≡ (rendered (length fmt) fmt args >>= λ out. some (left_by mem str len out))
unfolding vsnprintf
vsnprintf-stored mem str len fmt args h k l =
    let e : (str + len + 2 ^ 64 - 1) % 2 ^ 64 ≡ str + (len - 1) = omega arith in
    rw
      (
        e,
        printf_internal-rendered vsnprintf_backend _
            (buffer_sink _ (buffer-Inside mem str len h k l)) fmt args,
      )
      (printed-stored mem str len h k l (rendered (length fmt) fmt args))

write_bytes-out :
    (mem : ℕ → ℕ) (a : ℕ) (bs : List ℕ) (x : ℕ)
    → (x < a) ⊎ (a + length bs ≤ x)
    → write_bytes mem a bs x ≡ mem x
unfolding write_bytes
write_bytes-out mem a [] x o = refl
write_bytes-out mem a (b ∷ bs) x o =
    write_bytes-out (write_byte mem a b) (a + 1) bs x (omega arith) ∙ ground arith

left_by-within :
    (mem : ℕ → ℕ) (str len : ℕ) (out : List ℕ) (a : ℕ)
    → 0 < len
    → (a < str) ⊎ (str + len ≤ a)
    → (left_by mem str len out).0 a ≡ mem a
left_by-within mem str len [] a k o = refl
left_by-within mem str len (b ∷ bs) a k o = ground (
  arith,
  write_bytes-out mem str (take (len - 1) (b ∷ bs)) a
      (omega (arith, length-take (len - 1) (b ∷ bs))),
)

-- `vsnprintf` with a length of 1 or more changes no byte outside the buffer.
pub vsnprintf-within :
    (mem : ℕ → ℕ) (str len : ℕ) (fmt : List ℕ) (args : List Arg) (mem' : ℕ → ℕ) (written a : ℕ)
    → 0 < str
    → 0 < len
    → str + len ≤ 2 ^ 64
    → vsnprintf mem str len fmt args ≡ some (mem', written)
    → (a < str) ⊎ (str + len ≤ a)
    → mem' a ≡ mem a
vsnprintf-within mem str len fmt args mem' written a h k l e o =
    within-case (rendered (length fmt) fmt args)
      (sym e ∙ vsnprintf-stored mem str len fmt args h k l)
  where
    within-case :
        (r : Option (List ℕ))
        → some (mem', written) ≡ (r >>= λ out. some (left_by mem str len out))
        → mem' a ≡ mem a
    within-case none q = absurd (cc)
    within-case (some out) q =
        let m : mem' ≡ (left_by mem str len out).0 = cc in
        ap (λ f. f a) m ∙ left_by-within mem str len out a k o
