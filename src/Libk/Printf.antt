-- ===== src/Libk/Printf.antt =====
-- src/libk/printf.c. `back` is the function that takes the bytes, with a state for its `backarg`. A
-- format is the list of its bytes with the NUL, and `none` stands for what C leaves undefined: a read
-- past the NUL, and a `va_arg` that does not match the argument.
pub mod Directive
pub mod Numbers
pub mod Rendered
pub mod Cache
pub mod Refine
pub mod Agree
pub mod Fuel
pub mod Buffer
mod Tests
use camellia.Base.Options.{◌>>=◌}
use camellia.Base.{
  ℕ, zero, suc, ◌+◌, ◌-◌, ◌*◌, ◌/◌, ◌%◌, ◌^◌, min, List, [], ◌∷◌, ◌++◌, Bool, true, false, ◌&&◌,
  not, Option, none, some, ltb, leb, ◌==◌, if◌then◌else◌, ℤ, through_int, int_of_size, length, take,
  is_empty, text,
}

pub data Lenmod : Type 0 where
  int : Lenmod
  long : Lenmod
  longlong : Lenmod
  size : Lenmod

pub record Mods : Type 0 where
  pub fill_char : ℕ
  pub field_width : ℕ
  pub precision : ℕ

-- an argument of the va_list: the 64 bits of its slot, or a string (none is NULL)
pub data Arg : Type 0 where
  word : ℕ → Arg
  str : Option (List ℕ) → Arg

-- struct out_state: `written` has the 32 bits of the int, `cache` the first `cpos` bytes of the cache
pub record Out (S : Type 0) : Type 0 where
  pub backarg : S
  pub written : ℕ
  pub cache : List ℕ

-- sizeof(cache)
abbrev pub clen : ℕ
clen = 64

module _ {S : Type 0} (back : S → List ℕ → S) where
  unfoldable pub flush : Out S → Out S
  flush os = if is_empty os.cache then os else record {
    backarg = back os.backarg os.cache;
    written = (os.written + length os.cache) % 2 ^ 32;
    cache = [];
  }

  unfoldable pub output : Out S → List ℕ → Out S
  output os buf =
      if ltb (length os.cache + length buf) clen
      then record os { cache = os.cache ++ buf }
      else let os' = flush os in
        record os' { backarg = back os'.backarg buf; written = (os'.written + length buf) % 2 ^ 32 }

  -- the loop of output_c
  unfoldable pub output_times : Out S → (c n : ℕ) → Out S
  output_times os c zero = os
  output_times os c (suc n) = output_times (output os (c ∷ [])) c n

-- how often a loop `for (int i = 0; i < amt; i++)` runs, for a size_t passed as `amt`
unfoldable pub turns : ℕ → ℕ
turns amt = let m = amt % 2 ^ 32 in if ltb m (2 ^ 31) then m else 0

abbrev pub sub_size : ℕ → ℕ → ℕ
sub_size a b = (a + (2 ^ 64 - b % 2 ^ 64)) % 2 ^ 64

-- The loop of output_uint and output_octal, which fills `buf` from its end: the digits go before
-- those in `done`. One unit of fuel is a byte of `buf`.
unfoldable pub digits_loop : (fuel base n : ℕ) → List ℕ → List ℕ
digits_loop zero base n done = done
digits_loop (suc fuel) base n done =
    let rest = digits_loop fuel base (n / base) ((n % base + 48) ∷ done) in
    if n == 0 then done else rest

-- `buf + pos` at the end, with sizeof(buf) = 24
unfoldable pub digits : (base n : ℕ) → List ℕ
digits base n = if n == 0 then 48 ∷ [] else digits_loop 24 base n []

-- `len` of output_uint16. A shift by 64 bits is undefined, and the loop stops there whatever it gives.
unfoldable pub hex_length : (fuel n len : ℕ) → ℕ
hex_length zero n len = len
hex_length (suc fuel) n len =
    let rest = hex_length fuel n (len + 1) in
    if not (n / 2 ^ (len * 4) == 0) && ltb (len * 4) 64 then rest else len

unfoldable pub hex_char : ℕ → ℕ
hex_char d = let h = 48 + d in if ltb 57 h then h + (97 - 57 - 1) else h

module _ {S : Type 0} (back : S → List ℕ → S) where
  unfoldable pub output_c : Out S → (c amt : ℕ) → Out S
  output_c os c amt = output_times back os c (turns amt)

  unfoldable pub pad : Out S → Mods → (len : ℕ) → Out S
  pad os m len = output_c os m.fill_char (sub_size m.field_width len)

  -- if (sign) output_c(os, sign, 1)
  unfoldable pub output_sign : Out S → (sign : ℕ) → Out S
  output_sign os sign = if sign == 0 then os else output_c os sign 1

  unfoldable pub padnum : Out S → Mods → (len sign : ℕ) → Out S
  padnum os m len sign =
      let sign_len = if sign == 0 then 0 else 1 in
      if ltb len m.precision
      then (let filled =
            output_c os m.fill_char (sub_size (sub_size m.field_width m.precision) sign_len) in
          output_c (output_sign filled sign) 48 (sub_size m.precision len))
      else output_sign (output_c os m.fill_char (sub_size (sub_size m.field_width len) sign_len))
          sign

  unfoldable pub output_uint : Out S → Mods → (n sign : ℕ) → Out S
  output_uint os m n sign = let ds = digits 10 n in output back (padnum os m (length ds) sign) ds

  -- the loop `while (len-- > 0)`
  unfoldable pub output_nibbles : Out S → (n len : ℕ) → Out S
  output_nibbles os n zero = os
  output_nibbles os n (suc len) =
      output_nibbles (output_c os (hex_char (n / 2 ^ (len * 4) % 16)) 1) n len

  unfoldable pub output_uint16 : Out S → Mods → (n : ℕ) → Out S
  output_uint16 os m n = let len = hex_length 16 n 1 in output_nibbles (padnum os m len 0) n len

  unfoldable pub output_octal : Out S → Mods → (n : ℕ) → Out S
  output_octal os m n = let ds = digits 8 n in output back (padnum os m (length ds) 0) ds
