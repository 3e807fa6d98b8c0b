-- ===== src/Libk/Printf/Directive.antt =====
-- src/libk/printf.c: `__printf_internal`, with the reading of a directive and its conversion apart.
use camellia.Base.Options.{◌>>=◌}
use camellia.Base.{
  ℕ, zero, suc, ◌+◌, ◌-◌, ◌*◌, ◌%◌, ◌^◌, List, [], ◌∷◌, ◌++◌, true, false, ◌&&◌, ◌||◌, not, Option,
  none, some, ltb, leb, ◌==◌, if◌then◌else◌, through_int, length, take, text,
}
use camellia.Libk.Printf.{
  Lenmod, Mods, Arg, word, str, Out, flush, output, output_c, pad, output_uint, output_uint16,
  output_octal, int, long, longlong, size,
}

-- c = *fmt++
abbrev pub next_char : List ℕ → Option (ℕ × List ℕ)
next_char [] = none
next_char (c ∷ fmt) = some (c, fmt)

-- the loop over the modifiers: the fill character, the character that ended it and the rest
unfoldable pub modifiers : (fill : ℕ) → List ℕ → Option (ℕ × ℕ × List ℕ)
modifiers fill [] = none
modifiers fill (c ∷ fmt) =
    let rest = modifiers 48 fmt in if c == 48 then rest else some (fill, c, fmt)

-- the loops `while ('0' <= c && c <= '9')`, where the list starts with `c`
unfoldable pub decimal : ℕ → List ℕ → Option (ℕ × ℕ × List ℕ)
decimal n [] = none
decimal n (c ∷ fmt) =
    let rest = decimal ((n * 10 + (c - 48)) % 2 ^ 64) fmt in
    if leb 48 c && leb c 57 then rest else some (n, c, fmt)

abbrev pub va_word : List Arg → Option (ℕ × List Arg)
va_word (word n ∷ args) = some (n, args)
va_word _ = none

abbrev pub va_str : List Arg → Option (Option (List ℕ) × List Arg)
va_str (str s ∷ args) = some (s, args)
va_str _ = none

-- the precision `.*`, an argument, with `c` and the format after it
unfoldable pub precision_arg : List ℕ → List Arg → Option ((ℕ × ℕ × List ℕ) × List Arg)
precision_arg fmt args = do
  (n, args) ← va_word args
  (c, fmt) ← next_char fmt
  some ((through_int n, c, fmt), args)

-- the precision after the `.`
unfoldable pub precision_of : List ℕ → List Arg → Option ((ℕ × ℕ × List ℕ) × List Arg)
precision_of fmt args = do
  (c, rest) ← next_char fmt
  (if c == 42 then precision_arg rest args else (decimal 0 fmt >>= λ r. some (r, args)))

unfoldable pub precision_field : ℕ → List ℕ → List Arg → Option ((ℕ × ℕ × List ℕ) × List Arg)
precision_field c fmt args = if c == 46 then precision_of fmt args else some ((0, c, fmt), args)

-- c = *fmt++, after the length modifier `lm`
abbrev pub after_modifier : Lenmod → List ℕ → Option (Lenmod × ℕ × List ℕ)
after_modifier lm [] = none
after_modifier lm (c ∷ fmt) = some (lm, c, fmt)

-- after an `l`
unfoldable pub long_modifier : List ℕ → Option (Lenmod × ℕ × List ℕ)
long_modifier fmt = do
  (c, rest) ← next_char fmt
  (if c == 108 then after_modifier longlong rest else some (long, c, rest))

-- the length modifier, the conversion and the rest
unfoldable pub length_modifier : ℕ → List ℕ → Option (Lenmod × ℕ × List ℕ)
length_modifier c fmt =
    if c == 108
    then long_modifier fmt
    else if c == 122
    then after_modifier size fmt
    else if c == 106
    then after_modifier longlong fmt
    else some (int, c, fmt)

-- what stands between the `%` and the next segment
pub record Directive : Type 0 where
  pub mods : Mods
  pub lm : Lenmod
  pub conversion : ℕ
  pub rest : List ℕ
  pub args : List Arg

unfoldable pub directive : List ℕ → List Arg → Option Directive
directive fmt args = do
  (fill, c, fmt) ← modifiers 32 fmt
  (width, c, fmt) ← decimal 0 (c ∷ fmt)
  ((prec, c, fmt), args) ← precision_field c fmt args
  (lm, c, fmt) ← length_modifier c fmt
  some (record {
    mods = record { fill_char = fill; field_width = width; precision = prec };
    lm = lm;
    conversion = c;
    rest = fmt;
    args = args;
  })

-- the value that va_arg reads for `x`, `u` and `o`
abbrev pub unsigned_arg : Lenmod → ℕ → ℕ
unsigned_arg int n = n % 2 ^ 32
unsigned_arg _ n = n % 2 ^ 64

-- the bits of the long that va_arg reads for `d` and `i`
abbrev pub signed_arg : Lenmod → ℕ → ℕ
signed_arg int n = through_int n
signed_arg _ n = n % 2 ^ 64

abbrev pub string_or_null : Option (List ℕ) → List ℕ
string_or_null none = text "(null)"
string_or_null (some s) = s

-- the length that `%s` prints
abbrev pub capped : (precision len : ℕ) → ℕ
capped precision len = if ltb precision len && not (precision == 0) then precision else len

module _ {S : Type 0} (back : S → List ℕ → S) where
  -- the case `s`
  unfoldable pub output_str : Out S → Mods → List ℕ → Out S
  output_str os m s =
      let len = capped m.precision (length s) in output back (pad back os m len) (take len s)

  -- the cases `x`, `u` and `o`, after which no other one applies
  unfoldable pub output_unsigned : Out S → Mods → (c n : ℕ) → Out S
  output_unsigned os m c n =
      if c == 120
      then output_uint16 back os m n
      else if c == 117
      then output_uint back os m n 0
      else output_octal back os m n

  -- the cases `d` and `i`: a negative number is `2 ^ 63` or more, and 45 is '-'
  unfoldable pub output_signed : Out S → Mods → (ns : ℕ) → Out S
  output_signed os m ns =
      if ltb ns (2 ^ 63) then output_uint back os m ns 0 else output_uint back os m (2 ^ 64 - ns) 45

  -- the switch over the conversion; an unknown one prints nothing
  unfoldable pub convert : Out S → Mods → Lenmod → (c : ℕ) → List Arg → Option (Out S × List Arg)
  convert os m lm c args =
      if c == 99
      then (va_word args >>= λ (n, args). some (output_c back os (n % 256) 1, args))
      else if c == 115
      then (va_str args >>= λ (s, args). some (output_str os m (string_or_null s), args))
      else if c == 112
      then (va_word args >>= λ (n, args).
          some (output_uint16 back (output back os (text "0x")) m (n % 2 ^ 64), args))
      else if c == 120 || c == 117 || c == 111
      then (va_word args >>= λ (n, args). some (output_unsigned os m c (unsigned_arg lm n), args))
      else if c == 100 || c == 105
      then (va_word args >>= λ (n, args). some (output_signed os m (signed_arg lm n), args))
      else if c == 37
      then some (output back os (text "%"), args)
      else some (os, args)

  -- The loop. `seg` has the bytes from `seg` up to `fmt`, and one unit of fuel is a character.
  unfoldable pub printf_loop : (fuel : ℕ) → Out S → (seg fmt : List ℕ) → List Arg → Option (Out S)
  printf_loop zero os seg fmt args = none
  printf_loop (suc fuel) os seg [] args = none
  printf_loop (suc fuel) os seg (c ∷ fmt) args = elim (c == 0) [
    | true ↦ some (output back os seg)
    | false ↦ elim (c == 37) [
      | false ↦ printf_loop fuel os (seg ++ (c ∷ [])) fmt args
      | true ↦ directive fmt args >>= λ d.
          convert (output back os seg) d.mods d.lm d.conversion d.args >>= λ (os, args).
          printf_loop fuel os [] d.rest args
    ]
  ]

  -- the state of `back` at the end, and the bits of the result
  unfoldable pub printf_internal : S → (fmt : List ℕ) → List Arg → Option (S × ℕ)
  printf_internal backarg fmt args =
      printf_loop (length fmt) (record { backarg = backarg; written = 0; cache = [] }) [] fmt args
      >>= λ os. let os = flush back os in some (os.backarg, os.written)
