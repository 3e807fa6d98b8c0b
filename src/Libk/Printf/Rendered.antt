-- ===== src/Libk/Printf/Rendered.antt =====
-- What a format prints, with no buffer between: a description of `__printf_internal` to compare it with.
use camellia.Base.Options.{◌>>=◌}
use camellia.Base.{
  ℕ, zero, suc, ◌-◌, ◌*◌, ◌/◌, ◌%◌, ◌^◌, List, [], ◌∷◌, ◌++◌, true, false, ◌||◌, Option, none, some,
  ltb, ◌==◌, if◌then◌else◌, length, take, text,
}
use camellia.Libk.Printf.{Mods, Lenmod, Arg, turns, sub_size, digits, hex_length, hex_char}
use camellia.Libk.Printf.Directive.{
  directive, va_word, va_str, unsigned_arg, signed_arg, string_or_null, capped,
}

-- `n` copies
abbrev pub copies : (n c : ℕ) → List ℕ
copies zero c = []
copies (suc n) c = c ∷ copies n c

-- a loop `for (int i = 0; i < amt; i++)` over one character
abbrev pub repeated : (c amt : ℕ) → List ℕ
repeated c amt = copies (turns amt) c

abbrev pub sign_bytes : (sign : ℕ) → List ℕ
sign_bytes sign = if sign == 0 then [] else sign ∷ []

-- What stands before the `len` digits of a number: zeros fill it up to the precision, after the sign.
unfoldable pub padding : Mods → (len sign : ℕ) → List ℕ
padding m len sign =
    let sign_len = if sign == 0 then 0 else 1 in
    if ltb len m.precision
    then (repeated m.fill_char (sub_size (sub_size m.field_width m.precision) sign_len)
        ++ sign_bytes sign)
      ++ repeated 48 (sub_size m.precision len)
    else repeated m.fill_char (sub_size (sub_size m.field_width len) sign_len) ++ sign_bytes sign

abbrev pub numeral : Mods → (ds : List ℕ) (sign : ℕ) → List ℕ
numeral m ds sign = padding m (length ds) sign ++ ds

-- the last `len` hexadecimal digits of a number
unfoldable pub nibbles : (n len : ℕ) → List ℕ
nibbles n zero = []
nibbles n (suc len) = hex_char (n / 2 ^ (len * 4) % 16) ∷ nibbles n len

abbrev pub hex : ℕ → List ℕ
hex n = nibbles n (hex_length 16 n 1)

unfoldable pub string_field : Mods → List ℕ → List ℕ
string_field m s =
    let len = capped m.precision (length s) in
    repeated m.fill_char (sub_size m.field_width len) ++ take len s

unfoldable pub unsigned_field : Mods → (c n : ℕ) → List ℕ
unsigned_field m c n =
    if c == 120
    then numeral m (hex n) 0
    else if c == 117
    then numeral m (digits 10 n) 0
    else numeral m (digits 8 n) 0

unfoldable pub signed_field : Mods → (ns : ℕ) → List ℕ
signed_field m ns =
    if ltb ns (2 ^ 63) then numeral m (digits 10 ns) 0 else numeral m (digits 10 (2 ^ 64 - ns)) 45

-- one directive and the arguments after it
unfoldable pub field : Mods → Lenmod → (c : ℕ) → List Arg → Option (List ℕ × List Arg)
field m lm c args =
    if c == 99
    then (va_word args >>= λ (n, args). some (n % 256 ∷ [], args))
    else if c == 115
    then (va_str args >>= λ (s, args). some (string_field m (string_or_null s), args))
    else if c == 112
    then (va_word args >>= λ (n, args). some (text "0x" ++ numeral m (hex (n % 2 ^ 64)) 0, args))
    else if c == 120 || c == 117 || c == 111
    then (va_word args >>= λ (n, args). some (unsigned_field m c (unsigned_arg lm n), args))
    else if c == 100 || c == 105
    then (va_word args >>= λ (n, args). some (signed_field m (signed_arg lm n), args))
    else if c == 37
    then some (text "%", args)
    else some ([], args)

-- one unit of fuel is a character
unfoldable pub rendered : (fuel : ℕ) → (fmt : List ℕ) → List Arg → Option (List ℕ)
rendered zero fmt args = none
rendered (suc fuel) [] args = none
rendered (suc fuel) (c ∷ fmt) args = elim (c == 0) [
  | true ↦ some []
  | false ↦ elim (c == 37) [
    | false ↦ rendered fuel fmt args >>= λ out. some (c ∷ out)
    | true ↦ directive fmt args >>= λ d. field d.mods d.lm d.conversion d.args >>= λ (out, args).
        rendered fuel d.rest args >>= λ later. some (out ++ later)
  ]
]
