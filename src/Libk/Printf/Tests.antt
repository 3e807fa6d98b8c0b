-- ===== src/Libk/Printf/Tests.antt =====
-- printf.c at concrete formats, and the theorems there.
use camellia.Base.Options.{◌>>=◌}
use camellia.Base.{
  ℕ, List, [], ◌∷◌, ◌++◌, Option, none, some, ◌≡◌, refl, text, append_assoc, arith, inr,
}
use camellia.Libk.Printf.{
  Arg, word, str, flush, output, output_c, pad, padnum, output_uint, output_uint16, output_times,
  turns, digits, digits_loop, hex_length, hex_char, output_sign, output_nibbles,
}
use camellia.Libk.Printf.Directive.{
  modifiers, decimal, precision_field, length_modifier, directive, output_str, output_unsigned,
  output_signed, convert, printf_loop, printf_internal,
}
use camellia.Libk.Printf.Rendered.{rendered, hex}
use camellia.Libk.Printf.Numbers.{read_digits, read_hex, numerals_read_back}
use camellia.Libk.Printf.Cache.{Sink}
use camellia.Libk.Printf.Agree.{printf_internal-rendered, printed}
use camellia.Libk.Printf.Buffer.{
  vsnprintf, vsnprintf_backend, write_bytes, vsnprintf-stored, vsnprintf-within, left_by,
}

-- a `back` that keeps its calls
abbrev calls : List (List ℕ) → List ℕ → List (List ℕ)
calls s bs = s ++ (bs ∷ [])

abbrev line : List ℕ
line = text "%s[%05d] %x %%\n" ++ (0 ∷ [])

abbrev line_args : List Arg
line_args = str (some (text "pid")) ∷ word 42 ∷ word 48879 ∷ []

line_printed : printf_internal calls [] line line_args ≡ some (text "pid[00042] beef %\n" ∷ [], 18)
unfolding turns digits digits_loop hex_length hex_char output_times flush output output_c pad
    output_sign padnum output_uint output_nibbles output_uint16 modifiers decimal precision_field
    length_modifier directive output_str output_unsigned output_signed convert printf_loop
    printf_internal
line_printed = refl

-- a `back` that keeps the bytes
abbrev keep : List ℕ → List ℕ → List ℕ
keep s bs = s ++ bs

keep_sink : Sink keep []
keep_sink = record {
  Ok = λ s. Unit;
  start_ok = tt;
  keeps = λ s xs u. tt;
  parts = λ s xs ys u. append_assoc s xs ys;
}

printf_internal-rendered_example :
    printf_internal keep [] line line_args
    ≡ (rendered 16 line line_args >>= λ out. some (printed keep [] keep_sink out))
printf_internal-rendered_example = printf_internal-rendered keep [] keep_sink line line_args

numerals_read_back_example :
    (read_digits 10 0 (digits 10 48879) ≡ 48879)
    × (read_digits 8 0 (digits 8 48879) ≡ 48879)
    × (read_hex 0 (hex 48879) ≡ 48879)
numerals_read_back_example = numerals_read_back 48879 (omega arith)

-- a memory of ones
abbrev ones : ℕ → ℕ
ones a = 1

abbrev peek : (ℕ → ℕ) × ℕ → Option (List ℕ × ℕ)
peek (mem, n) = some (mem 63 ∷ mem 64 ∷ mem 70 ∷ mem 71 ∷ mem 72 ∷ [], n)

-- eight bytes at the address 64 take seven of the eighteen
cut_short : (vsnprintf ones 64 8 line line_args >>= peek) ≡ some (1 ∷ 112 ∷ 48 ∷ 0 ∷ 1 ∷ [], 18)
unfolding turns digits digits_loop hex_length hex_char output_times flush output output_c pad
    output_sign padnum output_uint output_nibbles output_uint16 modifiers decimal precision_field
    length_modifier directive output_str output_unsigned output_signed convert printf_loop
    printf_internal vsnprintf write_bytes vsnprintf_backend
cut_short = refl

vsnprintf-stored_example :
    vsnprintf ones 64 8 line line_args
    ≡ (rendered 16 line line_args >>= λ out. some (left_by ones 64 8 out))
vsnprintf-stored_example =
    vsnprintf-stored ones 64 8 line line_args (omega arith) (omega arith) (omega arith)

-- an empty format leaves the buffer as it was
empty_leaves : vsnprintf ones 64 8 (0 ∷ []) [] ≡ some (ones, 0)
unfolding printf_internal printf_loop output flush vsnprintf
empty_leaves = refl

-- the memory of the run that is cut short
abbrev memory_of : Option ((ℕ → ℕ) × ℕ) → ℕ → ℕ
memory_of none = ones
memory_of (some (mem, n)) = mem

abbrev after_line : ℕ → ℕ
after_line = memory_of (vsnprintf ones 64 8 line line_args)

after_line_lem : vsnprintf ones 64 8 line line_args ≡ some (after_line, 18)
unfolding turns digits digits_loop hex_length hex_char output_times flush output output_c pad
    output_sign padnum output_uint output_nibbles output_uint16 modifiers decimal precision_field
    length_modifier directive output_str output_unsigned output_signed convert printf_loop
    printf_internal vsnprintf write_bytes vsnprintf_backend
after_line_lem = refl

vsnprintf-within_example : after_line 72 ≡ ones 72
vsnprintf-within_example =
    vsnprintf-within ones 64 8 line line_args after_line 18 72 (omega arith) (omega arith)
      (omega arith) after_line_lem (inr (omega arith))
