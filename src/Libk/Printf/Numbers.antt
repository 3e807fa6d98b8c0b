-- ===== src/Libk/Printf/Numbers.antt =====
-- The digits that printf.c prints, read back.
use native.Mathlib.Decide.{dec_le}
use native.Mathlib.Nat.{
  div-lt_iff_lt-mul, div-add-mod', pow-zero, add-mul, mul_assoc, mul-le-mul_right, one-le-pow,
  mod-lt, pow-suc, pow-le-pow_right, add-mul-mod_self_right, mod-eq_of_lt,
}
use camellia.Base.{
  ℕ, zero, suc, ◌+◌, ◌-◌, ◌*◌, ◌/◌, ◌%◌, ◌^◌, ◌<◌, ◌≤◌, ◌≡◌, ◌∙◌, refl, sym, ap, List, [], ◌∷◌,
  arith, leb, if◌then◌else◌,
}
use camellia.Libk.Printf.{digits, digits_loop, hex_length, hex_char}
use camellia.Libk.Printf.Rendered.{nibbles, hex}

-- the value of digits in a base, after the digits of `v`
abbrev pub read_digits : (base v : ℕ) → List ℕ → ℕ
read_digits base v [] = v
read_digits base v (c ∷ cs) = read_digits base (v * base + (c - 48)) cs

module _ (base : ℕ) (pos : 0 < base) where
  -- one round of the loop
  digits_loop-zero : (fuel n : ℕ) (done : List ℕ) → n ≡ 0 → digits_loop fuel base n done ≡ done
  unfolding digits_loop
  digits_loop-zero zero n done h = refl
  digits_loop-zero (suc fuel) n done h = ground (arith, h)

  digits_loop-suc :
      (fuel n : ℕ) (done : List ℕ)
      → 0 < n
      → digits_loop (suc fuel) base n done
        ≡ digits_loop fuel base (n / base) ((n % base + 48) ∷ done)
  unfolding digits_loop
  digits_loop-suc fuel n done h = ground (arith, h)

  last_digit : (n : ℕ) → n / base * base + (n % base + 48 - 48) ≡ n
  last_digit n = omega (arith, div-add-mod' n base)

  smaller : (n m : ℕ) → n < m * base → n / base < m
  smaller n m h = (div-lt_iff_lt-mul pos).1 h

  -- the digits of `n` stand before `done`
  digits_loop_lem :
      (fuel n : ℕ) (done : List ℕ)
      → n < base ^ fuel
      → read_digits base 0 (digits_loop fuel base n done) ≡ read_digits base n done
  digits_loop_lem zero n done h =
      let e : n ≡ 0 = omega (arith, pow-zero base) in
      ap (read_digits base 0) (digits_loop-zero 0 n done e)
      ∙ ap (λ v. read_digits base v done) (sym e)
  digits_loop_lem (suc fuel) n done h = elim (dec_le n 0) [
    | yes p ↦
        let e : n ≡ 0 = omega arith in
        ap (read_digits base 0) (digits_loop-zero (suc fuel) n done e)
        ∙ ap (λ v. read_digits base v done) (sym e)
    | no p ↦
        ap (read_digits base 0) (digits_loop-suc fuel n done (omega arith))
        ∙ digits_loop_lem fuel (n / base) ((n % base + 48) ∷ done)
            (smaller n (base ^ fuel) (omega (arith, pow-suc base fuel)))
        ∙ ap (λ v. read_digits base v done) (last_digit n)
  ]

  digits_lem : (n : ℕ) → n < base ^ 24 → read_digits base 0 (digits base n) ≡ n
  unfolding digits
  digits_lem n h = elim (dec_le n 0) [
    | yes p ↦ let e : n ≡ 0 = omega arith in ground (arith, e)
    | no p ↦ ground (arith, digits_loop_lem 24 n [] h)
  ]

-- the value of hexadecimal digits after those of `v`
abbrev hex_value : ℕ → ℕ
hex_value c = if leb c 57 then c - 48 else c - 87

abbrev pub read_hex : (v : ℕ) → List ℕ → ℕ
read_hex v [] = v
read_hex v (c ∷ cs) = read_hex (v * 16 + hex_value c) cs

hex_value-hex_char : (d : ℕ) → d < 16 → hex_value (hex_char d) ≡ d
unfolding hex_char
hex_value-hex_char d h = ground arith

next_power : (len : ℕ) → 2 ^ (suc len * 4) ≡ 16 * 2 ^ (len * 4)
next_power len =
    let e : suc len * 4 ≡ suc (suc (suc (suc (len * 4)))) = omega arith in
    rw e (
      omega (
        arith,
        pow-suc 2 (suc (suc (suc (len * 4)))),
        pow-suc 2 (suc (suc (len * 4))),
        pow-suc 2 (suc (len * 4)),
        pow-suc 2 (len * 4),
      ))

regroup : (n p q r k d : ℕ) → q * p + r ≡ n → k * 16 + d ≡ q → n ≡ d * p + r + k * (16 * p)
regroup n p q r k d e f =
    sym e
    ∙ ap (λ q. q * p + r) (sym f)
    ∙ ap (λ t. t + r) (add-mul (k * 16) d p)
    ∙ omega (arith, mul_assoc k 16 p)

-- the last digit but `k` of a number, where `p` is 16 ^ k
mod_split : (n p : ℕ) → 0 < p → n % (16 * p) ≡ n / p % 16 * p + n % p
mod_split n p h =
    let q = n / p in
    let x = q % 16 * p + n % p in
    let e : n ≡ x + q / 16 * (16 * p) =
      regroup n p q (n % p) (q / 16) (q % 16) (div-add-mod' n p) (div-add-mod' q 16) in
    let small : x < 16 * p =
      omega (arith, mul-le-mul_right {m = q % 16} {n = 15} p (omega arith), mod-lt n h) in
    ap (λ k. k % (16 * p)) e ∙ add-mul-mod_self_right x (q / 16) (16 * p) ∙ mod-eq_of_lt small

read_hex-nibbles :
    (n len v : ℕ) → read_hex v (nibbles n len) ≡ v * 2 ^ (len * 4) + n % 2 ^ (len * 4)
unfolding nibbles
read_hex-nibbles n zero v = omega arith
read_hex-nibbles n (suc len) v =
    let p = 2 ^ (len * 4) in
    rw
      (
        read_hex-nibbles n len,
        next_power len,
        hex_value-hex_char (n / p % 16) (omega arith),
        mod_split n p (one-le-pow (len * 4) 2 (omega arith)),
      )
      (grind arith)

-- the loop stops when the number has no more digits
hex_length_lem :
    (fuel n len : ℕ) → n < 2 ^ 64 → 17 ≤ fuel + len → n < 2 ^ (hex_length fuel n len * 4)
unfolding hex_length
hex_length_lem zero n len h k =
    omega (arith, pow-le-pow_right {n = 2} (omega arith) {i = 64} {j = len * 4} (omega arith))
hex_length_lem (suc fuel) n len h k = ground (
  arith,
  hex_length_lem fuel n (len + 1) h (omega (arith, k)),
  pow-le-pow_right {n = 2} (omega arith) {i = 64} {j = len * 4},
  one-le-pow (len * 4) 2 (omega arith),
  div-add-mod' n (2 ^ (len * 4)),
  mod-lt n {m = 2 ^ (len * 4)},
)

-- A number below 2 ^ 64 fits in the 24 bytes of `buf`, and reading its decimal, octal and hexadecimal
-- digits back gives the number.
pub numerals_read_back :
    (n : ℕ)
    → n < 2 ^ 64
    → (read_digits 10 0 (digits 10 n) ≡ n)
      × (read_digits 8 0 (digits 8 n) ≡ n)
      × (read_hex 0 (hex n) ≡ n)
numerals_read_back n h = (
  digits_lem 10 (omega arith) n (omega arith),
  digits_lem 8 (omega arith) n (omega arith),
  omega (
    arith,
    read_hex-nibbles n (hex_length 16 n 1) 0,
    mod-eq_of_lt (hex_length_lem 16 n 1 h (omega arith)),
  ),
)
