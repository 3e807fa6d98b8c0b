-- ===== src/Libk/Printf/Refine.antt =====
-- Each output function of printf.c prints what Rendered.antt says, whatever the cache does in between.

use camellia.Base.{
  ℕ, zero, suc, ◌-◌, ◌^◌, ◌≡◌, refl, sym, ap, List, [], ◌∷◌, ◌++◌, Bool, true, false, ltb, ◌==◌,
  if◌then◌else◌, length, append-nil, append_assoc,
}
use camellia.Libk.Printf.{
  Mods, Out, output, output_c, pad, padnum, output_uint, output_uint16, output_octal, output_times,
  turns, digits, hex_length, output_sign, output_nibbles,
}
use camellia.Libk.Printf.Directive.{output_str, output_unsigned, output_signed}
use camellia.Libk.Printf.Rendered.{
  copies, repeated, padding, numeral, nibbles, hex, string_field, unsigned_field, signed_field,
  sign_bytes,
}
use camellia.Libk.Printf.Cache.{Sink, Holds, output-Holds}

length-nibbles : (n len : ℕ) → length (nibbles n len) ≡ len
unfolding nibbles
length-nibbles n zero = refl
length-nibbles n (suc len) = ap suc (length-nibbles n len)

module _ {S : Type 0} (back : S → List ℕ → S) (start : S) (sink : Sink back start) where
  -- `f` prints `out`
  pub record Adds (f : Out S → Out S) (out : List ℕ) : Type 0 where
    pub on :
        (os : Out S) (bs : List ℕ)
        → Holds back start sink os bs
        → Holds back start sink (f os) (bs ++ out)

  pub Adds-output : (buf : List ℕ) → Adds (λ os. output back os buf) buf
  Adds-output buf = record { on = λ os bs h. output-Holds back start sink buf h }

  pub Adds-nothing : Adds (λ os. os) []
  Adds-nothing = record { on = λ os bs h. rw append-nil h }

  pub Adds-then :
      {f g : Out S → Out S} {a b : List ℕ} → Adds f a → Adds g b → Adds (λ os. g (f os)) (a ++ b)
  Adds-then {f} {g} {a} {b} p q = record {
    on = λ os bs h. rw (sym (append_assoc bs a b)) (q.on (f os) (bs ++ a) (p.on os bs h));
  }

  pub Adds-if :
      (c : Bool) {f g : Out S → Out S} {a b : List ℕ}
      → Adds f a
      → Adds g b
      → Adds (λ os. if c then f os else g os) (if c then a else b)
  Adds-if true p q = p
  Adds-if false p q = q

  Adds-times : (c n : ℕ) → Adds (λ os. output_times back os c n) (copies n c)
  unfolding output_times
  Adds-times c zero = Adds-nothing
  Adds-times c (suc n) = Adds-then (Adds-output (c ∷ [])) (Adds-times c n)

  pub Adds-output_c : (c amt : ℕ) → Adds (λ os. output_c back os c amt) (repeated c amt)
  unfolding output_c
  Adds-output_c c amt = Adds-times c (turns amt)

  Adds-output_sign : (sign : ℕ) → Adds (λ os. output_sign back os sign) (sign_bytes sign)
  unfolding output_sign turns
  Adds-output_sign sign = Adds-if (sign == 0) Adds-nothing (Adds-output_c sign 1)

  Adds-padnum :
      (m : Mods) (len sign : ℕ) → Adds (λ os. padnum back os m len sign) (padding m len sign)
  unfolding padnum padding
  Adds-padnum m len sign =
      Adds-if (ltb len m.precision)
        (Adds-then (Adds-then (Adds-output_c _ _) (Adds-output_sign sign)) (Adds-output_c _ _))
        (Adds-then (Adds-output_c _ _) (Adds-output_sign sign))

  Adds-output_uint :
      (m : Mods) (n sign : ℕ)
      → Adds (λ os. output_uint back os m n sign) (numeral m (digits 10 n) sign)
  unfolding output_uint
  Adds-output_uint m n sign = Adds-then (Adds-padnum m _ sign) (Adds-output (digits 10 n))

  Adds-output_octal :
      (m : Mods) (n : ℕ) → Adds (λ os. output_octal back os m n) (numeral m (digits 8 n) 0)
  unfolding output_octal
  Adds-output_octal m n = Adds-then (Adds-padnum m _ 0) (Adds-output (digits 8 n))

  Adds-nibbles : (n len : ℕ) → Adds (λ os. output_nibbles back os n len) (nibbles n len)
  unfolding output_nibbles nibbles turns
  Adds-nibbles n zero = Adds-nothing
  Adds-nibbles n (suc len) = Adds-then (Adds-output_c _ 1) (Adds-nibbles n len)

  pub Adds-output_uint16 :
      (m : Mods) (n : ℕ) → Adds (λ os. output_uint16 back os m n) (numeral m (hex n) 0)
  unfolding output_uint16
  Adds-output_uint16 m n =
      rw (length-nibbles n (hex_length 16 n 1)) (Adds-then (Adds-padnum m _ 0) (Adds-nibbles n _))

  pub Adds-output_str :
      (m : Mods) (s : List ℕ) → Adds (λ os. output_str back os m s) (string_field m s)
  unfolding output_str string_field pad
  Adds-output_str m s = Adds-then (Adds-output_c _ _) (Adds-output _)

  pub Adds-output_unsigned :
      (m : Mods) (c n : ℕ) → Adds (λ os. output_unsigned back os m c n) (unsigned_field m c n)
  unfolding output_unsigned unsigned_field
  Adds-output_unsigned m c n =
      Adds-if (c == 120) (Adds-output_uint16 m n)
        (Adds-if (c == 117) (Adds-output_uint m n 0) (Adds-output_octal m n))

  pub Adds-output_signed :
      (m : Mods) (ns : ℕ) → Adds (λ os. output_signed back os m ns) (signed_field m ns)
  unfolding output_signed signed_field
  Adds-output_signed m ns =
      Adds-if (ltb ns (2 ^ 63)) (Adds-output_uint m ns 0) (Adds-output_uint m (2 ^ 64 - ns) 45)
