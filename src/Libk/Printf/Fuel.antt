-- ===== src/Libk/Printf/Fuel.antt =====
-- The fuel of `printf_loop`: a unit for each byte of the format is enough.
use mathlib.Core.Path.{fun_ext}
use camellia.Base.Options.{◌>>=◌}
use camellia.Base.{
  ℕ, zero, suc, ◌+◌, ◌-◌, ◌*◌, ◌%◌, ◌^◌, ◌<◌, ◌≤◌, ◌≡◌, refl, ap, ap₂, List, [], ◌∷◌, ◌++◌, Bool,
  true, false, ◌&&◌, leb, ◌==◌, Option, none, some, length, arith, if◌then◌else◌,
}
use camellia.Libk.Printf.{Arg, word, str, Lenmod, longlong}
use camellia.Libk.Printf.Directive.{
  next_char, after_modifier, modifiers, decimal, precision_field, precision_of, precision_arg,
  long_modifier, length_modifier, directive, Directive,
}
use camellia.Libk.Printf.Rendered.{rendered, field}

-- a result, where there is one, has the property
abbrev IfSome {ℓ} : {A : Type ℓ} → (A → Type 0) → Option A → Type 0
IfSome P none = Unit
IfSome P (some a) = P a

IfSome-bind {ℓ κ} :
    {A : Type ℓ} {B : Type κ} (P : A → Type 0) (Q : B → Type 0) (m : Option A) (f : A → Option B)
    → IfSome P m
    → ((a : A) → P a → IfSome Q (f a))
    → IfSome Q (m >>= f)
IfSome-bind P Q none f p k = tt
IfSome-bind P Q (some a) f p k = k a p

IfSome-if {ℓ} :
    {A : Type ℓ} (P : A → Type 0) (c : Bool) (x y : Option A)
    → IfSome P x
    → IfSome P y
    → IfSome P (if c then x else y)
IfSome-if P true x y p q = p
IfSome-if P false x y p q = q

IfSome-weaken {ℓ} :
    {A : Type ℓ} (P Q : A → Type 0) (m : Option A) → IfSome P m → ((a : A) → P a → Q a) → IfSome Q m
IfSome-weaken P Q none p k = tt
IfSome-weaken P Q (some a) p k = k a p

-- fewer than `n` bytes are left
abbrev Left : (n : ℕ) → (ℕ × ℕ × List ℕ) → Type 0
Left n (x, c, rest) = length rest < n

modifiers-Left : (fill : ℕ) (fmt : List ℕ) → IfSome (Left (length fmt)) (modifiers fill fmt)
unfolding modifiers
modifiers-Left fill [] = tt
modifiers-Left fill (c ∷ fmt) =
    IfSome-if _ (c == 48) _ _
      (IfSome-weaken _ _ (modifiers 48 fmt) (modifiers-Left 48 fmt) (λ a h. omega arith))
      (omega arith)

decimal-Left : (n : ℕ) (fmt : List ℕ) → IfSome (Left (length fmt)) (decimal n fmt)
unfolding decimal
decimal-Left n [] = tt
decimal-Left n (c ∷ fmt) =
    let m = (n * 10 + (c - 48)) % 2 ^ 64 in
    IfSome-if _ (leb 48 c && leb c 57) _ _
      (IfSome-weaken _ _ (decimal m fmt) (decimal-Left m fmt) (λ a h. omega arith)) (omega arith)

next-Left : (fmt : List ℕ) → IfSome (λ (c, rest). length rest < length fmt) (next_char fmt)
next-Left [] = tt
next-Left (c ∷ fmt) = omega arith

abbrev LeftArgs : (n : ℕ) → ((ℕ × ℕ × List ℕ) × List Arg) → Type 0
LeftArgs n (r, args) = Left n r

precision_arg-Left :
    (fmt : List ℕ) (args : List Arg) → IfSome (LeftArgs (length fmt)) (precision_arg fmt args)
unfolding precision_arg
precision_arg-Left fmt [] = tt
precision_arg-Left [] (word n ∷ args) = tt
precision_arg-Left (c ∷ fmt) (word n ∷ args) = omega arith
precision_arg-Left fmt (str s ∷ args) = tt

precision_of-Left :
    (fmt : List ℕ) (args : List Arg) → IfSome (LeftArgs (length fmt)) (precision_of fmt args)
unfolding precision_of
precision_of-Left [] args = tt
precision_of-Left (c ∷ fmt) args =
    IfSome-if _ (c == 42) _ _
      (IfSome-weaken _ _ (precision_arg fmt args) (precision_arg-Left fmt args)
        (λ a h. omega arith))
      (IfSome-bind _ _ (decimal 0 (c ∷ fmt)) _ (decimal-Left 0 (c ∷ fmt)) (λ a h. h))

precision_field-Left :
    (c : ℕ) (fmt : List ℕ) (args : List Arg)
    → IfSome (LeftArgs (suc (length fmt))) (precision_field c fmt args)
unfolding precision_field
precision_field-Left c fmt args =
    IfSome-if _ (c == 46) _ _
      (IfSome-weaken _ _ (precision_of fmt args) (precision_of-Left fmt args) (λ a h. omega arith))
      (omega arith)

abbrev LeftLm : (n : ℕ) → (Lenmod × ℕ × List ℕ) → Type 0
LeftLm n (lm, c, rest) = length rest < n

after-Left :
    (lm : Lenmod) (fmt : List ℕ) → IfSome (LeftLm (suc (length fmt))) (after_modifier lm fmt)
after-Left lm [] = tt
after-Left lm (c ∷ fmt) = omega arith

long_modifier-Left : (fmt : List ℕ) → IfSome (LeftLm (suc (length fmt))) (long_modifier fmt)
unfolding long_modifier
long_modifier-Left [] = tt
long_modifier-Left (c ∷ fmt) =
    IfSome-if _ (c == 108) _ _
      (IfSome-weaken _ _ (after_modifier longlong fmt) (after-Left longlong fmt)
        (λ a h. omega arith))
      (omega arith)

length_modifier-Left :
    (c : ℕ) (fmt : List ℕ) → IfSome (LeftLm (suc (length fmt))) (length_modifier c fmt)
unfolding length_modifier
length_modifier-Left c fmt = IfSome-if _ (c == 108) _ _ (long_modifier-Left fmt) (
    IfSome-if _ (c == 122) _ _ (after-Left _ fmt)
      (IfSome-if _ (c == 106) _ _ (after-Left _ fmt) (omega arith)))

abbrev pub Shorter : List ℕ → Directive → Type 0
Shorter fmt d = length d.rest < length fmt

pub directive-Shorter : (fmt : List ℕ) (args : List Arg) → IfSome (Shorter fmt) (directive fmt args)
unfolding directive
directive-Shorter fmt args =
    IfSome-bind (Left (length fmt)) (Shorter fmt) _ _ (modifiers-Left 32 fmt) (λ (fill, c, rest) h.
      IfSome-bind (Left (length (c ∷ rest))) (Shorter fmt) _ _ (decimal-Left 0 (c ∷ rest))
        (λ (width, c, rest) h'.
          IfSome-bind (LeftArgs (length (c ∷ rest))) (Shorter fmt) _ _
            (precision_field-Left c rest args)
            (λ ((prec, c, rest), args) h''.
              IfSome-bind (LeftLm (length (c ∷ rest))) (Shorter fmt) _ _
                (length_modifier-Left c rest) (λ (lm, c, rest) h'''. omega arith))))

-- A format needs no more fuel than it has bytes: with that much or more, `rendered` and so
-- `printf_loop` gives the same, and gives none only where C leaves the result undefined.
rendered-fuel :
    (f g : ℕ) (fmt : List ℕ) (args : List Arg)
    → length fmt ≤ f
    → length fmt ≤ g
    → rendered f fmt args ≡ rendered g fmt args
unfolding rendered
rendered-fuel zero zero fmt args h k = refl
rendered-fuel zero (suc g) [] args h k = refl
rendered-fuel zero g (c ∷ fmt) args h k = absurd (omega arith)
rendered-fuel (suc f) zero [] args h k = refl
rendered-fuel f zero (c ∷ fmt) args h k = absurd (omega arith)
rendered-fuel (suc f) (suc g) [] args h k = refl
rendered-fuel (suc f) (suc g) (c ∷ fmt) args h k =
    ap₂
      (λ x y. elim (c == 0) [
        | true ↦ some []
        | false ↦ elim (c == 37) [ false ↦ x >>= λ out. some (c ∷ out) | true ↦ y ]
      ])
      (rendered-fuel f g fmt args (omega arith) (omega arith))
      (same (directive fmt args) (directive-Shorter fmt args)
        (λ l args q. rendered-fuel f g l args (omega arith) (omega arith)))
  where
    same :
        (d : Option Directive)
        → IfSome (Shorter fmt) d
        → ((l : List ℕ) (args : List Arg)
            → length l < length fmt
            → rendered f l args ≡ rendered g l args)
        → (d >>= λ d. field d.mods d.lm d.conversion d.args >>= λ (out, args).
            rendered f d.rest args >>= λ later. some (out ++ later))
          ≡ (d >>= λ d. field d.mods d.lm d.conversion d.args >>= λ (out, args).
              rendered g d.rest args >>= λ later. some (out ++ later))
    same none p r = refl
    same (some d) p r =
        ap {B = Option (List ℕ)}
          (λ (k : List Arg → Option (List ℕ)).
            field d.mods d.lm d.conversion d.args >>= λ (out, args).
            k args >>= λ later. some (out ++ later))
          (fun_ext (λ args. r d.rest args p))
