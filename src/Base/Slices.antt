-- ===== src/Base/Slices.antt =====
-- The bytes of a stretch of a C array.
use Prim.Native.Nat.{ℕ, zero, suc, ◌+◌, ◌≤◌, ◌<◌}
use mathlib.Core.Path.{◌≡◌, refl, ap, ap₂}
use mathlib.Core.List.{List, [], ◌∷◌, ◌++◌}
use mathlib.Core.Logic.{◌⊎◌}
use native.Mathlib.Omega.{arith}
use native.Mathlib.Nat.{zero-add, suc-add, add-suc, add-zero}
use camellia.Base.Lists.{length, get_or, set, get_or-set_self, get_or-set_ne}

-- `xs[i], …, xs[i + n - 1]`; a byte out of range reads as 0
unfoldable pub slice : List ℕ → ℕ → ℕ → List ℕ
slice xs i zero = []
slice xs i (suc n) = get_or xs i 0 ∷ slice xs (suc i) n

pub length-slice : (xs : List ℕ) (i n : ℕ) → length (slice xs i n) ≡ n
unfolding slice
length-slice xs i zero = refl
length-slice xs i (suc n) = ap suc (length-slice xs (suc i) n)

pub slice-add : (xs : List ℕ) (i n m : ℕ) → slice xs i (n + m) ≡ slice xs i n ++ slice xs (i + n) m
unfolding slice
slice-add xs i zero m = rw (zero-add, add-zero)
slice-add xs i (suc n) m = rw (suc-add, add-suc, slice-add xs (suc i) n m, suc-add)

-- a write outside the stretch does not show in it
pub slice-set_out :
    (xs : List ℕ) (i n j v : ℕ) → (j < i) ⊎ (i + n ≤ j) → slice (set xs j v) i n ≡ slice xs i n
unfolding slice
slice-set_out xs i zero j v h = refl
slice-set_out xs i (suc n) j v h =
    ap₂ ◌∷◌ (get_or-set_ne xs j i v 0 (omega arith)) (slice-set_out xs (suc i) n j v (omega arith))

-- a write just past the stretch extends it
pub slice-set_end :
    (xs : List ℕ) (i n j v : ℕ)
    → j ≡ i + n
    → j < length xs
    → slice (set xs j v) i (suc n) ≡ slice xs i n ++ (v ∷ [])
unfolding slice
slice-set_end xs i zero j v e h =
    let e' : i ≡ j = omega arith in rw e' (ap (λ t. t ∷ []) (get_or-set_self xs j v 0 h))
slice-set_end xs i (suc n) j v e h =
    ap₂ ◌∷◌ (get_or-set_ne xs j i v 0 (omega arith))
      (slice-set_end xs (suc i) n j v (omega arith) h)

pub slice-zero : (xs : List ℕ) (i : ℕ) → slice xs i 0 ≡ []
unfolding slice
slice-zero xs i = refl
