-- ===== src/Base/Int.antt =====
-- Signed C integers (`long`, `hid_t`): only compared, passed and negated here.
use Prim.Native.Nat.{ℕ, zero, suc, ◌+◌, ◌-◌, ◌%◌, ◌^◌}
use mathlib.Core.Bool.{Bool, true, false}
use camellia.Base.Tests.{ltb, if◌then◌else◌}

-- `negsuc n` is -(n + 1).
pub data ℤ : Type 0 where
  pos : ℕ → ℤ
  negsuc : ℕ → ℤ

abbrev pub neg : ℕ → ℤ
neg zero = pos 0
neg (suc n) = negsuc n

abbrev pub is_neg : ℤ → Bool
is_neg (pos n) = false
is_neg (negsuc n) = true

-- a `size_t` stored in an `int` and passed on as a `size_t`
abbrev pub through_int : ℕ → ℕ
through_int n = let m = n % 2 ^ 32 in if ltb m (2 ^ 31) then m else m + (2 ^ 64 - 2 ^ 32)

-- the value of the `int` that a `size_t` is stored in
abbrev pub int_of_size : ℕ → ℤ
int_of_size n = let m = n % 2 ^ 32 in if ltb m (2 ^ 31) then pos m else negsuc (2 ^ 32 - m - 1)

-- the value of the `long` with these 64 bits
abbrev pub long_of : ℕ → ℤ
long_of n = if ltb n (2 ^ 63) then pos n else negsuc (2 ^ 64 - n - 1)
