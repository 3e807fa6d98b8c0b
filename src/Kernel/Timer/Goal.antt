-- ===== src/Kernel/Timer/Goal.antt =====
-- Where a sleep ends.
use camellia.Base.{ℕ, ◌+◌, ◌*◌, ◌/◌, ◌%◌, ◌^◌, ◌<◌, ◌≡◌, ltb, arith, false}
use native.Mathlib.Nat.{zero-div}
use camellia.Kernel.Timer.{goal_at}

-- With a 64-bit counter and a period above 0, a sleep of any multiple of 2 ^ 58 nanoseconds ends
-- at once: the product with 1000000 is a multiple of 2 ^ 64, and the test for an overflow does not
-- see it.
goal_at_overflow :
    (now period n : ℕ) → now < 2 ^ 64 → 0 < period → goal_at now period (n * 2 ^ 58) ≡ now
unfolding goal_at
goal_at_overflow now period n h d =
    let wraps : n * 2 ^ 58 * 1000000 % 2 ^ 64 ≡ 0 = omega arith in
    let none_left : 0 / period ≡ 0 = zero-div period in
    let sum : (now + 0) % 2 ^ 64 ≡ now = omega (arith, h) in
    let later : ltb now now ≡ false = ground arith in simp (goal_at, wraps, none_left, sum, later)
