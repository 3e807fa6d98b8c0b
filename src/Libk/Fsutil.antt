-- ===== src/Libk/Fsutil.antt =====
-- src/libk/fsutil.c: `fs_normslice`. A `long` is its pattern of 64 bits, a number below 2 ^ 64,
-- and negative from 2 ^ 63 on. The result is the new `*offset` and `*length`.
pub mod Bounds
mod Tests
use camellia.Base.{
  ℕ, ◌+◌, ◌-◌, ◌%◌, ◌^◌, Bool, true, false, ◌||◌, ◌&&◌, not, Outcome, done, panic, ◌>>=◌, ◌>>◌,
  assert, ltb, leb, if◌then◌else◌,
}

abbrev pub is_below_zero : ℕ → Bool
is_below_zero o = leb (2 ^ 63) o

-- the assertions at the label `end`
unfoldable pub slice_end : (offset length max : ℕ) (expand : Bool) → Outcome (ℕ × ℕ)
slice_end offset length max expand =
    assert (not (is_below_zero offset))
    >> assert (expand || leb ((offset + length) % 2 ^ 64) max)
    >> done (offset, length)

-- from the test of `expand` on
unfoldable pub slice_at : (offset length max : ℕ) (expand : Bool) → Outcome (ℕ × ℕ)
slice_at offset length max true = slice_end offset length max true
slice_at offset length max false =
    if leb offset max
    then slice_end offset (if ltb (max - offset) length then max - offset else length) max false
    else slice_end max 0 max false

unfoldable pub normslice : (offset length max : ℕ) (expand : Bool) → Outcome (ℕ × ℕ)
normslice offset length max expand =
    assert (ltb max (2 ^ 63))
    >> (let from_end = (offset + max + 1) % 2 ^ 64 in
        if is_below_zero offset
        then if is_below_zero from_end
          then slice_end max 0 max expand
          else slice_at from_end length max expand
        else slice_at offset length max expand)
