-- ===== src/Libk/Fsutil/Bounds.antt =====
-- What slice `fs_normslice` gives, and that its assertions hold.
use mathlib.Core.Path.{subst}
use camellia.Base.{
  sym, ap, ℕ, ◌+◌, ◌-◌, ◌%◌, ◌^◌, ◌<◌, ◌≤◌, ◌≡◌, ◌∙◌, Bool, true, false, not, Option, none, some,
  Outcome, done, panic, ◌>>=◌, ◌>>◌, assert, ltb, leb, min, if◌then◌else◌, arith, Bool-cases, inl,
  inr,
}
use camellia.Libk.Fsutil.{is_below_zero, slice_end, slice_at, normslice}

-- Where the slice begins: at the offset, or so many bytes before the end plus one; `none` if that
-- is before the start of the file.
abbrev pub position : (offset max : ℕ) → Option ℕ
position offset max =
    if ltb offset (2 ^ 63)
    then some offset
    else if leb (2 ^ 64 - offset) (max + 1)
    then some (max + 1 - (2 ^ 64 - offset))
    else none

-- the slice of a file of `max` bytes that can grow or not
abbrev pub clip : (length max : ℕ) (expand : Bool) → Option ℕ → ℕ × ℕ
clip length max expand none = (max, 0)
clip length max true (some start) = (start, length)
clip length max false (some start) =
    if leb start max then (start, min length (max - start)) else (max, 0)

slice_end_lem :
    (offset length max : ℕ)
    → offset < 2 ^ 63
    → offset + length ≤ max
    → max < 2 ^ 63
    → slice_end offset length max false ≡ done (offset, length)
unfolding slice_end
slice_end_lem offset length max a b c =
    let sound : not (is_below_zero offset) ≡ true = ground arith in
    let fits : leb ((offset + length) % 2 ^ 64) max ≡ true = ground arith in
    simp (slice_end, sound, fits, ◌>>=◌, ◌>>◌, assert)

slice_end_grow :
    (offset length max : ℕ)
    → offset < 2 ^ 63
    → slice_end offset length max true ≡ done (offset, length)
unfolding slice_end
slice_end_grow offset length max a =
    let sound : not (is_below_zero offset) ≡ true = ground arith in
    simp (slice_end, sound, ◌>>=◌, ◌>>◌, assert)

clamp : (n m : ℕ) → (if ltb m n then m else n) ≡ min n m
clamp n m = ground arith

slice_at_lem :
    (offset length max : ℕ) (expand : Bool)
    → offset < 2 ^ 63
    → max < 2 ^ 63
    → slice_at offset length max expand ≡ done (clip length max expand (some offset))
unfolding slice_at
slice_at_lem offset length max true a c = slice_end_grow offset length max a
slice_at_lem offset length max false a c = elim (Bool-cases (leb offset max)) [
  | inl inside ↦
      let bound : offset ≤ max = ground (arith, inside) in
      simp (
        slice_at,
        inside,
        clamp length (max - offset),
        slice_end_lem offset (min length (max - offset)) max a (omega (arith, bound)) c,
      )
  | inr outside ↦ simp (slice_at, outside, slice_end_lem max 0 max c (omega arith) c)
]

-- For any 64-bit offset and a size that a `long` holds, the assertions of `fs_normslice` hold, and
-- the slice begins where the offset says, a negative one counted from the end plus one; it is empty
-- at the end of the file if that is outside, and cut off there if the file cannot grow.
pub normslice_lem :
    (offset length max : ℕ) (expand : Bool)
    → offset < 2 ^ 64
    → max < 2 ^ 63
    → normslice offset length max expand ≡ done (clip length max expand (position offset max))
unfolding normslice
normslice_lem offset length max expand o c = elim (Bool-cases (ltb offset (2 ^ 63))) [
  | inl forward ↦
      let sign : is_below_zero offset ≡ false = ground (arith, forward) in
      let bound : offset < 2 ^ 63 = ground (arith, forward) in
      simp (
        normslice,
        ok,
        sign,
        forward,
        slice_at_lem offset length max expand bound c,
        ◌>>=◌,
        ◌>>◌,
        assert,
      )
  | inr backward ↦
      let sign : is_below_zero offset ≡ true = ground (arith, backward) in
      let low : 2 ^ 63 ≤ offset = ground (arith, backward) in
      elim (Bool-cases (leb (2 ^ 64 - offset) (max + 1))) [
        | inl inside ↦
            let near : 2 ^ 64 - offset ≤ max + 1 = ground (arith, inside) in
            let from_end : (offset + max + 1) % 2 ^ 64 ≡ max + 1 - (2 ^ 64 - offset) =
              omega (arith, near, low, o, c) in
            let bound : max + 1 - (2 ^ 64 - offset) < 2 ^ 63 = omega (arith, near, low, o, c) in
            let up : is_below_zero (max + 1 - (2 ^ 64 - offset)) ≡ false = ground (arith, bound) in
            simp (
              normslice,
              ok,
              sign,
              backward,
              inside,
              from_end,
              up,
              slice_at_lem (max + 1 - (2 ^ 64 - offset)) length max expand bound c,
              ◌>>=◌,
              ◌>>◌,
              assert,
            )
        | inr before ↦
            let far : max + 1 < 2 ^ 64 - offset = ground (arith, before) in
            let down : is_below_zero ((offset + max + 1) % 2 ^ 64) ≡ true =
              ground (arith, far, low, o, c) in
            simp (
              normslice,
              ok,
              sign,
              backward,
              before,
              down,
              slice_end_any expand,
              ◌>>=◌,
              ◌>>◌,
              assert,
            )
      ]
]
  where
    ok : ltb max (2 ^ 63) ≡ true
    ok = ground arith

    slice_end_any : (e : Bool) → slice_end max 0 max e ≡ done (max, 0)
    slice_end_any true = slice_end_grow max 0 max c
    slice_end_any false = slice_end_lem max 0 max c (omega arith) c

clip_fits :
    (length max : ℕ) (o : Option ℕ)
    → (clip length max false o).0 + (clip length max false o).1 ≤ max
clip_fits length max none = omega arith
clip_fits length max (some start) = ground arith

-- For a 64-bit offset and a size that a `long` holds, the slice that `fs_normslice` gives of a
-- file that cannot grow lies inside of it.
normslice_fits :
    (offset length max start len : ℕ)
    → offset < 2 ^ 64
    → max < 2 ^ 63
    → normslice offset length max false ≡ done (start, len)
    → start + len ≤ max
normslice_fits offset length max start len o c e =
    subst (λ (r : ℕ × ℕ). r.0 + r.1 ≤ max)
      (done_inside (sym (normslice_lem offset length max false o c) ∙ e))
      (clip_fits length max (position offset max))
  where
    result : ℕ × ℕ → Outcome (ℕ × ℕ) → ℕ × ℕ
    result d panic = d
    result d (done r) = r

    done_inside : {r r' : ℕ × ℕ} → done r ≡ done r' → r ≡ r'
    done_inside {r} {r'} h = ap (result r) h
