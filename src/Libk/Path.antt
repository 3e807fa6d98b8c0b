-- ===== src/Libk/Path.antt =====
-- src/libk/path.c: `path_simplify`. A path is the list of its bytes, `in[0 .. len)`. The bytes
-- written to `out` so far, `out[0 .. out_pos)`, are a stack with the last one on top, so that
-- `out_pos` is its depth and the walk back to the last slash pops it. Bytes of `out` behind
-- `out_pos` are never read. The loop over `i` runs on fuel, one unit for each input byte.
pub mod Spec
pub mod Segments
pub mod Refine
pub mod Canonical
pub mod Length
pub mod Idempotent
mod Tests
use mathlib.Core.List.{reverse}
use camellia.Base.{
  ℕ, zero, suc, ◌<◌, List, [], ◌∷◌, Bool, true, false, ◌&&◌, Option, none, some, Outcome, done,
  panic, ◌>>=◌, ◌>>◌, assert, ltb, leb, ◌==◌, if◌then◌else◌, length,
}

-- what the branches of the loop body distinguish: "" or ".", "..", and any other segment
pub data Kind : Type 0 where
  here parent name : Kind

abbrev pub is_dot : ℕ → Bool
is_dot c = c == b'.'

unfoldable pub kind : List ℕ → Kind
kind [] = here
kind (c ∷ []) = if is_dot c then here else name
kind (c ∷ d ∷ []) = if is_dot c && is_dot d then parent else name
kind (c ∷ d ∷ e ∷ s) = name

-- the loop over `j`: the segment behind a slash, and the input from the next slash on
unfoldable pub segment : List ℕ → List ℕ
segment [] = []
segment (c ∷ s) = if c == b'/' then [] else c ∷ segment s

unfoldable pub after_segment : List ℕ → List ℕ
after_segment [] = []
after_segment (c ∷ s) = if c == b'/' then c ∷ s else after_segment s

-- `memcpy` of a segment behind what is written
unfoldable pub write : List ℕ → List ℕ → List ℕ
write [] out = out
write (c ∷ s) out = write s (c ∷ out)

-- `while (--out_pos >= 0 && out[out_pos] != '/')`, and the test for a negative `out_pos`
unfoldable pub backtrack : List ℕ → Option (List ℕ)
backtrack [] = none
backtrack (c ∷ out) = elim (c == b'/') [ true ↦ some out | false ↦ backtrack out ]

abbrev pub nonempty : List ℕ → Bool
nonempty [] = false
nonempty (c ∷ s) = true

-- the two statements behind the loop
unfoldable pub finish : ℕ → List ℕ → Bool → Outcome (Option (List ℕ))
finish len out directory =
    let out' = if directory then b'/' ∷ out else out in
    assert (ltb 0 (length out') && leb (length out') len) >> done (some (reverse out'))

-- `none` is the result 0, for an invalid path.
unfoldable pub loop :
    (len fuel : ℕ) (rest out : List ℕ) (directory : Bool) → Outcome (Option (List ℕ))
loop len zero rest out directory = finish len out directory
loop len (suc fuel) [] out directory = finish len out directory
loop len (suc fuel) (c ∷ s) out directory = assert (c == b'/') >> elim (kind (segment s)) [
  | here ↦ loop len fuel (after_segment s) out true
  | parent ↦ elim (backtrack out) [
    | none ↦ done none
    | some out' ↦ loop len fuel (after_segment s) out' true
  ]
  | name ↦
      loop len fuel (after_segment s) (write (segment s) (b'/' ∷ out)) (nonempty (after_segment s))
]

unfoldable pub simplify : List ℕ → Outcome (Option (List ℕ))
simplify [] = done none
simplify (c ∷ s) =
    if c == b'/' then loop (length (c ∷ s)) (length (c ∷ s)) (c ∷ s) [] false else done none
