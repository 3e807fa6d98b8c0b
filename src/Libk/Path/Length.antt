-- ===== src/Libk/Path/Length.antt =====
-- The result of `path_simplify` fits the buffer of the input.
use mathlib.Core.List.{reverse, reverse-cons}
use camellia.Base.{
  ℕ, zero, suc, ◌<◌, ◌≤◌, List, [], ◌∷◌, Bool, true, false, Option, none, some, done, length, ◌≡◌,
  arith, length-append,
}
use camellia.Libk.Path.{segment, after_segment, write, backtrack, nonempty, finish, loop, simplify}

length-reverse : (s : List ℕ) → length (reverse s) ≡ length s
length-reverse [] = omega arith
length-reverse (c ∷ s) =
    rw reverse-cons (omega (arith, length-append (reverse s) (c ∷ []), length-reverse s))

abbrev Fits : ℕ → List ℕ → Type 0
Fits len q = (0 < length q) × (length q ≤ len)

finish-Fits :
    (len : ℕ) (out : List ℕ) (dir : Bool) {q : List ℕ}
    → finish len out dir ≡ done (some q)
    → Fits len q
unfolding finish
finish-Fits len out dir e = ground (arith, length-reverse out, length-reverse (b'/' ∷ out))

abbrev or_empty : Option (List ℕ) → List ℕ
or_empty none = []
or_empty (some out) = out

loop-Fits :
    (len fuel : ℕ) (rest out : List ℕ) (dir : Bool) {q : List ℕ}
    → loop len fuel rest out dir ≡ done (some q)
    → Fits len q
unfolding loop
loop-Fits len zero rest out dir e = finish-Fits len out dir e
loop-Fits len (suc fuel) [] out dir e = finish-Fits len out dir e
loop-Fits len (suc fuel) (c ∷ s) out dir {q} e = ground (
  arith,
  loop-Fits len fuel (after_segment s) out true {q = q},
  loop-Fits len fuel (after_segment s) (or_empty (backtrack out)) true {q = q},
  loop-Fits len fuel (after_segment s) (write (segment s) (b'/' ∷ out)) (nonempty (after_segment s))
      {q = q},
)

-- A simplified path is not empty and no longer than the path given.
simplify_fits :
    (p : List ℕ) {q : List ℕ} → simplify p ≡ done (some q) → (0 < length q) × (length q ≤ length p)
unfolding simplify
simplify_fits [] e = cc
simplify_fits (c ∷ s) {q} e =
    ground (arith, loop-Fits (length (c ∷ s)) (length (c ∷ s)) (c ∷ s) [] false {q = q})
