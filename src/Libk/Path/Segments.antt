-- ===== src/Libk/Path/Segments.antt =====
-- The helpers of `path_simplify`: segments of the input, and the stack of written bytes.
use mathlib.Core.List.{reverse, reverse-cons}
use camellia.Base.{
  ℕ, ◌+◌, List, [], ◌∷◌, ◌++◌, true, false, some, ◌==◌, length, All, ◌≡◌, refl, sym, ◌∙◌, arith,
  append-nil, append_assoc,
}
use camellia.Libk.Path.{segment, after_segment, write, backtrack}
use camellia.Libk.Path.Spec.{split, render}

-- no byte is a slash
abbrev pub Plain : List ℕ → Type 0
Plain = All (λ c. (c == b'/') ≡ false)

pub segment-Plain : (s : List ℕ) → Plain (segment s)
unfolding segment
segment-Plain [] = tt
segment-Plain (c ∷ s) = ground (arith, segment-Plain s)

-- the parts of a path, by the two halves that the inner loop finds
abbrev pub parts_after : List ℕ → List (List ℕ)
parts_after [] = []
parts_after (c ∷ s) = split s

pub split-segment : (s : List ℕ) → split s ≡ segment s ∷ parts_after (after_segment s)
unfolding split segment after_segment
split-segment [] = refl
split-segment (c ∷ s) = ground (arith, split-segment s)

pub length-segment : (s : List ℕ) → length (segment s) + length (after_segment s) ≡ length s
unfolding segment after_segment
length-segment [] = refl
length-segment (c ∷ s) = ground (arith, length-segment s)

-- what the outer loop meets next is a slash or the end
abbrev pub AtSlash : List ℕ → Type 0
AtSlash [] = Unit
AtSlash (c ∷ s) = (c == b'/') ≡ true

pub after_segment-AtSlash : (s : List ℕ) → AtSlash (after_segment s)
unfolding after_segment
after_segment-AtSlash [] = tt
after_segment-AtSlash (c ∷ s) = ground (arith, after_segment-AtSlash s)

pub length-write : (s out : List ℕ) → length (write s out) ≡ length s + length out
unfolding write
length-write [] out = omega arith
length-write (c ∷ s) out = omega (arith, length-write s (c ∷ out))

pub reverse-write : (s out : List ℕ) → reverse (write s out) ≡ reverse out ++ s
unfolding write
reverse-write [] out = sym (append-nil (reverse out))
reverse-write (c ∷ s) out = simp (reverse-write s, reverse-cons, append_assoc)

pub backtrack-write : (s out : List ℕ) → Plain s → backtrack (write s out) ≡ backtrack out
unfolding write
backtrack-write [] out h = refl
backtrack-write (c ∷ s) out h =
    backtrack-write s (c ∷ out) h.1 ∙ unfold backtrack in rw (h.0, backtrack)

-- the stack of written bytes for a stack of components
unfoldable pub written : List (List ℕ) → List ℕ
written [] = []
written (n ∷ ns) = write n (b'/' ∷ written ns)

pub reverse-written : (ns : List (List ℕ)) → reverse (written ns) ≡ render ns
unfolding written render
reverse-written [] = refl
reverse-written (n ∷ ns) = simp (reverse-write, reverse-cons, append_assoc, reverse-written ns)

pub backtrack-written :
    (n : List ℕ) (ns : List (List ℕ)) → Plain n → backtrack (written (n ∷ ns)) ≡ some (written ns)
unfolding written
backtrack-written n ns h = backtrack-write n _ h ∙ unfold backtrack in refl
