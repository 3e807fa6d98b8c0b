-- ===== src/Libk/Path/Refine.antt =====
-- `path_simplify` computes the canonical form, and none of its assertions fails.
use mathlib.Core.Option
use mathlib.Core.List.{reverse-cons}
use camellia.Base.{
  ◌⊎◌, ℕ, zero, suc, ◌+◌, ◌<◌, ◌≤◌, List, [], ◌∷◌, ◌++◌, Bool, true, false, ◌&&◌, Option, none,
  some, done, ltb, leb, ◌==◌, length, All, ◌≡◌, refl, sym, ap, ◌∙◌, arith, append-nil, Bool-cases,
  inl, inr,
}
use camellia.Libk.Path.{
  Kind, here, parent, name, kind, segment, after_segment, write, backtrack, nonempty, finish, loop,
  simplify,
}
use camellia.Libk.Path.Spec.{resolve, ends_dir, render, closing, canonical}
use camellia.Libk.Path.Segments.{
  Plain, segment-Plain, parts_after, split-segment, length-segment, AtSlash, after_segment-AtSlash,
  length-write, written, reverse-written, backtrack-written,
}

-- what holds whenever the outer loop tests its condition
record Ready (len : ℕ) (rest : List ℕ) (names : List (List ℕ)) (dir : Bool) : Type 0 where
  plain : All Plain names
  slash : AtSlash rest
  fits : length (written names) + length rest ≤ len
  room : length rest ≡ 0 → dir ≡ true → length (written names) < len
  filled : length rest ≡ 0 → dir ≡ false → 0 < length (written names)

abbrev expected : List ℕ → List (List ℕ) → Bool → Option (List ℕ)
expected rest names dir =
    Option.map (λ ns. render ns ++ closing (ends_dir (parts_after rest) dir))
      (resolve (parts_after rest) names)

finish_lem :
    (len : ℕ) (names : List (List ℕ)) (dir : Bool)
    → Ready len [] names dir
    → finish len (written names) dir ≡ done (expected [] names dir)
unfolding finish resolve ends_dir
finish_lem len names true r =
    let e : (ltb 0 (suc (length (written names))) && leb (suc (length (written names))) len)
        ≡ true =
      ground (arith, r.room refl refl) in
    rw e (rw (reverse-cons, reverse-written))
finish_lem len names false r =
    let e : (ltb 0 (length (written names)) && leb (length (written names)) len) ≡ true =
      ground (arith, r.filled refl refl, r.fits) in
    rw e (rw (reverse-written, append-nil))

ends_dir_parts :
    (rest : List ℕ)
    → ends_dir (parts_after rest) (nonempty rest) ≡ ends_dir (parts_after rest) false
ends_dir_parts [] = refl
ends_dir_parts (c ∷ s) = rw split-segment (unfold ends_dir in refl)

module _ {len : ℕ} {c : ℕ} {s : List ℕ} {dir : Bool} where
  -- "" and ".": nothing is written, and the path so far names a directory
  stay-Ready :
      {names : List (List ℕ)} → Ready len (c ∷ s) names dir → Ready len (after_segment s) names true
  stay-Ready r = record {
    plain = r.plain;
    slash = after_segment-AtSlash s;
    fits = omega (arith, length-segment s, r.fits);
    room = λ e d. omega (arith, r.fits);
    filled = λ e d. cc;
  }

  pop-Ready :
      {n : List ℕ} {names : List (List ℕ)}
      → Ready len (c ∷ s) (n ∷ names) dir
      → Ready len (after_segment s) names true
  unfolding written
  pop-Ready {n} {names} r =
      let shorter = length-write n (b'/' ∷ written names) in
      record {
        plain = r.plain.1;
        slash = after_segment-AtSlash s;
        fits = omega (arith, length-segment s, r.fits, shorter);
        room = λ e d. omega (arith, r.fits, shorter);
        filled = λ e d. cc;
      }

  push-Ready :
      {names : List (List ℕ)}
      → Ready len (c ∷ s) names dir
      → Ready len (after_segment s) (segment s ∷ names) (nonempty (after_segment s))
  unfolding written
  push-Ready {names} r =
      let longer = length-write (segment s) (b'/' ∷ written names) in
      record {
        plain = (segment-Plain s, r.plain);
        slash = after_segment-AtSlash s;
        fits = omega (arith, length-segment s, r.fits, longer);
        room = λ e d. ground (arith, e, d);
        filled = λ e d. omega (arith, longer);
      }

pub Kind-cases : (k : Kind) → (k ≡ here) ⊎ ((k ≡ parent) ⊎ (k ≡ name))
Kind-cases here = inl refl
Kind-cases parent = inr (inl refl)
Kind-cases name = inr (inr refl)

module _ (c : ℕ) (s : List ℕ) (names : List (List ℕ)) (dir : Bool) where
  expected_here :
      kind (segment s) ≡ here → expected (c ∷ s) names dir ≡ expected (after_segment s) names true
  unfolding resolve ends_dir
  expected_here e = rw (split-segment, resolve, ends_dir, e)

  expected_name :
      kind (segment s) ≡ name
      → expected (c ∷ s) names dir
        ≡ expected (after_segment s) (segment s ∷ names) (nonempty (after_segment s))
  expected_name e =
      rw (split-segment, ends_dir_parts) (unfold resolve ends_dir in rw (resolve, ends_dir, e))

expected_root :
    (c : ℕ) (s : List ℕ) (dir : Bool) → kind (segment s) ≡ parent → expected (c ∷ s) [] dir ≡ none
unfolding resolve ends_dir
expected_root c s dir e = rw (split-segment, resolve, e)

expected_parent :
    (c : ℕ) (s n : List ℕ) (names : List (List ℕ)) (dir : Bool)
    → kind (segment s) ≡ parent
    → expected (c ∷ s) (n ∷ names) dir ≡ expected (after_segment s) names true
unfolding resolve ends_dir
expected_parent c s n names dir e = rw (split-segment, resolve, ends_dir, e)

module _ (len fuel c : ℕ) (s out : List ℕ) (dir : Bool) (slash : (c == b'/') ≡ true) where
  loop_here :
      kind (segment s) ≡ here
      → loop len (suc fuel) (c ∷ s) out dir ≡ loop len fuel (after_segment s) out true
  unfolding loop
  loop_here e = rw (loop, slash, e)

  loop_name :
      kind (segment s) ≡ name
      → loop len (suc fuel) (c ∷ s) out dir
        ≡ loop len fuel
            (after_segment s)
            (write (segment s) (b'/' ∷ out))
            (nonempty (after_segment s))
  unfolding loop
  loop_name e = rw (loop, slash, e)

  loop_root :
      kind (segment s) ≡ parent
      → backtrack out ≡ none
      → loop len (suc fuel) (c ∷ s) out dir ≡ done none
  unfolding loop
  loop_root e b = rw (loop, slash, e, b)

  loop_parent :
      (out' : List ℕ)
      → kind (segment s) ≡ parent
      → backtrack out ≡ some out'
      → loop len (suc fuel) (c ∷ s) out dir ≡ loop len fuel (after_segment s) out' true
  unfolding loop
  loop_parent out' e b = rw (loop, slash, e, b)

written-cons : (n : List ℕ) (ns : List (List ℕ)) → written (n ∷ ns) ≡ write n (b'/' ∷ written ns)
unfolding written
written-cons n ns = refl

backtrack_root : backtrack (written []) ≡ none
unfolding written backtrack
backtrack_root = refl

loop_lem :
    (len fuel : ℕ) (rest : List ℕ) (names : List (List ℕ)) (dir : Bool)
    → length rest ≤ fuel
    → Ready len rest names dir
    → loop len fuel rest (written names) dir ≡ done (expected rest names dir)
loop_lem len zero [] names dir enough r = unfold loop in finish_lem len names dir r
loop_lem len zero (c ∷ s) names dir enough r = absurd (omega arith)
loop_lem len (suc fuel) [] names dir enough r = unfold loop in finish_lem len names dir r
loop_lem len (suc fuel) (c ∷ s) names dir enough r = elim (Kind-cases (kind (segment s))) [
  | inl e ↦
      loop_here len fuel c s _ dir r.slash e
      ∙ loop_lem len fuel (after_segment s) names true shorter (stay-Ready r)
      ∙ ap done (sym (expected_here c s names dir e))
  | inr (inl e) ↦ up names r e (λ ns r'. loop_lem len fuel (after_segment s) ns true shorter r')
  | inr (inr e) ↦
      loop_name len fuel c s _ dir r.slash e
      ∙ ap (λ out. loop len fuel (after_segment s) out (nonempty (after_segment s)))
          (sym (written-cons (segment s) names))
      ∙ loop_lem len fuel (after_segment s) (segment s ∷ names) (nonempty (after_segment s)) shorter
          (push-Ready r)
      ∙ ap done (sym (expected_name c s names dir e))
]
  where
    shorter : length (after_segment s) ≤ fuel
    shorter = omega (arith, length-segment s)

    up :
        (names : List (List ℕ))
        → Ready len (c ∷ s) names dir
        → kind (segment s) ≡ parent
        → ((ns : List (List ℕ))
            → Ready len (after_segment s) ns true
            → loop len fuel (after_segment s) (written ns) true
              ≡ done (expected (after_segment s) ns true))
        → loop len (suc fuel) (c ∷ s) (written names) dir ≡ done (expected (c ∷ s) names dir)
    up [] r e ih =
        loop_root len fuel c s _ dir r.slash e backtrack_root
        ∙ ap done (sym (expected_root c s dir e))
    up (n ∷ names) r e ih =
        loop_parent len fuel c s _ dir r.slash (written names) e
          (backtrack-written n names r.plain.0)
        ∙ ih names (pop-Ready r)
        ∙ ap done (sym (expected_parent c s n names dir e))

from_start :
    (c : ℕ) (s : List ℕ)
    → (c == b'/') ≡ true
    → loop (length (c ∷ s)) (length (c ∷ s)) (c ∷ s) [] false ≡ done (expected (c ∷ s) [] false)
from_start c s slash =
    let ready : Ready (length (c ∷ s)) (c ∷ s) [] false = record {
      plain = tt;
      slash = slash;
      fits = unfold written in omega arith;
      room = λ e d. absurd (omega arith);
      filled = λ e d. absurd (omega arith);
    } in
    unfold written in
    loop_lem (length (c ∷ s)) (length (c ∷ s)) (c ∷ s) [] false (omega arith) ready

-- Every byte string: `path_simplify` passes its assertions and returns the canonical form of the
-- path, or 0 if there is none.
pub simplify_refines : (path : List ℕ) → simplify path ≡ done (canonical path)
unfolding simplify canonical
simplify_refines [] = refl
simplify_refines (c ∷ s) = elim (Bool-cases (c == b'/')) [
  | inl slash ↦ rw (slash, from_start c s slash)
  | inr other ↦ rw other
]
