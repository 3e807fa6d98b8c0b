-- ===== src/Cmd/Shell/Ends.antt =====
-- The parser of src/cmd/shell/parser.c takes a character in each round.
use camellia.Base.{
  ℕ, zero, suc, ◌-◌, ◌≤◌, ◌≡◌, ◌≢◌, refl, sym, ◌∙◌, List, [], ◌∷◌, false, ◌||◌, Option, none, some,
  panic, ◌==◌, length, arith, Bool-cases, inl, inr,
}
use camellia.Cmd.Shell.{
  Redir, Parsed, parse, parse_from, parse_at, add_arg, redirect, parg, parg_at, unquoted, plain_end,
  quoted, cut, skipspace, isspace, isspecial,
}

skipspace_shorter : (s : List ℕ) → length (skipspace s) ≤ length s
unfolding skipspace
skipspace_shorter [] = omega arith
skipspace_shorter (c ∷ s) =
    let r = skipspace_shorter s in
    elim (Bool-cases (isspace c)) [
      | inl space ↦ simp (skipspace, space) (omega (arith, r))
      | inr other ↦ simp (skipspace, other) (omega arith)
    ]

cut_shorter : (s : List ℕ) → length (cut s) ≤ length s
unfolding cut
cut_shorter [] = omega arith
cut_shorter (c ∷ s) = omega arith

quoted_shorter : (s : List ℕ) → length (quoted s).1 ≤ length s
unfolding quoted
quoted_shorter [] = omega arith
quoted_shorter (c ∷ s) =
    let r = quoted_shorter s in
    elim (Bool-cases (c == b'"')) [
      | inl quote ↦ simp (quoted, quote) (omega arith)
      | inr other ↦ simp (quoted, other) (omega (arith, r))
    ]

plain_end_shorter : (arg s : List ℕ) → length (plain_end arg s).1 ≤ length s - 1
unfolding plain_end
plain_end_shorter arg [] = omega arith
plain_end_shorter arg (c ∷ s) = elim (Bool-cases (c == b'#')) [
  | inl comment ↦ simp (plain_end, comment) (omega arith)
  | inr other ↦ simp (plain_end, other) (omega arith)
]

unquoted_shorter : (s : List ℕ) → length (unquoted s).1 ≤ length s
unfolding unquoted
unquoted_shorter [] = omega arith
unquoted_shorter (c ∷ s) =
    let r = unquoted_shorter s in
    elim (Bool-cases (isspace c || isspecial c)) [
      | inl stop ↦ simp (unquoted, stop) (omega arith)
      | inr go ↦ simp (unquoted, go) (omega (arith, r))
    ]

parg_at_shorter : (s : List ℕ) → length (parg_at s).1 ≤ length s - 1
unfolding parg_at
parg_at_shorter [] = omega arith
parg_at_shorter (c ∷ s) =
    let q = quoted_shorter s in
    let k = cut_shorter (quoted s).1 in
    let p = unquoted_shorter (c ∷ s) in
    let e = plain_end_shorter (unquoted (c ∷ s)).0 (unquoted (c ∷ s)).1 in
    elim (Bool-cases (c == b'"')) [
      | inl quote ↦ simp (parg_at, quote) (omega (arith, q, k))
      | inr other ↦ simp (parg_at, other) (omega (arith, p, e))
    ]

parg_shorter : (s : List ℕ) → length (parg s).1 ≤ length s - 1
unfolding parg
parg_shorter s = omega (arith, skipspace_shorter s, parg_at_shorter (skipspace s))

redirect_shorter : (r : Redir) (s : List ℕ) → length (redirect r s).1 ≤ length s
unfolding redirect
redirect_shorter r [] = omega (arith, parg_shorter [])
redirect_shorter r (c ∷ s) =
    let one = parg_shorter (c ∷ s) in
    let two = parg_shorter s in
    elim (Bool-cases (c == b'>')) [
      | inl double ↦ simp (redirect, double) (omega (arith, two))
      | inr single ↦ simp (redirect, single) (omega (arith, one))
    ]

parse_at_shorter :
    (n : ℕ) (p p' : Parsed) (c : ℕ) (s rest : List ℕ)
    → parse_at n p c s ≡ some (p', rest)
    → length rest ≤ length s
unfolding parse_at add_arg
parse_at_shorter n p p' c s rest e =
    let r = redirect_shorter p.redir s in let a = parg_shorter (c ∷ s) in ground (arith, e, r, a)

module _ (n : ℕ) where
  parse_round :
      (fuel : ℕ) (p : Parsed) (c : ℕ) (s : List ℕ) (o : Option (Parsed × List ℕ))
      → parse_at n p c s ≡ o
      → ((p' : Parsed) (rest : List ℕ)
          → length rest ≤ length s
          → parse_from fuel n p' (skipspace rest) ≢ panic)
      → parse_from (suc fuel) n p (c ∷ s) ≢ panic
  unfolding parse_from
  parse_round fuel p c s none at next e = absurd (ground (arith, at, e))
  parse_round fuel p c s (some (p', rest)) at next e =
      let goes_on : parse_from (suc fuel) n p (c ∷ s) ≡ parse_from fuel n p' (skipspace rest) =
        simp (parse_from, at) in
      next p' rest (parse_at_shorter n p p' c s rest at) (sym goes_on ∙ e)

  parse_from_ends :
      (fuel : ℕ) (p : Parsed) (s : List ℕ) → length s ≤ fuel → parse_from fuel n p s ≢ panic
  unfolding parse_from
  parse_from_ends fuel p [] le = λ e. absurd (ground (arith, e))
  parse_from_ends zero p (c ∷ s) le = absurd (omega arith)
  parse_from_ends (suc fuel) p (c ∷ s) le =
      parse_round fuel p c s (parse_at n p c s) refl (λ p' rest shorter.
        parse_from_ends fuel p' (skipspace rest)
          (omega (arith, le, shorter, skipspace_shorter rest)))

pub parse-ends : (s : List ℕ) (n : ℕ) → parse s n ≢ panic
unfolding parse
parse-ends s n e =
    let start : Parsed = record { argv = []; redir = record { stdout = none; append = false } } in
    elim (Bool-cases (n == 0)) [
      | inl empty ↦ absurd (ground (arith, e, empty))
      | inr room ↦
          let goes_on : parse s n ≡ parse_from (length s) n start (skipspace s) =
            simp (parse, room) in
          parse_from_ends n (length s) start (skipspace s) (skipspace_shorter s) (sym goes_on ∙ e)
    ]
