-- ===== src/Cmd/Shell/Bounds.antt =====
-- The parser of src/cmd/shell/parser.c stays inside of `argv`.
use camellia.Base.{
  ℕ, zero, suc, ◌<◌, ◌≡◌, refl, sym, ◌∙◌, ◌⊎◌, List, [], ◌∷◌, false, Option, none, some, Outcome,
  done, panic, ◌==◌, length, arith, Bool-cases, inl, inr,
}
use camellia.Cmd.Shell.Ends.{parse-ends}
use camellia.Cmd.Shell.{Parsed, parse, parse_from, parse_at, add_arg, parg, skipspace}

Outcome-cases : {A : Type 0} (o : Outcome A) → (o ≡ panic) ⊎ ((a : A) × (o ≡ done a))
Outcome-cases panic = inl refl
Outcome-cases (done a) = inr (a, refl)

add_arg_fits :
    (n : ℕ) (p p' : Parsed) (a : Option (List ℕ) × List ℕ) (rest : List ℕ)
    → add_arg n p a ≡ some (p', rest)
    → length p'.argv < n
unfolding add_arg
add_arg_fits n p p' (arg, s) rest e = ground (arith, e)

parse_at_fits :
    (n : ℕ) (p p' : Parsed) (c : ℕ) (s rest : List ℕ)
    → length p.argv < n
    → parse_at n p c s ≡ some (p', rest)
    → length p'.argv < n
unfolding parse_at
parse_at_fits n p p' c s rest fits e =
    let added = add_arg_fits n p p' (parg (c ∷ s)) rest in ground (arith, e, added, fits)

module _ (n : ℕ) where
  -- a round of the loop, by its result
  parse_step :
      (fuel : ℕ) (p q : Parsed) (c : ℕ) (s : List ℕ) (o : Option (Parsed × List ℕ))
      → parse_at n p c s ≡ o
      → length p.argv < n
      → ((p' : Parsed) (rest : List ℕ)
          → length p'.argv < n
          → parse_from fuel n p' (skipspace rest) ≡ done (some q)
          → length q.argv < n)
      → parse_from (suc fuel) n p (c ∷ s) ≡ done (some q)
      → length q.argv < n
  unfolding parse_from
  parse_step fuel p q c s none at fits next e = absurd (ground (arith, at, e))
  parse_step fuel p q c s (some (p', rest)) at fits next e =
      let goes_on : parse_from (suc fuel) n p (c ∷ s) ≡ parse_from fuel n p' (skipspace rest) =
        simp (parse_from, at) in
      next p' rest (parse_at_fits n p p' c s rest fits at) (sym goes_on ∙ e)

  parse_from_fits :
      (fuel : ℕ) (p q : Parsed) (s : List ℕ)
      → length p.argv < n
      → parse_from fuel n p s ≡ done (some q)
      → length q.argv < n
  unfolding parse_from
  parse_from_fits fuel p q [] fits e = ground (arith, e, fits)
  parse_from_fits zero p q (c ∷ s) fits e = absurd (ground (arith, e))
  parse_from_fits (suc fuel) p q (c ∷ s) fits e =
      parse_step fuel p q c s (parse_at n p c s) refl fits
        (λ p' rest f r. parse_from_fits fuel p' q (skipspace rest) f r) e

parse_fits : (s : List ℕ) (n : ℕ) (q : Parsed) → parse s n ≡ done (some q) → length q.argv < n
unfolding parse
parse_fits s n q e =
    let start : Parsed = record { argv = []; redir = record { stdout = none; append = false } } in
    elim (Bool-cases (n == 0)) [
      | inl empty ↦ absurd (ground (arith, e, empty))
      | inr room ↦
          let goes_on : parse s n ≡ parse_from (length s) n start (skipspace s) =
            simp (parse, room) in
          parse_from_fits n (length s) start q (skipspace s) (ground (arith, room))
            (sym goes_on ∙ e)
    ]

-- `parse` comes to the end of each line, and returns either -1 or arguments that leave a place in
-- `argv` for the NULL that it writes behind them.
pub parse_lem :
    (s : List ℕ) (n : ℕ)
    → (parse s n ≡ done none) ⊎ ((q : Parsed) × (parse s n ≡ done (some q)) × (length q.argv < n))
parse_lem s n = elim (Outcome-cases (parse s n)) [
  | inl stuck ↦ absurd (parse-ends s n stuck)
  | inr (none, e) ↦ inl e
  | inr (some q, e) ↦ inr (q, e, parse_fits s n q e)
]
