-- ===== src/Kernel/Mount/Resolve.antt =====
-- Which mount a path belongs to.
use mathlib.Core.Path.{subst}
use camellia.Base.{
  ℕ, ◌+◌, ◌-◌, ◌≡◌, refl, sym, ap, ap₂, ◌∙◌, ◌⊎◌, inl, inr, List, [], ◌∷◌, ◌++◌, Bool, true, false,
  ◌&&◌, ◌||◌, not, Option, none, some, ltb, ◌==◌, length, get_or, All, length-append, arith,
  Bool-cases,
}
use camellia.Kernel.State.{Mount}
use camellia.Kernel.Mount.{starts_with, covers, resolve}

-- Where a prefix may end in a path: at its end, before a slash, or behind one.
abbrev pub Boundary : (prefix rest : List ℕ) → Type 0
Boundary prefix rest =
    (rest ≡ [])
    ⊎ (((t : List ℕ) × (rest ≡ b'/' ∷ t)) ⊎ ((t : List ℕ) × (prefix ≡ t ++ (b'/' ∷ []))))

-- the path lies in the tree that is mounted at the prefix
abbrev pub IsUnder : (prefix path : List ℕ) → Type 0
IsUnder prefix path = (rest : List ℕ) × (path ≡ prefix ++ rest) × Boundary prefix rest

starts_with-append : (p rest : List ℕ) → starts_with p (p ++ rest) ≡ true
unfolding starts_with
starts_with-append [] rest = refl
starts_with-append (c ∷ p) rest = ground (arith, starts_with-append p rest)

starts_with_rest : (p q : List ℕ) → starts_with p q ≡ true → (rest : List ℕ) × (q ≡ p ++ rest)
unfolding starts_with
starts_with_rest [] q e = (q, refl)
starts_with_rest (c ∷ p) [] e = absurd (ground (arith, e))
starts_with_rest (c ∷ p) (d ∷ q) e =
    let same : c ≡ d = ground (arith, e) in
    let (rest, f) = starts_with_rest p q (ground (arith, e)) in (rest, ap₂ ◌∷◌ (sym same) f)

get_or-append : (p rest : List ℕ) (d : ℕ) → get_or (p ++ rest) (length p) d ≡ get_or rest 0 d
get_or-append [] rest d = refl
get_or-append (c ∷ p) rest d = get_or-append p rest d

get_or-append_last : (p rest : List ℕ) (c d : ℕ) → get_or ((p ++ (c ∷ [])) ++ rest) (length p) d ≡ c
get_or-append_last [] rest c d = refl
get_or-append_last (x ∷ p) rest c d = get_or-append_last p rest c d

-- a list that is not empty has a last element
last_of : (p : List ℕ) → (length p ≡ 0) ⊎ ((t : List ℕ) × (c : ℕ) × (p ≡ t ++ (c ∷ [])))
last_of [] = inl refl
last_of (x ∷ p) = elim (last_of p) [
  | inl e ↦ inr ([], x, ap (λ u. x ∷ u) (only_nil p e))
  | inr (t, c, e) ↦ inr (x ∷ t, c, ap (λ u. x ∷ u) e)
]
  where
    only_nil : (p : List ℕ) → length p ≡ 0 → p ≡ []
    only_nil [] e = refl
    only_nil (x ∷ p) e = absurd (omega (arith, e))

get_first : (rest : List ℕ) → (get_or rest 0 0 == b'/') ≡ true → (t : List ℕ) × (rest ≡ b'/' ∷ t)
get_first [] e = absurd (ground (arith, e))
get_first (c ∷ t) e = (t, ap (λ x. x ∷ t) (ground (arith, e)))

module _ (p rest : List ℕ) where
  -- the last test of the loop, on a path that continues the prefix
  behind_slash :
      (not (length p == 0) && get_or (p ++ rest) (length p - 1) 0 == b'/') ≡ true
      → (t : List ℕ) × (p ≡ t ++ (b'/' ∷ []))
  behind_slash e = elim (last_of p) [
    | inl empty ↦ absurd (ground (arith, e, empty))
    | inr (t, c, q) ↦
        let end : length p - 1 ≡ length t = omega (arith, ap length q, length-append t (c ∷ [])) in
        let same : get_or (p ++ rest) (length p - 1) 0 ≡ c =
          ap (λ i. get_or (p ++ rest) i 0) end
          ∙ ap (λ u. get_or (u ++ rest) (length t) 0) q
          ∙ get_or-append_last t rest c 0 in
        (t, q ∙ ap (λ x. t ++ (x ∷ [])) (sym same ∙ ground (arith, e)))
  ]

  slash_behind :
      (t : List ℕ)
      → p ≡ t ++ (b'/' ∷ [])
      → (not (length p == 0) && get_or (p ++ rest) (length p - 1) 0 == b'/') ≡ true
  slash_behind t q =
      let size : length p ≡ length t + 1 = ap length q ∙ length-append t (b'/' ∷ []) in
      let same : get_or (p ++ rest) (length p - 1) 0 ≡ b'/' =
        ap (λ i. get_or (p ++ rest) i 0) (omega (arith, size))
        ∙ ap (λ u. get_or (u ++ rest) (length t) 0) q
        ∙ get_or-append_last t rest b'/' 0 in
      ground (arith, size, same)

  -- the tests of the loop body behind `memcmp`
  abbrev ends_well : Bool
  ends_well =
      length p == length (p ++ rest)
      || (get_or (p ++ rest) (length p) 0 == b'/'
          || (not (length p == 0) && get_or (p ++ rest) (length p - 1) 0 == b'/'))

  covers-append : covers p (p ++ rest) ≡ ends_well
  unfolding covers
  covers-append =
      let long : not (ltb (length (p ++ rest)) (length p)) ≡ true =
        ground (arith, length-append p rest) in
      simp (covers, long, starts_with-append p rest)

  ends_well-Boundary : ends_well ≡ true → Boundary p rest
  ends_well-Boundary e = elim (or_cases (length p == length (p ++ rest)) _ e) [
    | inl whole ↦ inl (nothing_left rest (ground (arith, whole, length-append p rest)))
    | inr e' ↦ elim (or_cases (get_or (p ++ rest) (length p) 0 == b'/') _ e') [
      | inl slash ↦
          inr (inl (get_first rest (ap (λ c. c == b'/') (sym (get_or-append p rest 0)) ∙ slash)))
      | inr behind ↦ inr (inr (behind_slash behind))
    ]
  ]
    where
      or_cases : (a b : Bool) → (a || b) ≡ true → (a ≡ true) ⊎ (b ≡ true)
      or_cases true b e = inl refl
      or_cases false b e = inr e

      nothing_left : (r : List ℕ) → length r ≡ 0 → r ≡ []
      nothing_left [] e = refl
      nothing_left (x ∷ r) e = absurd (omega (arith, e))

  Boundary-ends_well : Boundary p rest → ends_well ≡ true
  Boundary-ends_well (inl e) = ground (arith, ap length e, length-append p rest)
  Boundary-ends_well (inr (inl (t, e))) =
      let slash : get_or (p ++ rest) (length p) 0 ≡ b'/' =
        get_or-append p rest 0 ∙ ap (λ r. get_or r 0 0) e in
      ground (arith, slash)
  Boundary-ends_well (inr (inr (t, e))) = ground (arith, slash_behind t e)

covers-starts_with : (p path : List ℕ) → covers p path ≡ true → starts_with p path ≡ true
unfolding covers
covers-starts_with p path e = ground (arith, e)

covers-IsUnder : (p path : List ℕ) → covers p path ≡ true → IsUnder p path
covers-IsUnder p path e =
    let (rest, split) = starts_with_rest p path (covers-starts_with p path e) in
    (
      rest,
      split,
      ends_well-Boundary p rest (sym (covers-append p rest) ∙ ap (covers p) (sym split) ∙ e),
    )

IsUnder-covers : (p path : List ℕ) → IsUnder p path → covers p path ≡ true
IsUnder-covers p path (rest, split, b) =
    ap (covers p) split ∙ covers-append p rest ∙ Boundary-ends_well p rest b

-- `m` is the first mount of the chain that the path lies under.
abbrev pub IsFirst : List Mount → List ℕ → Mount → Type 0
IsFirst ms path m =
    (before after : List Mount) × (ms ≡ before ++ (m ∷ after))
    × All (λ (x : Mount). ¬ (IsUnder x.prefix path)) before
    × IsUnder m.prefix path

-- what a result of the search says
abbrev pub Resolved : List Mount → List ℕ → Option Mount → Type 0
Resolved ms path none = All (λ (x : Mount). ¬ (IsUnder x.prefix path)) ms
Resolved ms path (some m) = IsFirst ms path m

module _ (m : Mount) (ms : List Mount) (path : List ℕ) where
  resolve_here : covers m.prefix path ≡ true → resolve (m ∷ ms) path ≡ some m
  unfolding resolve
  resolve_here e = simp (resolve, e)

  resolve_next : covers m.prefix path ≡ false → resolve (m ∷ ms) path ≡ resolve ms path
  unfolding resolve
  resolve_next e = simp (resolve, e)

  pass_over :
      (o : Option Mount) → ¬ (IsUnder m.prefix path) → Resolved ms path o → Resolved (m ∷ ms) path o
  pass_over none outside r = (outside, r)
  pass_over (some x) outside (before, after, e, others, under) =
      (m ∷ before, after, ap (λ l. m ∷ l) e, (outside, others), under)

-- A path is resolved to the latest mount whose prefix it continues where a component ends, and to
-- none only if it continues none of them so.
pub resolve_lem : (ms : List Mount) (path : List ℕ) → Resolved ms path (resolve ms path)
resolve_lem [] path = unfold resolve in tt
resolve_lem (m ∷ ms) path = elim (Bool-cases (covers m.prefix path)) [
  | inl inside ↦
      subst (Resolved (m ∷ ms) path) (sym (resolve_here m ms path inside))
        ([], ms, refl, tt, covers-IsUnder m.prefix path inside)
  | inr outside ↦ subst (Resolved (m ∷ ms) path) (sym (resolve_next m ms path outside)) (
      pass_over m ms path (resolve ms path)
        (λ u. absurd (ground (arith, outside, IsUnder-covers m.prefix path u)))
        (resolve_lem ms path))
]
