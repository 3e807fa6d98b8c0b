-- ===== src/Kernel/Tree/Below.antt =====
-- `proc_next` of src/kernel/proc.c stays below the process that it starts from, and ends.

use mathlib.Core.Path.{subst}
use camellia.Base.{
  ℕ, zero, suc, ◌<◌, ◌≡◌, refl, sym, ap, ◌∙◌, List, [], ◌∷◌, Bool, true, Option, none, some,
  Outcome, done, ◌⊎◌, inl, inr, All, Bool-cases, Option-cases, ◌==◌, if◌then◌else◌, arith,
}
use camellia.Kernel.State.{Kernel}
use camellia.Kernel.Tree.{
  after, sibling_in, sibling, climb_to, climb, next_from, proc_next, is_proc,
}

-- Parents were allocated before their children, and the links of both directions agree.
pub record IsTree (k : Kernel) : Type 0 where
  pub up : (p q : ℕ) → (k.procs p).parent ≡ some q → q < p
  pub down : (q : ℕ) → All (λ c. (k.procs c).parent ≡ some q) ((k.procs q).children)

-- `p` is a descendant of `r`.
pub data Below (k : Kernel) (r : ℕ) : ℕ → Type 0 where
  child : {p : ℕ} → (k.procs p).parent ≡ some r → Below k r p
  deeper : {p q : ℕ} → (k.procs p).parent ≡ some q → Below k r q → Below k r p

-- the end of a walk, or a descendant to go on with
unfoldable pub Ahead : (k : Kernel) (r : ℕ) → Outcome (Option ℕ) → Type 0
Ahead k r o = (o ≡ done none) ⊎ ((s : ℕ) × (o ≡ done (some s)) × Below k r s)

after-All : (P : ℕ → Type 0) (p s : ℕ) (xs : List ℕ) → All P xs → after p xs ≡ some s → P s
unfolding after
after-All P p s [] a e = absurd (ground (arith, e))
after-All P p s (x ∷ []) a e = absurd (ground (arith, e))
after-All P p s (x ∷ y ∷ ys) a e = elim (Bool-cases (x == p)) [
  | inl here ↦ let same : y ≡ s = ground (arith, e, here) in subst P same a.1.0
  | inr other ↦ after-All P p s (y ∷ ys) a.1 (ground (arith, e, other))
]

sibling_parent :
    (k : Kernel) (p s q : ℕ)
    → IsTree k
    → (k.procs p).parent ≡ some q
    → sibling k p ≡ some s
    → (k.procs s).parent ≡ some q
unfolding sibling sibling_in
sibling_parent k p s q t up e =
    after-All (λ c. (k.procs c).parent ≡ some q) p s ((k.procs q).children) (t.down q)
      (sym (ap (sibling_in k p) up) ∙ e)

beside : (k : Kernel) (r p s : ℕ) → IsTree k → sibling k p ≡ some s → Below k r p → Below k r s
beside k r p s t e (child up) = child (sibling_parent k p s r t up e)
beside k r p s t e (deeper {q = q} up b) = deeper (sibling_parent k p s q t up e) b

-- how the walk goes on from the parent
climb_up :
    (fuel : ℕ) (k : Kernel) (r p q : ℕ)
    → sibling k p ≡ none
    → (k.procs p).parent ≡ some q
    → climb (suc fuel) k (some r) p ≡ (if q == r then done none else climb fuel k (some r) q)
unfolding climb climb_to
climb_up fuel k r p q alone up = elim (Bool-cases (q == r)) [
  | inl root ↦ simp (climb, climb_to, alone, up, is_proc, root)
  | inr inner ↦ simp (climb, climb_to, alone, up, is_proc, inner)
]

climb_beside :
    (fuel : ℕ) (k : Kernel) (r p s : ℕ)
    → sibling k p ≡ some s
    → climb (suc fuel) k (some r) p ≡ done (some s)
unfolding climb
climb_beside fuel k r p s e = simp (climb, e)

module _ (k : Kernel) (r : ℕ) (t : IsTree k) where
  climb_above :
      (fuel p : ℕ)
      → sibling k p ≡ none
      → Below k r p
      → ((q : ℕ) → q < p → Below k r q → Ahead k r (climb fuel k (some r) q))
      → Ahead k r (climb (suc fuel) k (some r) p)
  climb_above fuel p alone (child up) rest =
      let same : (r == r) ≡ true = ground arith in
      let e : climb (suc fuel) k (some r) p ≡ done none =
        climb_up fuel k r p r alone up
        ∙ ap (λ (b : Bool). if b then done none else climb fuel k (some r) r) same in
      unfold Ahead in inl e
  climb_above fuel p alone (deeper {q = q} up b) rest = elim (Bool-cases (q == r)) [
    | inl same ↦
        let e : climb (suc fuel) k (some r) p ≡ done none =
          climb_up fuel k r p q alone up
          ∙ ap (λ (b : Bool). if b then done none else climb fuel k (some r) q) same in
        unfold Ahead in inl e
    | inr other ↦
        let e : climb (suc fuel) k (some r) p ≡ climb fuel k (some r) q =
          climb_up fuel k r p q alone up
          ∙ ap (λ (b : Bool). if b then done none else climb fuel k (some r) q) other in
        subst (Ahead k r) (sym e) (rest q (t.up p q up) b)
  ]

  climb_lem : (fuel p : ℕ) → p < fuel → Below k r p → Ahead k r (climb fuel k (some r) p)
  unfolding Ahead
  climb_lem zero p lt b = absurd (omega arith)
  climb_lem (suc fuel) p lt b = elim (Option-cases (sibling k p)) [
    | inr (s, e) ↦ inr (s, climb_beside fuel k r p s e, beside k r p s t e b)
    | inl alone ↦
        climb_above fuel p alone b (λ q below up. climb_lem fuel q (omega (arith, lt, below)) up)
  ]

  next_lem :
      (p : ℕ) (cs : List ℕ)
      → (k.procs p).children ≡ cs
      → Below k r p
      → Ahead k r (next_from k (some r) p cs)
  unfolding next_from
  next_lem p [] e b = climb_lem (suc p) p (omega arith) b
  next_lem p (c ∷ cs) e b =
      let up = subst (All (λ c. (k.procs c).parent ≡ some p)) e (t.down p) in
      unfold Ahead in inr (c, refl, deeper up.0 b)

  -- In a tree of processes, a step of the walk below `r` ends, and comes to another descendant of `r`
  -- or to the end of the walk: the walk does not leave the tree below `r`.
  pub proc_next-Below : (p : ℕ) → Below k r p → Ahead k r (proc_next k (some r) (some p))
  unfolding proc_next
  proc_next-Below p b = next_lem p ((k.procs p).children) refl b
