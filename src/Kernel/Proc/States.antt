-- ===== src/Kernel/Proc/States.antt =====
-- The life of a process, as `proc_setstate` lets it go.

use mathlib.Core.List.{head?}
use camellia.Base.{
  some, ℕ, ◌≡◌, refl, sym, ap, ◌∙◌, List, [], ◌∷◌, Bool, true, false, ◌&&◌, ◌||◌, not, done,
  Outcome, ◌⊎◌, inl, inr, arith,
}
use camellia.Kernel.State.{
  ProcState, running, dying, toreap, tombstone, deadleaf, freed, Kernel, update, ◌>>◌, M, check,
  Proc, set_proc,
}
use camellia.Kernel.Update.{update_self}
use camellia.Kernel.Proc.{allowed, set_state, parent_alive, wants_parent}

-- The states that a process which starts as a running one has had, the latest first: `proc_setstate`
-- changes it, and other steps of the kernel do not.
pub data Trace (p : ℕ) : Kernel → List ProcState → Type 0 where
  start : {k : Kernel} → (k.procs p).state ≡ running → Trace p k (running ∷ [])
  change :
      {k k' : Kernel} {h : List ProcState} {new : ProcState}
      → Trace p k h
      → set_state p new k ≡ done (tt, k')
      → Trace p k' (new ∷ h)
  other :
      {k k' : Kernel} {h : List ProcState}
      → Trace p k h
      → (k'.procs p).state ≡ (k.procs p).state
      → Trace p k' h

check_done :
    (b : Bool) (m : M (Unit {0})) (k k' : Kernel)
    → (check b >> m) k ≡ done (tt, k')
    → (b ≡ true) × (m k ≡ done (tt, k'))
check_done true m k k' e = (refl, e)
check_done false m k k' e = absurd (ground (arith, e))

done_state :
    (k k' : Kernel) → ◌≡◌ {A = Outcome (Unit {0} × Kernel)} (done (tt, k)) (done (tt, k')) → k' ≡ k
done_state k k' e = ground (arith, e)

and_true : (a b : Bool) → (a && b) ≡ true → a ≡ true
and_true true b e = refl
and_true false b e = e

state_of_done :
    (p : ℕ) (new : ProcState) (k k' : Kernel)
    → set_state p new k ≡ done (tt, k')
    → (allowed new ((k.procs p).state) ≡ true) × ((k'.procs p).state ≡ new)
unfolding set_state
state_of_done p new k k' e =
    let v = k.procs p in
    let (ok, rest) =
      check_done (allowed new v.state && (not (wants_parent new) || parent_alive k v.parent))
        (set_proc p (record v { state = new })) k k' e in
    (
      and_true _ _ ok,
      ap (λ (x : Kernel). (x.procs p).state)
            (done_state (record k { procs = update k.procs p (record v { state = new }) }) k' rest)
          ∙ ap (λ (u : Proc). u.state) (update_self k.procs p (record v { state = new })),
    )

-- the history begins with the state that the process is in
latest :
    (p : ℕ) (k : Kernel) (h : List ProcState) → Trace p k h → head? h ≡ some ((k.procs p).state)
latest p k h (start e) = ap some (sym e)
latest p k h (change t e) = ap some (sym (state_of_done p _ _ _ e).1)
latest p k h (other {k = k₀} t e) = latest p k₀ h t ∙ ap some (sym e)

abbrev Legal : List ProcState → Type 0
Legal [] = Unit
Legal (s ∷ []) = s ≡ running
Legal (new ∷ old ∷ h) = (allowed new old ≡ true) × Legal (old ∷ h)

extend :
    (new old : ProcState) (h : List ProcState)
    → head? h ≡ some old
    → allowed new old ≡ true
    → Legal h
    → Legal (new ∷ h)
extend new old [] e a l = absurd (ground (arith, e))
extend new old (s ∷ h) e a l =
    let same : s ≡ old = ground (arith, e) in (ap (allowed new) same ∙ a, l)

legal : (p : ℕ) (k : Kernel) (h : List ProcState) → Trace p k h → Legal h
legal p k h (start e) = refl
legal p k h (change {k = k₀} {h = h₀} {new = new} t e) =
    extend new _ h₀ (latest p k₀ h₀ t) (state_of_done p new k₀ k e).0 (legal p k₀ h₀ t)
legal p k h (other {k = k₀} t e) = legal p k₀ h t

from_freed : (o : ProcState) → allowed freed o ≡ true → o ≡ deadleaf
unfolding allowed
from_freed deadleaf e = refl
from_freed o e = absurd (ground (arith, e))

from_deadleaf : (o : ProcState) → allowed deadleaf o ≡ true → o ≡ tombstone
unfolding allowed
from_deadleaf tombstone e = refl
from_deadleaf o e = absurd (ground (arith, e))

from_tombstone : (o : ProcState) → allowed tombstone o ≡ true → (o ≡ toreap) ⊎ (o ≡ dying)
unfolding allowed
from_tombstone toreap e = inl refl
from_tombstone dying e = inr refl
from_tombstone o e = absurd (ground (arith, e))

from_toreap : (o : ProcState) → allowed toreap o ≡ true → o ≡ dying
unfolding allowed
from_toreap dying e = refl
from_toreap o e = absurd (ground (arith, e))

-- How a process got to be freed: it died, and was reaped or not.
abbrev pub Died : List ProcState → Type 0
Died h =
    (rest : List ProcState) × ((h ≡ deadleaf ∷ tombstone ∷ dying ∷ rest)
      ⊎ (h ≡ deadleaf ∷ tombstone ∷ toreap ∷ dying ∷ rest))

Legal-Died : (h : List ProcState) → Legal (freed ∷ h) → Died h
Legal-Died [] l = absurd (ground (arith, l))
Legal-Died (a ∷ []) l = let e = from_freed a l.0 in absurd (ground (arith, e, l.1))
Legal-Died (a ∷ b ∷ []) l =
    let e = from_freed a l.0 in
    let f = from_deadleaf b (ap (λ s. allowed s b) (sym e) ∙ l.1.0) in
    absurd (ground (arith, f, l.1.1))
Legal-Died (a ∷ b ∷ c ∷ h) l =
    let e = from_freed a l.0 in
    let f = from_deadleaf b (ap (λ s. allowed s b) (sym e) ∙ l.1.0) in
    elim (from_tombstone c (ap (λ s. allowed s c) (sym f) ∙ l.1.1.0)) [
      | inr d ↦ (h, inl (rw (e, f, d)))
      | inl r ↦ reaped a b c h e f r l.1.1.1
    ]
  where
    reaped :
        (a b c : ProcState) (h : List ProcState)
        → a ≡ deadleaf
        → b ≡ tombstone
        → c ≡ toreap
        → Legal (c ∷ h)
        → Died (a ∷ b ∷ c ∷ h)
    reaped a b c [] e f r l = absurd (ground (arith, r, l))
    reaped a b c (d ∷ h) e f r l =
        let g = from_toreap d (ap (λ s. allowed s d) (sym r) ∙ l.0) in (h, inr (rw (e, f, r, g)))

-- A process that starts as a running one and comes to be freed has been dying, then a tombstone,
-- directly or through waiting to be reaped, then a dead leaf, in this order and with no other state
-- between these and the freed one.
pub freed-Died : (p : ℕ) (k : Kernel) (h : List ProcState) → Trace p k (freed ∷ h) → Died h
freed-Died p k h t = Legal-Died h (legal p k (freed ∷ h) t)
