-- ===== src/Kernel/Timer/Sorted.antt =====
-- The queue of sleeping processes is sorted by the end of their sleep.
use mathlib.Core.Path.{subst}
use camellia.Base.{
  ℕ, ◌<◌, ◌≤◌, ◌≡◌, refl, sym, ap, List, [], ◌∷◌, ◌++◌, true, done, leb, All, Bool-cases, inl, inr,
  arith,
}
use camellia.Kernel.State.{running, waits4timer, Proc, Kernel, update}
use camellia.Kernel.Update.{update_self, update_ne}
use camellia.Kernel.Proc.{allowed}
use camellia.Kernel.Request.Enter.{set_state_lem}
use camellia.Kernel.Timer.{on_timer, next_alarm, hpet_sched, goal_at, insert, place, schedule}

abbrev pub IsSorted : (ℕ → ℕ) → List ℕ → Type 0
IsSorted goal [] = Unit
IsSorted goal (p ∷ ps) = All (λ x. goal p ≤ goal x) ps × IsSorted goal ps

abbrev pub IsAsleep : Kernel → ℕ → Type 0
IsAsleep k p = (k.procs p).state ≡ waits4timer

-- `p` is behind those that wake no later, and before the others.
pub record Inserted (goal : ℕ → ℕ) (time p : ℕ) (queue queue' : List ℕ) : Type 0 where
  pub before : List ℕ
  pub after : List ℕ
  pub was : queue ≡ before ++ after
  pub now : queue' ≡ before ++ (p ∷ after)
  pub earlier : All (λ x. goal x ≤ time) before
  pub later : All (λ x. time < goal x) after

all_later :
    (goal : ℕ → ℕ) (time x : ℕ) (xs : List ℕ)
    → time < goal x
    → All (λ y. goal x ≤ goal y) xs
    → All (λ y. time < goal y) xs
all_later goal time x [] h a = tt
all_later goal time x (y ∷ ys) h a = (omega (arith, h, a.0), all_later goal time x ys h a.1)

insert_lem :
    (k : Kernel) (goal : ℕ → ℕ) (time p : ℕ) (queue : List ℕ)
    → All (IsAsleep k) queue
    → IsSorted goal queue
    → (queue' : List ℕ) × (insert k goal time p queue ≡ done queue')
      × Inserted goal time p queue queue'
unfolding insert
insert_lem k goal time p [] a s = (
  p ∷ [],
  refl,
  record { before = []; after = []; was = refl; now = refl; earlier = tt; later = tt },
)
insert_lem k goal time p (x ∷ xs) a s = elim (Bool-cases (leb (goal x) time)) [
  | inr late ↦ (
    p ∷ x ∷ xs,
    simp (insert, late),
    record {
      before = [];
      after = x ∷ xs;
      was = refl;
      now = refl;
      earlier = tt;
      later = (ground (arith, late), all_later goal time x xs (ground (arith, late)) s.0);
    },
  )
  | inl soon ↦
      let (ys, runs, v) = insert_lem k goal time p xs a.1 s.1 in
      let sleeps : on_timer ((k.procs x).state) ≡ true = rw (a.0) refl in
      (
        x ∷ ys,
        simp (insert, soon, sleeps, runs),
        record {
          before = x ∷ v.before;
          after = v.after;
          was = ap (λ l. x ∷ l) v.was;
          now = ap (λ l. x ∷ l) v.now;
          earlier = (ground (arith, soon), v.earlier);
          later = v.later;
        },
      )
]

All-insert :
    (P : ℕ → Type 0) (p : ℕ) (bs qs : List ℕ) → P p → All P (bs ++ qs) → All P (bs ++ (p ∷ qs))
All-insert P p [] qs h a = (h, a)
All-insert P p (b ∷ bs) qs h a = (a.0, All-insert P p bs qs h a.1)

weaken :
    (goal : ℕ → ℕ) (time p : ℕ) (qs : List ℕ)
    → goal p ≡ time
    → All (λ x. time < goal x) qs
    → All (λ x. goal p ≤ goal x) qs
weaken goal time p [] e h = tt
weaken goal time p (a ∷ qs) e h = (omega (arith, e, h.0), weaken goal time p qs e h.1)

insert-IsSorted :
    (goal : ℕ → ℕ) (time p : ℕ) (bs qs : List ℕ)
    → goal p ≡ time
    → All (λ x. goal x ≤ time) bs
    → All (λ x. time < goal x) qs
    → IsSorted goal (bs ++ qs)
    → IsSorted goal (bs ++ (p ∷ qs))
insert-IsSorted goal time p [] qs e b a s = (weaken goal time p qs e a, s)
insert-IsSorted goal time p (x ∷ bs) qs e b a s = (
  All-insert (λ y. goal x ≤ goal y) p bs qs (omega (arith, e, b.0)) s.0,
  insert-IsSorted goal time p bs qs e b.1 a s.1,
)

-- the processes in the queue sleep, the first to wake first, and the alarm is set for that one
pub record IsValid (t : Kernel) : Type 0 where
  pub asleep : All (IsAsleep t) t.scheduled
  pub sorted : IsSorted t.goal t.scheduled
  pub alarm : t.alarm ≡ next_alarm t.goal t.scheduled

module _ (k : Kernel) (goal : ℕ → ℕ) (time p : ℕ) (runs : (k.procs p).state ≡ running) where
  abbrev sleeping : Kernel
  sleeping = record k { procs = update k.procs p (record (k.procs p) { state = waits4timer }) }

  abbrev goals : ℕ → ℕ
  goals = update goal p time

  p-IsAsleep : IsAsleep sleeping p
  p-IsAsleep = ap (λ (x : Proc). x.state) (update_self k.procs p _)

  IsAsleep-still : (xs : List ℕ) → All (IsAsleep k) xs → All (IsAsleep sleeping) xs
  IsAsleep-still [] a = tt
  IsAsleep-still (x ∷ xs) a = (ground (arith, a.0), IsAsleep-still xs a.1)

  goal_still : (x : ℕ) → IsAsleep k x → goals x ≡ goal x
  goal_still x a = update_ne goal p x time (λ e. cc (a, runs, ap (λ y. (k.procs y).state) e))

  all_still :
      (n : ℕ) (xs : List ℕ)
      → All (IsAsleep k) xs
      → All (λ y. n ≤ goal y) xs
      → All (λ y. n ≤ goals y) xs
  all_still n [] a s = tt
  all_still n (x ∷ xs) a s = (omega (arith, goal_still x a.0, s.0), all_still n xs a.1 s.1)

  IsSorted-still : (xs : List ℕ) → All (IsAsleep k) xs → IsSorted goal xs → IsSorted goals xs
  IsSorted-still [] a s = tt
  IsSorted-still (x ∷ xs) a s = (
    subst (λ n. All (λ y. n ≤ goals y) xs) (sym (goal_still x a.0)) (all_still (goal x) xs a.1 s.0),
    IsSorted-still xs a.1 s.1,
  )

-- A running process goes to sleep while the timer is valid: it joins the queue behind those that
-- wake no later and before the others, and the timer stays valid, its alarm set for the first one
-- to wake.
pub schedule-IsValid :
    (now period p time : ℕ) (t : Kernel)
    → IsValid t
    → (t.procs p).state ≡ running
    → (t' : Kernel) × (schedule now period p time t ≡ done (tt, t'))
      × IsValid t'
      × Inserted t'.goal (goal_at now period time) p t.scheduled t'.scheduled
unfolding schedule place
schedule-IsValid now period p time t v runs =
    let g = goal_at now period time in
    let k = sleeping t t.goal g p runs in
    let goal = goals t t.goal g p runs in
    let asleep = IsAsleep-still t t.goal g p runs t.scheduled v.asleep in
    let sorted = IsSorted-still t t.goal g p runs t.scheduled v.asleep v.sorted in
    let may : allowed waits4timer ((t.procs p).state) ≡ true = unfold allowed in rw runs refl in
    let (queue, inserts, w) = insert_lem k goal g p t.scheduled asleep sorted in
    (
      record k { goal = goal; scheduled = queue; alarm = next_alarm goal queue },
      unfold hpet_sched in simp (schedule, set_state_lem p waits4timer t may refl, inserts),
      record {
        asleep = subst (All (IsAsleep k)) (sym w.now) (
            All-insert (IsAsleep k) p w.before w.after (p-IsAsleep t t.goal g p runs)
              (subst (All (IsAsleep k)) w.was asleep));
        sorted = subst (IsSorted goal) (sym w.now) (
            insert-IsSorted goal g p w.before w.after (update_self t.goal p g) w.earlier w.later
              (subst (IsSorted goal) w.was sorted));
        alarm = refl;
      },
      w,
    )
