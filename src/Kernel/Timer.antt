-- ===== src/Kernel/Timer.antt =====
-- src/kernel/arch/amd64/time.c: processes that sleep, the queue `scheduled` of them, and the alarm
-- of the HPET: the value of its comparator, or `none` while the timer is disabled. The value of its
-- counter is an argument of the operations that read it. Numbers are 64 bits wide.
pub mod Sorted
pub mod Goal
mod Tests
use camellia.Base.{
  ℕ, ◌+◌, ◌*◌, ◌/◌, ◌%◌, ◌^◌, ◌-◌, List, [], ◌∷◌, Bool, true, false, Option, none, some, Outcome,
  done, panic, assert, ltb, leb, ◌==◌, if◌then◌else◌,
}
use camellia.Kernel.State.{ProcState, running, waits4timer, Proc, Kernel, update}
use camellia.Kernel.Proc.{set_state}

abbrev pub on_timer : ProcState → Bool
on_timer waits4timer = true
on_timer _ = false

abbrev pub next_alarm : (ℕ → ℕ) → List ℕ → Option ℕ
next_alarm goal [] = none
next_alarm goal (p ∷ ps) = some (goal p)

-- hpet_sched
unfoldable pub hpet_sched : Kernel → Kernel
hpet_sched t = record t { alarm = next_alarm t.goal t.scheduled }

-- uptime_ns, at a value of the counter: the product is one of 64 bits
unfoldable pub uptime_ns : (now period : ℕ) → ℕ
uptime_ns now period = now * period % 2 ^ 64 / 1000000

-- the counter value at which a sleep of `time` nanoseconds from `now` on ends
unfoldable pub goal_at : (now period time : ℕ) → ℕ
goal_at now period time =
    let goal = (now + time * 1000000 % 2 ^ 64 / period) % 2 ^ 64 in
    if ltb goal now then 2 ^ 64 - 1 else goal

-- the loop that looks for the slot of `p`, and the insertion there
unfoldable pub insert : Kernel → (goal : ℕ → ℕ) (time p : ℕ) → List ℕ → Outcome (List ℕ)
insert k goal time p [] = done (p ∷ [])
insert k goal time p (x ∷ xs) =
    let rest = insert k goal time p xs in
    if leb (goal x) time
    then elim (on_timer ((k.procs x).state)) [
      | true ↦ elim rest [ panic ↦ panic | done ys ↦ done (x ∷ ys) ]
      | false ↦ panic
    ]
    else done (p ∷ x ∷ xs)

unfoldable pub place : (goal : ℕ → ℕ) → Kernel → Outcome (List ℕ) → Outcome (Unit {0} × Kernel)
place goal k panic = panic
place goal k (done queue) = done (tt, hpet_sched (record k { goal = goal; scheduled = queue }))

-- timer_schedule
unfoldable pub schedule : (now period : ℕ) (p time : ℕ) → Kernel → Outcome (Unit {0} × Kernel)
schedule now period p time t = elim (set_state p waits4timer t) [
  | panic ↦ panic
  | done (u, k) ↦
      let goal = update t.goal p (goal_at now period time) in
      place goal k (insert k goal (goal_at now period time) p t.scheduled)
]

-- the process `p` leaves the queue for `rest`
unfoldable pub wake : Kernel → (p : ℕ) (rest : List ℕ) → Outcome (Unit {0} × Kernel)
wake t p rest = elim (set_state p running t) [
  | panic ↦ panic
  | done (u, k) ↦ done (tt, hpet_sched (record k { scheduled = rest }))
]

unfoldable pub irq_at : (now : ℕ) → Kernel → List ℕ → Outcome (Unit {0} × Kernel)
irq_at now t [] = done (tt, hpet_sched t)
irq_at now t (p ∷ ps) = if ltb (t.goal p) now then wake t p ps else done (tt, hpet_sched t)

-- hpet_irq
unfoldable pub hpet_irq : (now : ℕ) → Kernel → Outcome (Unit {0} × Kernel)
hpet_irq now t = irq_at now t t.scheduled

-- the loop that looks for `p` in the queue, and the removal; `none` if it is not there
unfoldable pub remove : (p : ℕ) → List ℕ → Option (List ℕ)
remove p [] = none
remove p (x ∷ xs) =
    let rest = remove p xs in
    if x == p then some xs else elim rest [ none ↦ none | some ys ↦ some (x ∷ ys) ]

unfoldable pub wake_from : Kernel → ℕ → Option (List ℕ) → Outcome (Unit {0} × Kernel)
wake_from t p none = panic
wake_from t p (some rest) = wake t p rest

-- timer_deschedule
unfoldable pub deschedule : ℕ → Kernel → Outcome (Unit {0} × Kernel)
deschedule p t =
    if on_timer ((t.procs p).state) then wake_from t p (remove p t.scheduled) else panic
