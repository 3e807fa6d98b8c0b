-- ===== src/Kernel/Timer/Tests.antt =====
-- Process 5 goes to sleep while 6 sleeps until 2000.
use camellia.Base.{◌≡◌, refl, [], ◌∷◌, some, done}
use camellia.Kernel.State.{Kernel, blank_proc, waits4timer, update}
use camellia.Kernel.Samples.{empty}
use camellia.Kernel.Timer.{goal_at, schedule}
use camellia.Kernel.Timer.Sorted.{IsValid, Inserted, schedule-IsValid}

abbrev night : Kernel
night = record empty {
  procs = update (λ p. blank_proc) 6 (record blank_proc { state = waits4timer });
  goal = λ p. 2000;
  scheduled = 6 ∷ [];
  alarm = some 2000;
}

night-IsValid : IsValid night
night-IsValid = record { asleep = (refl, tt); sorted = (tt, tt); alarm = refl }

-- 10 ns with a period of 10000 fs take 1000 ticks
schedule-IsValid_example :
    (t' : Kernel) × (schedule 500 10000 5 10 night ≡ done (tt, t'))
    × IsValid t'
    × Inserted t'.goal (goal_at 500 10000 10) 5 (6 ∷ []) t'.scheduled
schedule-IsValid_example = schedule-IsValid 500 10000 5 10 night night-IsValid refl
