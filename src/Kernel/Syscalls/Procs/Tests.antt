-- ===== src/Kernel/Syscalls/Procs/Tests.antt =====
-- Runs of system calls on processes.
use camellia.Base.{◌≡◌, refl, [], ◌∷◌, true, done, neg}
use camellia.Kernel.State.{Kernel, blank_proc}
use camellia.Kernel.Samples.{empty, outside}
use camellia.Kernel.Syscalls.Procs.{sys_wait2}
use camellia.Kernel.Syscalls.Procs.Wait.{Childless, sys_wait2-Childless}

-- each process has a child, that cannot be waited for
abbrev lonely : Kernel
lonely = record empty { procs = λ p. record blank_proc { noreap = true; children = 9 ∷ [] } }

sys_wait2-Childless_example :
    (k' : Kernel) × (sys_wait2 outside 5 (neg 1) 0 4096 lonely ≡ done (tt, k'))
    × Childless 5 4096 (neg 1) lonely k'
sys_wait2-Childless_example = sys_wait2-Childless outside 5 4096 (neg 1) lonely refl (refl, tt)
