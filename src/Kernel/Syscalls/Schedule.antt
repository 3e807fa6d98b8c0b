-- ===== src/Kernel/Syscalls/Schedule.antt =====
-- `proc_switch_any` of src/kernel/proc.c: one round of its loop.
use camellia.Base.{ℕ, zero, suc, Option, none, some, true, false, done, panic, if◌then◌else◌}
use camellia.Kernel.State.{M, pure, ◌>>=◌, ◌>>◌, proc}
use camellia.Kernel.Pcpy.{Pcpy}
use camellia.Kernel.Proc.{is_running}
use camellia.Kernel.Tree.{proc_next}
use camellia.Kernel.Death.{prune_leaves}

-- `p = proc_next(p, root)`
unfoldable pub next_of : (root : Option ℕ) (p : ℕ) → M (Option ℕ)
next_of root p k = elim (proc_next k root (some p)) [ panic ↦ panic | done q ↦ done (q, k) ]

-- the loop that looks for a running process
unfoldable pub find_running : (fuel : ℕ) → Option ℕ → M (Option ℕ)
find_running fuel none = pure none
find_running zero (some p) = λ k. panic
find_running (suc fuel) (some p) = do
  x ← proc p
  elim (is_running x.state) [
    | true ↦ pure (some p)
    | false ↦ do q ← next_of none p; find_running fuel q
  ]

-- the process to switch to; `none` is the idle loop
unfoldable pub pick : (cur : Option ℕ) → M (Option ℕ)
pick none k = find_running k.next k.first k
pick (some p) k =
    if is_running ((k.procs p).state) then done (some p, k) else find_running k.next k.first k

-- proc_switch_any
unfoldable pub switch_any : Pcpy → (cur : Option ℕ) → M (Option ℕ)
switch_any copy cur = do (λ k. prune_leaves copy k.next k); pick cur
