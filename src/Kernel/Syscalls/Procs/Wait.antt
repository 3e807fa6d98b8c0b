-- ===== src/Kernel/Syscalls/Procs/Wait.antt =====
-- `_sys_wait2` of src/kernel/syscalls.c without children to wait for.
use native.Mathlib.Decide.{ℕ_discrete}
use camellia.Base.{◌≢◌, ℕ, ◌≡◌, refl, sym, ap, ◌∙◌, List, [], ◌∷◌, true, false, done, ℤ, neg, All}
use camellia.Kernel.Errno.{echild}
use camellia.Kernel.State.{running, waits4childdeath, Proc, Kernel, ◌>>=◌, ◌>>◌, check}
use camellia.Kernel.Runs.{runs, runs_then, with_proc, with_proc_self, with_proc_ne, moves_to}
use camellia.Kernel.Proc.{set_state, allowed, is_running}
use camellia.Kernel.Syscalls.{Outside, ret}
use camellia.Kernel.Syscalls.Procs.{sys_wait2, reap_children, pid_of}

-- SYSCALL_RETURN by a running process
pub ret_lem :
    (cur : ℕ) (val : ℤ) (k : Kernel)
    → (k.procs cur).state ≡ running
    → ret cur val k ≡ done (tt, with_proc k cur (record (k.procs cur) { rax = val }))
unfolding with_proc
ret_lem cur val k r = simp (r, is_running, ◌>>=◌, ◌>>◌, check)

module _ (o : Outside) (cur : ℕ) where
  reap_none :
      (cs : List ℕ) (k : Kernel)
      → All (λ c. (k.procs c).noreap ≡ true) cs
      → reap_children o cur false cs k ≡ done (false, k)
  unfolding reap_children
  reap_none [] k all = refl
  reap_none (c ∷ cs) k all =
      let noreap = all.0 in
      let rest = reap_none cs k all.1 in simp (reap_children, noreap, ◌>>=◌, rest)

all_noreap :
    (cs : List ℕ) (k k' : Kernel)
    → ((c : ℕ) → (k'.procs c).noreap ≡ (k.procs c).noreap)
    → All (λ c. (k.procs c).noreap ≡ true) cs
    → All (λ c. (k'.procs c).noreap ≡ true) cs
all_noreap [] k k' same all = tt
all_noreap (c ∷ cs) k k' same all = (same c ∙ all.0, all_noreap cs k k' same all.1)

same_noreap :
    (k : Kernel) (p : ℕ) (v : Proc)
    → v.noreap ≡ (k.procs p).noreap
    → (c : ℕ) → ((with_proc k p v).procs c).noreap ≡ (k.procs c).noreap
same_noreap k p v e c = elim (ℕ_discrete p c) [
  | yes here ↦
      ap (λ i. ((with_proc k p v).procs i).noreap) (sym here)
      ∙ ap (λ (u : Proc). u.noreap) (with_proc_self k p v)
      ∙ e
      ∙ ap (λ i. (k.procs i).noreap) here
  | no other ↦ ap (λ (u : Proc). u.noreap) (with_proc_ne k p c v other)
]

-- Nothing but the process `cur` has changed, which runs on with -ECHILD.
pub record Childless (cur out : ℕ) (pid : ℤ) (k k' : Kernel) : Type 0 where
  pub self : k'.procs cur ≡ record (k.procs cur) {
    state = running;
    rax = neg echild;
    awaited_out = out;
    awaited_pid = pid_of pid;
  }
  pub others : (p : ℕ) → cur ≢ p → k'.procs p ≡ k.procs p
  pub leaves : k'.dead_leaves ≡ k.dead_leaves

module _ (o : Outside) (cur out : ℕ) (pid : ℤ) (k : Kernel)
    (now : (k.procs cur).state ≡ running) where
  unfoldable waiting : Kernel
  waiting = with_proc k cur (record (k.procs cur) { state = waits4childdeath })

  unfoldable asking : Kernel
  unfolding waiting
  asking =
      with_proc waiting cur
        (record (waiting.procs cur) { awaited_out = out; awaited_pid = pid_of pid })

  unfoldable resumed : Kernel
  unfolding asking
  resumed = with_proc asking cur (record (asking.procs cur) { state = running })

  unfoldable answered : Kernel
  unfolding resumed
  answered = with_proc resumed cur (record (resumed.procs cur) { rax = neg echild })

  waiting_self : waiting.procs cur ≡ record (k.procs cur) { state = waits4childdeath }
  unfolding waiting
  waiting_self = with_proc_self k cur _

  asking_self : asking.procs cur ≡ record (k.procs cur) {
    state = waits4childdeath;
    awaited_out = out;
    awaited_pid = pid_of pid;
  }
  unfolding asking
  asking_self =
      with_proc_self waiting cur _
      ∙ ap (λ (v : Proc). record v { awaited_out = out; awaited_pid = pid_of pid }) waiting_self

  resumed_self :
      resumed.procs cur
      ≡ record (k.procs cur) { state = running; awaited_out = out; awaited_pid = pid_of pid }
  unfolding resumed
  resumed_self =
      with_proc_self asking cur _ ∙ ap (λ (v : Proc). record v { state = running }) asking_self

  answered_lem : Childless cur out pid k answered
  unfolding answered resumed asking waiting with_proc
  answered_lem = record {
    self =
        with_proc_self resumed cur _
        ∙ ap (λ (v : Proc). record v { rax = neg echild }) resumed_self;
    others = λ p ne.
        with_proc_ne resumed cur p _ ne
        ∙ with_proc_ne asking cur p _ ne
        ∙ with_proc_ne waiting cur p _ ne
        ∙ with_proc_ne k cur p _ ne;
    leaves = refl;
  }

  no_children :
      All (λ c. (k.procs c).noreap ≡ true) ((k.procs cur).children)
      → reap_children o cur false ((waiting.procs cur).children) asking ≡ done (false, asking)
  unfolding asking waiting
  no_children all =
      let e : (waiting.procs cur).children ≡ (k.procs cur).children =
        ap (λ (v : Proc). v.children) waiting_self in
      let s1 = same_noreap k cur (record (k.procs cur) { state = waits4childdeath }) refl in
      let s2 =
        same_noreap waiting cur
          (record (waiting.procs cur) { awaited_out = out; awaited_pid = pid_of pid }) refl in
      ap (λ cs. reap_children o cur false cs asking) e
      ∙ reap_none o cur ((k.procs cur).children) asking
          (all_noreap ((k.procs cur).children) k asking (λ c. s2 c ∙ s1 c) all)

  -- A running process with no child that can be waited for does not wait: it runs on with -ECHILD, and
  -- no other process changes.
  pub sys_wait2-Childless :
      All (λ c. (k.procs c).noreap ≡ true) ((k.procs cur).children)
      → (k' : Kernel) × (sys_wait2 o cur pid 0 out k ≡ done (tt, k')) × Childless cur out pid k k'
  unfolding sys_wait2 answered resumed asking waiting with_proc
  sys_wait2-Childless all =
      let a1 : allowed waits4childdeath ((k.procs cur).state) ≡ true =
        unfold allowed in rw now refl in
      let s1 : (asking.procs cur).state ≡ waits4childdeath =
        ap (λ (v : Proc). v.state) asking_self in
      let a2 : allowed running ((asking.procs cur).state) ≡ true = unfold allowed in rw s1 refl in
      let m1 = moves_to k cur waits4childdeath a1 refl in
      let m2 = moves_to asking cur running a2 refl in
      let back : (resumed.procs cur).state ≡ running = ap (λ (v : Proc). v.state) resumed_self in
      (
        answered,
        runs_then (set_state cur waits4childdeath) _ m1
            ∙ runs (reap_children o cur false ((waiting.procs cur).children)) _ (no_children all)
            ∙ runs_then (set_state cur running) (ret cur (neg echild)) m2
            ∙ ret_lem cur (neg echild) resumed back,
        answered_lem,
      )
