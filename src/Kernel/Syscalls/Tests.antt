-- ===== src/Kernel/Syscalls/Tests.antt =====
-- A child that is forked, ends, and is waited for.
use camellia.Base.{
  ℕ, ◌≡◌, refl, List, [], ◌∷◌, false, Option, none, some, Outcome, done, panic, ℤ, pos,
}
use camellia.Kernel.State.{ProcState, freed, blank_proc, Kernel, M, pure, ◌>>=◌, ◌>>◌, proc}
use camellia.Kernel.Samples.{empty, outside}
use camellia.Kernel.Proc.{allowed, parent_alive, set_state}
use camellia.Kernel.Handle.{retain, close_entry, dup_target, dup_onto, handle_dup, handle_close}
use camellia.Kernel.Table.{free_from, find_free_handle, handle_get}
use camellia.Kernel.Mount.{remref}
use camellia.Kernel.Tree.{
  after, sibling_in, sibling, climb_to, climb, next_from, proc_next, parent_in_ns, ns_id,
}
use camellia.Kernel.Fork.{
  share, copy_pages, fork_pages, fork_family, fork_ids, control, fork_control, hold_mount,
  fork_mount, retain_all, set_table, fork_handles, fork,
}
use camellia.Kernel.Death.{
  unref, none_toreap, deepest, check_deepest, add_leaf, bury_leaf, bury, entomb, has_children,
  unlink, set_children, pop_leaf, send_status, reap, try_wait, reap_by, tryreap, tryreap_all, prune,
  prune_leaves,
}
use camellia.Kernel.Death.Kill.{
  drop_handler, stop_serving, orphan_request, free_slot, leave_request, leave_queue, set_queue,
  leave_pipe, tryintr, free_execbuf, free_pages, close_from, drop_handles, drop_mount, drop_memory,
  die, settle_dead, shut_down, kill, interrupt, intr,
}
use camellia.Kernel.Syscalls.Schedule.{next_of, find_running, pick, switch_any}
use camellia.Kernel.Syscalls.Procs.{sys_exit, return_id, sys_fork, reap_children, sys_wait2}

-- process 1, with a page directory, a mount and a table of handles
abbrev booted : Kernel
booted = record empty {
  procs = λ p. record blank_proc {
    pages = some 20;
    handles = 21;
    mounts = 22 ∷ [];
    globalid = 1;
    pns = 1;
    localid = 1;
    nextlid = 2;
  };
  mounts = λ m. record { prefix = []; prefix_owned = false; backend = none; refs = 1 };
  first = some 1;
  next_pid = 2;
}

-- the ids that fork and wait2 return, the process that runs then, its children, and what is left of
-- the child
abbrev life : M (ℤ × ℤ × Option ℕ × List ℕ × ProcState)
life = do
  sys_fork outside 1 0 0
  x ← proc 1
  p ← sys_exit outside 100 7
  sys_wait2 outside 1 (pos 0) 0 0
  q ← switch_any outside.copy (some 1)
  y ← proc 1
  z ← proc 100
  pure (x.rax, y.rax, p, y.children, z.state)

abbrev result : {A : Type 0} → Outcome (A × Kernel) → Outcome A
result panic = panic
result (done (a, k)) = done a

lives : result (life booted) ≡ done (pos 2, pos 2, some 1, [], freed)
unfolding allowed parent_alive set_state retain close_entry dup_target dup_onto handle_dup
    handle_close free_from find_free_handle handle_get remref after sibling_in sibling climb_to
    climb next_from proc_next parent_in_ns ns_id share copy_pages fork_pages fork_family fork_ids
    control fork_control hold_mount fork_mount retain_all set_table fork_handles fork unref
    none_toreap deepest check_deepest add_leaf bury_leaf bury entomb has_children unlink
    set_children pop_leaf send_status reap try_wait reap_by tryreap tryreap_all prune prune_leaves
    drop_handler stop_serving orphan_request free_slot leave_request leave_queue set_queue
    leave_pipe tryintr free_execbuf free_pages close_from drop_handles drop_mount drop_memory die
    settle_dead shut_down kill interrupt intr next_of find_running pick switch_any sys_exit
    return_id sys_fork reap_children sys_wait2
lives = refl
