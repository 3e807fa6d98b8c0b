-- ===== src/Kernel/Proc.antt =====
-- src/kernel/proc.c: the states of a process.
pub mod States
use camellia.Base.{
  ℕ, ◌≡◌, Bool, true, false, ◌&&◌, ◌||◌, not, Option, none, some, Outcome, done, panic,
  if◌then◌else◌,
}
use camellia.Kernel.State.{
  ProcState, running, dying, toreap, tombstone, deadleaf, freed, waits4childdeath, waits4fs,
  waits4request, waits4pipe, waits4timer, update, Proc, Kernel, M, ◌>>=◌, ◌>>◌, check, proc,
  set_proc,
}

-- `proc_alive(p)` for a process that is not NULL
abbrev pub is_alive : ProcState → Bool
is_alive toreap = false
is_alive tombstone = false
is_alive deadleaf = false
is_alive freed = false
is_alive _ = true

abbrev pub is_running : ProcState → Bool
is_running running = true
is_running _ = false

abbrev pub is_freed : ProcState → Bool
is_freed freed = true
is_freed _ = false

-- The assertions of `proc_setstate` on the old state, given the new one. For PS_TOREAP the loop
-- over the children asserts `p->state != PS_TOREAP` of the process itself, which follows from the
-- assertion before it.
unfoldable pub allowed : (new old : ProcState) → Bool
allowed freed deadleaf = true
allowed freed _ = false
allowed deadleaf tombstone = true
allowed deadleaf _ = false
allowed tombstone toreap = true
allowed tombstone dying = true
allowed tombstone _ = false
allowed toreap dying = true
allowed toreap _ = false
allowed running old = not (is_freed old)
allowed dying old = not (is_freed old)
allowed waits4childdeath old = is_running old
allowed waits4fs old = is_running old
allowed waits4request old = is_running old
allowed waits4pipe old = is_running old
allowed waits4timer old = is_running old

-- `!p->parent || proc_alive(p->parent)`
unfoldable pub parent_alive : Kernel → Option ℕ → Bool
parent_alive k none = true
parent_alive k (some q) = is_alive ((k.procs q).state)

abbrev pub wants_parent : ProcState → Bool
wants_parent toreap = true
wants_parent _ = false

unfoldable pub set_state : ℕ → ProcState → M (Unit {0})
unfolding allowed parent_alive
set_state p new k =
    let v = k.procs p in
    (check (allowed new v.state && (not (wants_parent new) || parent_alive k v.parent))
        >> set_proc p (record v { state = new }))
      k
