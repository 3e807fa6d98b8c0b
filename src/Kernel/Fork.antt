-- ===== src/Kernel/Fork.antt =====
-- `proc_fork` of src/kernel/proc.c. A field of the child is written after those of the parent that
-- it is copied from.
use camellia.Base.{
  ℕ, ◌+◌, ◌/◌, ◌%◌, ◌^◌, List, [], ◌∷◌, Bool, not, Option, none, some, done, panic, ltb, ◌==◌,
  if◌then◌else◌,
}
use camellia.Kernel.State.{
  blank_proc, M, update, pure, ◌>>=◌, ◌>>◌, check, skip, alloc, proc, set_proc, backend_at,
  set_backend, mount_at, set_mount, counter, set_counter,
}
use camellia.Kernel.Machine.{Machine}
use camellia.Kernel.Proc.{is_running}
use camellia.Kernel.Table.{Table}
use camellia.Kernel.Handle.{retain}

-- `flags & FORK_NOREAP` and so on
abbrev pub fork_noreap : ℕ → Bool
fork_noreap flags = (flags % 2) == 1

abbrev pub fork_newfs : ℕ → Bool
fork_newfs flags = (flags / 2 % 2) == 1

abbrev pub fork_sharemem : ℕ → Bool
fork_sharemem flags = (flags / 4 % 2) == 1

abbrev pub fork_sharehandle : ℕ → Bool
fork_sharehandle flags = (flags / 8 % 2) == 1

-- the counter of something that gets one user more; it was not shared before if it has none
unfoldable pub share : Option ℕ → M ℕ
share (some c) = do n ← counter c; set_counter c ((n + 1) % 2 ^ 64); pure c
share none = do c ← alloc; set_counter c 2; pure c

-- the page directory of the child
unfoldable pub copy_pages : Machine → Option ℕ → M (Option ℕ)
copy_pages machine none = λ k. panic
copy_pages machine (some d) = do d' ← machine.copy_pages d; pure (some d')

unfoldable pub fork_pages : Machine → (parent child : ℕ) → (flags : ℕ) → M (Unit {0})
fork_pages machine parent child flags = do
  x ← proc parent
  if fork_sharemem flags
      then (do
        c ← share x.pages_refcount
        set_proc parent (record x { pages_refcount = some c })
        y ← proc child
        set_proc child (record y { pages_refcount = some c; pages = x.pages }))
      else (do
        d ← copy_pages machine x.pages
        y ← proc child
        set_proc child (record y { pages = d }))

-- the members that the child gets from its parent, and its place in the tree
unfoldable pub fork_family : (parent child flags : ℕ) → M (Unit {0})
fork_family parent child flags = do
  x ← proc parent
  check (is_running x.state)
  y ← proc child
  set_proc child (record y {
    rax = x.rax;
    rcx = x.rcx;
    rsp = x.rsp;
    state = x.state;
    intr_fn = x.intr_fn;
    noreap = fork_noreap flags;
    parent = some parent;
  })
  set_proc parent (record x { children = child ∷ x.children })

-- globalid, pns and localid
unfoldable pub fork_ids : (parent child : ℕ) → M (Unit {0})
fork_ids parent child = do
  (λ k. check (not (k.next_pid == 0)) k)
  id ← λ k. done (k.next_pid, record k { next_pid = (k.next_pid + 1) % 2 ^ 32 })
  x ← proc parent
  n ← proc x.pns
  check (not (n.nextlid == 0))
  set_proc x.pns (record n { nextlid = (n.nextlid + 1) % 2 ^ 32 })
  y ← proc child
  set_proc child (record y { globalid = id; pns = x.pns; localid = n.nextlid })

unfoldable pub control : (child : ℕ) → Option ℕ → M (Unit {0})
control child none = skip
control child (some b) = do
  y ← proc child
  set_proc child (record y { controlled = some b })
  v ← backend_at b
  check (ltb 0 v.provhcnt)
  set_backend b (record v { provhcnt = v.provhcnt + 1 })

unfoldable pub fork_control : (parent child flags : ℕ) → M (Unit {0})
fork_control parent child flags = do
  x ← proc parent
  if fork_newfs flags then skip else control child x.controlled

unfoldable pub hold_mount : List ℕ → M (Unit {0})
hold_mount [] = λ k. panic
hold_mount (m ∷ prev) = do v ← mount_at m; set_mount m (record v { refs = v.refs + 1 })

unfoldable pub fork_mount : (parent child : ℕ) → M (Unit {0})
fork_mount parent child = do
  x ← proc parent
  y ← proc child
  set_proc child (record y { mounts = x.mounts })
  hold_mount x.mounts

-- the loop over the handles that the child gets
unfoldable pub retain_all : Table → M (Unit {0})
retain_all [] = skip
retain_all (o ∷ os) = do retain o; retain_all os

unfoldable pub set_table : ℕ → Table → M (Unit {0})
set_table t v k = done (tt, record k { tables = update k.tables t v })

unfoldable pub fork_handles : (parent child flags : ℕ) → M (Unit {0})
fork_handles parent child flags = do
  x ← proc parent
  if fork_sharehandle flags
      then (do
        c ← share x.handles_refcount
        set_proc parent (record x { handles_refcount = some c })
        y ← proc child
        set_proc child (record y { handles_refcount = some c; handles = x.handles }))
      else (do
        t ← alloc
        y ← proc child
        set_proc child (record y { handles = t })
        table ← λ k. done (k.tables x.handles, k)
        set_table t table
        retain_all table)

-- proc_fork
unfoldable pub fork : Machine → (parent flags : ℕ) → M ℕ
fork machine parent flags = do
  child ← alloc
  set_proc child blank_proc
  fork_pages machine parent child flags
  fork_family parent child flags
  fork_ids parent child
  fork_control parent child flags
  fork_mount parent child
  fork_handles parent child flags
  pure child
