-- ===== src/Kernel/Syscalls/Procs.antt =====
-- The system calls on processes.
pub mod Wait
mod Tests
use camellia.Base.{
  ℕ, zero, suc, ◌+◌, ◌-◌, ◌*◌, ◌%◌, ◌^◌, List, [], ◌∷◌, Bool, true, false, ◌&&◌, ◌||◌, not, Option,
  none, some, Outcome, done, panic, ltb, ◌==◌, if◌then◌else◌, length, ℤ, pos, negsuc, neg,
  int_of_size,
}
use mathlib.Core.List.{head?}
use camellia.Kernel.Errno.{emfile, einval, efault, enosys, echild}
use camellia.Kernel.State.{
  running, waits4childdeath, HandleType, fs_front, Backend, Proc, Kernel, M, pure, ◌>>=◌, ◌>>◌,
  check, skip, alloc, proc, handle, set_proc, set_handle, set_backend, save_return,
}
use camellia.Kernel.Proc.{set_state}
use camellia.Kernel.Table.{init_handle}
use camellia.Kernel.Tree.{ns_id, ns_create}
use camellia.Kernel.Fork.{fork, fork_newfs}
use camellia.Kernel.Death.{tryreap, is_toreap}
use camellia.Kernel.Death.Kill.{kill, intr}
use camellia.Kernel.Syscalls.{Outside, ret}
use camellia.Kernel.Syscalls.Schedule.{next_of, switch_any}

-- the backend of a file system that `fork` starts
abbrev pub fresh_backend : Backend
fresh_backend = record {
  usehcnt = 1;
  provhcnt = 1;
  queue = [];
  is_user = true;
  handler = none;
  has_accept = false;
  has_cleanup = false;
  allocated = true;
}

-- `4 <= len && memcmp(buf, "kill", 4) == 0`
unfoldable pub is_kill : List ℕ → Bool
is_kill (a ∷ b ∷ c ∷ d ∷ s) = a == b'k' && (b == b'i' && (c == b'l' && d == b'l'))
is_kill _ = false

-- the pid that `_sys_wait2` waits for, 0 for any
abbrev pub pid_of : ℤ → ℕ
pid_of (pos n) = n
pid_of (negsuc n) = 0

module _ (o : Outside) (cur : ℕ) where
  -- `_sys_exit`; `status` is a `long`, as a number of 64 bits, of which `proc_kill` takes an `int`
  unfoldable pub sys_exit : (status : ℕ) → M (Option ℕ)
  sys_exit status = do
    kill o.machine o.driver o.copy cur (int_of_size status)
    switch_any o.copy (some cur)

  unfoldable pub return_id : (child : ℕ) → M (Unit {0})
  return_id child = do x ← proc cur; id ← ns_id x.pns child; ret cur (pos id)

  -- the file system of a new child; `out` is where the number of its front handle goes
  unfoldable pub start_fs : (child out : ℕ) → Option (ℕ × ℕ) → M (Unit {0})
  start_fs child out none = do
    y ← proc child
    set_proc child (record y { noreap = true })
    kill o.machine o.driver o.copy child (neg emfile)
    ret cur (neg emfile)
  start_fs child out (some (hid, h)) = do
    b ← alloc
    v ← handle h
    set_handle h (record v { backend = some b })
    set_backend b fresh_backend
    y ← proc child
    set_proc child (record y { controlled = some b })
    (if out == 0 then skip else (λ k.
        done
          (tt, record k { mem = (o.copy.put k.mem ((k.procs cur).pages) out (pos hid ∷ [])).1 })))
    return_id child

  -- _sys_fork
  unfoldable pub sys_fork : (flags out : ℕ) → M (Unit {0})
  sys_fork flags out = do
    child ← fork o.machine cur flags
    save_return child (pos 0)
    if fork_newfs flags
        then (do e ← init_handle cur fs_front; start_fs child out e)
        else return_id child

  -- the loop of `_sys_filicide`
  unfoldable pub kill_from : (fuel : ℕ) → Option ℕ → M (Unit {0})
  kill_from fuel none = skip
  kill_from zero (some p) = λ k. panic
  kill_from (suc fuel) (some p) = do
    kill o.machine o.driver o.copy p (neg 1)
    q ← next_of (some cur) p
    kill_from fuel q

  -- _sys_filicide
  unfoldable pub sys_filicide : M (Unit {0})
  sys_filicide k = kill_from k.next (head? ((k.procs cur).children)) k

  -- the loop of `_sys_intr`, and its count
  unfoldable pub intr_from : (fuel : ℕ) → Bool → (count : ℕ) → Option ℕ → M ℕ
  intr_from fuel is_kill count none = pure count
  intr_from zero is_kill count (some p) = λ k. panic
  intr_from (suc fuel) is_kill count (some p) = do
    intr o.machine o.driver o.copy p is_kill
    q ← next_of (some cur) p
    intr_from fuel is_kill (count + 1) q

  unfoldable pub intr_msg : (msg : List ℕ) → M (Unit {0})
  intr_msg msg = do
    count ← λ k. intr_from k.next (is_kill msg) 0 (head? ((k.procs cur).children)) k
    ret cur (pos count)

  -- _sys_intr
  unfoldable pub sys_intr : (msg len : ℕ) → M (Unit {0})
  sys_intr msg len = if ltb 64 len then ret cur (neg einval) else (λ k.
      let bytes = o.copy.take k.mem ((k.procs cur).pages) msg len in
      (if ltb (length bytes) len then ret cur (neg efault) else intr_msg bytes) k)

  -- _sys_intr_set
  unfoldable pub sys_intr_set : ℕ → M (Unit {0})
  sys_intr_set ip = do x ← proc cur; set_proc cur (record x { intr_fn = ip })

  -- _sys_getpid
  unfoldable pub sys_getpid : M (Unit {0})
  sys_getpid = return_id cur

  unfoldable pub return_parent : Option ℕ → M (Unit {0})
  return_parent none = λ k. panic
  return_parent (some q) = do x ← proc cur; y ← proc q; check (y.pns == x.pns); return_id q

  -- _sys_getppid
  unfoldable pub sys_getppid : M (Unit {0})
  sys_getppid = do x ← proc cur; if x.pns == cur then ret cur (pos 0) else return_parent x.parent

  unfoldable pub reap_children : (has_children : Bool) → List ℕ → M Bool
  reap_children has_children [] = pure has_children
  reap_children has_children (c ∷ cs) = do
    x ← proc c
    if x.noreap
        then reap_children has_children cs
        else (do (if is_toreap x.state then tryreap o.copy c else skip); reap_children true cs)

  -- _sys_wait2
  unfoldable pub sys_wait2 : (pid : ℤ) (flags out : ℕ) → M (Unit {0})
  sys_wait2 pid flags out = if not (flags == 0) then ret cur (neg enosys) else (do
    set_state cur waits4childdeath
    x ← proc cur
    set_proc cur (record x { awaited_out = out; awaited_pid = pid_of pid })
    has_children ← reap_children false x.children
    if has_children then skip else (do set_state cur running; ret cur (neg echild)))

  unfoldable pub attach_procfs : Option (ℕ × ℕ) → M (Unit {0})
  attach_procfs none = ret cur (neg emfile)
  attach_procfs (some (hid, h)) = do
    b ← o.machine.procfs_backend cur
    v ← handle h
    set_handle h (record v { backend = some b })
    ret cur (pos hid)

  -- _sys_getprocfs
  unfoldable pub sys_getprocfs : (flags : ℕ) → M (Unit {0})
  sys_getprocfs flags =
      if not (flags == 0)
      then ret cur (neg enosys)
      else (do ns_create cur; e ← init_handle cur fs_front; attach_procfs e)
