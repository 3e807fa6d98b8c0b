-- ===== src/Kernel/Death/Kill.antt =====
-- `proc_kill` and `proc_intr` of src/kernel/proc.c.
use camellia.Base.{
  ℕ, zero, suc, ◌-◌, ◌+◌, ◌^◌, ◌%◌, List, [], ◌∷◌, Bool, true, false, Option, none, some, done,
  panic, ltb, ◌==◌, if◌then◌else◌, is_empty, ℤ, pos,
}
use camellia.Kernel.State.{
  dying, toreap, tombstone, ExecBuf, Kernel, M, ◌>>=◌, ◌>>◌, check, skip, proc, set_proc,
  backend_at, set_backend, req_at, set_req, handle, set_handle, free_buffer,
}
use camellia.Kernel.Machine.{Machine}
use camellia.Kernel.Pcpy.{Pcpy}
use camellia.Kernel.Proc.{set_state, is_alive}
use camellia.Kernel.Tree.{is_proc}
use camellia.Kernel.Timer.{on_timer, deschedule}
use camellia.Kernel.Pipe.{is_waiting}
use camellia.Kernel.Request.{Driver, on_request, on_fs, refdown_prov}
use camellia.Kernel.Handle.{handle_close}
use camellia.Kernel.Mount.{remref}
use camellia.Kernel.Death.{is_dying, alive_at, unref, tryreap, tryreap_all, prune_leaves}

-- The backend that the process serves loses it.
unfoldable pub drop_handler : (p b : ℕ) → M (Unit {0})
drop_handler p b = do
  v ← backend_at b
  x ← proc p
  check (ltb 0 v.provhcnt)
  if is_proc p v.handler
      then (do check (on_request x.state); set_backend b (record v { handler = none }))
      else skip

unfoldable pub stop_serving : Driver → (p : ℕ) → Option ℕ → M (Unit {0})
stop_serving driver p none = skip
stop_serving driver p (some b) = do
  drop_handler p b
  refdown_prov driver b
  x ← proc p
  set_proc p (record x { controlled = none })

unfoldable pub orphan_request : (p : ℕ) → Option ℕ → M (Unit {0})
orphan_request p none = λ k. panic
orphan_request p (some r) = do
  q ← req_at r
  set_req r (record q { caller = none })
  x ← proc p
  set_proc p (record x { reqslot = none })

unfoldable pub free_slot : Option ℕ → M (Unit {0})
free_slot none = skip
free_slot (some r) = do q ← req_at r; set_req r (record q { allocated = false })

unfoldable pub leave_request : ℕ → M (Unit {0})
leave_request p = do
  x ← proc p
  if on_fs x.state then orphan_request p x.reqslot else free_slot x.reqslot

-- the loop that looks for `p` in the queue of a pipe; `none` where an assertion fails
unfoldable pub leave_queue : Kernel → (p : ℕ) → List ℕ → Option (List ℕ)
leave_queue k p [] = none
leave_queue k p (x ∷ xs) =
    let rest = leave_queue k p xs in
    if x == p
    then some xs
    else if is_waiting ((k.procs x).state)
    then elim rest [ none ↦ none | some ys ↦ some (x ∷ ys) ]
    else none

unfoldable pub set_queue : (h : ℕ) → Option (List ℕ) → M (Unit {0})
set_queue h none = λ k. panic
set_queue h (some ps) = do v ← handle h; set_handle h (record v { queued = ps })

unfoldable pub leave_pipe : ℕ → M (Unit {0})
leave_pipe p = do
  x ← proc p
  v ← handle x.pipe_end
  if is_waiting x.state then (λ k. set_queue x.pipe_end (leave_queue k p v.queued) k) else skip

-- proc_tryintr, and the same test in `proc_kill`
unfoldable pub tryintr : ℕ → M (Unit {0})
tryintr p = do x ← proc p; if on_timer x.state then deschedule p else skip

unfoldable pub free_execbuf : Option ExecBuf → M (Unit {0})
free_execbuf none = skip
free_execbuf (some e) = free_buffer e.buf

unfoldable pub free_pages : Machine → Option ℕ → M (Unit {0})
free_pages machine none = skip
free_pages machine (some d) = machine.free_pages d

module _ (machine : Machine) (driver : Driver) (copy : Pcpy) where
  -- the loop over the handles, with `n` of them to go
  unfoldable pub close_from : (p n hid : ℕ) → M (Unit {0})
  close_from p zero hid = skip
  close_from p (suc n) hid = do ret ← handle_close driver copy p (pos hid); close_from p n (suc hid)

  unfoldable pub drop_handles : ℕ → M (Unit {0})
  drop_handles p = do
    x ← proc p
    last ← unref x.handles_refcount
    if last then close_from p 16 0 else skip
    y ← proc p
    set_proc p (record y { handles = 0 })

  unfoldable pub drop_mount : ℕ → M (Unit {0})
  drop_mount p = do
    x ← proc p
    remref driver x.mounts
    y ← proc p
    set_proc p (record y { mounts = [] })

  unfoldable pub drop_memory : ℕ → M (Unit {0})
  drop_memory p = do
    x ← proc p
    free_execbuf x.execbuf
    set_proc p (record x { execbuf = none })
    last ← unref x.pages_refcount
    if last then free_pages machine x.pages else skip
    y ← proc p
    set_proc p (record y { pages = none })

  -- the first `if` of `proc_kill`
  unfoldable pub die : (p : ℕ) (ret : ℤ) → M (Unit {0})
  die p ret = do
    x ← proc p
    stop_serving driver p x.controlled
    leave_request p
    leave_pipe p
    tryintr p
    drop_handles p
    drop_mount p
    set_state p dying
    y ← proc p
    set_proc p (record y { death_msg = ret })
    tryreap_all copy y.children
    drop_memory p

  -- the second `if`
  unfoldable pub settle_dead : ℕ → M (Unit {0})
  settle_dead p k =
      let x = k.procs p in
      (if is_dying x.state
          then set_state p (if alive_at k x.parent then toreap else tombstone)
          else skip)
        k

  unfoldable pub shut_down : ℕ → M (Unit {0})
  shut_down p = do
    (λ k. prune_leaves copy k.next k)
    x ← proc p
    check (is_empty x.children)
    machine.shutdown

  -- proc_kill
  unfoldable pub kill : (p : ℕ) (ret : ℤ) → M (Unit {0})
  kill p ret = do
    x ← proc p
    if is_alive x.state then die p ret else skip
    settle_dead p
    (λ k. (if is_proc p k.first then shut_down p else tryreap copy p) k)

  -- proc_intr behind its assertion and the test for "kill"
  unfoldable pub interrupt : ℕ → M (Unit {0})
  interrupt p = do
    x ← proc p
    if x.intr_fn == 0 then skip else (do
      tryintr p
      y ← proc p
      let sp = (y.rsp + (2 ^ 64 - 128 - 16)) % 2 ^ 64
      (λ k.
          done (tt, record k { mem = (copy.put k.mem y.pages sp (pos y.rcx ∷ pos y.rsp ∷ [])).1 }))
      z ← proc p
      set_proc p (record z { rcx = z.intr_fn; rsp = sp }))

  -- proc_intr; `is_kill` says whether the message begins with "kill"
  unfoldable pub intr : (p : ℕ) (is_kill : Bool) → M (Unit {0})
  intr p true = kill p (pos 205)
  intr p false = interrupt p
