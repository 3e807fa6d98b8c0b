-- ===== src/Kernel/Death.antt =====
-- The end of a process in src/kernel/proc.c: `proc_tryreap` and `proc_prune_leaves`; `proc_kill` and
-- the interrupts of a process are in Kill. The memory of a process, its table and its counters is not given out
-- again, so that freeing it shows only in its state.
pub mod Kill
mod Tests
pub mod Reap
use camellia.Base.{
  ℕ, zero, suc, ◌-◌, ◌+◌, ◌*◌, ◌^◌, ◌%◌, List, [], ◌∷◌, Bool, true, false, ◌&&◌, ◌||◌, not, Option,
  none, some, Outcome, done, panic, ltb, leb, ◌==◌, if◌then◌else◌, is_empty, ℤ, pos, negsuc, neg,
}
use camellia.Kernel.State.{
  ProcState, running, dying, toreap, tombstone, deadleaf, freed, waits4childdeath, waits4fs,
  waits4request, Proc, ExecBuf, Kernel, M, pure, ◌>>=◌, ◌>>◌, check, skip, proc, set_proc,
  backend_at, set_backend, req_at, set_req, handle, set_handle, counter, set_counter, free_buffer,
  save_return,
}
use camellia.Kernel.Machine.{Machine}
use camellia.Kernel.Pcpy.{Pcpy}
use camellia.Kernel.Proc.{set_state, is_alive, parent_alive}
use camellia.Kernel.Tree.{is_proc, ns_id}
use camellia.Kernel.Timer.{on_timer, deschedule}
use camellia.Kernel.Pipe.{is_waiting}
use camellia.Kernel.Request.{Driver, on_request, on_fs, refdown_prov}
use camellia.Kernel.Handle.{handle_close}
use camellia.Kernel.Mount.{remref}

abbrev pub is_dying : ProcState → Bool
is_dying dying = true
is_dying _ = false

abbrev pub is_toreap : ProcState → Bool
is_toreap toreap = true
is_toreap _ = false

abbrev pub is_tombstone : ProcState → Bool
is_tombstone tombstone = true
is_tombstone _ = false

abbrev pub is_deadleaf : ProcState → Bool
is_deadleaf deadleaf = true
is_deadleaf _ = false

abbrev pub awaits_death : ProcState → Bool
awaits_death waits4childdeath = true
awaits_death _ = false

-- unref: whether that was the last user
unfoldable pub unref : Option ℕ → M Bool
unref none = pure true
unref (some c) = do n ← counter c; check (not (n == 0)); set_counter c (n - 1); pure ((n - 1) == 0)

-- the assertions of `proc_tryreap` on the children of a dead process
unfoldable pub none_toreap : Kernel → List ℕ → Bool
none_toreap k [] = true
none_toreap k (c ∷ cs) = not (is_toreap ((k.procs c).state)) && none_toreap k cs

-- `while (p->child) p = p->child`
unfoldable pub deepest : (fuel : ℕ) → Kernel → ℕ → List ℕ → Outcome ℕ
deepest fuel k p [] = done p
deepest zero k p (c ∷ cs) = panic
deepest (suc fuel) k p (c ∷ cs) = deepest fuel k c ((k.procs c).children)

-- `proc_alive(p)`
abbrev pub alive_at : Kernel → Option ℕ → Bool
alive_at k none = false
alive_at k (some p) = is_alive ((k.procs p).state)

unfoldable pub check_deepest : Outcome ℕ → M (Unit {0})
check_deepest panic = λ k. panic
check_deepest (done p) = λ k.
    let x = k.procs p in
    check
      (if is_toreap x.state then alive_at k x.parent else is_alive x.state || is_deadleaf x.state) k

unfoldable pub add_leaf : ℕ → M (Unit {0})
add_leaf p k = done (tt, record k { dead_leaves = p ∷ k.dead_leaves })

-- the end of `proc_tryreap`, for a dead process with no children
unfoldable pub bury_leaf : (dead : ℕ) (parent : Option ℕ) → M (Unit {0})
bury_leaf dead none = skip
bury_leaf dead (some q) = do
  x ← proc dead
  if is_tombstone x.state
      then (do set_state dead deadleaf; add_leaf dead)
      else check (is_deadleaf x.state)

unfoldable pub bury : (dead : ℕ) (parent : Option ℕ) → List ℕ → M (Unit {0})
bury dead parent [] = bury_leaf dead parent
bury dead parent (c ∷ cs) = do
  x ← proc dead
  check (is_tombstone x.state)
  (λ k. check (none_toreap k (c ∷ cs)) k)
  (λ k. check_deepest (deepest k.next k dead (c ∷ cs)) k)

-- `dead` can't be reaped any more. The result says whether `proc_tryreap` returns at once.
unfoldable pub entomb : ℕ → M Bool
entomb dead = do
  set_state dead tombstone
  x ← proc dead
  set_proc dead (record x { noreap = true })
  pure false

unfoldable pub has_children : Kernel → Option ℕ → Bool
has_children k none = true
has_children k (some q) = not (is_empty ((k.procs q).children))

-- the child `p` of `parent` is taken out of its list
unfoldable pub unlink : ℕ → List ℕ → Option (List ℕ)
unlink p [] = none
unlink p (x ∷ xs) =
    let rest = unlink p xs in
    if x == p then some xs else elim rest [ none ↦ none | some ys ↦ some (x ∷ ys) ]

unfoldable pub set_children : (parent : ℕ) → Option (List ℕ) → M (Unit {0})
set_children parent none = λ k. panic
set_children parent (some cs) = do x ← proc parent; set_proc parent (record x { children = cs })

unfoldable pub pop_leaf : M (Option ℕ)
pop_leaf k = elim k.dead_leaves [
  | [] ↦ done (none, k)
  | p ∷ ps ↦ done (some p, record k { dead_leaves = ps })
]

module _ (copy : Pcpy) where
  -- `awaited_death.out`, unless it is NULL
  unfoldable pub send_status : (parent : ℕ) (status : ℤ) → M (Unit {0})
  send_status parent status k =
      let x = k.procs parent in
      if x.awaited_out == 0
      then done (tt, k)
      else done (tt, record k { mem = (copy.put k.mem x.pages x.awaited_out (status ∷ [])).1 })

  -- the parent gets the id and the status that it waits for
  unfoldable pub reap : (dead parent pid : ℕ) → M Bool
  reap dead parent pid = do
    x ← proc dead
    save_return parent (pos pid)
    send_status parent x.death_msg
    set_state parent running
    entomb dead

  unfoldable pub try_wait : (dead parent : ℕ) → M Bool
  try_wait dead parent = do
    y ← proc parent
    pid ← ns_id y.pns dead
    if not (y.awaited_pid == 0) && not (y.awaited_pid == pid)
        then pure true
        else reap dead parent pid

  unfoldable pub reap_by : (dead : ℕ) → Option ℕ → M Bool
  reap_by dead none = entomb dead
  reap_by dead (some q) = do
    x ← proc dead
    y ← proc q
    if not x.noreap && (is_alive y.state && not (is_dying y.state))
        then (if awaits_death y.state then try_wait dead q else pure true)
        else entomb dead

  -- proc_tryreap
  unfoldable pub tryreap : ℕ → M (Unit {0})
  tryreap dead = do
    x ← proc dead
    check (not (is_alive x.state))
    (λ k. check (has_children k x.parent) k)
    stays ← if is_toreap x.state then reap_by dead x.parent else pure false
    y ← proc dead
    if stays then skip else bury dead x.parent y.children

  -- the loop of `proc_kill` over the children
  unfoldable pub tryreap_all : List ℕ → M (Unit {0})
  tryreap_all [] = skip
  tryreap_all (c ∷ cs) = do
    x ← proc c
    if is_toreap x.state then tryreap c else skip
    tryreap_all cs

  -- the loop body of `proc_prune_leaves`
  unfoldable pub prune : (p : ℕ) → Option ℕ → M (Unit {0})
  prune p none = λ k. panic
  prune p (some q) = do
    x ← proc p
    check (is_deadleaf x.state)
    check (is_empty x.children)
    y ← proc q
    set_children q (unlink p y.children)
    set_state p freed
    z ← proc q
    if is_alive z.state then skip else tryreap q

  -- `proc_prune_leaves`, for at most `fuel` leaves
  unfoldable pub prune_leaves : (fuel : ℕ) → M (Unit {0})
  prune_leaves zero = λ k. check (is_empty k.dead_leaves) k
  prune_leaves (suc fuel) = do
    o ← pop_leaf
    elim o [ none ↦ skip | some p ↦ do x ← proc p; prune p x.parent; prune_leaves fuel ]
