-- ===== src/Kernel/Death/Reap.antt =====
-- A parent that waits for a dead child, in src/kernel/proc.c.
use camellia.Base.{
  ℕ, ◌≡◌, ◌≢◌, refl, sym, ap, ◌∙◌, [], ◌∷◌, Bool, true, false, not, ◌&&◌, some, done, ◌==◌,
  if◌then◌else◌, ℤ, pos, inl, inr, Bool-cases, is_empty,
}
use camellia.Kernel.State.{
  running, toreap, tombstone, deadleaf, waits4childdeath, Proc, Kernel, ◌>>=◌, ◌>>◌, check,
}
use camellia.Kernel.Update.{update_self}
use camellia.Kernel.Runs.{runs_then, with_proc, with_proc_self, with_proc_ne, moves_to}
use camellia.Kernel.Pcpy.{Pcpy}
use camellia.Kernel.Proc.{set_state, allowed, is_alive}
use camellia.Kernel.Tree.{ns_id}
use camellia.Kernel.Death.{
  tryreap, reap_by, try_wait, reap, send_status, entomb, bury, bury_leaf, add_leaf, has_children,
  is_toreap, is_tombstone, awaits_death, is_dying, is_deadleaf,
}

-- the memory with the status of the child, where the parent asked for it
abbrev pub status_to : Pcpy → (parent : Proc) → (status : ℤ) → (ℕ → ℕ) → (ℕ → ℕ)
status_to copy y status mem =
    if y.awaited_out == 0 then mem else (copy.put mem y.pages y.awaited_out (status ∷ [])).1

-- The parent `q` runs on with the id `pid` of its child, and the child is a dead leaf.
pub record Reaped (copy : Pcpy) (k k' : Kernel) (dead q pid : ℕ) : Type 0 where
  pub parent : k'.procs q ≡ record (k.procs q) { state = running; rax = pos pid }
  pub child : k'.procs dead ≡ record (k.procs dead) { state = deadleaf; noreap = true }
  pub others : (p : ℕ) → p ≢ dead → p ≢ q → k'.procs p ≡ k.procs p
  pub status : k'.mem ≡ status_to copy (k.procs q) ((k.procs dead).death_msg) k.mem
  pub leaves : k'.dead_leaves ≡ dead ∷ k.dead_leaves

unfoldable with_mem : Kernel → (ℕ → ℕ) → Kernel
with_mem k mem = record k { mem = mem }

send_lem :
    (copy : Pcpy) (k : Kernel) (q : ℕ) (status : ℤ)
    → send_status copy q status k ≡ done (tt, with_mem k (status_to copy (k.procs q) status k.mem))
unfolding send_status with_mem
send_lem copy k q status = elim (Bool-cases ((k.procs q).awaited_out == 0)) [
  | inl none_wanted ↦ simp none_wanted
  | inr wanted ↦ simp wanted
]

module _ (copy : Pcpy) (k : Kernel) (dead q pid : ℕ) (apart : dead ≢ q) where
  -- the parent has its result
  unfoldable returned : Kernel
  unfolding with_proc with_mem
  returned =
      let k1 = with_proc k q (record (k.procs q) { rax = pos pid }) in
      with_mem k1 (status_to copy (k1.procs q) ((k.procs dead).death_msg) k1.mem)

  -- and runs
  unfoldable awake : Kernel
  unfolding returned
  awake = with_proc returned q (record (returned.procs q) { state = running })

  unfoldable stone : Kernel
  unfolding awake
  stone = with_proc awake dead (record (awake.procs dead) { state = tombstone })

  unfoldable unreapable : Kernel
  unfolding stone
  unreapable = with_proc stone dead (record (stone.procs dead) { noreap = true })

  unfoldable leaf : Kernel
  unfolding unreapable
  leaf = with_proc unreapable dead (record (unreapable.procs dead) { state = deadleaf })

  returned_parent : returned.procs q ≡ record (k.procs q) { rax = pos pid }
  unfolding returned with_mem
  returned_parent = with_proc_self k q _

  returned_other : (p : ℕ) → q ≢ p → returned.procs p ≡ k.procs p
  unfolding returned with_mem
  returned_other p ne = with_proc_ne k q p _ ne

  awake_parent : awake.procs q ≡ record (k.procs q) { state = running; rax = pos pid }
  unfolding awake
  awake_parent =
      with_proc_self returned q _ ∙ ap (λ (v : Proc). record v { state = running }) returned_parent

  awake_other : (p : ℕ) → q ≢ p → awake.procs p ≡ k.procs p
  unfolding awake
  awake_other p ne = with_proc_ne returned q p _ ne ∙ returned_other p ne

  stone_child : stone.procs dead ≡ record (k.procs dead) { state = tombstone }
  unfolding stone
  stone_child =
      with_proc_self awake dead _
      ∙ ap (λ (v : Proc). record v { state = tombstone }) (awake_other dead (λ e. apart (sym e)))

  unreapable_child :
      unreapable.procs dead ≡ record (k.procs dead) { state = tombstone; noreap = true }
  unfolding unreapable
  unreapable_child =
      with_proc_self stone dead _ ∙ ap (λ (v : Proc). record v { noreap = true }) stone_child

  leaf_child : leaf.procs dead ≡ record (k.procs dead) { state = deadleaf; noreap = true }
  unfolding leaf
  leaf_child =
      with_proc_self unreapable dead _
      ∙ ap (λ (v : Proc). record v { state = deadleaf }) unreapable_child

  leaf_other : (p : ℕ) → dead ≢ p → leaf.procs p ≡ awake.procs p
  unfolding leaf unreapable stone
  leaf_other p ne =
      with_proc_ne unreapable dead p _ ne
      ∙ with_proc_ne stone dead p _ ne
      ∙ with_proc_ne awake dead p _ ne

  buried : Kernel
  buried = record leaf { dead_leaves = dead ∷ k.dead_leaves }

  reap_lem :
      (k.procs dead).state ≡ toreap
      → (k.procs q).state ≡ waits4childdeath
      → reap copy dead q pid k ≡ done (false, unreapable)
  unfolding unreapable stone awake returned with_proc with_mem reap entomb
  reap_lem d w =
      let k1 = with_proc k q (record (k.procs q) { rax = pos pid }) in
      let sent = send_lem copy k1 q ((k.procs dead).death_msg) in
      let s1 : (returned.procs q).state ≡ waits4childdeath =
        ap (λ (v : Proc). v.state) returned_parent ∙ w in
      let a1 : allowed running ((returned.procs q).state) ≡ true = unfold allowed in rw s1 refl in
      let s2 : (awake.procs dead).state ≡ toreap =
        ap (λ (v : Proc). v.state) (awake_other dead (λ e. apart (sym e))) ∙ d in
      let a2 : allowed tombstone ((awake.procs dead).state) ≡ true = unfold allowed in rw s2 refl in
      let m1 = moves_to returned q running a1 refl in
      let m2 = moves_to awake dead tombstone a2 refl in
      runs_then (send_status copy q ((k.procs dead).death_msg)) _ sent
      ∙ runs_then (set_state q running) (entomb dead) m1
      ∙ runs_then (set_state dead tombstone) _ m2

  bury_lem :
      (k.procs dead).children ≡ []
      → bury dead (some q) ((unreapable.procs dead).children) unreapable ≡ done (tt, buried)
  unfolding bury bury_leaf add_leaf leaf buried unreapable stone awake returned with_proc with_mem
  bury_lem none_left =
      let s : (unreapable.procs dead).state ≡ tombstone =
        ap (λ (v : Proc). v.state) unreapable_child in
      let c : (unreapable.procs dead).children ≡ [] =
        ap (λ (v : Proc). v.children) unreapable_child ∙ none_left in
      let a : allowed deadleaf ((unreapable.procs dead).state) ≡ true =
        unfold allowed in rw s refl in
      let t : is_tombstone ((unreapable.procs dead).state) ≡ true = ap is_tombstone s in
      ap (λ cs. bury dead (some q) cs unreapable) c
      ∙ ap
          (λ (b : Bool).
            (if b
                then (set_state dead deadleaf >> add_leaf dead)
                else check (is_deadleaf ((unreapable.procs dead).state)))
              unreapable)
          t
      ∙ runs_then (set_state dead deadleaf) (add_leaf dead)
          (moves_to unreapable dead deadleaf a refl)

  -- `q` waits for its child `dead`, which it sees under the id `pid`.
  pub record IsAwaited : Type 0 where
    pub is_dead : (k.procs dead).state ≡ toreap
    pub reapable : (k.procs dead).noreap ≡ false
    pub childless : (k.procs dead).children ≡ []
    pub parent : (k.procs dead).parent ≡ some q
    pub waits : (k.procs q).state ≡ waits4childdeath
    pub child : is_empty ((k.procs q).children) ≡ false
    pub id : ns_id ((k.procs q).pns) dead k ≡ done (pid, k)
    pub wanted :
        (not ((k.procs q).awaited_pid == 0) && not ((k.procs q).awaited_pid == pid)) ≡ false

  reap_by_lem : IsAwaited → reap_by copy dead (some q) k ≡ done (false, unreapable)
  unfolding reap_by try_wait
  reap_by_lem w =
      let r = reap_lem w.is_dead w.waits in
      let n = w.reapable in
      let s = w.waits in
      let i = w.id in
      let a = w.wanted in simp (n, s, is_alive, is_dying, awaits_death, try_wait, i, ◌>>=◌, a, r)

  status_lem : buried.mem ≡ status_to copy (k.procs q) ((k.procs dead).death_msg) k.mem
  unfolding buried leaf unreapable stone awake returned with_proc with_mem
  status_lem =
      ap (λ (v : Proc). status_to copy v ((k.procs dead).death_msg) k.mem)
        (update_self k.procs q (record (k.procs q) { rax = pos pid }))

  -- A parent waits for any child or for this one, which is dead and has no children: the parent gets
  -- the id of the child and its status, and runs on; the child cannot be waited for again, and joins
  -- the dead leaves.
  pub tryreap-Reaped :
      IsAwaited
      → (k' : Kernel) × (tryreap copy dead k ≡ done (tt, k')) × Reaped copy k k' dead q pid
  unfolding tryreap has_children buried
  tryreap-Reaped w =
      let r = reap_by_lem w in
      let b = bury_lem w.childless in
      let d = w.is_dead in
      let p = w.parent in
      let c = w.child in
      (
        buried,
        (simp (d, p, c, is_alive, is_toreap, ◌>>=◌, ◌>>◌, check, r, b)),
        record {
          parent = leaf_other q apart ∙ awake_parent;
          child = leaf_child;
          others = λ x nd nq. leaf_other x (λ e. nd (sym e)) ∙ awake_other x (λ e. nq (sym e));
          status = status_lem;
          leaves = refl;
        },
      )
