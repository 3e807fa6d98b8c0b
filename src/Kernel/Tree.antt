-- ===== src/Kernel/Tree.antt =====
-- The walks over the tree of processes in src/kernel/proc.c, and its namespaces. A climb from a
-- process takes fuel by the address of the process, since a parent was allocated before its children;
-- a walk over many processes has one unit of fuel for each address given out.
pub mod Below
mod Tests
use mathlib.Core.List.{head?}
use camellia.Base.{
  ℕ, zero, suc, ◌+◌, ◌%◌, ◌^◌, List, [], ◌∷◌, Bool, true, false, ◌&&◌, ◌||◌, not, Option, none,
  some, Outcome, done, panic, ltb, ◌==◌, if◌then◌else◌,
}
use camellia.Kernel.State.{Proc, Kernel, M, pure, ◌>>=◌, ◌>>◌, check, skip, proc, set_proc}

abbrev pub is_proc : ℕ → Option ℕ → Bool
is_proc p none = false
is_proc p (some q) = p == q

-- the process behind `p` in a list
unfoldable pub after : ℕ → List ℕ → Option ℕ
after p [] = none
after p (x ∷ xs) = if x == p then head? xs else after p xs

-- `p->sibling`, of a process with this parent
unfoldable pub sibling_in : Kernel → ℕ → Option ℕ → Option ℕ
sibling_in k p none = none
sibling_in k p (some q) = after p ((k.procs q).children)

unfoldable pub sibling : Kernel → ℕ → Option ℕ
sibling k p = sibling_in k p ((k.procs p).parent)

-- `p = p->parent`, and the tests behind it: the process to go on from, or the end of the walk
unfoldable pub climb_to : (root parent : Option ℕ) → Outcome (Option ℕ)
climb_to none none = done none
climb_to (some r) none = panic
climb_to root (some q) = done (if is_proc q root then none else some q)

-- `while (!p->sibling)` of `proc_next`, and the return behind it
unfoldable pub climb : (fuel : ℕ) → Kernel → (root : Option ℕ) (p : ℕ) → Outcome (Option ℕ)
climb zero k root p = panic
climb (suc fuel) k root p = elim (sibling k p) [
  | some s ↦ done (some s)
  | none ↦ elim (climb_to root ((k.procs p).parent)) [
    | panic ↦ panic
    | done none ↦ done none
    | done (some q) ↦ climb fuel k root q
  ]
]

unfoldable pub next_from : Kernel → (root : Option ℕ) (p : ℕ) → List ℕ → Outcome (Option ℕ)
next_from k root p [] = climb (suc p) k root p
next_from k root p (c ∷ cs) = done (some c)

-- proc_next
unfoldable pub proc_next : Kernel → (root p : Option ℕ) → Outcome (Option ℕ)
proc_next k root none = done none
proc_next k root (some p) = next_from k root p ((k.procs p).children)

unfoldable pub parent_in_ns : Kernel → (ns : ℕ) → (parent : Option ℕ) → Bool
parent_in_ns k ns none = false
parent_in_ns k ns (some q) = (k.procs q).pns == ns

-- proc_ns_contains
unfoldable pub ns_contains : Kernel → (ns p : ℕ) → Bool
ns_contains k ns p = ns == p || parent_in_ns k ns ((k.procs p).parent)

-- proc_ns_id
unfoldable pub ns_id : (ns p : ℕ) → M ℕ
ns_id ns p k =
    let v = k.procs p in
    if p == ns
    then done (1, k)
    else (check (if v.pns == p then parent_in_ns k ns v.parent else v.pns == ns) >> pure v.localid)
        k

-- `while (!p->sibling)` of `proc_ns_next`
unfoldable pub ns_climb : (fuel : ℕ) → Kernel → (ns p : ℕ) → Outcome (Option ℕ)
ns_climb zero k ns p = panic
ns_climb (suc fuel) k ns p = elim (sibling k p) [
  | some s ↦ done (some s)
  | none ↦ elim ((k.procs p).parent) [
    | none ↦ panic
    | some q ↦ elim (q == ns) [ true ↦ done none | false ↦ ns_climb fuel k ns q ]
  ]
]

-- the first child, if the walk descends to it
unfoldable pub ns_child : Kernel → (ns : ℕ) → List ℕ → Option ℕ
ns_child k ns [] = none
ns_child k ns (c ∷ cs) = if ns_contains k ns c then some c else none

-- the assertion at the label `end`
unfoldable pub ns_end : Kernel → (ns : ℕ) → Outcome (Option ℕ) → Outcome (Option ℕ)
ns_end k ns panic = panic
ns_end k ns (done none) = done none
ns_end k ns (done (some r)) = if ns_contains k ns r then done (some r) else panic

-- proc_ns_next of a process that is not NULL
unfoldable pub ns_next : Kernel → (ns p : ℕ) → Outcome (Option ℕ)
ns_next k ns p = ns_end k ns (elim (ns_child k ns ((k.procs p).children)) [
  | some c ↦ done (some c)
  | none ↦ if p == ns then done none else ns_climb (suc p) k ns p
])

-- the loop of `proc_ns_byid`
unfoldable pub ns_search : (fuel : ℕ) → (ns id : ℕ) → Option ℕ → M (Option ℕ)
ns_search fuel ns id none = pure none
ns_search zero ns id (some p) = λ k. panic
ns_search (suc fuel) ns id (some p) = do
  i ← ns_id ns p
  n ← λ k. elim (ns_next k ns p) [ panic ↦ panic | done q ↦ done (q, k) ]
  elim (i == id) [ true ↦ pure (some p) | false ↦ ns_search fuel ns id n ]

-- proc_ns_byid
unfoldable pub ns_byid : (ns id : ℕ) → M (Option ℕ)
ns_byid ns id = do x ← proc ns; check (x.pns == ns); (λ k. ns_search k.next ns id (some ns) k)

-- what `proc_ns_create` does to each process that it meets
unfoldable pub adopt : (p old it : ℕ) → M (Unit {0})
adopt p old it = do
  x ← proc p
  v ← proc it
  set_proc p (record x {
    nextlid =
        if ltb x.nextlid ((v.localid + 1) % 2 ^ 32) then (v.localid + 1) % 2 ^ 32 else x.nextlid;
  })
  w ← proc it
  if w.pns == old then set_proc it (record w { pns = p }) else check (w.pns == it)

-- the end of the loop body of `proc_ns_create`: the way to the next process; `none` leaves the loop
unfoldable pub create_climb : (fuel : ℕ) → Kernel → (p it : ℕ) → Outcome (Option ℕ)
create_climb zero k p it = panic
create_climb (suc fuel) k p it = elim (sibling k it) [
  | some s ↦ done (some s)
  | none ↦ elim ((k.procs it).parent) [
    | none ↦ panic
    | some q ↦ elim (q == p) [ true ↦ done (sibling k q) | false ↦ create_climb fuel k p q ]
  ]
]

unfoldable pub create_child : Kernel → (p old : ℕ) → List ℕ → Option ℕ
create_child k p old [] = none
create_child k p old (c ∷ cs) = if ns_contains k p c || ns_contains k old c then some c else none

unfoldable pub create_next : Kernel → (p old it : ℕ) → Outcome (Option ℕ)
create_next k p old it = elim (create_child k p old ((k.procs it).children)) [
  | some c ↦ done (some c)
  | none ↦ if it == p then done none else create_climb (suc it) k p it
]

unfoldable pub create_loop : (fuel : ℕ) → (p old : ℕ) → Option ℕ → M (Unit {0})
create_loop fuel p old none = skip
create_loop zero p old (some it) = λ k. panic
create_loop (suc fuel) p old (some it) = do
  if it == p then skip else adopt p old it
  n ← λ k. elim (create_next k p old it) [ panic ↦ panic | done q ↦ done (q, k) ]
  create_loop fuel p old n

-- proc_ns_create
unfoldable pub ns_create : ℕ → M (Unit {0})
ns_create p = do
  x ← proc p
  if x.pns == p then skip else (do
    set_proc p (record x { pns = p; nextlid = 2 })
    (λ k. create_loop k.next p x.pns (some p) k))
