-- ===== src/Kernel/Pipe/Inv.antt =====
-- The invariant of a pipe with both ends open, and what `pipe_joinqueue` makes of it.
use mathlib.Core.List.{head?}
use camellia.Base.{
  ℕ, List, [], ◌∷◌, ◌++◌, Bool, true, false, not, Option, none, some, done, if◌then◌else◌, ◌≡◌, ◌≢◌,
  refl, ap, ◌∙◌, ◌⊎◌, inl, inr, All, Bool-cases,
}
use camellia.Kernel.State.{running, waits4pipe, pipe, Kernel, update, ◌>>=◌, check}
use camellia.Kernel.Pcpy.{Pcpy}
use camellia.Kernel.Proc.{set_state}
use camellia.Kernel.Pipe.{
  all_waiting, transfer, start_transfer, try_transfer, enqueue, join_queue, xor,
}

-- no process stands in the queue
abbrev pub Absent : ℕ → List ℕ → Type 0
Absent p ps = All (λ q. q ≢ p) ps

abbrev pub Distinct : List ℕ → Type 0
Distinct [] = Unit
Distinct (p ∷ ps) = Absent p ps × Distinct ps

abbrev pub IsWaiting : Kernel → ℕ → Type 0
IsWaiting k p = (k.procs p).state ≡ waits4pipe

-- One end: a pipe handle that goes one way, whose queued processes all wait, each once.
pub record IsEnd (k : Kernel) (h : ℕ) : Type 0 where
  pub is_pipe : (k.handles h).type ≡ pipe
  pub one_way : (k.handles h).readable ≡ not ((k.handles h).writeable)
  pub waiting : All (IsWaiting k) ((k.handles h).queued)
  pub distinct : Distinct ((k.handles h).queued)

-- Two ends that name each other, of which at most one has a queue.
pub record IsPipe (k : Kernel) (h s : ℕ) : Type 0 where
  pub near : IsEnd k h
  pub far : IsEnd k s
  pub apart : h ≢ s
  pub to_far : (k.handles h).sister ≡ some s
  pub to_near : (k.handles s).sister ≡ some h
  pub opposite : (k.handles s).readable ≡ (k.handles h).writeable
  pub exclusive : ((k.handles h).queued ≡ []) ⊎ ((k.handles s).queued ≡ [])

pub all_waiting_of : (k : Kernel) (ps : List ℕ) → All (IsWaiting k) ps → all_waiting k ps ≡ true
unfolding all_waiting
all_waiting_of k [] h = refl
all_waiting_of k (p ∷ ps) h = rw (h.0, all_waiting_of k ps h.1)

-- a process that is not in a queue is not counted among its waiters
pub Absent-of_state :
    (k : Kernel) (p : ℕ) (ps : List ℕ)
    → (k.procs p).state ≡ running
    → All (IsWaiting k) ps
    → Absent p ps
Absent-of_state k p [] e h = tt
Absent-of_state k p (q ∷ ps) e h =
    (λ eq. cc (h.0, ap (λ r. (k.procs r).state) eq), Absent-of_state k p ps e h.1)

pub set_state_waits :
    (p : ℕ) (k : Kernel)
    → (k.procs p).state ≡ running
    → set_state p waits4pipe k
      ≡ done (tt, record k { procs = update k.procs p (record (k.procs p) { state = waits4pipe }) })
unfolding set_state
set_state_waits p k e = rw (set_state, e)

pub xor-not : (b : Bool) → xor (not b) b ≡ true
xor-not true = refl
xor-not false = refl

-- the facts that the assertions at the head of the functions test
pub record Checked (k : Kernel) (h s : ℕ) : Type 0 where
  pub is_pipe : (k.handles h).type ≡ pipe
  pub one_way : (k.handles h).readable ≡ not ((k.handles h).writeable)
  pub to_far : (k.handles h).sister ≡ some s

module _ (copy : Pcpy) (h s : ℕ) (k : Kernel) (c : Checked k h s) where
  open_try :
      try_transfer copy h k
      ≡ start_transfer copy h s
          (head? (if (k.handles h).readable then (k.handles h).queued else (k.handles s).queued))
          (head? (if (k.handles h).writeable then (k.handles h).queued else (k.handles s).queued))
          k
  unfolding try_transfer
  open_try = simp (try_transfer, ◌>>=◌, check, c.is_pipe, c.one_way, xor-not, c.to_far) refl

  pub try_idle : (k.handles s).queued ≡ [] → try_transfer copy h k ≡ done (tt, k)
  try_idle none_there = open_try ∙ elim (Bool-cases ((k.handles h).writeable)) [
    | inl w ↦ rw (c.one_way, w, none_there) (unfold start_transfer in refl)
    | inr w ↦ rw (c.one_way, w, none_there) (no_writer (head? ((k.handles h).queued)))
  ]
    where
      no_writer : (o : Option ℕ) → start_transfer copy h s o none k ≡ done (tt, k)
      no_writer none = unfold start_transfer in refl
      no_writer (some r) = unfold start_transfer in refl

  -- somebody waits at each end: the first of each takes part
  pub try_match :
      (p q : ℕ) (ps qs : List ℕ)
      → (k.handles h).queued ≡ p ∷ ps
      → (k.handles s).queued ≡ q ∷ qs
      → try_transfer copy h k
        ≡ (if (k.handles h).writeable then transfer copy h s q p k else transfer copy h s p q k)
  try_match p q ps qs e f = open_try ∙ elim (Bool-cases ((k.handles h).writeable)) [
    | inl w ↦ rw (c.one_way, w, e, f) (unfold start_transfer in refl)
    | inr w ↦ rw (c.one_way, w, e, f) (unfold start_transfer in refl)
  ]

module _ (copy : Pcpy) (h s p buf len : ℕ) (k : Kernel) (v : IsPipe k h s)
    (runs : (k.procs p).state ≡ running) where
  -- the process waits, last in the queue of `h`
  abbrev pub queued_behind : Kernel
  queued_behind =
      let procs = update k.procs p (record (k.procs p) { state = waits4pipe }) in
      record k {
        procs = update procs p (record (procs p) { pipe_end = h; pipe_buf = buf; pipe_len = len });
        handles =
            update k.handles h (record (k.handles h) { queued = (k.handles h).queued ++ (p ∷ []) });
      }

  pub enqueue_lem : enqueue copy h p buf len k ≡ done (tt, queued_behind)
  unfolding enqueue
  enqueue_lem = rw (
    enqueue,
    ◌>>=◌,
    check,
    all_waiting_of k ((k.handles h).queued) v.near.waiting,
    set_state_waits p k runs,
  )

  pub join_enter : join_queue copy h p buf len k ≡ try_transfer copy h queued_behind
  unfolding join_queue
  join_enter =
      simp
        (join_queue, ◌>>=◌, check, v.near.is_pipe, v.near.one_way, xor-not, v.to_far, enqueue_lem)
