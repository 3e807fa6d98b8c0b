-- ===== src/Kernel/Pipe/Join.antt =====
-- What `pipe_joinqueue` does with a running process: it waits, it is matched with the first
-- process at the other end, or it is told that the other end is closed.

use mathlib.Core.Path.{subst}
use camellia.Base.{
  ℕ, List, [], ◌∷◌, ◌++◌, done, ◌≡◌, ◌≢◌, sym, ap, ◌∙◌, ◌⊎◌, inr, All, All-append, arith,
}
use camellia.Kernel.State.{running, waits4pipe, Handle, Proc, Kernel, update}
use camellia.Kernel.Pcpy.{Pcpy}
use camellia.Kernel.Pipe.{join_queue}
use camellia.Kernel.Pipe.Inv.{
  Absent, Distinct, IsWaiting, IsPipe, Checked, queued_behind, try_idle, join_enter,
  Absent-of_state,
}

-- waiting is not disturbed by a change of other processes
pub waiting_frame :
    (k k' : Kernel) (p : ℕ) (ps : List ℕ)
    → ((x : ℕ) → x ≢ p → k'.procs x ≡ k.procs x)
    → Absent p ps
    → All (IsWaiting k) ps
    → All (IsWaiting k') ps
waiting_frame k k' p [] same h w = tt
waiting_frame k k' p (q ∷ ps) same h w =
    (ap (λ (x : Proc). x.state) (same q h.0) ∙ w.0, waiting_frame k k' p ps same h.1 w.1)

pub waiting_frame2 :
    (k k' : Kernel) (p q : ℕ) (ps : List ℕ)
    → ((x : ℕ) → x ≢ p → x ≢ q → k'.procs x ≡ k.procs x)
    → Absent p ps
    → Absent q ps
    → All (IsWaiting k) ps
    → All (IsWaiting k') ps
waiting_frame2 k k' p q [] same h g w = tt
waiting_frame2 k k' p q (r ∷ ps) same h g w =
    (ap (λ (x : Proc). x.state) (same r h.0 g.0) ∙ w.0, waiting_frame2 k k' p q ps same h.1 g.1 w.1)

pub Distinct-append : (ps : List ℕ) (p : ℕ) → Distinct ps → Absent p ps → Distinct (ps ++ (p ∷ []))
Distinct-append [] p d h = (tt, tt)
Distinct-append (q ∷ ps) p d h =
    (All-append (λ r. r ≢ q) ps (p ∷ []) d.0 ((λ e. h.0 (sym e)), tt), Distinct-append ps p d.1 h.1)

-- what the queues of a valid pipe satisfy
pub record Queues (k : Kernel) (near_queue far_queue : List ℕ) : Type 0 where
  pub near : All (IsWaiting k) near_queue
  pub far : All (IsWaiting k) far_queue
  pub near_distinct : Distinct near_queue
  pub far_distinct : Distinct far_queue
  pub exclusive : (near_queue ≡ []) ⊎ (far_queue ≡ [])

-- a pipe stays valid where only its queues change, to valid ones
pub IsPipe-of_Queues :
    {k : Kernel} {h s : ℕ}
    → IsPipe k h s
    → (k' : Kernel) (near_queue far_queue : List ℕ)
    → k'.handles h ≡ record (k.handles h) { queued = near_queue }
    → k'.handles s ≡ record (k.handles s) { queued = far_queue }
    → Queues k' near_queue far_queue
    → IsPipe k' h s
IsPipe-of_Queues {k} {h} {s} v k' near_queue far_queue eh es q = record {
  near = record {
    is_pipe = ap (λ (x : Handle). x.type) eh ∙ v.near.is_pipe;
    one_way = ground (arith, eh, v.near.one_way);
    waiting = subst (All (IsWaiting k')) (sym (ap (λ (x : Handle). x.queued) eh)) q.near;
    distinct = subst Distinct (sym (ap (λ (x : Handle). x.queued) eh)) q.near_distinct;
  };
  far = record {
    is_pipe = ap (λ (x : Handle). x.type) es ∙ v.far.is_pipe;
    one_way = ground (arith, es, v.far.one_way);
    waiting = subst (All (IsWaiting k')) (sym (ap (λ (x : Handle). x.queued) es)) q.far;
    distinct = subst Distinct (sym (ap (λ (x : Handle). x.queued) es)) q.far_distinct;
  };
  apart = v.apart;
  to_far = ap (λ (x : Handle). x.sister) eh ∙ v.to_far;
  to_near = ap (λ (x : Handle). x.sister) es ∙ v.to_near;
  opposite = ground (arith, eh, es, v.opposite);
  exclusive = ground (arith, eh, es, q.exclusive);
}

module _ (copy : Pcpy) (h s p buf len : ℕ) (k : Kernel) (v : IsPipe k h s)
    (runs : (k.procs p).state ≡ running) where
  abbrev pub after : Kernel
  after = queued_behind copy h s p buf len k v runs

  pub near_after :
      after.handles h ≡ record (k.handles h) { queued = (k.handles h).queued ++ (p ∷ []) }
  near_after = ground arith

  pub far_after : after.handles s ≡ k.handles s
  far_after = ground (arith, v.apart)

  pub others_after : (x : ℕ) → x ≢ p → after.procs x ≡ k.procs x
  others_after x ne = ground (arith, ne)

  pub self_after :
      after.procs p
      ≡ record (k.procs p) { state = waits4pipe; pipe_end = h; pipe_buf = buf; pipe_len = len }
  self_after = ground arith

  pub after-Checked : Checked after h s
  after-Checked = record {
    is_pipe = ap (λ (x : Handle). x.type) near_after ∙ v.near.is_pipe;
    one_way = ground (arith, near_after, v.near.one_way);
    to_far = ap (λ (x : Handle). x.sister) near_after ∙ v.to_far;
  }

  pub Absent-near : Absent p ((k.handles h).queued)
  Absent-near = Absent-of_state k p _ runs v.near.waiting

  pub Absent-far : Absent p ((k.handles s).queued)
  Absent-far = Absent-of_state k p _ runs v.far.waiting

  after-IsPipe : (k.handles s).queued ≡ [] → IsPipe after h s
  after-IsPipe none_there =
      IsPipe-of_Queues v after ((k.handles h).queued ++ (p ∷ [])) ((k.handles s).queued) near_after
        far_after
        (record {
          near =
              All-append (IsWaiting after) _ (p ∷ [])
                (waiting_frame k after p _ others_after Absent-near v.near.waiting)
                (ap (λ (x : Proc). x.state) self_after, tt);
          far = waiting_frame k after p _ others_after Absent-far v.far.waiting;
          near_distinct = Distinct-append _ p v.near.distinct Absent-near;
          far_distinct = v.far.distinct;
          exclusive = inr none_there;
        })

-- A running process joins a valid pipe at whose other end nobody waits: it waits, last in the
-- queue, with its buffer noted; no other process changes, and the pipe stays valid.
pub join_waits :
    (copy : Pcpy) (h s p buf len : ℕ) (k : Kernel)
    → IsPipe k h s
    → (k.procs p).state ≡ running
    → (k.handles s).queued ≡ []
    → (k' : Kernel) × (join_queue copy h p buf len k ≡ done (tt, k'))
      × IsPipe k' h s
      × ((k'.handles h).queued ≡ (k.handles h).queued ++ (p ∷ []))
      × ((x : ℕ)
          → k'.procs x
            ≡ update k.procs p
                (record (k.procs p) {
                  state = waits4pipe;
                  pipe_end = h;
                  pipe_buf = buf;
                  pipe_len = len;
                })
                x)
join_waits copy h s p buf len k v runs none_there = (
  after copy h s p buf len k v runs,
  join_enter copy h s p buf len k v runs
      ∙ try_idle copy h s _ (after-Checked copy h s p buf len k v runs)
          (ap (λ (x : Handle). x.queued) (far_after copy h s p buf len k v runs) ∙ none_there),
  after-IsPipe copy h s p buf len k v runs none_there,
  ap (λ (x : Handle). x.queued) (near_after copy h s p buf len k v runs),
  λ x. ground arith,
)
