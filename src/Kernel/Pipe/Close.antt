-- ===== src/Kernel/Pipe/Close.antt =====
-- What processes see of an end whose other end is closed, and the length that reaches `pcpy_bi`.
use mathlib.Core.Path.{subst}
use native.Mathlib.Decide.{ℕ_discrete}
use camellia.Base.{
  ◌==◌, ◌||◌, ℕ, ◌+◌, ◌^◌, ◌≤◌, ◌<◌, min, List, [], ◌∷◌, Bool, true, false, not, none, done,
  if◌then◌else◌, pos, neg, ◌≡◌, ◌≢◌, refl, sym, ap, ◌∙◌, All, arith,
}
use camellia.Kernel.Errno.{epipe}
use camellia.Kernel.State.{running, Proc, Kernel, update, ◌>>=◌, check}
use camellia.Kernel.Pcpy.{Pcpy}
use camellia.Kernel.Pipe.{join_queue, copy_length, wake_all, invalidate_end}
use camellia.Kernel.Pipe.Inv.{Absent, Distinct, IsWaiting, IsEnd, xor-not}
use camellia.Kernel.Pipe.Transfer.{set_state_runs, run_again, returned}
use camellia.Kernel.Pipe.Join.{waiting_frame}

-- At a valid end whose other end is closed nobody waits: a reader gets 0, the end of the file, and
-- a writer -EPIPE, at once, and nothing else changes.
join_closed :
    (copy : Pcpy) (h p buf len : ℕ) (k : Kernel)
    → IsEnd k h
    → (k.handles h).sister ≡ none
    → join_queue copy h p buf len k
      ≡ done (tt, returned p (if (k.handles h).writeable then neg epipe else pos 0) k)
unfolding join_queue
join_closed copy h p buf len k v closed =
    simp (join_queue, ◌>>=◌, check, v.is_pipe, v.one_way, xor-not, closed)
      (ap (λ r. done (tt, returned p r k)) (end_value ((k.handles h).writeable)))
  where
    end_value : (b : Bool) → (if not b then pos 0 else neg epipe) ≡ (if b then neg epipe else pos 0)
    end_value true = refl
    end_value false = refl

-- lengths below 2 ^ 31 reach the copy unchanged
pub copy_length_small : (a b : ℕ) → min a b < 2 ^ 31 → copy_length a b ≡ min a b
unfolding copy_length
copy_length_small a b h = ground arith

-- Where the shorter length is from 2 ^ 31 to 2 ^ 32 - 1, the length that reaches `pcpy_bi`,
-- through an `int`, exceeds it by more than 2 ^ 32.
copy_length_overflow :
    (a b : ℕ) → 2 ^ 31 ≤ min a b → min a b < 2 ^ 32 → min a b + 2 ^ 32 < copy_length a b
unfolding copy_length
copy_length_overflow a b h l = ground arith

abbrev pub elem : ℕ → List ℕ → Bool
elem x [] = false
elem x (p ∷ ps) = p == x || elem x ps

abbrev pub interrupted : Proc → Proc
interrupted v = record v { state = running; rax = neg 1 }

abbrev woken_first : ℕ → Kernel → Kernel
woken_first p k = returned p (neg 1) (run_again p k)

first_others : (p : ℕ) (k : Kernel) (x : ℕ) → x ≢ p → (woken_first p k).procs x ≡ k.procs x
first_others p k x h = ground (arith, h)

elem-Absent : (p : ℕ) (ps : List ℕ) → Absent p ps → elem p ps ≡ false
elem-Absent p [] h = refl
elem-Absent p (q ∷ ps) h = ground (arith, h.0, elem-Absent p ps h.1)

interrupted_once :
    (p x : ℕ) (ps : List ℕ) (w v : Proc)
    → Absent p ps
    → (p ≡ x → w ≡ interrupted v)
    → (x ≢ p → w ≡ v)
    → (if elem x ps then interrupted w else w) ≡ (if elem x (p ∷ ps) then interrupted v else v)
interrupted_once p x ps w v h now later = elim (ℕ_discrete p x) [
  | yes e ↦
      let out : elem x ps ≡ false = ap (λ y. elem y ps) (sym e) ∙ elem-Absent p ps h in
      let hit : (p == x) ≡ true = ground arith in rw (out, hit) (now e)
  | no ne ↦
      let miss : (p == x) ≡ false = ground arith in
      rw miss (ap (λ u. if elem x ps then interrupted u else u) (later (λ e. ne (sym e))))
]

first_self : (p x : ℕ) (k : Kernel) → p ≡ x → (woken_first p k).procs x ≡ interrupted (k.procs x)
first_self p x k e =
    subst (λ y. (woken_first p k).procs y ≡ interrupted (k.procs y)) e (ground arith)

wake_all_lem :
    (ps : List ℕ) (k : Kernel)
    → All (IsWaiting k) ps
    → Distinct ps
    → (k' : Kernel) × (wake_all ps k ≡ done (tt, k'))
      × ((x : ℕ) → k'.procs x ≡ (if elem x ps then interrupted (k.procs x) else k.procs x))
unfolding wake_all
wake_all_lem [] k w d = (k, refl, λ x. refl)
wake_all_lem (p ∷ ps) k w d =
    let rest =
      wake_all_lem ps (woken_first p k)
        (waiting_frame k (woken_first p k) p ps (first_others p k) d.0 w.1) d.1 in
    (
      rest.0,
      simp (wake_all, w.0, ◌>>=◌, check, set_state_runs p k w.0) (rest.1),
      λ x. rest.2 x ∙ interrupted_once p x ps _ _ d.0 (first_self p x k) (first_others p k x),
    )

-- At a valid end of a pipe, `pipe_invalidate_end` wakes everybody who waits there, with the result
-- -1, and empties the queue; no other process changes.
invalidate_end_lem :
    (h : ℕ) (k : Kernel)
    → IsEnd k h
    → (k' : Kernel) × (invalidate_end h k ≡ done (tt, k'))
      × ((k'.handles h).queued ≡ [])
      × ((x : ℕ)
          → k'.procs x
            ≡ (if elem x ((k.handles h).queued) then interrupted (k.procs x) else k.procs x))
unfolding invalidate_end
invalidate_end_lem h k v =
    let (k1, runs, w) = wake_all_lem ((k.handles h).queued) k v.waiting v.distinct in
    (
      record k1 { handles = update k1.handles h (record (k1.handles h) { queued = [] }) },
      simp (invalidate_end, ◌>>=◌, runs) refl,
      ground arith,
      w,
    )
