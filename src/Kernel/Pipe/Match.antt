-- ===== src/Kernel/Pipe/Match.antt =====
-- A running process that joins a pipe at whose other end somebody waits.
use mathlib.Core.List.{tail}
use mathlib.Core.Path.{subst}
use native.Mathlib.Decide.{ℕ_discrete}
use camellia.Base.{
  ℕ, List, [], ◌∷◌, ◌++◌, Bool, true, false, done, if◌then◌else◌, ◌≡◌, ◌≢◌, refl, sym, ap, ◌∙◌, inl,
  inr, All, Bool-cases,
}
use camellia.Kernel.State.{running, waits4pipe, Handle, Proc, Kernel, update}
use camellia.Kernel.Pcpy.{Pcpy}
use camellia.Kernel.Pipe.{transfer, join_queue, copy_length}
use camellia.Kernel.Pipe.Inv.{Absent, Distinct, IsWaiting, IsPipe, try_match, join_enter}
use camellia.Kernel.Update.{update_at, update_ne}
use camellia.Kernel.Pipe.Transfer.{woken, copied, transferred, transfer_lem, transfer-Transferred}
use camellia.Kernel.Pipe.Join.{
  waiting_frame2, IsPipe-of_Queues, after, near_after, far_after, others_after, self_after,
  after-Checked, Absent-far,
}

-- `p`, with its buffer of `len` bytes at `buf`, joined the end `h` and was matched with `q`: both
-- run on with the count `n`, and `qs` keep waiting at the end `s`.
pub record Matched (k k' : Kernel) (h s p buf len q n : ℕ) (qs : List ℕ) : Type 0 where
  pub procs :
      (x : ℕ)
      → k'.procs x
        ≡ update
            (update k.procs p
              (woken n (record (k.procs p) { pipe_end = h; pipe_buf = buf; pipe_len = len })))
            q
            (woken n (k.procs q))
            x
  pub near : (k'.handles h).queued ≡ []
  pub far : (k'.handles s).queued ≡ qs

update_two :
    (f g : ℕ → Proc) (p q x : ℕ) (v w : Proc)
    → q ≢ p
    → g p ≡ v
    → g q ≡ w
    → (x ≢ p → x ≢ q → g x ≡ f x)
    → g x ≡ update (update f p v) q w x
update_two f g p q x v w ne gp gq rest = elim (ℕ_discrete q x) [
  | yes e ↦ ap g (sym e) ∙ gq ∙ sym (update_at (update f p v) q x w e)
  | no a ↦ elim (ℕ_discrete p x) [
    | yes e ↦ ap g (sym e) ∙ gp ∙ sym (update_ne (update f p v) q x w a ∙ update_at f p x v e)
    | no b ↦
        rest (λ e. b (sym e)) (λ e. a (sym e))
        ∙ sym (update_ne (update f p v) q x w a ∙ update_ne f p x v b)
  ]
]

module _ (copy : Pcpy) (h s p buf len q : ℕ) (qs : List ℕ) (k : Kernel) (v : IsPipe k h s)
    (runs : (k.procs p).state ≡ running) (there : (k.handles s).queued ≡ q ∷ qs) where
  near_empty : (k.handles h).queued ≡ []
  near_empty = elim v.exclusive [ inl e ↦ e | inr e ↦ cc ]

  abbrev waits : Kernel
  waits = after copy h s p buf len k v runs

  far_queue : (waits.handles s).queued ≡ q ∷ qs
  far_queue = ap (λ (x : Handle). x.queued) (far_after copy h s p buf len k v runs) ∙ there

  near_queue : (waits.handles h).queued ≡ p ∷ []
  near_queue =
      ap (λ (x : Handle). x.queued) (near_after copy h s p buf len k v runs)
      ∙ ap (λ ps. ps ++ (p ∷ [])) near_empty

  q-Absent : Absent p (q ∷ qs)
  q-Absent = subst (Absent p) there (Absent-far copy h s p buf len k v runs)

  q_queue : All (IsWaiting k) (q ∷ qs) × Distinct (q ∷ qs)
  q_queue = (subst (All (IsWaiting k)) there v.far.waiting, subst Distinct there v.far.distinct)

  p_waits : IsWaiting waits p
  p_waits = ap (λ (x : Proc). x.state) (self_after copy h s p buf len k v runs)

  q_waits : IsWaiting waits q
  q_waits =
      ap (λ (x : Proc). x.state) (others_after copy h s p buf len k v runs q q-Absent.0)
      ∙ q_queue.0.0

  module _ (n : ℕ) (k' : Kernel) (first : k'.procs p ≡ woken n (waits.procs p))
      (second : k'.procs q ≡ woken n (waits.procs q))
      (others : (x : ℕ) → p ≢ x → q ≢ x → k'.procs x ≡ waits.procs x)
      (near : k'.handles h ≡ record (waits.handles h) { queued = tail ((waits.handles h).queued) })
      (far : k'.handles s
        ≡ record (waits.handles s) { queued = tail ((waits.handles s).queued) }) where
    others_same : (x : ℕ) → x ≢ p → x ≢ q → k'.procs x ≡ k.procs x
    others_same x xp xq =
        others x (λ e. xp (sym e)) (λ e. xq (sym e)) ∙ others_after copy h s p buf len k v runs x xp

    p_now :
        k'.procs p ≡ woken n (record (k.procs p) { pipe_end = h; pipe_buf = buf; pipe_len = len })
    p_now = first ∙ ap (woken n) (self_after copy h s p buf len k v runs)

    q_now : k'.procs q ≡ woken n (k.procs q)
    q_now = second ∙ ap (woken n) (others_after copy h s p buf len k v runs q q-Absent.0)

    k'-Matched : Matched k k' h s p buf len q n qs
    k'-Matched = record {
      procs = λ x. update_two k.procs k'.procs p q x _ _ q-Absent.0 p_now q_now (others_same x);
      near = ap (λ (x : Handle). x.queued) near ∙ ap tail near_queue;
      far = ap (λ (x : Handle). x.queued) far ∙ ap tail far_queue;
    }

    same_near : k'.handles h ≡ record (k.handles h) { queued = [] }
    same_near =
        near
        ∙ ap (λ (x : Handle). record x { queued = tail (x.queued) })
            (near_after copy h s p buf len k v runs)
        ∙ ap (λ ps. record (k.handles h) { queued = tail (ps ++ (p ∷ [])) }) near_empty

    same_far : k'.handles s ≡ record (k.handles s) { queued = qs }
    same_far =
        far
        ∙ ap (λ (x : Handle). record x { queued = tail (x.queued) })
            (far_after copy h s p buf len k v runs)
        ∙ ap (λ ps. record (k.handles s) { queued = tail ps }) there

    k'-IsPipe : IsPipe k' h s
    k'-IsPipe = IsPipe-of_Queues v k' [] qs same_near same_far (record {
      near = tt;
      far = waiting_frame2 k k' p q qs others_same q-Absent.1 q_queue.1.0 q_queue.0.1;
      near_distinct = tt;
      far_distinct = q_queue.1.1;
      exclusive = inl refl;
    })

-- What `pcpy_bi` gives for the reader `r` and the writer `w`, which offer these buffers.
abbrev pub copy_result :
    Pcpy → Kernel → (r : ℕ) (r_buf r_len : ℕ) (w : ℕ) (w_buf w_len : ℕ) → ℕ × (ℕ → ℕ)
copy_result copy k r r_buf r_len w w_buf w_len =
    copy.bi k.mem ((k.procs r).pages) r_buf ((k.procs w).pages) w_buf (copy_length r_len w_len)

-- the copy when `p` joins an end with its buffer and `q` has waited at the other
abbrev pub copy_for : Pcpy → Kernel → (writes : Bool) → (p buf len q : ℕ) → ℕ × (ℕ → ℕ)
copy_for copy k writes p buf len q =
    let q_buf = (k.procs q).pipe_buf in
    let q_len = (k.procs q).pipe_len in
    if writes
    then copy_result copy k q q_buf q_len p buf len
    else copy_result copy k p buf len q q_buf q_len

module _ (copy : Pcpy) (h s p buf len q : ℕ) (qs : List ℕ) (k : Kernel) (v : IsPipe k h s)
    (runs : (k.procs p).state ≡ running) (there : (k.handles s).queued ≡ q ∷ qs) where
  abbrev before : Kernel
  before = waits copy h s p buf len q qs k v runs there

  abbrev Result : ℕ × (ℕ → ℕ) → Type 0
  Result result =
      (k' : Kernel) × (join_queue copy h p buf len k ≡ done (tt, k'))
      × IsPipe k' h s
      × Matched k k' h s p buf len q result.0 qs
      × (k'.mem ≡ result.1)

  q-ne-p : q ≢ p
  q-ne-p = (q-Absent copy h s p buf len q qs k v runs there).0

  entered :
      (writes : Bool)
      → (k.handles h).writeable ≡ writes
      → join_queue copy h p buf len k
        ≡ (if writes then transfer copy h s q p before else transfer copy h s p q before)
  entered writes e =
      join_enter copy h s p buf len k v runs
      ∙ try_match copy h s before (after-Checked copy h s p buf len k v runs) p q [] qs
          (near_queue copy h s p buf len q qs k v runs there)
          (far_queue copy h s p buf len q qs k v runs there)
      ∙ ap (λ b. if b then transfer copy h s q p before else transfer copy h s p q before)
          (ap (λ (x : Handle). x.writeable) (near_after copy h s p buf len k v runs) ∙ e)

  q_before : before.procs q ≡ k.procs q
  q_before = others_after copy h s p buf len k v runs q q-ne-p

  p_before :
      before.procs p
      ≡ record (k.procs p) { state = waits4pipe; pipe_end = h; pipe_buf = buf; pipe_len = len }
  p_before = self_after copy h s p buf len k v runs

  copied_writer : copied copy q p before ≡ copy_for copy k true p buf len q
  copied_writer i =
      copy.bi k.mem ((q_before i).pages) ((q_before i).pipe_buf) ((p_before i).pages)
        ((p_before i).pipe_buf) (copy_length ((q_before i).pipe_len) ((p_before i).pipe_len))

  copied_reader : copied copy p q before ≡ copy_for copy k false p buf len q
  copied_reader i =
      copy.bi k.mem ((p_before i).pages) ((p_before i).pipe_buf) ((q_before i).pages)
        ((q_before i).pipe_buf) (copy_length ((p_before i).pipe_len) ((q_before i).pipe_len))

  as_writer : (k.handles h).writeable ≡ true → Result (copy_for copy k true p buf len q)
  as_writer w =
      let p_w = p_waits copy h s p buf len q qs k v runs there in
      let q_w = q_waits copy h s p buf len q qs k v runs there in
      let t = transfer-Transferred copy h s q p before q-ne-p v.apart in
      let k' = transferred copy h s q p before in
      let swapped = λ (x : ℕ) (px : p ≢ x) (qx : q ≢ x). t.others x qx px in
      subst Result copied_writer (
        k',
        entered true w ∙ transfer_lem copy h s q p before q_w p_w q-ne-p,
        k'-IsPipe copy h s p buf len q qs k v runs there _ k' t.second t.first swapped t.near t.far,
        k'-Matched copy h s p buf len q qs k v runs there _ k' t.second t.first swapped t.near
            t.far,
        refl,
      )

  as_reader : (k.handles h).writeable ≡ false → Result (copy_for copy k false p buf len q)
  as_reader w =
      let p_w = p_waits copy h s p buf len q qs k v runs there in
      let q_w = q_waits copy h s p buf len q qs k v runs there in
      let t = transfer-Transferred copy h s p q before (λ e. q-ne-p (sym e)) v.apart in
      let k' = transferred copy h s p q before in
      subst Result copied_reader (
        k',
        entered false w ∙ transfer_lem copy h s p q before p_w q_w (λ e. q-ne-p (sym e)),
        k'-IsPipe copy h s p buf len q qs k v runs there _ k' t.first t.second t.others t.near
            t.far,
        k'-Matched copy h s p buf len q qs k v runs there _ k' t.first t.second t.others t.near
            t.far,
        refl,
      )

-- A running process joins a valid pipe at whose other end somebody waits: the first of them and
-- the process are copied between, once, with the length that `copy_length` gives for their
-- buffers, and both run on with the count as their result; the others keep waiting, and the pipe
-- stays valid.
pub join_matches :
    (copy : Pcpy) (h s p buf len q : ℕ) (qs : List ℕ) (k : Kernel)
    → IsPipe k h s
    → (k.procs p).state ≡ running
    → (k.handles s).queued ≡ q ∷ qs
    → let result = copy_for copy k ((k.handles h).writeable) p buf len q in
      (k' : Kernel) × (join_queue copy h p buf len k ≡ done (tt, k'))
      × IsPipe k' h s
      × Matched k k' h s p buf len q result.0 qs
      × (k'.mem ≡ result.1)
join_matches copy h s p buf len q qs k v runs there = elim (Bool-cases ((k.handles h).writeable)) [
  | inl w ↦ rw w (as_writer copy h s p buf len q qs k v runs there w)
  | inr w ↦ rw w (as_reader copy h s p buf len q qs k v runs there w)
]
