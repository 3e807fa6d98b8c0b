-- ===== src/Kernel/Request/Queue.antt =====
-- Requests that wait in the queue of a backend.
use camellia.Base.{
  ℕ, ◌+◌, ◌<◌, ◌≡◌, refl, sym, ap, ◌∙◌, List, [], ◌∷◌, ◌++◌, true, false, none, some, done, ltb,
  arith,
}
use mathlib.Core.Path.{subst}
use native.Mathlib.Decide.{ℕ_discrete}
use camellia.Kernel.State.{running, waits4fs, Backend, Req, Kernel, update, ◌>>=◌, ◌>>◌, check}
use camellia.Kernel.Update.{update_twice, update_self, update_at, update_ne}
use camellia.Kernel.Pcpy.{Pcpy}
use camellia.Kernel.Request.{
  Driver, create, submit, settle, dispatch, enqueue, count_use, try_accept, try_queue, accept_user,
  is_refused, request_slot,
}
use camellia.Kernel.Request.Enter.{slot_of, Entered, request_slot_lem}

module _ (b : ℕ) (k : Kernel) where
  abbrev queued : ℕ → Kernel
  queued r = record k {
    backends =
        update k.backends b (record (k.backends b) { queue = (k.backends b).queue ++ (r ∷ []) });
  }

  queued_self :
      (r : ℕ)
      → (queued r).backends b ≡ record (k.backends b) { queue = (k.backends b).queue ++ (r ∷ []) }
  queued_self r = update_self k.backends b _

  abbrev used : Kernel
  used = record k {
    backends = update k.backends b (record (k.backends b) { usehcnt = (k.backends b).usehcnt + 1 });
  }

-- the request is in its slot, and its backend counts it
abbrev pub stored : ℕ → ℕ → Req → Kernel → Kernel
stored b r q k = used b (record k { reqs = update k.reqs r (record q { allocated = true }) })

abbrev pub counted : Backend → Backend
counted x = record x { usehcnt = x.usehcnt + 1 }

pub counted_self :
    (b r : ℕ) (q : Req) (k : Kernel) → (stored b r q k).backends b ≡ counted (k.backends b)
counted_self b r q k = update_self k.backends b (counted (k.backends b))

module _ (driver : Driver) (copy : Pcpy) where
  try_queue_idle :
      (b : ℕ) (x : Backend) (qs : List ℕ) (k : Kernel)
      → x.is_user ≡ true
      → x.handler ≡ none
      → try_queue driver copy b x qs k ≡ done (tt, k)
  unfolding try_queue accept_user
  try_queue_idle b x [] k u h = refl
  try_queue_idle b x (r ∷ rs) k u h =
      simp (try_queue, u) (ap (λ o. accept_user driver copy b x r rs o k) h)

  module _ (b : ℕ) (k : Kernel) where
    enqueue_idle :
        (r : ℕ)
        → (k.backends b).is_user ≡ true
        → (k.backends b).handler ≡ none
        → enqueue driver copy b r k ≡ done (tt, queued b k r)
    unfolding enqueue try_accept
    enqueue_idle r u h =
        try_queue_idle b ((queued b k r).backends b) (((queued b k r).backends b).queue)
          (queued b k r) (ap (λ (x : Backend). x.is_user) (queued_self b k r) ∙ u)
          (ap (λ (x : Backend). x.handler) (queued_self b k r) ∙ h)

    count_use_lem :
        0 < (k.backends b).usehcnt → count_use driver copy (some b) k ≡ done (tt, used b k)
    unfolding count_use
    count_use_lem l =
        let e : ltb 0 ((k.backends b).usehcnt) ≡ true = ground arith in
        simp (count_use, e, ◌>>=◌, ◌>>◌, check)

  pub create_slot :
      (r p : ℕ) (q : Req) (k k' : Kernel)
      → q.caller ≡ some p
      → request_slot driver copy (some p) k ≡ done (r, k')
      → create driver copy q k ≡ submit driver copy q r k'
  unfolding create
  create_slot r p q k k' c slot =
      ap (λ o. (request_slot driver copy o >>= submit driver copy q) k) c ∙ simp (slot, ◌>>=◌)

  pub submit_lem :
      (b r : ℕ) (q : Req) (k : Kernel)
      → q.backend ≡ some b
      → 0 < (k.backends b).usehcnt
      → submit driver copy q r k ≡ settle driver copy q r (is_refused q) (stored b r q k)
  unfolding submit
  submit_lem b r q k e l =
      let before : Kernel = record k { reqs = update k.reqs r (record q { allocated = true }) } in
      ap (λ o. (count_use driver copy o >>= λ _. settle driver copy q r (is_refused q)) before) e
      ∙ simp (count_use_lem b before l, ◌>>=◌)

  pub dispatch_lem :
      (b r : ℕ) (q : Req) (k : Kernel)
      → q.backend ≡ some b
      → is_refused q ≡ false
      → 0 < (k.backends b).provhcnt
      → settle driver copy q r (is_refused q) k ≡ enqueue driver copy b r k
  unfolding settle dispatch
  dispatch_lem b r q k e ok l =
      let here : ltb 0 ((k.backends b).provhcnt) ≡ true = ground arith in
      ap (λ x. settle driver copy q r x k) ok
      ∙ ap (λ o. dispatch driver copy r o k) e
      ∙ simp (dispatch, here, ◌>>=◌)

-- `p` waits for its request `r`, which is the last in the queue of the backend `b`.
pub record Queued (k k' : Kernel) (b p r : ℕ) (q : Req) : Type 0 where
  pub backends :
      (x : ℕ)
      → k'.backends x
        ≡ update k.backends b
            (record (k.backends b) {
              usehcnt = (k.backends b).usehcnt + 1;
              queue = (k.backends b).queue ++ (r ∷ []);
            })
            x
  pub procs :
      (x : ℕ)
      → k'.procs x ≡ update k.procs p (record (k.procs p) { state = waits4fs; reqslot = some r }) x
  pub reqs : k'.reqs ≡ update k.reqs r (record q { allocated = true })

-- the backend serves requests in user space, and its server is busy
pub record IsBusy (x : Backend) : Type 0 where
  pub used : 0 < x.usehcnt
  pub provided : 0 < x.provhcnt
  pub user : x.is_user ≡ true
  pub busy : x.handler ≡ none

module _ (b p r : ℕ) (q : Req) (k k₁ : Kernel) (t : Entered k k₁ p r) where
  abbrev last : Kernel
  last = queued b (stored b r q k₁) r

  last-Queued : Queued k last b p r q
  last-Queued = record {
    backends = λ x.
        update_twice k₁.backends b (counted (k₁.backends b)) _ x
        ∙ ap (λ (v : Backend). update k₁.backends b (record v { queue = v.queue ++ (r ∷ []) }) x)
            (counted_self b r q k₁)
        ∙ ap
            (λ f.
              update f b
                (record (f b) { usehcnt = (f b).usehcnt + 1; queue = (f b).queue ++ (r ∷ []) }) x)
            t.backends;
    procs = λ x. elim (ℕ_discrete p x) [
      | yes e ↦ ap k₁.procs (sym e) ∙ t.self ∙ sym (update_at k.procs p x _ e)
      | no d ↦ t.others x d ∙ sym (update_ne k.procs p x _ d)
    ];
    reqs = ap (λ f. update f r (record q { allocated = true })) t.reqs;
  }

-- A running process makes a request to a backend whose server is busy: the process waits, and the
-- request joins the end of the queue of the backend, which counts one use more; the other processes
-- and backends are as before.
pub create_waits :
    (driver : Driver) (copy : Pcpy) (b p : ℕ) (q : Req) (k : Kernel)
    → q.caller ≡ some p
    → q.backend ≡ some b
    → is_refused q ≡ false
    → (k.procs p).state ≡ running
    → IsBusy (k.backends b)
    → (k' : Kernel) × (create driver copy q k ≡ done (tt, k'))
      × Queued k k' b p (slot_of k.next ((k.procs p).reqslot)) q
create_waits driver copy b p q k c e ok runs v =
    let r = slot_of k.next ((k.procs p).reqslot) in
    let (k₁, slot, t) = request_slot_lem driver copy p k runs in
    let at_k₁ : IsBusy (k₁.backends b) = subst (λ f. IsBusy (f b)) (sym t.backends) v in
    let self : (stored b r q k₁).backends b ≡ counted (k₁.backends b) = counted_self b r q k₁ in
    (
      last b p r q k k₁ t,
      create_slot driver copy r p q k k₁ c slot
          ∙ submit_lem driver copy b r q k₁ e at_k₁.used
          ∙ dispatch_lem driver copy b r q (stored b r q k₁) e ok
              (subst (λ (x : Backend). 0 < x.provhcnt) (sym self) at_k₁.provided)
          ∙ enqueue_idle driver copy b (stored b r q k₁) r
              (ap (λ (x : Backend). x.is_user) self ∙ at_k₁.user)
              (ap (λ (x : Backend). x.handler) self ∙ at_k₁.busy),
      last-Queued b p r q k k₁ t,
    )
