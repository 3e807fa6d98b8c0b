-- ===== src/Kernel/Request/Refuse.antt =====
-- A request that ends at once: its caller runs on, and its backend counts the uses it had.
use mathlib.Core.Path.{subst}
use native.Mathlib.Decide.{ℕ_discrete}
use camellia.Base.{
  or_true, ℕ, ◌-◌, ◌<◌, ◌≡◌, refl, sym, ap, ◌∙◌, ◌⊎◌, Bool, true, false, ◌||◌, not, some, ◌==◌, inl,
  inr, done, ltb, if◌then◌else◌, arith, neg, ℤ, negsuc,
}
use camellia.Kernel.Errno.{einval}
use camellia.Kernel.State.{
  running, waits4fs, Proc, Backend, Req, Kernel, update, ◌>>=◌, ◌>>◌, check, free_buffer, skip,
}
use camellia.Kernel.Update.{update_self, update_at, update_ne, update_twice}
use camellia.Kernel.Pcpy.{Pcpy}
use camellia.Kernel.Proc.{allowed}
use camellia.Kernel.Request.{
  Driver, create, settle, dispatch, is_refused, is_read, at_most, free_unused, refdown_use,
  refdown_of, finish_rest, resume, on_fs,
}
use camellia.Kernel.Request.Enter.{slot_of, Entered, set_state_lem, request_slot_lem}
use camellia.Kernel.Request.Queue.{counted, counted_self, stored, create_slot, submit_lem}

-- one use less
abbrev released : ℕ → Kernel → Kernel
released b k = record k {
  backends = update k.backends b (record (k.backends b) { usehcnt = (k.backends b).usehcnt - 1 });
}

-- the input of a request, when the kernel holds it in the buffer `a`, is freed
abbrev pub input_freed : (kern : Bool) (a : ℕ) → Kernel → Kernel
input_freed kern a k = record k { buffers = if kern then update k.buffers a false else k.buffers }

-- `p` runs on with the result
abbrev resumed : ℕ → ℤ → Kernel → Kernel
resumed p ret k =
    let k₁ : Kernel = record k { procs = update k.procs p (record (k.procs p) { rax = ret }) } in
    record k₁ { procs = update k₁.procs p (record (k₁.procs p) { state = running }) }

module _ (driver : Driver) (b : ℕ) (k : Kernel) (others : 1 < (k.backends b).usehcnt) where
  still_used : ((released b k).backends b).usehcnt ≡ (k.backends b).usehcnt - 1
  still_used = ap (λ (x : Backend). x.usehcnt) (update_self k.backends b _)

  not_freed : free_unused b (released b k) ≡ done (tt, released b k)
  unfolding free_unused
  not_freed =
      let more : (((released b k).backends b).usehcnt == 0) ≡ false = ground (arith, still_used) in
      simp (free_unused, more, ◌>>=◌)

  refdown_use_lem : refdown_use driver b k ≡ done (tt, released b k)
  unfolding refdown_use
  refdown_use_lem =
      let used : ltb 0 ((k.backends b).usehcnt) ≡ true = ground (arith, others) in
      let more : ((k.backends b).usehcnt - 1 == 0) ≡ false = ground (arith, others) in
      simp (refdown_use, used, more, not_freed, ◌>>=◌, ◌>>◌, check)

  refdown_of_lem : refdown_of driver (some b) k ≡ done (tt, released b k)
  unfolding refdown_of
  refdown_of_lem = refdown_use_lem

resume_lem :
    (r p : ℕ) (ret : ℤ) (k : Kernel)
    → (k.procs p).state ≡ waits4fs
    → resume r ret (some p) k ≡ done (tt, resumed p ret k)
unfolding resume
resume_lem r p ret k e =
    let waits : on_fs ((k.procs p).state) ≡ true = rw e refl in
    let k₁ : Kernel = record k { procs = update k.procs p (record (k.procs p) { rax = ret }) } in
    let same : (k₁.procs p).state ≡ waits4fs =
      ap (λ (x : Proc). x.state) (update_self k.procs p (record (k.procs p) { rax = ret })) ∙ e in
    let may : allowed running ((k₁.procs p).state) ≡ true = unfold allowed in rw same refl in
    simp (resume, waits, set_state_lem p running k₁ may refl, ◌>>=◌, ◌>>◌, check)

free_input_lem :
    (kern : Bool) (a : ℕ) (k : Kernel)
    → (if kern then free_buffer a else skip) k ≡ done (tt, input_freed kern a k)
free_input_lem true a k = refl
free_input_lem false a k = refl

-- a failed request of `p` whose backend has other uses
finish_lem :
    (driver : Driver) (b r p n : ℕ) (q : Req) (k : Kernel)
    → k.reqs r ≡ record q { allocated = true }
    → q.backend ≡ some b
    → q.caller ≡ some p
    → 1 < (k.backends b).usehcnt
    → (k.procs p).state ≡ waits4fs
    → finish_rest driver r (negsuc n) k
      ≡ done (tt, resumed p (negsuc n) (released b (input_freed q.in_kern q.in_buf k)))
unfolding finish_rest
finish_lem driver b r p n q k kept e c others w =
    let k₁ = input_freed q.in_kern q.in_buf k in
    let fine : (not (is_read q.op) || at_most (negsuc n) q.out_len) ≡ true =
      or_true (not (is_read q.op)) in
    rw kept (
      simp (
        fine,
        free_input_lem q.in_kern q.in_buf k,
        e,
        c,
        refdown_of_lem driver b k₁ others,
        resume_lem r p (negsuc n) (released b k₁) w,
        ◌>>=◌,
        ◌>>◌,
        check,
      ))

abbrev error_code : Bool → ℕ
error_code true = 3
error_code false = 0

-- the result of a request that its backend does not get
abbrev pub error_of : Req → ℤ
error_of q = if is_refused q then neg einval else neg 1

error_of_lem : (q : Req) → error_of q ≡ negsuc (error_code (is_refused q))
error_of_lem q = go (is_refused q)
  where
    go : (t : Bool) → (if t then neg einval else neg 1) ≡ negsuc (error_code t)
    go true = refl
    go false = refl

-- no backend gets the request
abbrev pub Fails : Req → Backend → Type 0
Fails q x = (is_refused q ≡ true) ⊎ ((is_refused q ≡ false) × (x.provhcnt ≡ 0))

settle_lem :
    (driver : Driver) (copy : Pcpy) (b r : ℕ) (q : Req) (k : Kernel)
    → q.backend ≡ some b
    → Fails q (k.backends b)
    → settle driver copy q r (is_refused q) k
      ≡ finish_rest driver r (negsuc (error_code (is_refused q))) k
unfolding settle dispatch
settle_lem driver copy b r q k e (inl bad) =
    ap (λ t. settle driver copy q r t k) bad
    ∙ ap (λ t. finish_rest driver r (negsuc (error_code t)) k) (sym bad)
settle_lem driver copy b r q k e (inr (ok, gone)) =
    let none_there : ltb 0 ((k.backends b).provhcnt) ≡ false = ground (arith, gone) in
    ap (λ t. settle driver copy q r t k) ok
    ∙ ap (λ o. dispatch driver copy r o k) e
    ∙ (simp (dispatch, none_there, ◌>>=◌))
    ∙ ap (λ t. finish_rest driver r (negsuc (error_code t)) k) (sym ok)

-- `p` runs on with the result, and owns the request `r` for its next one; no use is left.
pub record Refused (k k' : Kernel) (p r : ℕ) (q : Req) (ret : ℤ) : Type 0 where
  pub procs :
      (x : ℕ)
      → k'.procs x
        ≡ update k.procs p (record (k.procs p) { state = running; rax = ret; reqslot = some r }) x
  pub backends : (x : ℕ) → k'.backends x ≡ k.backends x
  pub buffers : (x : ℕ) → k'.buffers x ≡ (input_freed q.in_kern q.in_buf k).buffers x

module _ (b p r : ℕ) (q : Req) (ret : ℤ) (k k₁ : Kernel) (t : Entered k k₁ p r) where
  abbrev left : Kernel
  left = resumed p ret (released b (input_freed q.in_kern q.in_buf (stored b r q k₁)))

  back : (x : ℕ) → left.backends x ≡ k₁.backends x
  back x =
      update_twice k₁.backends b (counted (k₁.backends b)) _ x
      ∙ ap (λ (v : Backend). update k₁.backends b (record v { usehcnt = v.usehcnt - 1 }) x)
          (counted_self b r q k₁)
      ∙ elim (ℕ_discrete b x) [
        | yes e ↦
            update_at k₁.backends b x _ e
            ∙ ap (λ n. record (k₁.backends b) { usehcnt = n }) (omega arith)
            ∙ ap k₁.backends e
        | no d ↦ update_ne k₁.backends b x _ d
      ]

  left-Refused : Refused k left p r q ret
  left-Refused = record {
    procs = λ x.
        update_twice k₁.procs p _ _ x
        ∙ ap (λ (v : Proc). update k₁.procs p (record v { state = running }) x)
            (update_self k₁.procs p (record (k₁.procs p) { rax = ret }))
        ∙ elim (ℕ_discrete p x) [
          | yes e ↦
              update_at k₁.procs p x _ e
              ∙ ap (λ (v : Proc). record v { state = running; rax = ret }) t.self
              ∙ sym (update_at k.procs p x _ e)
          | no d ↦ update_ne k₁.procs p x _ d ∙ t.others x d ∙ sym (update_ne k.procs p x _ d)
        ];
    backends = λ x. back x ∙ ap (λ f. f x) t.backends;
    buffers = λ x. ap (λ f. (if q.in_kern then update f q.in_buf false else f) x) t.buffers;
  }

-- A running process makes a request, with its input in its own memory or in a buffer of the kernel, to a
-- backend that is in use but does not get it, since it would create a file without opening it for
-- writing, or since nobody provides the backend: the process runs on with -EINVAL or -1 as its result,
-- every backend is as before, its count of uses included, and of the kernel's buffers only the one of
-- the input, if there is one, is freed.
pub create-Refused :
    (driver : Driver) (copy : Pcpy) (b p : ℕ) (q : Req) (k : Kernel)
    → q.caller ≡ some p
    → q.backend ≡ some b
    → (k.procs p).state ≡ running
    → 0 < (k.backends b).usehcnt
    → Fails q (k.backends b)
    → (k' : Kernel) × (create driver copy q k ≡ done (tt, k'))
      × Refused k k' p (slot_of k.next ((k.procs p).reqslot)) q (error_of q)
create-Refused driver copy b p q k c e runs used fails =
    let r = slot_of k.next ((k.procs p).reqslot) in
    let n = error_code (is_refused q) in
    let (k₁, slot, t) = request_slot_lem driver copy p k runs in
    let same = counted_self b r q k₁ in
    let uses : 0 < (k₁.backends b).usehcnt = subst (λ f. 0 < (f b).usehcnt) (sym t.backends) used in
    let more : 1 < ((stored b r q k₁).backends b).usehcnt =
      subst (λ (x : Backend). 1 < x.usehcnt) (sym same) (omega (arith, uses)) in
    let fails₁ : Fails q (k₁.backends b) = subst (λ f. Fails q (f b)) (sym t.backends) fails in
    let fails₂ : Fails q ((stored b r q k₁).backends b) = subst (Fails q) (sym same) fails₁ in
    let kept : (stored b r q k₁).reqs r ≡ record q { allocated = true } =
      update_self k₁.reqs r (record q { allocated = true }) in
    subst (λ ret. (k' : Kernel) × (create driver copy q k ≡ done (tt, k')) × Refused k k' p r q ret)
      (sym (error_of_lem q))
      (
        left b p r q (negsuc n) k k₁ t,
        create_slot driver copy r p q k k₁ c slot
            ∙ submit_lem driver copy b r q k₁ e uses
            ∙ settle_lem driver copy b r q (stored b r q k₁) e fails₂
            ∙ finish_lem driver b r p n q (stored b r q k₁) kept e c more
                (ap (λ (x : Proc). x.state) t.self),
        left-Refused b p r q (negsuc n) k k₁ t,
      )
