-- ===== src/Kernel/Request/Deliver.antt =====
-- A request that reaches the server which waits for one.

use camellia.Base.{
  ℕ, ◌+◌, ◌≡◌, refl, ap, ◌∙◌, List, ◌∷◌, true, none, some, ◌==◌, Bool-cases, inl, inr, done, leb,
  if◌then◌else◌, arith, pos, min, through_int, set,
}
use camellia.Kernel.State.{
  running, waits4request, fs_req, Proc, Handle, Backend, Req, Kernel, update, ◌>>=◌, ◌>>◌, check,
}
use camellia.Kernel.Update.{update_twice, update_self}
use camellia.Kernel.Pcpy.{Pcpy, UfsRequest, ufs_request_size}
use camellia.Kernel.Proc.{allowed}
use camellia.Kernel.Table.{find_free_handle, init_at, init_handle, handle_init, blank}
use camellia.Kernel.Request.{
  Driver, copy_input, send_request, hand_over, user_accept, accept_user, accept_kern, try_queue,
  try_accept, response, on_request,
}
use camellia.Kernel.Request.Enter.{set_state_lem}

abbrev Memory : Type 0
Memory = ℕ → ℕ

-- copying the input only changes memory
copy_input_lem :
    (driver : Driver) (copy : Pcpy) (q : Req) (x : Proc) (c : ℕ) (k : Kernel)
    → q.caller ≡ some c
    → (len : ℕ) × (m : Memory) × (copy_input driver copy q x k ≡ done (len, record k { mem = m }))
unfolding copy_input
copy_input_lem driver copy q x c k e = elim (Bool-cases (q.in_buf == 0)) [
  | inl null ↦ (through_int q.out_len, k.mem, simp (copy_input, null))
  | inr buf ↦ elim (Bool-cases q.in_kern) [
    | inl kern ↦ (
      through_int (min q.in_len x.req_max_len),
      (copy.to k.mem x.pages x.req_buf q.in_buf (through_int (min q.in_len x.req_max_len))).1,
      simp (copy_input, buf, kern),
    )
    | inr user ↦
        let result =
          copy.bi k.mem x.pages x.req_buf ((k.procs c).pages) q.in_buf
            (through_int (min q.in_len x.req_max_len)) in
        (through_int result.0, result.1, simp (copy_input, buf, user, e))
  ]
]

module _ (hid p : ℕ) (k : Kernel) where
  abbrev own : ℕ
  own = (k.procs p).handles

  -- a new handle for a request, in the table of `p`
  abbrev with_handle : Kernel
  with_handle = record k {
    next = k.next + 1;
    handles = update k.handles k.next (blank fs_req);
    tables = update k.tables own (set (k.tables own) hid (some k.next));
  }

  init_lem :
      find_free_handle (k.tables own) (pos 1) ≡ some hid
      → init_handle p fs_req k ≡ done (some (hid, k.next), with_handle)
  unfolding init_handle init_at handle_init
  init_lem e = ap (λ o. init_at p fs_req o k) e

  module _ (driver : Driver) (copy : Pcpy) (b r h : ℕ) where
    abbrev noted : Kernel
    noted = record k { handles = update k.handles h (record (k.handles h) { req = some r }) }

    abbrev run : Kernel
    run = record noted { procs = update k.procs p (record (k.procs p) { state = running }) }

    abbrev answered : Kernel
    answered = record run { procs = update run.procs p (record (run.procs p) { rax = pos hid }) }

    abbrev handed : Kernel
    handed = record answered {
      backends = update k.backends b (record (k.backends b) { handler = none });
    }

    hand_over_lem :
        (k.procs p).state ≡ waits4request
        → hand_over driver copy b r p (some (hid, h)) k ≡ done (tt, handed)
    unfolding hand_over
    hand_over_lem e =
        let may : allowed running ((k.procs p).state) ≡ true = unfold allowed in rw e refl in
        simp (hand_over, set_state_lem p running noted may refl, ◌>>=◌, ◌>>◌)

-- the memory of the server for the request is there
abbrev pub Mapped : Pcpy → Proc → Type 0
Mapped copy x = (m : Memory) (res : UfsRequest) → (copy.send m x.pages x.req_res res).0 ≡ 48

module _ (driver : Driver) (copy : Pcpy) (b r p : ℕ) where
  send_lem :
      (x : Proc) (res : UfsRequest) (k : Kernel)
      → Mapped copy x
      → send_request driver copy x res k
        ≡ done (tt, record k { mem = (copy.send k.mem x.pages x.req_res res).1 })
  unfolding send_request
  send_lem x res k h =
      let all : leb ufs_request_size ((copy.send k.mem x.pages x.req_res res).0) ≡ true =
        ground (arith, h k.mem res) in
      simp (send_request, all, check)

  user_accept_lem :
      (hid c : ℕ) (k : Kernel)
      → (k.procs p).state ≡ waits4request
      → (k.reqs r).caller ≡ some c
      → find_free_handle (k.tables ((k.procs p).handles)) (pos 1) ≡ some hid
      → Mapped copy (k.procs p)
      → (m : Memory) × (user_accept driver copy b r p k
          ≡ done
              (tt, handed hid p (with_handle hid p (record k { mem = m })) driver copy b r k.next))
  unfolding user_accept
  user_accept_lem hid c k e q free h =
      let x = k.procs p in
      let (len, m, copied) = copy_input_lem driver copy (k.reqs r) x c k q in
      let waits : on_request x.state ≡ true = rw e refl in
      let res = response driver copy (k.reqs r) len in
      let m' = (copy.send m x.pages x.req_res res).1 in
      (
        m',
        simp (
          user_accept,
          waits,
          copied,
          send_lem x res (record k { mem = m }) h,
          init_lem hid p (record k { mem = m' }) free,
          hand_over_lem hid p (with_handle hid p (record k { mem = m' })) driver copy b r k.next e,
          ◌>>=◌,
          ◌>>◌,
          check,
        ),
      )

  abbrev taken : List ℕ → Kernel → Kernel
  taken rs k = record k { backends = update k.backends b (record (k.backends b) { queue = rs }) }

  try_accept_lem :
      (rs : List ℕ) (k : Kernel)
      → (k.backends b).is_user ≡ true
      → (k.backends b).handler ≡ some p
      → (k.backends b).queue ≡ r ∷ rs
      → try_accept driver copy b k ≡ user_accept driver copy b r p (taken rs k)
  unfolding try_accept try_queue accept_user
  try_accept_lem rs k u h q =
      ap (λ qs. try_queue driver copy b (k.backends b) qs k) q
      ∙ ap
          (λ t.
            (if t
                then accept_user driver copy b (k.backends b) r rs ((k.backends b).handler)
                else accept_kern driver copy b (k.backends b) r rs)
              k)
          u
      ∙ ap (λ o. accept_user driver copy b (k.backends b) r rs o k) h

-- The server `p` of the backend `b` has the request `r` under the number `hid` in its handles.
pub record Delivered (k k' : Kernel) (b r p hid : ℕ) (rs : List ℕ) : Type 0 where
  pub procs :
      (x : ℕ)
      → k'.procs x ≡ update k.procs p (record (k.procs p) { state = running; rax = pos hid }) x
  pub tables :
      (t : ℕ)
      → k'.tables t
        ≡ update k.tables
            ((k.procs p).handles)
            (set (k.tables ((k.procs p).handles)) hid (some k.next))
            t
  pub handles :
      (h : ℕ) → k'.handles h ≡ update k.handles k.next (record (blank fs_req) { req = some r }) h
  pub backends :
      (x : ℕ)
      → k'.backends x ≡ update k.backends b (record (k.backends b) { queue = rs; handler = none }) x
  pub reqs : k'.reqs ≡ k.reqs

module _ (driver : Driver) (copy : Pcpy) (b r p hid : ℕ) (rs : List ℕ) (m : Memory)
    (k : Kernel) where
  abbrev served : Kernel
  served =
      handed hid p (with_handle hid p (record (taken driver copy b r p rs k) { mem = m })) driver
        copy b r k.next

  served-Delivered : Delivered k served b r p hid rs
  served-Delivered = record {
    procs = λ x.
        update_twice k.procs p _ _ x
        ∙ ap (λ (v : Proc). update k.procs p (record v { rax = pos hid }) x)
            (update_self k.procs p (record (k.procs p) { state = running }));
    tables = λ t. refl;
    handles = λ h.
        update_twice k.handles k.next _ _ h
        ∙ ap (λ (v : Handle). update k.handles k.next (record v { req = some r }) h)
            (update_self k.handles k.next (blank fs_req));
    backends = λ x.
        update_twice k.backends b _ _ x
        ∙ ap (λ (v : Backend). update k.backends b (record v { handler = none }) x)
            (update_self k.backends b (record (k.backends b) { queue = rs }));
    reqs = refl;
  }

-- A server waits for a request with a free entry in its handle table and room for the request in
-- its memory, and a process has made the first request in the queue of its backend: the request
-- leaves the queue, and the server runs on with the number of a new handle to that request as its
-- result, no longer waiting at the backend; other processes, tables, handles and backends, and all
-- requests, are as before.
pub try_accept_delivers :
    (driver : Driver) (copy : Pcpy) (b r p hid c : ℕ) (rs : List ℕ) (k : Kernel)
    → (k.backends b).is_user ≡ true
    → (k.backends b).handler ≡ some p
    → (k.backends b).queue ≡ r ∷ rs
    → (k.procs p).state ≡ waits4request
    → (k.reqs r).caller ≡ some c
    → find_free_handle (k.tables ((k.procs p).handles)) (pos 1) ≡ some hid
    → Mapped copy (k.procs p)
    → (k' : Kernel) × (try_accept driver copy b k ≡ done (tt, k')) × Delivered k k' b r p hid rs
try_accept_delivers driver copy b r p hid c rs k u h q e caller free room =
    let (m, accepted) =
      user_accept_lem driver copy b r p hid c (taken driver copy b r p rs k) e caller free room in
    (
      served driver copy b r p hid rs m k,
      try_accept_lem driver copy b r p rs k u h q ∙ accepted,
      served-Delivered driver copy b r p hid rs m k,
    )
