-- ===== src/Kernel/Request.antt =====
-- src/kernel/vfs/request.c: requests to a backend. `vfsreq_finish` with a failure does not open a
-- handle, so that `finish_rest`, its part behind that, is all of `vfsreq_finish_short` with -1
-- or -EINVAL, and the operations here do not call each other in a circle. `accept` and `cleanup` of a
-- kernel backend are functions of its driver.
pub mod Enter
pub mod Queue
pub mod Orphan
pub mod Deliver
pub mod Refuse
use camellia.Base.{
  is_empty, ℕ, ◌+◌, ◌-◌, ◌/◌, ◌%◌, List, [], ◌∷◌, ◌++◌, Bool, true, false, ◌&&◌, ◌||◌, not, Option,
  none, some, Outcome, done, panic, ltb, leb, ◌==◌, if◌then◌else◌, ℤ, pos, negsuc, neg, is_neg, min,
  through_int,
}
use camellia.Kernel.Errno.{einval, epipe}
use camellia.Kernel.State.{
  ProcState, running, waits4fs, waits4request, VfsOp, open_op, read_op, fs_req, Proc, Handle,
  Backend, Req, Kernel, M, pure, ◌>>=◌, ◌>>◌, check, skip, alloc, free_buffer, proc, handle,
  backend_at, req_at, set_proc, set_handle, set_backend, set_req, save_return,
}
use camellia.Kernel.Pcpy.{Pcpy, UfsRequest, ufs_request_size}
use camellia.Kernel.Proc.{set_state}
use camellia.Kernel.Table.{init_handle}

-- what a driver does with its backend
pub record Driver : Type 0 where
  -- kern.accept: the backend and the request
  pub accept : (b r : ℕ) → M (Unit {0})
  -- kern.cleanup
  pub cleanup : ℕ → M (Unit {0})

abbrev pub is_open : VfsOp → Bool
is_open open_op = true
is_open _ = false

abbrev pub is_read : VfsOp → Bool
is_read read_op = true
is_read _ = false

abbrev pub on_fs : ProcState → Bool
on_fs waits4fs = true
on_fs _ = false

abbrev pub on_request : ProcState → Bool
on_request waits4request = true
on_request _ = false

-- `flags & OPEN_WRITE`, `flags & OPEN_CREATE`
abbrev pub has_write : ℕ → Bool
has_write flags = (flags / 2 % 2) == 1

abbrev pub has_create : ℕ → Bool
has_create flags = (flags / 4 % 2) == 1

-- OPEN_READABLE
abbrev pub is_readable : ℕ → Bool
is_readable flags = not ((flags % 4) == 2)

-- a file may not be created by an open that is not for writing
abbrev pub is_refused : Req → Bool
is_refused q = is_open q.op && (not (has_write q.flags) && has_create q.flags)

-- `(size_t)ret <= max` for a result that is not negative
abbrev pub at_most : ℤ → ℕ → Bool
at_most (pos n) max = leb n max
at_most (negsuc n) max = true

-- the last `if` of `vfs_backend_refdown`
unfoldable pub free_unused : ℕ → M (Unit {0})
free_unused b = do
  x ← backend_at b
  if (x.usehcnt == 0) && (x.provhcnt == 0)
      then (do check (is_empty x.queue); set_backend b (record x { allocated = false }))
      else skip

-- the handler of a backend that nobody uses any more
unfoldable pub dismiss : ℕ → Option ℕ → M (Unit {0})
dismiss b none = skip
dismiss b (some p) = do
  x ← backend_at b
  set_backend b (record x { handler = none })
  h ← proc p
  check (on_request h.state)
  save_return p (neg epipe)
  set_state p running

-- the caller of a finished request, or its memory
unfoldable pub resume : ℕ → ℤ → Option ℕ → M (Unit {0})
resume r ret (some p) = do x ← proc p; check (on_fs x.state); save_return p ret; set_state p running
resume r ret none = do q ← req_at r; set_req r (record q { allocated = false })

module _ (driver : Driver) where
  unfoldable pub last_use : ℕ → Backend → M (Unit {0})
  last_use b x =
      if x.is_user then dismiss b x.handler else if x.has_cleanup then driver.cleanup b else skip

  -- vfs_backend_refdown(b, true)
  unfoldable pub refdown_use : ℕ → M (Unit {0})
  refdown_use b = do
    x ← backend_at b
    check (ltb 0 x.usehcnt)
    set_backend b (record x { usehcnt = x.usehcnt - 1 })
    if (x.usehcnt - 1) == 0 then last_use b x else skip
    free_unused b

  unfoldable pub refdown_of : Option ℕ → M (Unit {0})
  refdown_of none = skip
  refdown_of (some b) = refdown_use b

  -- `vfsreq_finish` behind the handling of an opened file
  unfoldable pub finish_rest : ℕ → ℤ → M (Unit {0})
  finish_rest r ret = do
    q ← req_at r
    check (not (is_read q.op) || at_most ret q.out_len)
    if q.in_kern then free_buffer q.in_buf else skip
    refdown_of q.backend
    resume r ret q.caller

  -- the loop of `vfs_backend_refdown` over the queue
  unfoldable pub fail_all : List ℕ → M (Unit {0})
  fail_all [] = skip
  fail_all (r ∷ rs) = do finish_rest r (neg 1); fail_all rs

  unfoldable pub orphan : ℕ → M (Unit {0})
  orphan b = do
    x ← backend_at b
    fail_all x.queue
    y ← backend_at b
    set_backend b (record y { queue = [] })

  -- vfs_backend_refdown(b, false)
  unfoldable pub refdown_prov : ℕ → M (Unit {0})
  refdown_prov b = do
    x ← backend_at b
    check (ltb 0 x.provhcnt)
    set_backend b (record x { provhcnt = x.provhcnt - 1 })
    if (x.provhcnt - 1) == 0 then orphan b else skip
    free_unused b

  module _ (copy : Pcpy) where
    -- the input of a request, copied to the buffer of the handler `p`: its length
    unfoldable pub copy_input : (q : Req) (p : Proc) → M ℕ
    copy_input q p k =
        let len = through_int (min q.in_len p.req_max_len) in
        if q.in_buf == 0
        then done (through_int q.out_len, k)
        else if q.in_kern
        then done (len, record k { mem = (copy.to k.mem p.pages p.req_buf q.in_buf len).1 })
        else elim q.caller [
          | none ↦ panic
          | some c ↦
              let (n, mem) = copy.bi k.mem p.pages p.req_buf ((k.procs c).pages) q.in_buf len in
              done (through_int n, record k { mem = mem })
        ]

    abbrev pub response : Req → ℕ → UfsRequest
    response q len = record {
      op = q.op;
      len = len;
      capacity = q.out_len;
      id = q.id;
      offset = q.offset;
      flags = q.flags;
    }

    unfoldable pub send_request : Proc → UfsRequest → M (Unit {0})
    send_request p res k =
        let (n, mem) = copy.send k.mem p.pages p.req_res res in
        check (leb ufs_request_size n) (record k { mem = mem })

    -- the new handle in the handler's table, and the handler's result
    unfoldable pub hand_over : (b r p : ℕ) → Option (ℕ × ℕ) → M (Unit {0})
    hand_over b r p none = λ k. panic
    hand_over b r p (some (hid, h)) = do
      v ← handle h
      set_handle h (record v { req = some r })
      set_state p running
      save_return p (pos hid)
      y ← backend_at b
      set_backend b (record y { handler = none })

    -- vfs_backend_user_accept
    unfoldable pub user_accept : (b r p : ℕ) → M (Unit {0})
    user_accept b r p = do
      q ← req_at r
      x ← proc p
      check (on_request x.state)
      len ← copy_input q x
      send_request x (response q len)
      new ← init_handle p fs_req
      hand_over b r p new

    unfoldable pub accept_user :
        (b : ℕ) (x : Backend) (r : ℕ) (rs : List ℕ) → Option ℕ → M (Unit {0})
    accept_user b x r rs none = skip
    accept_user b x r rs (some p) = do set_backend b (record x { queue = rs }); user_accept b r p

    unfoldable pub accept_kern : (b : ℕ) (x : Backend) (r : ℕ) (rs : List ℕ) → M (Unit {0})
    accept_kern b x r rs = do
      set_backend b (record x { queue = rs })
      check x.has_accept
      driver.accept b r

    unfoldable pub try_queue : ℕ → Backend → List ℕ → M (Unit {0})
    try_queue b x [] = skip
    try_queue b x (r ∷ rs) =
        if x.is_user then accept_user b x r rs x.handler else accept_kern b x r rs

    unfoldable pub try_accept : ℕ → M (Unit {0})
    try_accept b = do x ← backend_at b; try_queue b x x.queue

    -- the request that the process `p` makes; `x` is the process
    unfoldable pub own_slot : (p : ℕ) → Proc → Option ℕ → M ℕ
    own_slot p x (some r) = pure r
    own_slot p x none = do r ← alloc; set_proc p (record x { reqslot = some r }); pure r

    -- the storage of a new request
    unfoldable pub request_slot : Option ℕ → M ℕ
    request_slot none = alloc
    request_slot (some p) = do set_state p waits4fs; x ← proc p; own_slot p x x.reqslot

    unfoldable pub count_use : Option ℕ → M (Unit {0})
    count_use none = skip
    count_use (some b) = do
      x ← backend_at b
      check (ltb 0 x.usehcnt)
      set_backend b (record x { usehcnt = x.usehcnt + 1 })

    unfoldable pub enqueue : (b r : ℕ) → M (Unit {0})
    enqueue b r = do
      x ← backend_at b
      set_backend b (record x { queue = x.queue ++ (r ∷ []) })
      try_accept b

    unfoldable pub dispatch : (r : ℕ) → Option ℕ → M (Unit {0})
    dispatch r none = finish_rest r (neg 1)
    dispatch r (some b) = do
      x ← backend_at b
      if ltb 0 x.provhcnt then enqueue b r else finish_rest r (neg 1)

    unfoldable pub settle : Req → ℕ → (refused : Bool) → M (Unit {0})
    settle q r true = finish_rest r (neg einval)
    settle q r false = dispatch r q.backend

    unfoldable pub submit : Req → ℕ → M (Unit {0})
    submit q r = do
      set_req r (record q { allocated = true })
      count_use q.backend
      settle q r (is_refused q)

    -- vfsreq_create
    unfoldable pub create : Req → M (Unit {0})
    create q = do r ← request_slot q.caller; submit q r
