-- ===== src/Kernel/Syscalls/Servers.antt =====
-- The system calls of file systems: mounts and the servers of requests.
pub mod Mounted
mod Tests
use camellia.Base.{
  ℕ, zero, suc, ◌+◌, ◌-◌, ◌/◌, ◌%◌, ◌^◌, List, [], ◌∷◌, ◌++◌, map, drop, Bool, true, false, ◌&&◌,
  ◌||◌, not, Option, none, some, Outcome, done, panic, ltb, leb, ◌==◌, if◌then◌else◌, length,
  is_empty, ℤ, pos, negsuc, neg, is_neg, min, through_int,
}
use camellia.Kernel.Errno.{ebadf, emfile, enosys, eacces, epipe}
use camellia.Kernel.State.{
  ProcState, running, waits4request, HandleType, file, pipe, fs_front, fs_req, invalid, VfsOp,
  open_op, read_op, write_op, getsize_op, remove_op, Proc, Handle, Backend, Req, Mount, Kernel, M,
  pure, ◌>>=◌, ◌>>◌, check, skip, alloc, alloc_buffer, free_buffer, proc, handle, backend_at,
  req_at, set_proc, set_handle, set_backend, set_mount, update,
}
use camellia.Kernel.Pcpy.{Pcpy}
use camellia.Kernel.Proc.{set_state}
use camellia.Kernel.Pipe.{join_queue}
use camellia.Kernel.Table.{init_handle}
use camellia.Kernel.Request.{create, try_accept, is_read}
use camellia.Kernel.Handle.{handle_dup, handle_close, finish}
use camellia.Kernel.Mount.{resolve}
use camellia.Kernel.Syscalls.{Outside, ret, get_handle, is_negative, is_too_long, fetch}
use camellia.Kernel.Syscalls.Files.{fetch_path, fail_path, close_and, is_file}

abbrev pub is_fs_front : HandleType → Bool
is_fs_front fs_front = true
is_fs_front _ = false

abbrev pub is_fs_req : HandleType → Bool
is_fs_req fs_req = true
is_fs_req _ = false

module _ (o : Outside) (cur : ℕ) where
  -- the prefix of a mount: the path without a slash at its end
  unfoldable pub trim : List ℕ → List ℕ
  trim [] = []
  trim (c ∷ []) = if c == b'/' then [] else c ∷ []
  trim (c ∷ d ∷ s) = c ∷ trim (d ∷ s)

  unfoldable pub use_backend : Option ℕ → M (Unit {0})
  use_backend none = skip
  use_backend (some b) = do
    v ← backend_at b
    check (ltb 0 v.usehcnt)
    set_backend b (record v { usehcnt = v.usehcnt + 1 })

  unfoldable pub mount_front : (buf : ℕ) (prefix : List ℕ) → Handle → M (Unit {0})
  mount_front buf prefix v =
      if is_fs_front v.type
      then (do
        use_backend v.backend
        m ← alloc
        x ← proc cur
        set_mount m (record { prefix = prefix; prefix_owned = true; backend = v.backend; refs = 1 })
        set_proc cur (record x { mounts = m ∷ x.mounts })
        ret cur (pos 0))
      else fail_path cur buf

  unfoldable pub mount_handle : (buf : ℕ) (prefix : List ℕ) → Option ℕ → M (Unit {0})
  mount_handle buf prefix none = fail_path cur buf
  mount_handle buf prefix (some h) = do v ← handle h; mount_front buf prefix v

  unfoldable pub mount_path : (hid : ℤ) (buf : ℕ) → Option (List ℕ) → M (Unit {0})
  mount_path hid buf none = fail_path cur buf
  mount_path hid buf (some path) = do h ← get_handle cur hid; mount_handle buf (trim path) h

  -- _sys_mount
  unfoldable pub sys_mount : (hid : ℤ) (path len : ℕ) → M (Unit {0})
  sys_mount hid path len =
      if is_too_long len
      then ret cur (neg 1)
      else (do buf ← alloc_buffer; p ← fetch_path o.copy cur buf path len; mount_path hid buf p)

  -- the server `cur` starts to wait at its backend
  unfoldable pub wait_at : (b buf max_len res : ℕ) → M (Unit {0})
  wait_at b buf max_len res = do
    set_state cur waits4request
    v ← backend_at b
    elim v.handler [
      | some p ↦ λ k. panic
      | none ↦ do
        set_backend b (record v { handler = some cur })
        x ← proc cur
        set_proc cur (record x { req_buf = buf; req_max_len = max_len; req_res = res })
        try_accept o.driver o.copy b
    ]

  unfoldable pub wait_for : Option ℕ → (buf max_len res : ℕ) → M (Unit {0})
  wait_for none buf max_len res = ret cur (neg 1)
  wait_for (some b) buf max_len res = do
    v ← backend_at b
    if v.usehcnt == 0 then ret cur (neg epipe) else wait_at b buf max_len res

  -- _sys_fs_wait
  unfoldable pub sys_fs_wait : (buf max_len res : ℕ) → M (Unit {0})
  sys_fs_wait buf max_len res = do x ← proc cur; wait_for x.controlled buf max_len res

  -- the result of a request that reads, once its output is copied to its caller
  unfoldable pub respond_read : (q : Req) (buf : ℕ) → ℤ → M ℤ
  respond_read q buf (negsuc n) = pure (negsuc n)
  respond_read q buf (pos zero) = pure (pos zero)
  respond_read q buf (pos (suc n)) =
      if not (is_read q.op) then pure (pos (suc n)) else elim q.caller [
        | none ↦ λ k. panic
        | some c ↦ λ k.
            let cap = q.out_len % 2 ^ 32 in
            let len = min (suc n) (if ltb cap (2 ^ 31) then cap else 2 ^ 31 - 1) in
            let (m, mem) =
              o.copy.bi k.mem ((k.procs c).pages) q.out_buf ((k.procs cur).pages) buf len in
            done (pos m, record k { mem = mem })
      ]

  unfoldable pub respond_to : Option ℕ → (buf : ℕ) (val : ℤ) (delegate : Bool) → M (Unit {0})
  respond_to none buf val delegate = skip
  respond_to (some r) buf val delegate = do
    q ← req_at r
    val' ← respond_read q buf val
    finish o.driver o.copy r buf val' delegate (some cur)

  unfoldable pub respond_handle :
      (hid : ℤ) → Option ℕ → (buf : ℕ) (val : ℤ) (delegate : Bool) → M (Unit {0})
  respond_handle hid none buf val delegate = ret cur (neg ebadf)
  respond_handle hid (some h) buf val delegate = do
    v ← handle h
    if not (is_fs_req v.type) then ret cur (neg ebadf) else (do
      respond_to v.req buf val delegate
      w ← handle h
      set_handle h (record w { req = none })
      close_and o cur hid (ret cur (pos 0)))

  -- _sys_fs_respond; `delegate` is `flags & FSR_DELEGATE`
  unfoldable pub sys_fs_respond : (hid : ℤ) (buf : ℕ) (val : ℤ) (delegate : Bool) → M (Unit {0})
  sys_fs_respond hid buf val delegate = do
    h ← get_handle cur hid
    respond_handle hid h buf val delegate
