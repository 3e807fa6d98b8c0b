-- ===== src/Kernel/Syscalls/Files.antt =====
-- The system calls on paths, files and handles.
pub mod Refusal
mod Tests
use camellia.Base.{
  ℕ, zero, suc, ◌+◌, ◌-◌, ◌/◌, ◌%◌, ◌^◌, List, [], ◌∷◌, ◌++◌, map, drop, Bool, true, false, ◌&&◌,
  ◌||◌, not, Option, none, some, Outcome, done, panic, ltb, leb, ◌==◌, if◌then◌else◌, length,
  is_empty, ℤ, pos, negsuc, neg, is_neg, min, through_int,
}
use camellia.Libk.Path
use camellia.Kernel.Errno.{ebadf, emfile, enosys, eacces, epipe}
use camellia.Kernel.State.{
  ProcState, running, waits4request, HandleType, file, pipe, fs_front, fs_req, invalid, VfsOp,
  open_op, read_op, write_op, getsize_op, remove_op, Proc, Handle, Backend, Req, Mount, Kernel, M,
  pure, ◌>>=◌, ◌>>◌, check, skip, alloc, alloc_buffer, free_buffer, proc, handle, backend_at,
  req_at, set_proc, set_handle, set_backend, set_mount, update,
}
use camellia.Kernel.Pcpy.{Pcpy}
use camellia.Kernel.Proc.{set_state}
use camellia.Kernel.Pipe.{join_queue}
use camellia.Kernel.Table.{init_handle}
use camellia.Kernel.Request.{create, try_accept, is_read}
use camellia.Kernel.Handle.{handle_dup, handle_close, finish}
use camellia.Kernel.Mount.{resolve}
use camellia.Kernel.Syscalls.{Outside, ret, get_handle, is_negative, is_too_long, fetch}

abbrev pub is_file : HandleType → Bool
is_file file = true
is_file _ = false

-- the bytes at an address of kernel memory
unfoldable pub read_bytes : (mem : ℕ → ℕ) (a n : ℕ) → List ℕ
read_bytes mem a zero = []
read_bytes mem a (suc n) = mem a ∷ read_bytes mem (suc a) n

unfoldable pub write_bytes : (mem : ℕ → ℕ) (a : ℕ) → List ℕ → ℕ → ℕ
write_bytes mem a [] = mem
write_bytes mem a (b ∷ bs) = write_bytes (update mem a b) (suc a) bs

abbrev pub store : (a : ℕ) → List ℕ → M (Unit {0})
store a bs k = done (tt, record k { mem = write_bytes k.mem a bs })

-- `path_simplify(buf, buf, len)`; `none` is the result 0
unfoldable pub simplify_at : (buf len : ℕ) → M (Option (List ℕ))
simplify_at buf len k = elim (Path.simplify (read_bytes k.mem buf len)) [
  | panic ↦ panic
  | done none ↦ done (none, k)
  | done (some path) ↦ done (some path, record k { mem = write_bytes k.mem buf path })
]

-- the path that a system call is given, simplified, in the kernel buffer `buf`
unfoldable pub fetch_path : Pcpy → (cur buf path len : ℕ) → M (Option (List ℕ))
fetch_path copy cur buf path len = do
  n ← fetch copy cur buf path len
  if ltb n len then pure none else simplify_at buf len

-- the label `fail` of `_sys_open` and `_sys_mount`
unfoldable pub fail_path : (cur buf : ℕ) → M (Unit {0})
fail_path cur buf = do free_buffer buf; ret cur (neg 1)

-- the mount that a path is under, of the caller's
unfoldable pub find_mount : (cur : ℕ) → List ℕ → M (Option Mount)
find_mount cur path k = done (resolve (map k.mounts ((k.procs cur).mounts)) path, k)

-- the operations of `simple_vfsop`
abbrev pub is_simple : VfsOp → Bool
is_simple read_op = true
is_simple write_op = true
is_simple getsize_op = true
is_simple _ = false

module _ (o : Outside) (cur : ℕ) where
  -- the request of `_sys_open`, with the prefix of the mount taken off
  unfoldable pub open_at : (buf flags : ℕ) → (path : List ℕ) → Option Mount → M (Unit {0})
  open_at buf flags path none = fail_path cur buf
  open_at buf flags path (some m) = do
    let rest = drop (length m.prefix) path
    if is_empty m.prefix then skip else store buf rest
    create o.driver o.copy (record {
      op = open_op;
      in_kern = true;
      in_buf = buf;
      in_len = length rest;
      out_buf = 0;
      out_len = 0;
      id = 0;
      offset = pos 0;
      flags = flags;
      caller = some cur;
      backend = m.backend;
      allocated = true;
    })

  unfoldable pub open_path : (buf flags : ℕ) → Option (List ℕ) → M (Unit {0})
  open_path buf flags none = fail_path cur buf
  open_path buf flags (some path) = do m ← find_mount cur path; open_at buf flags path m

  -- _sys_open
  unfoldable pub sys_open : (path len flags : ℕ) → M (Unit {0})
  sys_open path len flags =
      if not (flags / 8 == 0)
      then ret cur (neg enosys)
      else if is_too_long len
      then ret cur (neg 1)
      else (do buf ← alloc_buffer; p ← fetch_path o.copy cur buf path len; open_path buf flags p)

  -- _sys_dup; `search` is `flags & DUP_SEARCH`
  unfoldable pub sys_dup : (from to : ℤ) (search : Bool) → M (Unit {0})
  sys_dup from to search = do r ← handle_dup o.driver o.copy cur from to search; ret cur r

  -- the request of `simple_vfsop`
  abbrev pub file_request : VfsOp → Handle → (buf len : ℕ) (offset : ℤ) (flags : ℕ) → Req
  file_request op v buf len offset flags =
      let base : Req = record {
        op = op;
        in_kern = false;
        in_buf = 0;
        in_len = 0;
        out_buf = 0;
        out_len = 0;
        id = v.file_id;
        offset = offset;
        flags = flags;
        caller = some cur;
        backend = v.backend;
        allocated = true;
      } in
      elim op [
        | read_op ↦ record base { out_buf = buf; out_len = len }
        | write_op ↦ record base { in_buf = buf; in_len = len }
        | _ ↦ base
      ]

  unfoldable pub vfsop_on :
      HandleType → VfsOp → (h : ℕ) → Handle → (buf len : ℕ) (offset : ℤ) (flags : ℕ) → M (Unit {0})
  vfsop_on file op h v buf len offset flags =
      create o.driver o.copy (file_request op v buf len offset flags)
  vfsop_on pipe read_op h v buf len offset flags = join_queue o.copy h cur buf len
  vfsop_on pipe write_op h v buf len offset flags = join_queue o.copy h cur buf len
  vfsop_on _ op h v buf len offset flags = ret cur (neg enosys)

  -- the tests of `simple_vfsop` on the handle: an operation that it does not allow
  abbrev pub is_denied : VfsOp → Handle → Bool
  is_denied read_op v = not v.readable
  is_denied write_op v = not v.writeable
  is_denied _ v = false

  unfoldable pub vfsop_handle :
      VfsOp → Option ℕ → (buf len : ℕ) (offset : ℤ) (flags : ℕ) → M (Unit {0})
  vfsop_handle op none buf len offset flags = ret cur (neg ebadf)
  vfsop_handle op (some h) buf len offset flags = do
    v ← handle h
    if is_denied op v then ret cur (neg eacces) else vfsop_on v.type op h v buf len offset flags

  unfoldable pub simple_vfsop :
      VfsOp → (hid : ℤ) (buf len : ℕ) (offset : ℤ) (flags : ℕ) → M (Unit {0})
  simple_vfsop op hid buf len offset flags = do
    check (is_simple op)
    h ← get_handle cur hid
    vfsop_handle op h buf len offset flags

  -- _sys_read
  unfoldable pub sys_read : (hid : ℤ) (buf len : ℕ) (offset : ℤ) → M (Unit {0})
  sys_read hid buf len offset = simple_vfsop read_op hid buf len offset 0

  -- _sys_write
  unfoldable pub sys_write : (hid : ℤ) (buf len : ℕ) (offset : ℤ) (flags : ℕ) → M (Unit {0})
  sys_write hid buf len offset flags =
      if flags / 2 == 0
      then simple_vfsop write_op hid buf len offset flags
      else ret cur (neg enosys)

  -- _sys_getsize
  unfoldable pub sys_getsize : (hid : ℤ) → M (Unit {0})
  sys_getsize hid = simple_vfsop getsize_op hid 0 0 (pos 0) 0

  unfoldable pub close_and : (hid : ℤ) → M (Unit {0}) → M (Unit {0})
  close_and hid m = do r ← handle_close o.driver o.copy cur hid; m

  unfoldable pub remove_handle : (hid : ℤ) → Option ℕ → M (Unit {0})
  remove_handle hid none = ret cur (neg ebadf)
  remove_handle hid (some h) = do
    v ← handle h
    if not (is_file v.type)
        then close_and hid (ret cur (neg enosys))
        else if not v.writeable
        then close_and hid (ret cur (neg eacces))
        else (do
          create o.driver o.copy (file_request remove_op v 0 0 (pos 0) 0)
          close_and hid skip)

  -- _sys_remove
  unfoldable pub sys_remove : (hid : ℤ) → M (Unit {0})
  sys_remove hid = do h ← get_handle cur hid; remove_handle hid h

  unfoldable pub close_handle : (hid : ℤ) → Option ℕ → M (Unit {0})
  close_handle hid none = ret cur (neg ebadf)
  close_handle hid (some h) = close_and hid (ret cur (pos 0))

  -- _sys_close
  unfoldable pub sys_close : (hid : ℤ) → M (Unit {0})
  sys_close hid = do h ← get_handle cur hid; close_handle hid h
