-- ===== src/Kernel/Handle.antt =====
-- src/kernel/handle.c, the operations of src/kernel/proc.c that close a handle, and all of
-- `vfsreq_finish` of src/kernel/vfs/request.c.
pub mod PutTake
pub mod Dup
use camellia.Base.{
  is_empty, ℕ, ◌+◌, ◌-◌, ◌%◌, List, [], ◌∷◌, Bool, true, false, ◌&&◌, ◌||◌, not, Option, none, some,
  Outcome, done, panic, ltb, leb, ◌==◌, if◌then◌else◌, ℤ, pos, negsuc, neg, is_neg, get_or,
}
use camellia.Kernel.Errno.{ebadf, emfile}
use camellia.Kernel.State.{
  HandleType, invalid, file, pipe, fs_front, fs_req, close_op, Handle, Backend, Req, Kernel, M,
  pure, ◌>>=◌, ◌>>◌, check, skip, handle, backend_at, req_at, set_handle, set_backend,
}
use camellia.Kernel.Pcpy.{Pcpy}
use camellia.Kernel.Pipe.{invalidate_end}
use camellia.Kernel.Table.{
  handle_max, Table, table, set_entry, find_free_handle, handle_get, handle_init, hid_take,
}
use camellia.Kernel.Request.{
  Driver, is_open, has_write, is_readable, refdown_of, finish_rest, create,
}

abbrev pub close_request : Handle → Req
close_request v = record {
  op = close_op;
  in_kern = false;
  in_buf = 0;
  in_len = 0;
  out_buf = 0;
  out_len = 0;
  id = v.file_id;
  offset = pos 0;
  flags = 0;
  caller = none;
  backend = v.backend;
  allocated = true;
}

-- the other end of a pipe whose end is gone
unfoldable pub sever : Option ℕ → M (Unit {0})
sever none = skip
sever (some s) = do invalidate_end s; w ← handle s; set_handle s (record w { sister = none })

-- one reference more
unfoldable pub retain : Option ℕ → M (Unit {0})
retain none = skip
retain (some h) = do v ← handle h; set_handle h (record v { refcount = v.refcount + 1 })

module _ (driver : Driver) (copy : Pcpy) where
  unfoldable pub fail_request : Option ℕ → M (Unit {0})
  fail_request none = skip
  fail_request (some r) = finish_rest driver r (neg 1)

  -- what a handle does when its last reference goes
  unfoldable pub release : HandleType → Handle → M (Unit {0})
  release file v = create driver copy (close_request v)
  release pipe v = do check (is_empty v.queued); sever v.sister
  release fs_req v = fail_request v.req
  release _ v = skip

  unfoldable pub last_close : (h : ℕ) → Handle → M (Unit {0})
  last_close h v = do
    release v.type v
    refdown_of driver v.backend
    w ← handle h
    set_handle h (record w { type = invalid })

  unfoldable pub close : ℕ → M (Unit {0})
  close h = do
    v ← handle h
    check (ltb 0 v.refcount)
    set_handle h (record v { refcount = v.refcount - 1 })
    if ltb 0 (v.refcount - 1) then skip else last_close h (record v { refcount = v.refcount - 1 })

  unfoldable pub close_entry : Option ℕ → M (Unit {0})
  close_entry none = skip
  close_entry (some h) = close h

  -- the number that `proc_handle_dup` copies to, or its error
  unfoldable pub dup_target : Table → ℤ → (search : Bool) → ℤ
  dup_target t to search =
      if is_neg to || search
      then elim (find_free_handle t to) [ none ↦ neg emfile | some n ↦ pos n ]
      else elim to [ pos n ↦ if leb handle_max n then neg ebadf else pos n | negsuc n ↦ negsuc n ]

  abbrev pub same : ℕ → ℤ → Bool
  same n (pos m) = n == m
  same n (negsuc m) = false

  unfoldable pub dup_onto : (p : ℕ) (from : ℤ) → ℤ → M ℤ
  dup_onto p from (negsuc n) = pure (negsuc n)
  dup_onto p from (pos n) = if same n from then pure (pos n) else (do
    t ← table p
    close_entry (get_or t n none)
    set_entry p n (handle_get t from)
    retain (handle_get t from)
    pure (pos n))

  unfoldable pub handle_dup : (p : ℕ) (from to : ℤ) (search : Bool) → M ℤ
  handle_dup p from to search = do t ← table p; dup_onto p from (dup_target t to search)

  -- proc_handle_close
  unfoldable pub handle_close : (p : ℕ) (hid : ℤ) → M ℤ
  handle_close p hid = handle_dup p (neg 1) hid false

  -- the result -1 when the table is full
  unfoldable pub put_at : (p h : ℕ) → Option ℕ → M ℤ
  put_at p h none = do close h; pure (neg 1)
  put_at p h (some hid) = do set_entry p hid (some h); pure (pos hid)

  unfoldable pub handle_put : (p h : ℕ) → M ℤ
  handle_put p h = do t ← table p; put_at p h (find_free_handle t (pos 1))

  -- the handle of a file that was opened: a new one, or one of the handler's own
  unfoldable pub opened_handle :
      (q : Req) (stored : ℕ) (ret : ℤ) (delegate : Bool) (handler : Option ℕ) → M (Option ℕ)
  opened_handle q stored ret true none = λ k. panic
  opened_handle q stored ret true (some p) = hid_take p ret
  opened_handle q stored ret false handler = elim q.backend [
    | none ↦ λ k. panic
    | some b ↦ do
      h ← handle_init file
      x ← backend_at b
      set_backend b (record x { usehcnt = x.usehcnt + 1 })
      v ← handle h
      set_handle h (record v {
        backend = some b;
        file_id = stored;
        readable = is_readable q.flags;
        writeable = has_write q.flags;
      })
      pure (some h)
  ]

  unfoldable pub give : (caller : Option ℕ) (h : Option ℕ) → M ℤ
  give caller none = pure (neg 1)
  give none (some h) = λ k. panic
  give (some c) (some h) = do ret ← handle_put c h; pure (if is_neg ret then neg emfile else ret)

  unfoldable pub open_result : (r stored : ℕ) (ret : ℤ) (delegate : Bool) (handler : Option ℕ) → M ℤ
  open_result r stored ret delegate handler = do
    q ← req_at r
    if is_open q.op && not (is_neg ret)
        then (do h ← opened_handle q stored ret delegate handler; give q.caller h)
        else pure ret

  -- vfsreq_finish
  unfoldable pub finish :
      (r stored : ℕ) (ret : ℤ) (delegate : Bool) (handler : Option ℕ) → M (Unit {0})
  finish r stored ret delegate handler = do
    ret' ← open_result r stored ret delegate handler
    finish_rest driver r ret'
