-- ===== src/Kernel/Table.antt =====
-- The handle tables of src/kernel/proc.c, without the operations that close a handle (those are
-- in Kernel/Handle.antt), and `handle_init`.
pub mod Free
use camellia.Base.{
  ℕ, zero, suc, ◌-◌, List, Option, none, some, Outcome, done, ℤ, pos, negsuc, ltb, if◌then◌else◌,
  get_or, set, Bool, true, false, ◌+◌, [],
}
use camellia.Kernel.State.{
  HandleType, Handle, Proc, Kernel, M, pure, ◌>>=◌, ◌>>◌, alloc, proc, handle, set_handle, update,
}

-- HANDLE_MAX
abbrev pub handle_max : ℕ
handle_max = 16

-- the address of the static handle that HANDLE_NULLFS names
abbrev pub nullfs : ℕ
nullfs = 0

-- a table, as it looks to the kernel: `_handles` points to HANDLE_MAX entries
abbrev pub Table : Type 0
Table = List (Option ℕ)

abbrev pub table : ℕ → M Table
table p k = done (k.tables ((k.procs p).handles), k)

-- `p->_handles[hid] = h`
abbrev pub set_entry : ℕ → ℕ → Option ℕ → M (Unit {0})
set_entry p hid h k =
    let t = (k.procs p).handles in
    done (tt, record k { tables = update k.tables t (set (k.tables t) hid h) })

-- the loop of `proc_find_free_handle` with `n` entries to go
unfoldable pub free_from : Table → (n hid : ℕ) → Option ℕ
free_from t zero hid = none
free_from t (suc n) hid = elim (get_or t hid none) [
  | none ↦ some hid
  | some h ↦ free_from t n (suc hid)
]

-- `none` is the result -1
unfoldable pub find_free_handle : Table → ℤ → Option ℕ
find_free_handle t (pos n) = free_from t (handle_max - n) n
find_free_handle t (negsuc n) = free_from t handle_max 0

unfoldable pub handle_get : Table → ℤ → Option ℕ
handle_get t (pos n) = if ltb n handle_max then get_or t n none else none
handle_get t (negsuc (suc zero)) = some nullfs
handle_get t (negsuc n) = none

abbrev pub blank : HandleType → Handle
blank type = record {
  type = type;
  backend = none;
  file_id = 0;
  readable = false;
  writeable = false;
  req = none;
  queued = [];
  sister = none;
  refcount = 1;
}

unfoldable pub handle_init : HandleType → M ℕ
handle_init type = do h ← alloc; set_handle h (blank type); pure h

unfoldable pub init_at : ℕ → HandleType → Option ℕ → M (Option (ℕ × ℕ))
init_at p type none = pure none
init_at p type (some hid) = do h ← handle_init type; set_entry p hid (some h); pure (some (hid, h))

-- `proc_handle_init`: the number and the handle; `none` is the result -1
unfoldable pub init_handle : ℕ → HandleType → M (Option (ℕ × ℕ))
init_handle p type = do t ← table p; init_at p type (find_free_handle t (pos 1))

unfoldable pub hid_take : ℕ → ℤ → M (Option ℕ)
hid_take p (pos n) = do
  t ← table p
  if ltb n handle_max
      then (do set_entry p n none; pure (get_or t n none))
      else pure (handle_get t (pos n))
hid_take p (negsuc n) = do t ← table p; pure (handle_get t (negsuc n))
