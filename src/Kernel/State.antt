-- ===== src/Kernel/State.antt =====
-- The objects of the kernel (proc.h, handle.h, vfs/request.h), each at an address, and the monad
-- of kernel code. A pointer is an address, or `none` for NULL; the storage of each kind of object
-- is a function from addresses. A queue that the source threads through its members (`queued` by
-- `waits4pipe.next`, `queue` by `queue_next`) is the list of its members, first one first.
-- An allocation takes the address `next`, which is then never given out again.
use camellia.Base.{
  ℕ, ◌+◌, List, [], Bool, true, false, Option, none, Outcome, done, panic, ◌==◌, if◌then◌else◌, ℤ,
  pos,
}

-- enum proc_state
pub data ProcState : Type 0 where
  running dying toreap tombstone deadleaf freed : ProcState
  waits4childdeath waits4fs waits4request waits4pipe waits4timer : ProcState

-- enum handle_type
pub data HandleType : Type 0 where
  invalid file pipe fs_front fs_req : HandleType

-- enum vfs_op
pub data VfsOp : Type 0 where
  open_op read_op write_op getsize_op remove_op close_op : VfsOp

-- the member `execbuf` of a process where its `buf` is not NULL
pub record ExecBuf : Type 0 where
  pub buf : ℕ
  pub len : ℕ
  pub pos : ℕ

-- struct Proc, without `refcount`, which is never written. `children` are the processes that
-- `child` and the `sibling` of each lead to. `pages` is the page directory, `handles` the table that
-- `_handles` points to (0 for NULL), `mounts` the mounts that `mount` and the `prev` of each lead to,
-- and the two reference counts are at addresses of `counters`. The members of the union are apart,
-- and those of a sleeping process are in `Kernel`. An address in user space is 0 for NULL.
pub record Proc : Type 0 where
  pub state : ProcState
  pub rax : ℤ
  pub rcx : ℕ
  pub rsp : ℕ
  pub parent : Option ℕ
  pub children : List ℕ
  pub pages : Option ℕ
  pub pages_refcount : Option ℕ
  pub handles : ℕ
  pub handles_refcount : Option ℕ
  pub mounts : List ℕ
  pub globalid : ℕ
  pub noreap : Bool
  pub pns : ℕ
  pub localid : ℕ
  pub nextlid : ℕ
  pub reqslot : Option ℕ
  pub controlled : Option ℕ
  pub intr_fn : ℕ
  pub execbuf : Option ExecBuf
  pub basetime : ℕ
  pub death_msg : ℤ
  pub awaited_pid : ℕ
  pub awaited_out : ℕ
  pub req_buf : ℕ
  pub req_max_len : ℕ
  pub req_res : ℕ
  pub pipe_end : ℕ
  pub pipe_buf : ℕ
  pub pipe_len : ℕ

-- a process that `kzalloc` gives
abbrev pub blank_proc : Proc
blank_proc = record {
  state = running;
  rax = pos 0;
  rcx = 0;
  rsp = 0;
  parent = none;
  children = [];
  pages = none;
  pages_refcount = none;
  handles = 0;
  handles_refcount = none;
  mounts = [];
  globalid = 0;
  noreap = false;
  pns = 0;
  localid = 0;
  nextlid = 0;
  reqslot = none;
  controlled = none;
  intr_fn = 0;
  execbuf = none;
  basetime = 0;
  death_msg = pos 0;
  awaited_pid = 0;
  awaited_out = 0;
  req_buf = 0;
  req_max_len = 0;
  req_res = 0;
  pipe_end = 0;
  pipe_buf = 0;
  pipe_len = 0;
}

-- struct Handle
pub record Handle : Type 0 where
  pub type : HandleType
  pub backend : Option ℕ
  pub file_id : ℕ
  pub readable : Bool
  pub writeable : Bool
  pub req : Option ℕ
  pub queued : List ℕ
  pub sister : Option ℕ
  pub refcount : ℕ

-- struct VfsBackend. `handler` is `user.handler`; the functions `kern.accept` and
-- `kern.cleanup` are the driver's, here is only whether they are set.
pub record Backend : Type 0 where
  pub usehcnt : ℕ
  pub provhcnt : ℕ
  pub queue : List ℕ
  pub is_user : Bool
  pub handler : Option ℕ
  pub has_accept : Bool
  pub has_cleanup : Bool
  pub allocated : Bool

-- struct VfsReq
pub record Req : Type 0 where
  pub op : VfsOp
  pub in_kern : Bool
  pub in_buf : ℕ
  pub in_len : ℕ
  pub out_buf : ℕ
  pub out_len : ℕ
  pub id : ℕ
  pub offset : ℤ
  pub flags : ℕ
  pub caller : Option ℕ
  pub backend : Option ℕ
  pub allocated : Bool

-- struct VfsMount, without `prev`: a chain of mounts is the list of its members. The prefix is the
-- list of its bytes, `prefix[0 .. prefix_len)`.
pub record Mount : Type 0 where
  pub prefix : List ℕ
  pub prefix_owned : Bool
  pub backend : Option ℕ
  pub refs : ℕ

-- `tables` are the handle tables of the processes, `mem` is physical memory, `buffers` says which
-- kernel buffers (such as `input.buf_kern`) are allocated, and `counters` are the reference counts of
-- shared tables and page directories. `scheduled` is the queue of sleeping processes, each with the
-- `goal` of its sleep, and `alarm` the comparator of the timer. `mount_root` is the
-- variable of mount.c, and `dead_leaves`, `first` (`proc_first`) and `next_pid` are those of proc.c.
pub record Kernel : Type 0 where
  pub procs : ℕ → Proc
  pub handles : ℕ → Handle
  pub tables : ℕ → List (Option ℕ)
  pub backends : ℕ → Backend
  pub reqs : ℕ → Req
  pub mounts : ℕ → Mount
  pub mount_root : List ℕ
  pub counters : ℕ → ℕ
  pub mem : ℕ → ℕ
  pub buffers : ℕ → Bool
  pub goal : ℕ → ℕ
  pub scheduled : List ℕ
  pub alarm : Option ℕ
  pub dead_leaves : List ℕ
  pub first : Option ℕ
  pub next_pid : ℕ
  pub next : ℕ

abbrev pub update {ℓ} : {A : Type ℓ} → (ℕ → A) → ℕ → A → ℕ → A
update f p v q = if p == q then v else f q

-- Kernel code: `panic` is a failed assertion.
abbrev pub M : Type 0 → Type 0
M A = Kernel → Outcome (A × Kernel)

abbrev pub pure : {A : Type 0} → A → M A
pure a k = done (a, k)

infixl 5 ◌>>=◌ ◌>>◌
abbrev pub ◌>>=◌ : {A B : Type 0} → M A → (A → M B) → M B
◌>>=◌ m f k = elim (m k) [ panic ↦ panic | done (a, k') ↦ f a k' ]

abbrev pub ◌>>◌ : {B : Type 0} → M (Unit {0}) → M B → M B
m >> n = m >>= λ _. n

abbrev pub check : Bool → M (Unit {0})
check true k = done (tt, k)
check false k = panic

abbrev pub skip : M (Unit {0})
skip = pure tt

module _ (p : ℕ) where
  abbrev pub proc : M Proc
  proc k = done (k.procs p, k)

  abbrev pub handle : M Handle
  handle k = done (k.handles p, k)

  abbrev pub backend_at : M Backend
  backend_at k = done (k.backends p, k)

  abbrev pub req_at : M Req
  req_at k = done (k.reqs p, k)

  abbrev pub mount_at : M Mount
  mount_at k = done (k.mounts p, k)

  abbrev pub counter : M ℕ
  counter k = done (k.counters p, k)

  abbrev pub set_mount : Mount → M (Unit {0})
  set_mount v k = done (tt, record k { mounts = update k.mounts p v })

  abbrev pub set_counter : ℕ → M (Unit {0})
  set_counter v k = done (tt, record k { counters = update k.counters p v })

  abbrev pub set_proc : Proc → M (Unit {0})
  set_proc v k = done (tt, record k { procs = update k.procs p v })

  abbrev pub set_handle : Handle → M (Unit {0})
  set_handle v k = done (tt, record k { handles = update k.handles p v })

  abbrev pub set_backend : Backend → M (Unit {0})
  set_backend v k = done (tt, record k { backends = update k.backends p v })

  abbrev pub set_req : Req → M (Unit {0})
  set_req v k = done (tt, record k { reqs = update k.reqs p v })

-- an address for a new object
abbrev pub alloc : M ℕ
alloc k = done (k.next, record k { next = k.next + 1 })

-- `kmalloc` of a kernel buffer
abbrev pub alloc_buffer : M ℕ
alloc_buffer k =
    done (k.next, record k { next = k.next + 1; buffers = update k.buffers k.next true })

-- `kfree` of a kernel buffer
abbrev pub free_buffer : ℕ → M (Unit {0})
free_buffer a k = done (tt, record k { buffers = update k.buffers a false })

-- regs_savereturn(&p->regs, value)
abbrev pub save_return : ℕ → ℤ → M (Unit {0})
save_return p value k =
    done (tt, record k { procs = update k.procs p (record (k.procs p) { rax = value }) })
