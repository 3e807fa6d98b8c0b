-- ===== src/Kernel/Syscalls/Files/Refusal.antt =====
-- The reads, writes and size requests that src/kernel/syscalls.c refuses.
use camellia.Base.{
  ℕ, ◌≡◌, refl, ap, ◌∙◌, Bool, true, false, not, Option, none, some, done, ℤ, neg, if◌then◌else◌,
  Bool-cases, inl, inr, arith,
}
use camellia.Kernel.Errno.{ebadf, eacces, enosys}
use camellia.Kernel.State.{
  running, HandleType, invalid, file, pipe, fs_front, fs_req, VfsOp, open_op, read_op, write_op,
  getsize_op, remove_op, close_op, Handle, Kernel, ◌>>=◌, ◌>>◌, check,
}
use camellia.Kernel.Runs.{with_proc}
use camellia.Kernel.Table.{handle_get}
use camellia.Kernel.Syscalls.{Outside, ret}
use camellia.Kernel.Syscalls.Procs.Wait.{ret_lem}
use camellia.Kernel.Syscalls.Files.{simple_vfsop, vfsop_handle, vfsop_on, is_denied, is_simple}

-- what a handle is open for
unfoldable pub allows : Handle → VfsOp → Bool
allows v read_op = v.readable
allows v write_op = v.writeable
allows v _ = true

-- what a type of handles can do
unfoldable pub can : HandleType → VfsOp → Bool
can file op = true
can pipe getsize_op = false
can pipe op = true
can _ op = false

-- the error of an operation on a handle of the table, if there is one
abbrev pub refusal : VfsOp → Option Handle → Option ℕ
refusal op none = some ebadf
refusal op (some v) =
    if not (allows v op) then some eacces else if not (can v.type op) then some enosys else none

abbrev pub at : Kernel → Option ℕ → Option Handle
at k none = none
at k (some h) = some (k.handles h)

module _ (o : Outside) (cur buf len : ℕ) (offset : ℤ) (flags : ℕ) where
  cannot :
      (type : HandleType) (op : VfsOp) (h : ℕ) (v : Handle)
      → is_simple op ≡ true
      → can type op ≡ false
      → vfsop_on o cur type op h v buf len offset flags ≡ ret cur (neg enosys)
  unfolding can vfsop_on
  cannot file op h v s c = absurd (ground (arith, c))
  cannot pipe read_op h v s c = absurd (ground (arith, c))
  cannot pipe write_op h v s c = absurd (ground (arith, c))
  cannot pipe getsize_op h v s c = refl
  cannot pipe open_op h v s c = absurd (ground (arith, s))
  cannot pipe remove_op h v s c = absurd (ground (arith, s))
  cannot pipe close_op h v s c = absurd (ground (arith, s))
  cannot invalid op h v s c = refl
  cannot fs_front op h v s c = refl
  cannot fs_req op h v s c = refl

  denied_lem : (op : VfsOp) (v : Handle) → is_denied o cur op v ≡ not (allows v op)
  unfolding allows
  denied_lem read_op v = refl
  denied_lem write_op v = refl
  denied_lem getsize_op v = refl
  denied_lem open_op v = refl
  denied_lem remove_op v = refl
  denied_lem close_op v = refl

  handle_refused :
      (op : VfsOp) (oh : Option ℕ) (k : Kernel) (e : ℕ)
      → is_simple op ≡ true
      → refusal op (at k oh) ≡ some e
      → vfsop_handle o cur op oh buf len offset flags k ≡ ret cur (neg e) k
  unfolding vfsop_handle
  handle_refused op none k e s r =
      let same : ebadf ≡ e = ground (arith, r) in ap (λ n. ret cur (neg n) k) same
  handle_refused op (some h) k e s r =
      let v = k.handles h in
      let d = denied_lem op v in
      elim (Bool-cases (allows v op)) [
        | inr closed ↦
            let same : eacces ≡ e = ground (arith, r, closed) in
            let denied : is_denied o cur op v ≡ true = d ∙ ap not closed in
            simp denied (ap (λ n. ret cur (neg n) k) same)
        | inl allowed ↦ elim (Bool-cases (can v.type op)) [
          | inl fine ↦ absurd (ground (arith, r, allowed, fine))
          | inr unable ↦
              let same : enosys ≡ e = ground (arith, r, allowed, unable) in
              let denied : is_denied o cur op v ≡ false = d ∙ ap not allowed in
              let c = cannot v.type op h v s unable in
              simp (denied, c) (ap (λ n. ret cur (neg n) k) same)
        ]
      ]

  -- A read, a write or a request of the size is refused at once if the number is of no handle, the
  -- handle is not open for it, or handles of its type cannot do it: the caller runs on with the
  -- error, and nothing else changes.
  pub simple_vfsop-refused :
      (op : VfsOp) (hid : ℤ) (k : Kernel) (e : ℕ)
      → is_simple op ≡ true
      → (k.procs cur).state ≡ running
      → refusal op (at k (handle_get (k.tables ((k.procs cur).handles)) hid)) ≡ some e
      → simple_vfsop o cur op hid buf len offset flags k
        ≡ done (tt, with_proc k cur (record (k.procs cur) { rax = neg e }))
  unfolding simple_vfsop
  simple_vfsop-refused op hid k e s now r =
      let refused = handle_refused op (handle_get (k.tables ((k.procs cur).handles)) hid) k e s r in
      simp (simple_vfsop, s, check, ◌>>=◌, ◌>>◌) (refused ∙ ret_lem cur (neg e) k now)
