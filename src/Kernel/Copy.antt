-- ===== src/Kernel/Copy.antt =====
-- src/kernel/pcpy.c, and of src/kernel/arch/amd64/pagedir.c what it calls. The page tables are a function
-- from the address of a table and an index to an entry, apart from the bytes that are copied, so that a
-- copy does not change them. `none` stands for fuel that runs out.
pub mod Refill
pub mod Bytes
pub mod Side
pub mod Parts
pub mod Total
mod Tests
use camellia.Base.{
  ℕ, zero, suc, ◌+◌, ◌-◌, ◌*◌, ◌/◌, ◌%◌, ◌^◌, min, Bool, true, false, ◌&&◌, ◌||◌, not, Option, none,
  some, leb, ◌==◌, if◌then◌else◌, Outcome, done, panic, assert, ◌>>=◌, ◌>>◌,
}
use camellia.Libk.Mem.{memcpy}

-- pe_generic_t
pub record Entry : Type 0 where
  pub present : Bool
  pub writeable : Bool
  pub user : Bool
  pub large : Bool
  pub address : ℕ

abbrev pub page_size : ℕ
page_size = 4096

-- virtual addresses with all of the 16 bits above the 48 used ones equal
unfoldable pub addr_canonical : ℕ → Bool
addr_canonical a = let n = a / 2 ^ 48 in n == 0 || n == 2 ^ 16 - 1

abbrev pub addr_extract : Entry → ℕ
addr_extract e = e.address * 2 ^ 12

-- an entry that points to a table: none when it is not present
unfoldable pub descend : Entry → Outcome (Option ℕ)
descend e =
    if not e.present then done none else (assert (not e.large) >> done (some (addr_extract e)))

-- the walk from a table over the indices of the levels, down to a page table's entry
abbrev pub walk_level : Outcome (Option ℕ) → (ℕ → Outcome (Option Entry)) → Outcome (Option Entry)
walk_level (done (some t)) k = k t
walk_level (done none) k = done none
walk_level panic k = panic

-- the physical address, 0 for NULL
abbrev pub phys_of : Option Entry → (virt : ℕ) → (user writeable : Bool) → ℕ
phys_of none virt user writeable = 0
phys_of (some e) virt user writeable =
    if not e.present || user && not e.user || writeable && not e.writeable
    then 0
    else addr_extract e + virt % page_size

-- whether a page belongs to the kernel
abbrev pub is_kernel_page : Option Entry → Bool
is_kernel_page none = false
is_kernel_page (some e) = e.present && not e.user

module _ (tables : (table index : ℕ) → Entry) where
  unfoldable pub get_entry : (dir virt : ℕ) → Outcome (Option Entry)
  get_entry dir virt =
      if not (addr_canonical virt)
      then done none
      else walk_level (descend (tables dir (virt / 2 ^ 39 % 512))) (λ pdpt.
        walk_level (descend (tables pdpt (virt / 2 ^ 30 % 512))) (λ pd.
          walk_level (descend (tables pd (virt / 2 ^ 21 % 512)))
            (λ pt. done (some (tables pt (virt / 2 ^ 12 % 512))))))

  unfoldable pub pagedir_virt2phys : (dir virt : ℕ) → (user writeable : Bool) → Outcome ℕ
  pagedir_virt2phys dir virt user writeable =
      get_entry dir virt >>= λ e. done (phys_of e virt user writeable)

  unfoldable pub pagedir_iskern : (dir virt : ℕ) → Outcome Bool
  pagedir_iskern dir virt = get_entry dir virt >>= λ e. done (is_kernel_page e)

-- struct virt_iter; no page directory stands for physical memory
pub record VirtIter : Type 0 where
  pub frag : ℕ
  pub frag_len : ℕ
  pub prior : ℕ
  pub error : Bool
  pub virt : ℕ
  pub remaining : ℕ
  pub pages : Option ℕ
  pub user : Bool
  pub writeable : Bool

unfoldable pub virt_iter_new : (virt length : ℕ) → Option ℕ → (user writeable : Bool) → VirtIter
virt_iter_new virt length pages user writeable = record {
  frag = 0;
  frag_len = 0;
  prior = 0;
  error = false;
  virt = virt;
  remaining = length;
  pages = pages;
  user = user;
  writeable = writeable;
}

-- the end of virt_iter_next, with a fragment of `partial` bytes at `frag`
abbrev pub advance : VirtIter → (frag partial : ℕ) → Bool × VirtIter
advance it frag partial = (
  true,
  record it {
    frag = frag;
    frag_len = partial;
    remaining = it.remaining - partial;
    virt = (it.virt + partial) % 2 ^ 64;
  },
)

-- the memory and the counters of virt_cpy
pub record Copying : Type 0 where
  pub mem : ℕ → ℕ
  pub total : ℕ
  pub dest : VirtIter
  pub src : VirtIter

unfoldable pub consume : VirtIter → ℕ → VirtIter
consume it partial = record it {
  frag_len = it.frag_len - partial;
  frag = (it.frag + partial) % 2 ^ 64;
}

unfoldable pub copy_part : Copying → Copying
copy_part c =
    let partial = min c.src.frag_len c.dest.frag_len in
    record {
      mem = memcpy c.mem c.dest.frag c.src.frag partial;
      total = c.total + partial;
      dest = consume c.dest partial;
      src = consume c.src partial;
    }

-- with the physical address of a virtual one
abbrev pub advance_to : VirtIter → (phys : ℕ) → Bool × VirtIter
advance_to it phys =
    if phys == 0
    then (false, record it { frag = 0; error = true })
    else advance it phys (min it.remaining (page_size - it.virt % page_size))

unfoldable pub fill_src : Copying → Bool × VirtIter → Bool × Copying
fill_src c (ok, it) =
    if ok then (true, copy_part (record c { src = it })) else (false, record c { src = it })

abbrev pub is_faulted : Copying → Bool
is_faulted c = c.src.error || c.dest.error

-- the assertions at the end
unfoldable pub check_total : (length : ℕ) → Copying → Outcome Copying
check_total length c =
    assert (if is_faulted c then not (c.total == length) else c.total == length) >> done c

abbrev pub start_copy :
    (mem : ℕ → ℕ)
    → (dest_pages : Option ℕ) (dest : ℕ) → (src_pages : Option ℕ) (src length : ℕ) → Copying
start_copy mem dest_pages dest src_pages src length = record {
  mem = mem;
  total = 0;
  dest = virt_iter_new dest length dest_pages true true;
  src = virt_iter_new src length src_pages true false;
}

-- the result of virt_cpy
abbrev pub total_and_mem : Option (Outcome Copying) → Option (Outcome (ℕ × (ℕ → ℕ)))
total_and_mem none = none
total_and_mem (some r) = some (r >>= λ c. done (c.total, c.mem))

-- the rounds that follow one
abbrev pub more_rounds :
    Outcome (Bool × Copying) → (Copying → Option (Outcome Copying)) → Option (Outcome Copying)
more_rounds panic k = some panic
more_rounds (done (true, c)) k = k c
more_rounds (done (false, c)) k = some (done c)

abbrev pub ended_with : (length : ℕ) → Option (Outcome Copying) → Option (Outcome Copying)
ended_with length none = none
ended_with length (some r) = some (r >>= λ c. check_total length c)

module _ (tables : (table index : ℕ) → Entry) where
  unfoldable pub next_frag : Option ℕ → VirtIter → Outcome (Bool × VirtIter)
  next_frag none it = done (advance it it.virt it.remaining)
  next_frag (some dir) it = pagedir_virt2phys tables dir it.virt it.user it.writeable >>= λ phys.
      done (advance_to it phys)

  unfoldable pub virt_iter_next : VirtIter → Outcome (Bool × VirtIter)
  virt_iter_next it =
      let it = record it { prior = it.prior + it.frag_len } in
      if it.remaining == 0 then done (false, it) else next_frag it.pages it

  -- `frag_len <= 0 && !virt_iter_next(..)`, negated
  unfoldable pub refill : VirtIter → Outcome (Bool × VirtIter)
  refill it = if it.frag_len == 0 then virt_iter_next it else done (true, it)

  unfoldable pub fill_dest : Copying → Bool × VirtIter → Outcome (Bool × Copying)
  fill_dest c (ok, it) =
      if ok
      then (refill (record c { dest = it }).src >>= λ r. done (fill_src (record c { dest = it }) r))
      else done (false, record c { dest = it })

  -- one round of the loop, and whether there is another
  unfoldable pub copy_round : Copying → Outcome (Bool × Copying)
  copy_round c = refill c.dest >>= λ r. fill_dest c r

  unfoldable pub copy_rounds : (fuel : ℕ) → Copying → Option (Outcome Copying)
  copy_rounds zero c = none
  copy_rounds (suc fuel) c = more_rounds (copy_round c) (copy_rounds fuel)

  -- One unit of fuel is a byte, and one more for the last test.
  unfoldable pub virt_cpy :
      (mem : ℕ → ℕ)
      → (dest_pages : Option ℕ) (dest : ℕ) → (src_pages : Option ℕ) (src length : ℕ)
      → Option (Outcome Copying)
  virt_cpy mem dest_pages dest src_pages src length =
      ended_with length
        (copy_rounds (suc length) (start_copy mem dest_pages dest src_pages src length))

  -- `p->pages` of a process, or NULL for `p`: the first is what pcpy_to and pcpy_from assert
  unfoldable pub pcpy_to :
      (mem : ℕ → ℕ) → Option (Option ℕ) → (dst src len : ℕ) → Option (Outcome (ℕ × (ℕ → ℕ)))
  pcpy_to mem none dst src len = some panic
  pcpy_to mem (some none) dst src len = some (done (0, mem))
  pcpy_to mem (some (some pages)) dst src len =
      total_and_mem (virt_cpy mem (some pages) dst none src len)

  unfoldable pub pcpy_from :
      (mem : ℕ → ℕ) → (dst : ℕ) → Option (Option ℕ) → (src len : ℕ) → Option (Outcome (ℕ × (ℕ → ℕ)))
  pcpy_from mem dst none src len = some panic
  pcpy_from mem dst (some none) src len = some (done (0, mem))
  pcpy_from mem dst (some (some pages)) src len =
      total_and_mem (virt_cpy mem none dst (some pages) src len)

  unfoldable pub pcpy_bi :
      (mem : ℕ → ℕ)
      → Option (Option ℕ)
      → (dst : ℕ) → Option (Option ℕ)
      → (src len : ℕ) → Option (Outcome (ℕ × (ℕ → ℕ)))
  pcpy_bi mem none dst srcp src len = some panic
  pcpy_bi mem (some dst_pages) dst none src len = some panic
  pcpy_bi mem (some none) dst (some src_pages) src len = some (done (0, mem))
  pcpy_bi mem (some (some dst_pages)) dst (some none) src len = some (done (0, mem))
  pcpy_bi mem (some (some dst_pages)) dst (some (some src_pages)) src len =
      total_and_mem (virt_cpy mem (some dst_pages) dst (some src_pages) src len)
