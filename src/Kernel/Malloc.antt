-- ===== src/Kernel/Malloc.antt =====
-- src/kernel/malloc.c: the bitmap of pages, and the list of allocations. `bits` are the bits of
-- `pbitmap`, bit `i % 8` of byte `i / 8` for page `i`; `len` is `pbitmap_len`, in bytes, and
-- `firstfree` is `pbitmap_firstfree`. A page is its index, the address of page 0 is `base`.
pub mod Pages
pub mod Free
pub mod Heap
mod Tests
use camellia.Base.{
  ℕ, zero, suc, ◌+◌, ◌-◌, ◌*◌, ◌/◌, ◌%◌, ◌^◌, Bool, true, false, Option, none, some, Outcome, done,
  panic, ltb, leb, ◌==◌, if◌then◌else◌, not, ◌&&◌,
}
use camellia.Kernel.State.{update}

pub record Bitmap : Type 0 where
  pub bits : ℕ → Bool
  pub len : ℕ
  pub firstfree : ℕ

-- bitmap_get
unfoldable pub bitmap_get : Bitmap → ℕ → Outcome Bool
bitmap_get p i = if ltb (i / 8) p.len then done (p.bits i) else panic

-- bitmap_set: the old bit, and the bitmap with the new one
unfoldable pub bitmap_set : Bitmap → ℕ → Bool → Outcome (Bool × Bitmap)
bitmap_set p i v =
    if ltb (i / 8) p.len then done (p.bits i, record p { bits = update p.bits i v }) else panic

-- `toindex(p)`, stored in a `size_t`
unfoldable pub toindex : (base p : ℕ) → ℕ
toindex base p = if leb base p then (p - base) / 4096 else (2 ^ 64 - (base - p) / 4096) % 2 ^ 64

-- the loop that sets the bits of pages, `n` of them to go
unfoldable pub mark : (n : ℕ) → Bitmap → (i : ℕ) → Outcome Bitmap
mark zero p i = done p
mark (suc n) p i = elim (bitmap_set p i true) [ panic ↦ panic | done (old, q) ↦ mark n q (suc i) ]

-- the loop of `mem_reserve`, with at most `n` pages to go
unfoldable pub reserve_from : (n : ℕ) → Bitmap → (i : ℕ) → Outcome Bitmap
reserve_from zero p i = done p
reserve_from (suc n) p i = if leb p.len (i / 8) then done p else elim (bitmap_set p i true) [
  | panic ↦ panic
  | done (old, q) ↦ reserve_from n q ((i + 1) % 2 ^ 64)
]

-- mem_reserve, where `addr + len` fits in 64 bits
unfoldable pub mem_reserve : (base addr len : ℕ) → Bitmap → Outcome Bitmap
mem_reserve base addr len p =
    let off = addr % 4096 in reserve_from ((len + off + 4095) / 4096) p (toindex base (addr - off))

-- mem_init, for a bitmap that starts at `base`
unfoldable pub mem_init : (base memtop : ℕ) → Outcome Bitmap
mem_init base memtop =
    let len = toindex base memtop / 8 in
    mem_reserve base base len (record { bits = λ i. false; len = len; firstfree = 0 })

-- the loop of `page_alloc`, with `n` pages to go: the first page of the hole; `none` where the
-- memory is out
unfoldable pub find_hole : (n : ℕ) → Bitmap → (pages i streak : ℕ) → Outcome (Option ℕ)
find_hole zero p pages i streak = done none
find_hole (suc n) p pages i streak = elim (bitmap_get p i) [
  | panic ↦ panic
  | done true ↦ find_hole n p pages (suc i) 0
  | done false ↦ elim (leb pages (suc streak)) [
    | true ↦ done (some (i - streak))
    | false ↦ find_hole n p pages (suc i) (suc streak)
  ]
]

unfoldable pub take_hole : Bitmap → (streak : ℕ) → Outcome (Option ℕ) → Outcome (ℕ × Bitmap)
take_hole p streak panic = panic
take_hole p streak (done none) = panic
take_hole p streak (done (some i)) = elim (mark streak p i) [
  | panic ↦ panic
  | done q ↦ done (i, record q { firstfree = i + streak - 1 })
]

-- page_alloc; a hole for no pages takes one
unfoldable pub page_alloc : (pages : ℕ) → Bitmap → Outcome (ℕ × Bitmap)
page_alloc pages p =
    take_hole p (if pages == 0 then 1 else pages)
      (find_hole (p.len * 8 - p.firstfree) p pages p.firstfree 0)

-- the loop of `page_free`
unfoldable pub clear : (n : ℕ) → Bitmap → (i : ℕ) → Outcome Bitmap
clear zero p i = done p
clear (suc n) p i = elim (bitmap_set p i false) [
  | panic ↦ panic
  | done (old, q) ↦ elim old [ false ↦ panic | true ↦ clear n q (suc i) ]
]

unfoldable pub lower : ℕ → Outcome Bitmap → Outcome Bitmap
lower first panic = panic
lower first (done p) =
    done (record p { firstfree = if ltb first p.firstfree then first else p.firstfree })

-- page_free
unfoldable pub page_free : (first pages : ℕ) → Bitmap → Outcome Bitmap
page_free first pages p = lower first (clear pages p first)

-- the number of pages that `kmalloc` asks for: a `uint32_t`, with the header of 56 bytes counted in
unfoldable pub kmalloc_pages : (len : ℕ) → ℕ
kmalloc_pages len = ((len + 56) % 2 ^ 64 / 4096 + 1) % 2 ^ 32
