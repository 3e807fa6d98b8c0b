-- ===== src/Kernel/Malloc/Heap.antt =====
-- kmalloc and kfree of src/kernel/malloc.c: the list of allocations. An allocation is the index of
-- its first page, which begins with its header; what the pages hold otherwise is not modelled, nor
-- are the stack traces.
use camellia.Base.{
  ℕ, Bool, true, false, ◌&&◌, Option, none, some, Outcome, done, assert, ◌==◌, ◌>>=◌, ◌>>◌,
  if◌then◌else◌,
}
use camellia.Kernel.State.{update}
use camellia.Kernel.Malloc.{Bitmap, page_alloc, page_free, kmalloc_pages}

-- struct malloc_hdr; `is_magic` says whether `magic` is MALLOC_MAGIC
pub record Hdr : Type 0 where
  pub is_magic : Bool
  pub page_amt : ℕ
  pub next : Option ℕ
  pub prev : Option ℕ

-- `last` is `malloc_last`
pub record Heap : Type 0 where
  pub bitmap : Bitmap
  pub hdrs : ℕ → Hdr
  pub last : Option ℕ

abbrev pub set_hdr : Heap → ℕ → Hdr → Heap
set_hdr h i v = record h { hdrs = update h.hdrs i v }

abbrev pub points_to : ℕ → Option ℕ → Bool
points_to i none = false
points_to i (some j) = i == j

-- `if (hdr->next) assert(hdr->next->prev == hdr)`
unfoldable pub next_agrees : Heap → ℕ → Option ℕ → Bool
next_agrees h i none = true
next_agrees h i (some n) = points_to i ((h.hdrs n).prev)

unfoldable pub prev_agrees : Heap → ℕ → Option ℕ → Bool
prev_agrees h i none = true
prev_agrees h i (some p) = points_to i ((h.hdrs p).next)

-- the assertions of kmalloc_sanity
unfoldable pub kmalloc_sanity : Heap → ℕ → Bool
kmalloc_sanity h i =
    let v = h.hdrs i in v.is_magic && (next_agrees h i v.next && prev_agrees h i v.prev)

abbrev pub is_none : Option ℕ → Bool
is_none none = true
is_none (some n) = false

-- the header in front of the new one gets it as its `next`
unfoldable pub link_last : Heap → ℕ → Option ℕ → Outcome Heap
link_last h i none = done h
link_last h i (some p) = do
  assert (is_none ((h.hdrs p).next))
  done (set_hdr h p (record (h.hdrs p) { next = some i }))

-- kmalloc: the allocation, and the heap with it
unfoldable pub kmalloc : (len : ℕ) → Heap → Outcome (ℕ × Heap)
kmalloc len h = do
  (i, bitmap) ← page_alloc (kmalloc_pages len) h.bitmap
  let v : Hdr = record { is_magic = true; page_amt = kmalloc_pages len; next = none; prev = h.last }
  k ← link_last (record h { bitmap = bitmap; hdrs = update h.hdrs i v }) i h.last
  let k' = record k { last = some i }
  assert (kmalloc_sanity k' i)
  done (i, k')

-- `if (hdr->next) hdr->next->prev = hdr->prev`
unfoldable pub unlink_next : Heap → (next prev : Option ℕ) → Heap
unlink_next h none prev = h
unlink_next h (some n) prev = set_hdr h n (record (h.hdrs n) { prev = prev })

unfoldable pub unlink_prev : Heap → (next prev : Option ℕ) → Heap
unlink_prev h next none = h
unlink_prev h next (some p) = set_hdr h p (record (h.hdrs p) { next = next })

unfoldable pub unlink_last : Heap → ℕ → (prev : Option ℕ) → Heap
unlink_last h i prev = if points_to i h.last then record h { last = prev } else h

-- kfree
unfoldable pub kfree : Option ℕ → Heap → Outcome Heap
kfree none h = done h
kfree (some i) h = do
  assert (kmalloc_sanity h i)
  let v = h.hdrs i
  let h1 = set_hdr h i (record v { is_magic = false })
  let h2 = unlink_last (unlink_prev (unlink_next h1 v.next v.prev) v.next v.prev) i v.prev
  bitmap ← page_free i v.page_amt h2.bitmap
  done (record h2 { bitmap = bitmap })
