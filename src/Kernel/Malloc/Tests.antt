-- ===== src/Kernel/Malloc/Tests.antt =====
-- Runs of the page allocator.
use camellia.Base.{ℕ, ◌≤◌, ◌≡◌, refl, false, not, Outcome, done, panic, ◌==◌, ◌>>=◌, arith}
use camellia.Kernel.Malloc.{
  Bitmap, page_alloc, page_free, bitmap_get, bitmap_set, find_hole, mark, take_hole, clear, lower,
}
use camellia.Kernel.Malloc.Pages.{IsHole, Allocated, page_alloc-first}
use camellia.Kernel.Malloc.Free.{Freed, page_free-page_alloc}

-- eight pages, of which page 1 is taken
abbrev small : Bitmap
small = record { bits = λ i. i == 1; len = 1; firstfree = 0 }

abbrev summary : Outcome (ℕ × Bitmap) → Outcome (ℕ × ℕ)
summary panic = panic
summary (done (i, p)) = done (i, p.firstfree)

first_fits :
    (summary (page_alloc 1 small) ≡ done (0, 0))
    × (summary (page_alloc 2 small) ≡ done (2, 3))
    × (summary (page_alloc 7 small) ≡ panic)
unfolding page_alloc take_hole find_hole bitmap_get bitmap_set mark
first_fits = (refl, refl, refl)

-- two pages, one of them given back, and the six others: then page 0 is free and is not found
lost_page :
    summary (
      page_alloc 1 (record { bits = λ i. false; len = 1; firstfree = 0 }) >>= λ a.
      page_alloc 1 a.1 >>= λ b. page_free 0 1 b.1 >>= λ c. page_alloc 6 c >>= λ d. page_alloc 1 d.1)
    ≡ panic
unfolding page_alloc page_free clear lower take_hole find_hole bitmap_get bitmap_set mark
lost_page = refl

small-IsHole : IsHole small 2 2
unfolding IsHole
small-IsHole = λ j from to. ground arith

page_alloc-first_example :
    (i : ℕ) × (q : Bitmap) × (page_alloc 2 small ≡ done (i, q)) × Allocated small 2 i q × (i ≤ 2)
page_alloc-first_example =
    page_alloc-first small 2 2 (omega arith) small-IsHole (omega arith) (omega arith)

page_free-page_alloc_example :
    (i : ℕ) × (q r : Bitmap) × (page_alloc 2 small ≡ done (i, q))
    × (page_free i 2 q ≡ done r)
    × Freed small 2 i r
page_free-page_alloc_example =
    page_free-page_alloc small 2 2 (omega arith) small-IsHole (omega arith) (omega arith)

-- the bitmap at the end of `lost_page`
abbrev lost : Bitmap
lost = record { bits = λ i. not (i == 0); len = 1; firstfree = 7 }
