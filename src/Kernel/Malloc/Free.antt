-- ===== src/Kernel/Malloc/Free.antt =====
-- What `page_free` of src/kernel/malloc.c gives back, and when `page_alloc` finds nothing.

use camellia.Base.{
  ℕ, zero, suc, ◌+◌, ◌-◌, ◌*◌, ◌<◌, ◌≤◌, ◌≡◌, refl, true, false, none, done, panic, ltb,
  if◌then◌else◌, arith,
}
use camellia.Kernel.State.{update}
use camellia.Kernel.Malloc.{Bitmap, find_hole, take_hole, page_alloc, clear, lower, page_free}
use camellia.Kernel.Malloc.Pages.{
  Painted, IsHole, Marked, paint_next, bitmap_get_lem, bitmap_set_lem, Allocated, page_alloc-first,
}

clear_lem :
    (n : ℕ) (p : Bitmap) (i : ℕ)
    → i + n ≤ p.len * 8
    → ((j : ℕ) → i ≤ j → j < i + n → p.bits j ≡ true)
    → (q : Bitmap) × (clear n p i ≡ done q) × Marked false i n p q
unfolding clear Painted
clear_lem zero p i h taken =
    (p, refl, record { painted = λ j. ground arith; same_len = refl; same_hint = refl })
clear_lem (suc n) p i h taken =
    let p' : Bitmap = record p { bits = update p.bits i false } in
    let still : (j : ℕ) → suc i ≤ j → j < suc i + n → p'.bits j ≡ true =
      λ j f t. let b = taken j (omega arith) (omega arith) in ground (arith, b) in
    let (q, e, m) = clear_lem n p' (suc i) (omega (arith, h)) still in
    let s = bitmap_set_lem p i false (omega (arith, h)) in
    let old = taken i (omega arith) (omega arith) in
    (q, (simp (clear, s, old, e)), paint_next false i n p q m)

-- a page that is free cannot be freed
clear_free :
    (n : ℕ) (p : Bitmap) (i : ℕ) → 0 < n → i < p.len * 8 → p.bits i ≡ false → clear n p i ≡ panic
unfolding clear
clear_free zero p i pos h free = absurd (omega arith)
clear_free (suc n) p i pos h free = let s = bitmap_set_lem p i false h in simp (clear, s, free)

-- what `page_free` leaves of an allocation
pub record Freed (p : Bitmap) (pages i : ℕ) (r : Bitmap) : Type 0 where
  pub as_before : (j : ℕ) → r.bits j ≡ p.bits j
  pub hint : r.firstfree ≡ i
  pub not_twice : page_free i pages r ≡ panic

free-Allocated :
    (p : Bitmap) (pages i : ℕ) (q : Bitmap)
    → 0 < pages
    → Allocated p pages i q
    → (r : Bitmap) × (page_free i pages q ≡ done r) × Freed p pages i r
unfolding page_free lower Painted IsHole
free-Allocated p pages i q pos a =
    let taken : (j : ℕ) → i ≤ j → j < i + pages → q.bits j ≡ true =
      λ j f t. let b = a.marked j in ground (arith, b) in
    let (s, e, m) =
      clear_lem pages q i (let f = a.fits in let l = a.same_len in omega arith) taken in
    let r : Bitmap = record s { firstfree = if ltb i s.firstfree then i else s.firstfree } in
    let first = m.painted i in
    let twice =
      clear_free pages r i pos
        (let x = m.same_len in let y = a.same_len in let z = a.fits in omega arith)
        (ground (arith, first)) in
    (
      r,
      (simp (page_free, e, lower)),
      record {
        as_before = λ j.
            (let x = m.painted j in
              let y = a.marked j in let z = a.was_free j in ground (arith, x, y, z));
        hint = (let x = m.same_hint in let y = a.hint in ground (arith, x, y));
        not_twice = (simp (page_free, twice, lower));
      },
    )

-- Pages that page_alloc gives can be given back once: all bits are then as before, the hint points
-- to the first of the pages, and giving them back again is caught.
pub page_free-page_alloc :
    (p : Bitmap) (pages h : ℕ)
    → 0 < pages
    → IsHole p pages h
    → p.firstfree ≤ h
    → h + pages ≤ p.len * 8
    → (i : ℕ) × (q r : Bitmap) × (page_alloc pages p ≡ done (i, q))
      × (page_free i pages q ≡ done r)
      × Freed p pages i r
page_free-page_alloc p pages h pos hole from to =
    let (i, q, takes, a, first) = page_alloc-first p pages h pos hole from to in
    let (r, gives, f) = free-Allocated p pages i q pos a in (i, q, r, takes, gives, f)

find_hole-none :
    (n : ℕ) (p : Bitmap) (pages i streak : ℕ)
    → i + n ≡ p.len * 8
    → ((j : ℕ) → i ≤ j → j < p.len * 8 → p.bits j ≡ true)
    → find_hole n p pages i streak ≡ done none
unfolding find_hole
find_hole-none zero p pages i streak end taken = refl
find_hole-none (suc n) p pages i streak end taken =
    let get = bitmap_get_lem p i (omega (arith, end)) in
    let t = taken i (omega arith) (omega (arith, end)) in
    let rest =
      find_hole-none n p pages (suc i) 0 (omega (arith, end)) (λ j f l. taken j (omega arith) l) in
    simp (find_hole, get, t, rest)

-- When all pages from the hint on are taken, page_alloc gives up, whatever is free before the hint.
page_alloc-exhausted :
    (p : Bitmap) (pages : ℕ)
    → p.firstfree ≤ p.len * 8
    → ((j : ℕ) → p.firstfree ≤ j → j < p.len * 8 → p.bits j ≡ true)
    → page_alloc pages p ≡ panic
unfolding page_alloc take_hole
page_alloc-exhausted p pages le taken =
    let none_left =
      find_hole-none (p.len * 8 - p.firstfree) p pages p.firstfree 0 (omega arith) taken in
    simp (page_alloc, none_left, take_hole)
