-- ===== src/Kernel/Malloc/Pages.antt =====
-- The pages that `page_alloc` of src/kernel/malloc.c gives.

use native.Mathlib.Decide.{ℕ_discrete, dec_le}
use camellia.Base.{
  ℕ, zero, suc, ◌+◌, ◌-◌, ◌*◌, ◌<◌, ◌≤◌, ◌≡◌, refl, ap, ◌∙◌, Bool, true, false, ◌&&◌, Option, some,
  Outcome, done, ltb, leb, ◌==◌, if◌then◌else◌, arith, Bool-cases, inl, inr,
}
use camellia.Kernel.State.{update}
use camellia.Kernel.Malloc.{Bitmap, bitmap_get, bitmap_set, mark, find_hole, take_hole, page_alloc}

-- the pages from `i` on, `n` of them
abbrev pub between : (i n j : ℕ) → Bool
between i n j = leb i j && ltb j (i + n)

-- `q` has the bit `v` at these pages, and elsewhere the bits of `p`
unfoldable pub Painted : (v : Bool) (i n : ℕ) (p q : Bitmap) → Type 0
Painted v i n p q = (j : ℕ) → q.bits j ≡ (if between i n j then v else p.bits j)

unfoldable pub IsHole : (p : Bitmap) (n i : ℕ) → Type 0
IsHole p n i = (j : ℕ) → i ≤ j → j < i + n → p.bits j ≡ false

pub bitmap_get_lem : (p : Bitmap) (i : ℕ) → i < p.len * 8 → bitmap_get p i ≡ done (p.bits i)
unfolding bitmap_get
bitmap_get_lem p i h = ground arith

pub bitmap_set_lem :
    (p : Bitmap) (i : ℕ) (v : Bool)
    → i < p.len * 8
    → bitmap_set p i v ≡ done (p.bits i, record p { bits = update p.bits i v })
unfolding bitmap_set
bitmap_set_lem p i v h = ground arith

-- what `mark` does
pub record Marked (v : Bool) (i n : ℕ) (p q : Bitmap) : Type 0 where
  pub painted : Painted v i n p q
  pub same_len : q.len ≡ p.len
  pub same_hint : q.firstfree ≡ p.firstfree

pub paint_next :
    (v : Bool) (i n : ℕ) (p q : Bitmap)
    → Marked v (suc i) n (record p { bits = update p.bits i v }) q
    → Marked v i (suc n) p q
unfolding Painted
paint_next v i n p q m = record {
  painted = λ j. let pj = m.painted j in ground (arith, pj);
  same_len = m.same_len;
  same_hint = m.same_hint;
}

mark_lem :
    (n : ℕ) (p : Bitmap) (i : ℕ)
    → i + n ≤ p.len * 8
    → (q : Bitmap) × (mark n p i ≡ done q) × Marked true i n p q
unfolding mark Painted
mark_lem zero p i h =
    (p, refl, record { painted = λ j. ground arith; same_len = refl; same_hint = refl })
mark_lem (suc n) p i h =
    let (q, e, m) =
      mark_lem n (record p { bits = update p.bits i true }) (suc i) (omega (arith, h)) in
    (
      q,
      (let s = bitmap_set_lem p i true (omega (arith, h)) in simp (mark, s, e)),
      paint_next true i n p q m,
    )

-- how the loop of `page_alloc` stands: the `streak` pages before `i` are free
IsHole-next :
    (p : Bitmap) (i streak : ℕ)
    → streak ≤ i
    → p.bits i ≡ false
    → IsHole p streak (i - streak)
    → IsHole p (suc streak) (i - streak)
unfolding IsHole
IsHole-next p i streak le free hole j from to = elim (ℕ_discrete j i) [
  | yes eq ↦ ap p.bits eq ∙ free
  | no ne ↦ hole j from (omega (arith, ne, le, to))
]

-- a hole does not have a page that is taken
hole_past :
    (p : Bitmap) (i pages h : ℕ) → IsHole p pages h → p.bits i ≡ true → i < h + pages → i < h
unfolding IsHole
hole_past p i pages h hole taken lt = let free = hole i in ground (arith, free)

Found : (n : ℕ) (p : Bitmap) (pages i streak h : ℕ) → Type 0
Found n p pages i streak h =
    (at : ℕ) × (find_hole n p pages i streak ≡ done (some at))
    × IsHole p pages at
    × (at ≤ h)
    × (i ≤ at + streak)

find_taken :
    (n : ℕ) (p : Bitmap) (pages i streak h : ℕ)
    → bitmap_get p i ≡ done true
    → Found n p pages (suc i) 0 h
    → Found (suc n) p pages i streak h
unfolding Found find_hole
find_taken n p pages i streak h get (at, e, hole, first, after) =
    (at, (simp (find_hole, get, e)), hole, first, omega (arith, after))

find_more :
    (n : ℕ) (p : Bitmap) (pages i streak h : ℕ)
    → bitmap_get p i ≡ done false
    → suc streak < pages
    → Found n p pages (suc i) (suc streak) h
    → Found (suc n) p pages i streak h
unfolding Found find_hole
find_more n p pages i streak h get lt (at, e, hole, first, after) =
    let small : leb pages (suc streak) ≡ false = ground arith in
    (at, (simp (find_hole, get, small, e)), hole, first, omega (arith, after))

find_here :
    (n : ℕ) (p : Bitmap) (pages i streak h : ℕ)
    → bitmap_get p i ≡ done false
    → pages ≤ suc streak
    → streak ≤ i
    → IsHole p pages (i - streak)
    → i ≤ h + streak
    → Found (suc n) p pages i streak h
unfolding Found find_hole
find_here n p pages i streak h get le at hole from =
    let large : leb pages (suc streak) ≡ true = ground arith in
    (i - streak, (simp (find_hole, get, large)), hole, omega arith, omega arith)

-- what the loop finds when there is a hole from `h` on
find_hole_first :
    (n : ℕ) (p : Bitmap) (pages i streak h : ℕ)
    → i + n ≡ p.len * 8
    → streak ≤ i
    → streak < pages
    → IsHole p streak (i - streak)
    → IsHole p pages h
    → i ≤ h + streak
    → h + pages ≤ i + n
    → Found n p pages i streak h
unfolding IsHole
find_hole_first zero p pages i streak h end le lt run hole from to = absurd (omega arith)
find_hole_first (suc n) p pages i streak h end le lt run hole from to =
    let get = bitmap_get_lem p i (omega (arith, end)) in
    elim (Bool-cases (p.bits i)) [
      | inl taken ↦
          let past = hole_past p i pages h hole taken (omega arith) in
          find_taken n p pages i streak h (get ∙ ap done taken) (
            find_hole_first n p pages (suc i) 0 h (omega arith) (omega arith) (omega arith)
              (λ j f t. absurd (omega arith)) hole (omega arith) (omega arith))
      | inr free ↦
          let got = get ∙ ap done free in
          let longer = IsHole-next p i streak le free run in
          elim (dec_le pages (suc streak)) [
            | yes short ↦
                find_here n p pages i streak h got short le (λ j f t. longer j f (omega arith)) from
            | no long ↦ find_more n p pages i streak h got (omega arith) (
                find_hole_first n p pages (suc i) (suc streak) h (omega arith) (omega arith)
                  (omega arith) (λ j f t. longer j (omega arith) (omega arith)) hole (omega arith)
                  (omega arith))
          ]
    ]

-- a returned allocation
pub record Allocated (p : Bitmap) (pages i : ℕ) (q : Bitmap) : Type 0 where
  pub was_free : IsHole p pages i
  pub marked : Painted true i pages p q
  pub fits : i + pages ≤ p.len * 8
  pub behind : p.firstfree ≤ i
  pub hint : q.firstfree ≡ i + pages - 1
  pub same_len : q.len ≡ p.len

take_hole_lem :
    (p : Bitmap) (pages i : ℕ) (o : Outcome (Option ℕ))
    → o ≡ done (some i)
    → IsHole p pages i
    → i + pages ≤ p.len * 8
    → p.firstfree ≤ i
    → (q : Bitmap) × (take_hole p pages o ≡ done (i, q)) × Allocated p pages i q
unfolding take_hole Painted
take_hole_lem p pages i o e hole fits behind =
    let (q, marks, m) = mark_lem pages p i fits in
    (
      record q { firstfree = i + pages - 1 },
      (simp (take_hole, e, marks)),
      record {
        was_free = hole;
        marked = λ j. m.painted j;
        fits = fits;
        behind = behind;
        hint = refl;
        same_len = m.same_len;
      },
    )

-- Where there is a hole of enough pages, at least one, behind the hint, page_alloc takes the first one: its pages
-- were free, are taken then, and no other page changes. The hint is then its last page.
pub page_alloc-first :
    (p : Bitmap) (pages h : ℕ)
    → 0 < pages
    → IsHole p pages h
    → p.firstfree ≤ h
    → h + pages ≤ p.len * 8
    → (i : ℕ) × (q : Bitmap) × (page_alloc pages p ≡ done (i, q)) × Allocated p pages i q × (i ≤ h)
unfolding page_alloc Found IsHole
page_alloc-first p pages h pos hole from to =
    let n = p.len * 8 - p.firstfree in
    let (i, e, found, first, behind) =
      find_hole_first n p pages p.firstfree 0 h (omega arith) (omega arith) pos
        (λ j f t. absurd (omega arith)) hole (omega arith) (omega arith) in
    let (q, takes, a) =
      take_hole_lem p pages i (find_hole n p pages p.firstfree 0) e found (omega arith)
        (omega arith) in
    let some_pages : (pages == 0) ≡ false = ground arith in
    (i, q, (simp (page_alloc, some_pages, takes)), a, first)
