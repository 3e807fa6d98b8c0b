-- ===== src/Kernel/Copy/Side.antt =====
-- The bytes behind a fragment of an iterator: each one is where its virtual address is mapped to.
use mathlib.Core.Path.{subst}
use camellia.Base.{
  ℕ, ◌+◌, ◌-◌, ◌%◌, ◌^◌, ◌<◌, ◌≤◌, ◌≡◌, ◌∙◌, inl, inr, refl, sym, ap, Bool, true, false, Option,
  none, some, ◌==◌, Outcome, done, panic, arith, ◌>>=◌, Bool-cases, min,
}
use camellia.Kernel.Copy.{
  Entry, VirtIter, pagedir_virt2phys, page_size, advance, advance_to, next_frag, virt_iter_next,
  refill,
}
use camellia.Kernel.Copy.Refill.{IsSmall}
use camellia.Kernel.Copy.Bytes.{Place, Fits, MapsTo, virt2phys-add, virt2phys-Bound}

module _ (tables : (table index : ℕ) → Entry) where
  -- The iterator of a side of which `t` bytes have been copied: its fragment has the bytes after them.
  pub record Side (pl : Place) (t : ℕ) (it : VirtIter) : Type 0 where
    pub same_pages : it.pages ≡ pl.pages
    pub for_user : it.user ≡ true
    pub same_writeable : it.writeable ≡ pl.writeable
    pub at_virt : it.virt ≡ (pl.base + t + it.frag_len) % 2 ^ 64
    pub places :
        (i : ℕ)
        → i < it.frag_len
        → MapsTo tables pl.pages pl.writeable ((pl.base + t + i) % 2 ^ 64) (it.frag + i)
    pub unwrapped : 0 < it.frag_len → it.frag + it.frag_len ≤ 2 ^ 64

  module _ (s : IsSmall tables) where
    fragment-Side :
        (pl : Place) (t frag partial : ℕ) (it : VirtIter)
        → Side pl t it
        → it.frag_len ≡ 0
        → ((i : ℕ)
            → i < partial
            → MapsTo tables pl.pages pl.writeable ((pl.base + t + i) % 2 ^ 64) (frag + i))
        → frag + partial ≤ 2 ^ 64
        → Side pl t (record it {
          frag = frag;
          frag_len = partial;
          remaining = it.remaining - partial;
          virt = (it.virt + partial) % 2 ^ 64;
        })
    fragment-Side pl t frag partial it d e bytes fits = record {
      same_pages = d.same_pages;
      for_user = d.for_user;
      same_writeable = d.same_writeable;
      at_virt = omega (arith, d.at_virt, e);
      places = bytes;
      unwrapped = λ l. fits;
    }

    page_byte :
        (base t i : ℕ) (it : VirtIter)
        → it.virt ≡ (base + t + it.frag_len) % 2 ^ 64
        → it.frag_len ≡ 0
        → i < min it.remaining (page_size - it.virt % page_size)
        → it.virt + i ≡ (base + t + i) % 2 ^ 64
    page_byte base t i it a e h = omega (arith, a, e, h)

    -- in an address space, the part of a page that is left
    page-Side :
        (base t dir phys : ℕ) (writeable : Bool) (it : VirtIter)
        → Side (record { pages = some dir; base = base; writeable = writeable }) t it
        → it.frag_len ≡ 0
        → pagedir_virt2phys tables dir it.virt it.user it.writeable ≡ done phys
        → Side
            (record { pages = some dir; base = base; writeable = writeable })
            t
            (advance_to it phys).1
    page-Side base t dir phys writeable it d e p = elim (Bool-cases (phys == 0)) [
      | inl z ↦ rw z (record {
        same_pages = d.same_pages;
        for_user = d.for_user;
        same_writeable = d.same_writeable;
        at_virt = d.at_virt;
        places = λ i h. absurd (omega (arith, e, h));
        unwrapped = λ h. absurd (omega (arith, e, h));
      })
      | inr z ↦
          let start : MapsTo tables (some dir) writeable it.virt phys = (
            ap (λ u. pagedir_virt2phys tables dir it.virt u writeable) (sym d.for_user)
                ∙ ap (λ w. pagedir_virt2phys tables dir it.virt it.user w) (sym d.same_writeable)
                ∙ p,
            ground (arith, z),
          ) in
          let bound = virt2phys-Bound tables s dir it.virt phys writeable start in
          rw z (
            fragment-Side (record { pages = some dir; base = base; writeable = writeable }) t phys
              (min it.remaining (page_size - it.virt % page_size)) it d e
              (λ i h.
                subst (λ v. MapsTo tables (some dir) writeable v (phys + i))
                  (page_byte base t i it d.at_virt e h)
                  (virt2phys-add tables dir it.virt i phys writeable (omega (arith, h)) start))
              (omega (arith, bound)))
    ]

    kernel-Side :
        (base t : ℕ) (writeable : Bool) (it : VirtIter)
        → Side (record { pages = none; base = base; writeable = writeable }) t it
        → it.frag_len ≡ 0
        → base + (t + it.remaining) ≤ 2 ^ 64
        → 0 < it.remaining
        → Side
            (record { pages = none; base = base; writeable = writeable })
            t
            (advance it it.virt it.remaining).1
    kernel-Side base t writeable it d e fits l =
        fragment-Side (record { pages = none; base = base; writeable = writeable }) t it.virt
          it.remaining it d e (λ i h. omega (arith, d.at_virt, e)) (omega (arith, d.at_virt, e))

    -- the iterator of a result
    abbrev left : Outcome (Bool × VirtIter) → VirtIter → VirtIter
    left (done r) it = r.1
    left panic it = it

    mapped-Side :
        (base t dir : ℕ) (writeable : Bool) (it it' : VirtIter) (more : Bool) (m : Outcome ℕ)
        → Side (record { pages = some dir; base = base; writeable = writeable }) t it
        → it.frag_len ≡ 0
        → pagedir_virt2phys tables dir it.virt it.user it.writeable ≡ m
        → (m >>= λ phys. done (advance_to it phys)) ≡ done (more, it')
        → Side (record { pages = some dir; base = base; writeable = writeable }) t it'
    mapped-Side base t dir writeable it it' more panic d e p q = absurd (cc)
    mapped-Side base t dir writeable it it' more (done phys) d e p q =
        subst (Side (record { pages = some dir; base = base; writeable = writeable }) t)
          (ap (λ o. left o it) q) (page-Side base t dir phys writeable it d e p)

    next_frag-Side :
        (pages : Option ℕ) (base t : ℕ) (writeable : Bool) (it it' : VirtIter) (more : Bool)
        → Fits pages base (t + it.remaining)
        → 0 < it.remaining
        → Side (record { pages = pages; base = base; writeable = writeable }) t it
        → it.frag_len ≡ 0
        → next_frag tables pages it ≡ done (more, it')
        → Side (record { pages = pages; base = base; writeable = writeable }) t it'
    unfolding next_frag
    next_frag-Side none base t writeable it it' more fits l d e p =
        subst (Side (record { pages = none; base = base; writeable = writeable }) t)
          (ap (λ o. left o it) p) (kernel-Side base t writeable it d e fits l)
    next_frag-Side (some dir) base t writeable it it' more fits l d e p =
        mapped-Side base t dir writeable it it' more
          (pagedir_virt2phys tables dir it.virt it.user it.writeable) d e refl p

    counted-Side :
        (pl : Place) (t n : ℕ) (it : VirtIter) → Side pl t it → Side pl t (record it { prior = n })
    counted-Side pl t n it d = record {
      same_pages = d.same_pages;
      for_user = d.for_user;
      same_writeable = d.same_writeable;
      at_virt = d.at_virt;
      places = d.places;
      unwrapped = d.unwrapped;
    }

    -- what `refill` leaves
    pub refill-Side :
        (pl : Place) (t length : ℕ) (it it' : VirtIter) (more : Bool)
        → Fits pl.pages pl.base length
        → t + it.frag_len + it.remaining ≡ length
        → Side pl t it
        → refill tables it ≡ done (more, it')
        → Side pl t it'
    unfolding refill virt_iter_next
    refill-Side pl t length it it' more fits n d p = elim (Bool-cases (it.frag_len == 0)) [
      | inr full ↦
          let same : refill tables it ≡ done (true, it) = rw full refl in
          subst (Side pl t) (ap (λ o. left o it) (sym same ∙ p)) d
      | inl empty ↦
          let it₁ : VirtIter = record it { prior = it.prior + it.frag_len } in
          elim (Bool-cases (it.remaining == 0)) [
            | inl none_left ↦
                let same : refill tables it ≡ done (false, it₁) = rw (empty, none_left) refl in
                subst (Side pl t) (ap (λ o. left o it) (sym same ∙ p))
                  (counted-Side pl t (it.prior + it.frag_len) it d)
            | inr more_left ↦
                let same : refill tables it ≡ next_frag tables it.pages it₁ =
                  rw (empty, more_left) refl in
                let rest : length ≡ t + it.remaining = ground (arith, n, empty) in
                next_frag-Side pl.pages pl.base t pl.writeable it₁ it' more
                  (subst (Fits pl.pages pl.base) rest fits) (ground (arith, more_left))
                  (counted-Side pl t (it.prior + it.frag_len) it d) (ground (arith, empty))
                  (ap (λ o. next_frag tables o it₁) (sym d.same_pages) ∙ sym same ∙ p)
          ]
    ]
