-- ===== src/Kernel/Copy/Total.antt =====
-- virt_cpy ends, and copies all of the bytes unless it meets a page that is not there.

use mathlib.Core.Path.{subst}
use camellia.Base.{
  ℕ, zero, suc, ◌+◌, ◌<◌, ◌≡◌, ◌∙◌, ◌⊎◌, inl, inr, refl, sym, ap, Bool, true, false, Option, some,
  ◌==◌, done, arith, min, ◌^◌, List, [], ◌∷◌,
}
use camellia.Libk.Mem.{memcpy}
use camellia.Kernel.Copy.{
  Entry, VirtIter, Copying, consume, copy_part, fill_src, fill_dest, copy_round, copy_rounds,
  more_rounds, start_copy, is_faulted, check_total, virt_cpy, virt_iter_new,
}
use camellia.Kernel.Copy.Refill.{IsSmall, Refilled, RefilledBy, refill-Refilled}
use camellia.Kernel.Copy.Bytes.{Place, Fits}
use camellia.Kernel.Copy.Side.{Side, refill-Side}
use camellia.Kernel.Copy.Parts.{Part, copied, Carries, Tiles, consume-Side}

-- at the end: all bytes, or fewer and a fault
abbrev pub Ended : (length : ℕ) → Copying → Type 0
Ended length c =
    ((c.total ≡ length) × (is_faulted c ≡ false)) ⊎ ((c.total < length) × (is_faulted c ≡ true))

module _ (tables : (table index : ℕ) → Entry) (length : ℕ) (to from : Place) where
  -- While bytes are copied, each iterator has the rest, and its fragment is in its place.
  record Going (c : Copying) : Type 0 where
    to_write : c.total + c.dest.frag_len + c.dest.remaining ≡ length
    to_read : c.total + c.src.frag_len + c.src.remaining ≡ length
    writes : c.dest.error ≡ false
    reads : c.src.error ≡ false
    dest_side : Side tables to c.total c.dest
    src_side : Side tables from c.total c.src

  -- from `c`, one part has been copied
  abbrev Step : (c c' : Copying) → Type 0
  Step c c' =
      (p : Part) × (c'.mem ≡ memcpy c.mem p.dest p.src p.size)
      × (c'.total ≡ c.total + p.size)
      × Carries tables to from c.total p

  -- the state after a round
  After : Copying → Bool × Copying → Type 0
  After c (true, c') = Going c' × (c.total < c'.total) × Step c c'
  After c (false, c') = Ended length c' × (c'.mem ≡ c.mem) × (c'.total ≡ c.total)

  -- from `c`, parts have been copied one after the other
  abbrev pub Copied : (c c' : Copying) → Type 0
  Copied c c' =
      (ps : List Part) × (c'.mem ≡ copied ps c.mem) × Tiles tables to from c.total ps c'.total

  copy_part-After :
      (c : Copying)
      → Going c
      → 0 < c.dest.frag_len
      → 0 < c.src.frag_len
      → Going (copy_part c) × (c.total < (copy_part c).total) × Step c (copy_part c)
  unfolding copy_part consume
  copy_part-After c g d e =
      let partial = min c.src.frag_len c.dest.frag_len in
      (
        record {
          to_write = omega (arith, g.to_write);
          to_read = omega (arith, g.to_read);
          writes = g.writes;
          reads = g.reads;
          dest_side = consume-Side tables to c.total partial c.dest g.dest_side d (omega arith);
          src_side = consume-Side tables from c.total partial c.src g.src_side e (omega arith);
        },
        omega arith,
        (
          record { dest = c.dest.frag; src = c.src.frag; size = partial },
          refl,
          refl,
          record {
            some_bytes = omega arith;
            writes = λ i h. g.dest_side.places i (omega (arith, h));
            reads = λ i h. g.src_side.places i (omega (arith, h));
          },
        ),
      )

  fill_src-After :
      (c : Copying) (r : Bool × VirtIter)
      → Going c
      → 0 < c.dest.frag_len
      → RefilledBy c.src r
      → Side tables from c.total r.1
      → After c (fill_src c r)
  unfolding fill_src RefilledBy Refilled After
  fill_src-After c (true, it) g d f side =
      copy_part-After (record c { src = it })
        (record {
          to_write = g.to_write;
          to_read = omega (arith, g.to_read, f);
          writes = g.writes;
          reads = f.0 ∙ g.reads;
          dest_side = g.dest_side;
          src_side = side;
        })
        d f.1
  fill_src-After c (false, it) g d f side = elim f.3 [
    | inl p ↦
        (inl (omega (arith, g.to_read, f.0, p.0), rw (p.1, g.reads, g.writes) refl), refl, refl)
    | inr p ↦ (inr (omega (arith, g.to_read, f.0, p.0), rw p.1 refl), refl, refl)
  ]

  module _ (s : IsSmall tables) (fits : Fits to.pages to.base length)
      (fits' : Fits from.pages from.base length) where
    fill_dest-After :
        (c : Copying) (r : Bool × VirtIter)
        → Going c
        → RefilledBy c.dest r
        → Side tables to c.total r.1
        → (a : Bool × Copying) × (fill_dest tables c r ≡ done a) × After c a
    unfolding fill_dest RefilledBy Refilled After
    fill_dest-After c (true, it) g f side =
        let (r, p, q) = refill-Refilled tables s c.src in
        (
          fill_src (record c { dest = it }) r,
          rw p refl,
          fill_src-After (record c { dest = it }) r
              (record {
                to_write = omega (arith, g.to_write, f.2);
                to_read = g.to_read;
                writes = f.0 ∙ g.writes;
                reads = g.reads;
                dest_side = side;
                src_side = g.src_side;
              })
              f.1 q
              (refill-Side tables s from c.total length c.src r.1 r.0 fits' g.to_read g.src_side p),
        )
    fill_dest-After c (false, it) g f side = (
      (false, record c { dest = it }),
      refl,
      elim f.3 [
        | inl p ↦ (
          inl (omega (arith, g.to_write, f.0, p.0), rw (p.1, g.reads, g.writes) refl),
          refl,
          refl,
        )
        | inr p ↦ (inr (omega (arith, g.to_write, f.0, p.0), rw (p.1, g.reads) refl), refl, refl)
      ],
    )

    copy_round-After :
        (c : Copying) → Going c → (a : Bool × Copying) × (copy_round tables c ≡ done a) × After c a
    unfolding copy_round
    copy_round-After c g =
        let (r, p, q) = refill-Refilled tables s c.dest in
        let side =
          refill-Side tables s to c.total length c.dest r.1 r.0 fits g.to_write g.dest_side p in
        rw p (fill_dest-After c r g q side)

    Step-Copied : (c c' d : Copying) → Step c c' → Copied c' d → Copied c d
    Step-Copied c c' d (p, mem, total, carries) (ps, rest, tiles) = (
      p ∷ ps,
      rest ∙ ap (copied ps) mem,
      (carries, subst (λ n. Tiles tables to from n ps d.total) total tiles),
    )

    more_rounds-Ended :
        (fuel : ℕ) (c : Copying) (a : Bool × Copying)
        → length < c.total + suc fuel
        → After c a
        → ((c : Copying)
            → Going c
            → length < c.total + fuel
            → (c' : Copying) × (copy_rounds tables fuel c ≡ some (done c'))
              × Ended length c'
              × Copied c c')
        → (c' : Copying) × (more_rounds (done a) (copy_rounds tables fuel) ≡ some (done c'))
          × Ended length c'
          × Copied c c'
    unfolding After
    more_rounds-Ended fuel c (true, c') h (g, more, step) k =
        let (d, run, ended, rest) = k c' g (omega (arith, h, more)) in
        (d, run, ended, Step-Copied c c' d step rest)
    more_rounds-Ended fuel c (false, c') h (ended, mem, total) k =
        (c', refl, ended, ([], mem, sym total))

    copy_rounds-Ended :
        (fuel : ℕ) (c : Copying)
        → Going c
        → length < c.total + fuel
        → (c' : Copying) × (copy_rounds tables fuel c ≡ some (done c'))
          × Ended length c'
          × Copied c c'
    unfolding copy_rounds
    copy_rounds-Ended zero c g h = absurd (omega (arith, g.to_write))
    copy_rounds-Ended (suc fuel) c g h =
        let (a, p, q) = copy_round-After c g in
        rw p (more_rounds-Ended fuel c a h q (copy_rounds-Ended fuel))

check_total-Ended : (length : ℕ) (c : Copying) → Ended length c → check_total length c ≡ done c
unfolding check_total
check_total-Ended length c (inl p) =
    let e : (c.total == length) ≡ true = ground (arith, p.0) in rw (p.1, e) refl
check_total-Ended length c (inr p) =
    let e : (c.total == length) ≡ false = ground (arith, p.0) in rw (p.1, e) refl

start-Side :
    (tables : (table index : ℕ) → Entry) (pages : Option ℕ) (base length : ℕ) (writeable : Bool)
    → base < 2 ^ 64
    → Side tables
        (record { pages = pages; base = base; writeable = writeable })
        0
        (virt_iter_new base length pages true writeable)
unfolding virt_iter_new
start-Side tables pages base length writeable h = record {
  same_pages = refl;
  for_user = refl;
  same_writeable = refl;
  at_virt = omega (arith, h);
  places = λ i l. absurd (omega (arith, l));
  unwrapped = λ l. absurd (omega (arith, l));
}

-- `virt_cpy` between any two address spaces without large pages, or the kernel's memory where the bytes
-- do not go past its end, ends and passes its assertions. It copies all bytes and meets no fault, or
-- fewer and meets one; and the memory is what copying, one after the other, adjacent parts makes of
-- it that hold these bytes and in which each byte goes from the physical address that its source is mapped
-- to, to the one that its destination is mapped to, for the user and at the destination for writing.
pub virt_cpy-Ended :
    (tables : (table index : ℕ) → Entry) (length : ℕ) (mem : ℕ → ℕ) (dest_pages : Option ℕ)
    (dest : ℕ) (src_pages : Option ℕ) (src : ℕ)
    → IsSmall tables
    → dest < 2 ^ 64
    → src < 2 ^ 64
    → Fits dest_pages dest length
    → Fits src_pages src length
    → (c : Copying) × (virt_cpy tables mem dest_pages dest src_pages src length ≡ some (done c))
      × Ended length c
      × ((ps : List Part) × (c.mem ≡ copied ps mem)
          × Tiles tables
              (record { pages = dest_pages; base = dest; writeable = true })
              (record { pages = src_pages; base = src; writeable = false })
              0
              ps
              c.total)
unfolding virt_cpy virt_iter_new
virt_cpy-Ended tables length mem dest_pages dest src_pages src s hd hs fits fits' =
    let (c, p, q, r) =
      copy_rounds-Ended tables length (record { pages = dest_pages; base = dest; writeable = true })
        (record { pages = src_pages; base = src; writeable = false }) s fits fits' (suc length)
        (start_copy mem dest_pages dest src_pages src length)
        (record {
          to_write = omega arith;
          to_read = omega arith;
          writes = refl;
          reads = refl;
          dest_side = start-Side tables dest_pages dest length true hd;
          src_side = start-Side tables src_pages src length false hs;
        })
        (omega arith) in
    (c, rw (p, check_total-Ended length c q) refl, q, r)
