-- ===== src/Kernel/Copy/Parts.antt =====
-- A copy between address spaces as a list of copies of physical memory.
use mathlib.Core.Path.{subst}
use camellia.Base.{ℕ, ◌+◌, ◌%◌, ◌^◌, ◌<◌, ◌≤◌, ◌≡◌, List, [], ◌∷◌, arith}
use camellia.Libk.Mem.{memcpy}
use camellia.Kernel.Copy.{Entry, VirtIter, consume}
use camellia.Kernel.Copy.Bytes.{Place, MapsTo}
use camellia.Kernel.Copy.Side.{Side}

pub record Part : Type 0 where
  pub dest : ℕ
  pub src : ℕ
  pub size : ℕ

-- the memory after the parts are copied, one after the other
abbrev pub copied : List Part → (mem : ℕ → ℕ) → ℕ → ℕ
copied [] mem = mem
copied (p ∷ ps) mem = copied ps (memcpy mem p.dest p.src p.size)

module _ (tables : (table index : ℕ) → Entry) where
  -- A part that starts `off` bytes from the two places: each byte goes to the physical address that its
  -- destination is mapped to, from the one that its source is mapped to.
  pub record Carries (to from : Place) (off : ℕ) (p : Part) : Type 0 where
    pub some_bytes : 0 < p.size
    pub writes :
        (i : ℕ)
        → i < p.size
        → MapsTo tables to.pages to.writeable ((to.base + off + i) % 2 ^ 64) (p.dest + i)
    pub reads :
        (i : ℕ)
        → i < p.size
        → MapsTo tables from.pages from.writeable ((from.base + off + i) % 2 ^ 64) (p.src + i)

  -- the parts follow each other from `off` to `total`
  abbrev pub Tiles : (to from : Place) (off : ℕ) → List Part → (total : ℕ) → Type 0
  Tiles to from off [] total = off ≡ total
  Tiles to from off (p ∷ ps) total = Carries to from off p × Tiles to from (off + p.size) ps total

  pub consume-Side :
      (pl : Place) (t partial : ℕ) (it : VirtIter)
      → Side tables pl t it
      → 0 < it.frag_len
      → partial ≤ it.frag_len
      → Side tables pl (t + partial) (consume it partial)
  unfolding consume
  consume-Side pl t partial it d l h = record {
    same_pages = d.same_pages;
    for_user = d.for_user;
    same_writeable = d.same_writeable;
    at_virt = omega (arith, d.at_virt, h);
    places = λ i k.
        let virt : (pl.base + t + (partial + i)) % 2 ^ 64 ≡ (pl.base + (t + partial) + i) % 2 ^ 64 =
          omega arith in
        let phys : it.frag + (partial + i) ≡ (it.frag + partial) % 2 ^ 64 + i =
          omega (arith, d.unwrapped l, h, k) in
        subst (λ a. MapsTo tables pl.pages pl.writeable a ((it.frag + partial) % 2 ^ 64 + i)) virt
          (subst (MapsTo tables pl.pages pl.writeable ((pl.base + t + (partial + i)) % 2 ^ 64)) phys
            (d.places (partial + i) (omega (arith, h, k))));
    unwrapped = λ k. omega (arith, d.unwrapped l, h, k);
  }
