-- ===== src/Kernel/Copy/Bytes.antt =====
-- The physical addresses of the bytes of a page: each one is as far from the start as its virtual address.

use camellia.Base.{
  ℕ, ◌+◌, ◌/◌, ◌%◌, ◌^◌, ◌<◌, ◌≤◌, ◌≡◌, ◌∙◌, inl, inr, refl, ap, Bool, true, Option, none, some,
  ◌&&◌, ◌||◌, not, Outcome, done, panic, arith, ◌>>=◌, Bool-cases,
}
use camellia.Kernel.Copy.{
  Entry, get_entry, pagedir_virt2phys, phys_of, addr_canonical, walk_level, descend,
}
use camellia.Kernel.Copy.Refill.{IsSmall}

-- one side of a copy: an address space, or none for the kernel's memory, and where the bytes start
pub record Place : Type 0 where
  pub pages : Option ℕ
  pub base : ℕ
  pub writeable : Bool

-- the bytes have addresses of 64 bits, which in the kernel's memory do not wrap around
abbrev pub Fits : Option ℕ → (base length : ℕ) → Type 0
Fits none base length = base + length ≤ 2 ^ 64
Fits (some dir) base length = base < 2 ^ 64

module _ (tables : (table index : ℕ) → Entry) where
  -- the virtual address is that of the byte at `phys`
  abbrev pub MapsTo : Option ℕ → (writeable : Bool) → (virt phys : ℕ) → Type 0
  MapsTo none writeable virt phys = phys ≡ virt
  MapsTo (some dir) writeable virt phys =
      (pagedir_virt2phys tables dir virt true writeable ≡ done phys) × (0 < phys)

  same_entry :
      (dir virt i : ℕ)
      → virt % 4096 + i < 4096
      → get_entry tables dir (virt + i) ≡ get_entry tables dir virt
  unfolding get_entry addr_canonical
  same_entry dir virt i h =
      let e48 : (virt + i) / 2 ^ 48 ≡ virt / 2 ^ 48 = omega (arith, h) in
      let e39 : (virt + i) / 2 ^ 39 ≡ virt / 2 ^ 39 = omega (arith, h) in
      let e30 : (virt + i) / 2 ^ 30 ≡ virt / 2 ^ 30 = omega (arith, h) in
      let e21 : (virt + i) / 2 ^ 21 ≡ virt / 2 ^ 21 = omega (arith, h) in
      let e12 : (virt + i) / 2 ^ 12 ≡ virt / 2 ^ 12 = omega (arith, h) in
      rw (e48, e39, e30, e21, e12) refl

  -- in a page, a byte is as far from the start as its virtual address
  phys_of-add :
      (e : Option Entry) (virt i : ℕ) (user writeable : Bool)
      → virt % 4096 + i < 4096
      → 0 < phys_of e virt user writeable
      → phys_of e (virt + i) user writeable ≡ phys_of e virt user writeable + i
  phys_of-add none virt i user writeable h l = absurd (omega (arith, l))
  phys_of-add (some e) virt i user writeable h l =
      elim (Bool-cases (not e.present || user && not e.user || writeable && not e.writeable)) [
        | inl denied ↦ absurd (none_there denied l)
        | inr here ↦ rw here (omega (arith, h))
      ]
    where
      none_there :
          (not e.present || user && not e.user || writeable && not e.writeable) ≡ true
          → 0 < phys_of (some e) virt user writeable
          → ⊥
      none_there denied l = ground (arith, denied, l)

  mapped-add :
      (m : Outcome (Option Entry)) (virt i phys : ℕ) (writeable : Bool)
      → virt % 4096 + i < 4096
      → 0 < phys
      → (m >>= λ e. done (phys_of e virt true writeable)) ≡ done phys
      → (m >>= λ e. done (phys_of e (virt + i) true writeable)) ≡ done (phys + i)
  mapped-add panic virt i phys writeable h l p = cc
  mapped-add (done e) virt i phys writeable h l p =
      let at : phys_of e virt true writeable ≡ phys = cc in
      let there : 0 < phys_of e virt true writeable = omega (arith, at, l) in
      ap done (phys_of-add e virt i true writeable h there ∙ ap (λ n. n + i) at)

  pub virt2phys-add :
      (dir virt i phys : ℕ) (writeable : Bool)
      → virt % 4096 + i < 4096
      → MapsTo (some dir) writeable virt phys
      → MapsTo (some dir) writeable (virt + i) (phys + i)
  unfolding pagedir_virt2phys
  virt2phys-add dir virt i phys writeable h (e, l) = (
    rw (same_entry dir virt i h)
        (mapped-add (get_entry tables dir virt) virt i phys writeable h l e),
    omega (arith, l),
  )

  -- an entry that is found has an address of 40 bits
  record Wide (m : Outcome (Option Entry)) : Type 0 where
    wide : (e : Entry) → m ≡ done (some e) → e.address < 2 ^ 40

  walk_level-Wide :
      (m : Outcome (Option ℕ)) (k : ℕ → Outcome (Option Entry))
      → ((t : ℕ) → Wide (k t))
      → Wide (walk_level m k)
  walk_level-Wide (done none) k h = record { wide = λ e p. absurd (cc) }
  walk_level-Wide (done (some t)) k h = h t
  walk_level-Wide panic k h = record { wide = λ e p. absurd (cc) }

  found-Wide : (e : Entry) → e.address < 2 ^ 40 → Wide (done (some e))
  found-Wide e h = record { wide = λ d p. (let same : d ≡ e = cc in ground (arith, same, h)) }

  module _ (s : IsSmall tables) where
    get_entry-Wide : (dir virt : ℕ) → Wide (get_entry tables dir virt)
    unfolding get_entry
    get_entry-Wide dir virt = elim (Bool-cases (addr_canonical virt)) [
      | inr e ↦ rw e (record { wide = λ d p. absurd (cc) })
      | inl e ↦ rw e (
          walk_level-Wide (descend (tables dir (virt / 2 ^ 39 % 512))) _ (λ pdpt.
            walk_level-Wide (descend (tables pdpt (virt / 2 ^ 30 % 512))) _ (λ pd.
              walk_level-Wide (descend (tables pd (virt / 2 ^ 21 % 512))) _ (λ pt.
                found-Wide (tables pt (virt / 2 ^ 12 % 512)) (s.width pt (virt / 2 ^ 12 % 512))))))
    ]

    mapped-Bound :
        (m : Outcome (Option Entry)) (virt phys : ℕ) (writeable : Bool)
        → Wide m
        → (m >>= λ e. done (phys_of e virt true writeable)) ≡ done phys
        → phys < 2 ^ 52
    mapped-Bound panic virt phys writeable w p = absurd (cc)
    mapped-Bound (done none) virt phys writeable w p = ground (arith, p)
    mapped-Bound (done (some e)) virt phys writeable w p = ground (arith, w.wide e refl, p)

    pub virt2phys-Bound :
        (dir virt phys : ℕ) (writeable : Bool)
        → MapsTo (some dir) writeable virt phys
        → phys < 2 ^ 52
    unfolding pagedir_virt2phys
    virt2phys-Bound dir virt phys writeable (e, l) =
        mapped-Bound (get_entry tables dir virt) virt phys writeable (get_entry-Wide dir virt) e
