-- ===== src/Kernel/Copy/Refill.antt =====
-- The iterators of virt_cpy: one that is empty gets the next part, or stops at the end or at a fault.
use native.Mathlib.Decide.{dec_le}
use camellia.Base.{
  ℕ, ◌+◌, ◌*◌, ◌^◌, ◌<◌, ◌≡◌, ◌⊎◌, inl, inr, refl, Bool, true, false, Option, none, some, ◌==◌,
  Outcome, done, panic, arith, Bool-cases,
}
use camellia.Kernel.Copy.{
  Entry, VirtIter, descend, walk_level, get_entry, pagedir_virt2phys, phys_of, advance_to,
  next_frag, virt_iter_next, refill, addr_canonical,
}

-- no entry is a large page, and an address has the 40 bits that an entry has for it
pub record IsSmall (tables : (table index : ℕ) → Entry) : Type 0 where
  pub small : (table index : ℕ) → (tables table index).large ≡ false
  pub width : (table index : ℕ) → (tables table index).address < 2 ^ 40

-- code that does not panic
abbrev Runs {ℓ} : {A : Type ℓ} → Outcome A → Type ℓ
Runs {A = A} m = (a : A) × (m ≡ done a)

walk_level-Runs :
    (m : Outcome (Option ℕ)) (k : ℕ → Outcome (Option Entry))
    → Runs m
    → ((t : ℕ) → Runs (k t))
    → Runs (walk_level m k)
walk_level-Runs (done none) k r h = (none, refl)
walk_level-Runs (done (some t)) k r h = h t
walk_level-Runs panic k r h = absurd (cc)

-- the iterator after `refill`, when it goes on and when it does not
unfoldable pub Refilled : Bool → VirtIter → VirtIter → Type 0
Refilled true it it' =
    (it'.error ≡ it.error)
    × (0 < it'.frag_len)
    × (it'.frag_len + it'.remaining ≡ it.frag_len + it.remaining)
Refilled false it it' =
    (it.frag_len ≡ 0)
    × (it'.frag_len ≡ 0)
    × (it'.remaining ≡ it.remaining)
    × ((it.remaining ≡ 0) × (it'.error ≡ it.error) ⊎ (0 < it.remaining) × (it'.error ≡ true))

descend-Runs : (e : Entry) → e.large ≡ false → Runs (descend e)
unfolding descend
descend-Runs e h = elim (Bool-cases e.present) [
  | inl p ↦ (some (e.address * 2 ^ 12), rw (p, h) refl)
  | inr p ↦ (none, rw p refl)
]

module _ (tables : (table index : ℕ) → Entry) (s : IsSmall tables) where
  get_entry-Runs : (dir virt : ℕ) → Runs (get_entry tables dir virt)
  unfolding get_entry
  get_entry-Runs dir virt = elim (Bool-cases (addr_canonical virt)) [
    | inr e ↦ (none, rw e refl)
    | inl e ↦ rw e (
        walk_level-Runs _ _ (descend-Runs _ (s.small _ _)) (λ pdpt.
          walk_level-Runs _ _ (descend-Runs _ (s.small _ _))
            (λ pd. walk_level-Runs _ _ (descend-Runs _ (s.small _ _)) (λ pt. (_, refl)))))
  ]

  virt2phys-Runs :
      (dir virt : ℕ) (user writeable : Bool)
      → Runs (pagedir_virt2phys tables dir virt user writeable)
  unfolding pagedir_virt2phys
  virt2phys-Runs dir virt user writeable =
      let (e, p) = get_entry-Runs dir virt in (phys_of e virt user writeable, rw p refl)

-- a step of an iterator that was empty
unfoldable pub RefilledBy : VirtIter → Bool × VirtIter → Type 0
RefilledBy it (more, it') = Refilled more it it'

advance_to-Refilled :
    (it : VirtIter) (phys : ℕ)
    → it.frag_len ≡ 0
    → 0 < it.remaining
    → RefilledBy it (advance_to (record it { prior = it.prior + it.frag_len }) phys)
unfolding RefilledBy Refilled
advance_to-Refilled it phys e h = elim (Bool-cases (phys == 0)) [
  | inl z ↦ rw z (e, e, refl, inr (h, refl))
  | inr z ↦ rw z (refl, omega arith, omega arith)
]

module _ (tables : (table index : ℕ) → Entry) (s : IsSmall tables) where
  next_frag-Refilled :
      (pages : Option ℕ) (it : VirtIter)
      → it.frag_len ≡ 0
      → 0 < it.remaining
      → (r : Bool × VirtIter) × (next_frag tables pages
            (record it { prior = it.prior + it.frag_len })
          ≡ done r)
        × RefilledBy it r
  unfolding next_frag RefilledBy Refilled
  next_frag-Refilled none it e h = (_, refl, (refl, h, omega arith))
  next_frag-Refilled (some dir) it e h =
      let (phys, p) = virt2phys-Runs tables s dir it.virt it.user it.writeable in
      (
        advance_to (record it { prior = it.prior + it.frag_len }) phys,
        rw p refl,
        advance_to-Refilled it phys e h,
      )

  pub refill-Refilled :
      (it : VirtIter) → (r : Bool × VirtIter) × (refill tables it ≡ done r) × RefilledBy it r
  unfolding refill virt_iter_next RefilledBy Refilled
  refill-Refilled it = elim (dec_le it.frag_len 0) [
    | no p ↦
        let full : (it.frag_len == 0) ≡ false = ground arith in
        ((true, it), rw full refl, (refl, omega arith, refl))
    | yes p ↦
        let empty : (it.frag_len == 0) ≡ true = ground arith in
        elim (dec_le it.remaining 0) [
          | no q ↦
              let more : (it.remaining == 0) ≡ false = ground arith in
              rw (empty, more) (next_frag-Refilled it.pages it (omega arith) (omega arith))
          | yes q ↦
              let none_left : (it.remaining == 0) ≡ true = ground arith in
              (
                (false, record it { prior = it.prior + it.frag_len }),
                rw (empty, none_left) refl,
                (omega arith, omega arith, refl, inl (omega arith, refl)),
              )
        ]
  ]
