-- ===== src/Kernel/Syscalls/Memory/Flag.antt =====
-- The loop of `_sys_memflag` in src/kernel/syscalls.c.
use native.Mathlib.Decide.{dec_lt}
use camellia.Base.{
  ℕ, zero, suc, ◌+◌, ◌-◌, ◌*◌, ◌/◌, ◌%◌, ◌^◌, ◌<◌, ◌≤◌, ◌≡◌, refl, ◌∙◌, Bool, true, false, Option,
  none, some, done, panic, ltb, if◌then◌else◌, arith,
}
use camellia.Kernel.State.{Kernel, M, ◌>>=◌, skip}
use camellia.Kernel.Machine.{Machine}
use camellia.Kernel.Runs.{runs, runs_then}
use camellia.Kernel.Syscalls.Memory.{map_page, map_missing, map_pages}

-- code that returns
unfoldable pub Returns : {A : Type 0} → M A → Type 0
Returns {A} m = (k : Kernel) → (a : A) × (k' : Kernel) × (m k ≡ done (a, k'))

Returns-bind :
    {A B : Type 0} (m : M A) (f : A → M B)
    → Returns m
    → ((a : A) → Returns (f a))
    → Returns (m >>= f)
unfolding Returns
Returns-bind m f first rest k =
    let (a, k1, e) = first k in let (b, k2, r) = rest a k1 in (b, k2, runs m f e ∙ r)

Returns-skip : Returns skip
unfolding Returns
Returns-skip k = (tt, k, refl)

-- the operations of the page tables that the loop calls return
pub record IsTotal (machine : Machine) : Type 0 where
  pub kern : (pages page : ℕ) → Returns (machine.is_kern pages page)
  pub phys : (pages page : ℕ) → Returns (machine.virt2phys pages page)
  pub mapped : (pages page : ℕ) → Returns (machine.map_new pages page)

module _ (machine : Machine) (total : IsTotal machine) (pages : ℕ) where
  map_missing-Returns : (page : ℕ) (o : Option ℕ) → Returns (map_missing machine pages page o)
  unfolding map_missing
  map_missing-Returns page none = total.mapped pages page
  map_missing-Returns page (some phys) = Returns-skip

  map_present-Returns :
      (page : ℕ) (kern : Bool)
      → Returns
          (if kern then skip else (machine.virt2phys pages page >>= map_missing machine pages page))
  map_present-Returns page true = Returns-skip
  map_present-Returns page false =
      Returns-bind (machine.virt2phys pages page) (map_missing machine pages page)
        (total.phys pages page) (map_missing-Returns page)

  map_page-Returns : (page : ℕ) → Returns (map_page machine pages page)
  unfolding map_page
  map_page-Returns page =
      Returns-bind (machine.is_kern pages page) _ (total.kern pages page) (map_present-Returns page)

  -- the loop at its end and before it
  map_pages_end :
      (fuel addr len off : ℕ)
      → len ≤ off
      → Returns (map_pages (suc fuel) machine pages addr len off)
  unfolding map_pages
  map_pages_end fuel addr len off le =
      let e : ltb off len ≡ false = ground arith in simp (map_pages, e) Returns-skip

  map_pages_step :
      (fuel addr len off : ℕ)
      → off < len
      → Returns (map_pages fuel machine pages addr len ((off + 4096) % 2 ^ 64))
      → Returns (map_pages (suc fuel) machine pages addr len off)
  unfolding map_pages
  map_pages_step fuel addr len off lt rest =
      let e : ltb off len ≡ true = ground arith in
      simp (map_pages, e)
        (Returns-bind (map_page machine pages ((addr + off) % 2 ^ 64)) _
          (map_page-Returns ((addr + off) % 2 ^ 64)) (λ u. rest))

  map_from :
      (n addr len off : ℕ)
      → len ≤ 2 ^ 64 - 4096
      → len ≤ off + n * 4096
      → Returns (map_pages (suc n) machine pages addr len off)
  map_from zero addr len off small le = map_pages_end zero addr len off (omega arith)
  map_from (suc n) addr len off small le = elim (dec_lt off len) [
    | no past ↦ map_pages_end (suc n) addr len off (omega arith)
    | yes lt ↦
        let wrap : (off + 4096) % 2 ^ 64 ≡ off + 4096 = omega arith in
        map_pages_step (suc n) addr len off lt
          (rw wrap (map_from n addr len (off + 4096) small (omega arith)))
  ]

  -- The loop of `_sys_memflag` over a length of at most 2^64 - 4096 ends with the fuel that it has,
  -- if the operations of the page tables return.
  map_pages-Returns :
      (addr len : ℕ)
      → len ≤ 2 ^ 64 - 4096
      → Returns (map_pages (len / 4096 + 2) machine pages addr len 0)
  map_pages-Returns addr len small =
      let fuel : len / 4096 + 2 ≡ suc (len / 4096 + 1) = omega arith in
      rw fuel (map_from (len / 4096 + 1) addr len 0 small (omega arith))

  never_from :
      (fuel addr len off : ℕ) (k : Kernel)
      → 2 ^ 64 - 4096 < len
      → off % 4096 ≡ 0
      → off < 2 ^ 64
      → map_pages fuel machine pages addr len off k ≡ panic
  unfolding map_pages Returns
  never_from zero addr len off k large even lt = refl
  never_from (suc fuel) addr len off k large even lt =
      let e : ltb off len ≡ true = ground arith in
      let (u, k1, r) = map_page-Returns ((addr + off) % 2 ^ 64) k in
      let rest =
        never_from fuel addr len ((off + 4096) % 2 ^ 64) k1 large (omega arith) (omega arith) in
      simp (map_pages, e) (runs_then (map_page machine pages ((addr + off) % 2 ^ 64)) _ r ∙ rest)

  -- The loop of `_sys_memflag` over a length above 2^64 - 4096 runs out of any fuel, if the operations
  -- of the page tables return: its 64-bit offset starts again.
  map_pages_never :
      (fuel addr len : ℕ) (k : Kernel)
      → 2 ^ 64 - 4096 < len
      → map_pages fuel machine pages addr len 0 k ≡ panic
  map_pages_never fuel addr len k large =
      never_from fuel addr len 0 k large (omega arith) (omega arith)
