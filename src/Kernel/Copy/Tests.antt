-- ===== src/Kernel/Copy/Tests.antt =====
-- pcpy.c at page tables that map each page of a user to the sixteenth one after it, and the theorem there.
use camellia.Base.{
  arith, List, ◌%◌, ℕ, ◌+◌, ◌≡◌, refl, true, false, Option, none, some, Outcome, done, ltb,
}
use camellia.Kernel.Copy.{
  Entry, Copying, virt_cpy, virt_iter_new, copy_rounds, copy_round, fill_dest, fill_src, refill,
  virt_iter_next, next_frag, pagedir_virt2phys, get_entry, descend, addr_canonical, copy_part,
  consume, check_total, pcpy_to,
}
use camellia.Libk.Mem.{memcpy, align, words, bytes, byte_step, word_step}
use camellia.Kernel.Copy.Parts.{Part, copied, Tiles}
use camellia.Kernel.Copy.Refill.{IsSmall}
use camellia.Kernel.Copy.Total.{Ended, virt_cpy-Ended}

-- only the first four pages are mapped
abbrev shifted : (table index : ℕ) → Entry
shifted table index = record {
  present = ltb index 4;
  writeable = true;
  user = true;
  large = false;
  address = index % 512 + 16;
}

shifted-IsSmall : IsSmall shifted
shifted-IsSmall = record { small = λ table index. refl; width = λ table index. omega arith }

abbrev total_of : Option (Outcome (ℕ × (ℕ → ℕ))) → ℕ
total_of (some (done (n, mem))) = n
total_of _ = 0

-- six bytes across the end of a page, and five bytes of which two are in the last page
across : total_of (pcpy_to shifted (λ a. a) (some (some 4096)) 4094 100 6) ≡ 6
unfolding pcpy_to virt_cpy virt_iter_new copy_rounds copy_round fill_dest fill_src refill
    virt_iter_next next_frag pagedir_virt2phys get_entry descend addr_canonical copy_part consume
    check_total
across = refl

faulting : total_of (pcpy_to shifted (λ a. a) (some (some 4096)) 16382 100 5) ≡ 2
unfolding pcpy_to virt_cpy virt_iter_new copy_rounds copy_round fill_dest fill_src refill
    virt_iter_next next_frag pagedir_virt2phys get_entry descend addr_canonical copy_part consume
    check_total
faulting = refl

-- the first byte of the six, and the first one in the next page
abbrev byte_of : Option (Outcome (ℕ × (ℕ → ℕ))) → ℕ → ℕ
byte_of (some (done (n, mem))) a = mem a
byte_of _ a = 0

bytes_across :
    let after = byte_of (pcpy_to shifted (λ a. a) (some (some 4096)) 4094 100 6) in
    (after 69630 ≡ 100) × (after 69632 ≡ 102)
unfolding pcpy_to virt_cpy virt_iter_new copy_rounds copy_round fill_dest fill_src refill
    virt_iter_next next_frag pagedir_virt2phys get_entry descend addr_canonical copy_part consume
    check_total memcpy align words bytes byte_step word_step
bytes_across = (refl, refl)

virt_cpy-Ended_example :
    (c : Copying) × (virt_cpy shifted (λ a. a) (some 4096) 16382 none 100 5 ≡ some (done c))
    × Ended 5 c
    × ((ps : List Part) × (c.mem ≡ copied ps (λ a. a))
        × Tiles shifted
            (record { pages = some 4096; base = 16382; writeable = true })
            (record { pages = none; base = 100; writeable = false })
            0
            ps
            c.total)
virt_cpy-Ended_example =
    virt_cpy-Ended shifted 5 (λ a. a) (some 4096) 16382 none 100 shifted-IsSmall (omega arith)
      (omega arith) (omega arith) (omega arith)
