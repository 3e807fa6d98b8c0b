-- ===== src/Libk/Fsutil/Tests.antt =====
-- `fs_normslice` on a file of 100 bytes.
use camellia.Base.{ℕ, ◌-◌, ◌^◌, ◌≡◌, refl, true, false, Outcome, done, arith}
use camellia.Libk.Fsutil.{slice_end, slice_at, normslice}
use camellia.Libk.Fsutil.Bounds.{normslice_lem}

abbrev run : ℕ → ℕ → Outcome (ℕ × ℕ)
run offset length = normslice offset length 100 false

-- read(10), read(-11), past the end, and before the start
runs :
    (run 10 200 ≡ done (10, 90))
    × (run (2 ^ 64 - 11) 5 ≡ done (90, 5))
    × (run 200 5 ≡ done (100, 0))
    × (run (2 ^ 64 - 300) 5 ≡ done (100, 0))
unfolding normslice slice_at slice_end
runs = (refl, refl, refl, refl)

-- write(-1) appends
normslice_lem_example : normslice (2 ^ 64 - 1) 5 100 true ≡ done (100, 5)
normslice_lem_example = normslice_lem (2 ^ 64 - 1) 5 100 true (omega arith) (omega arith)
