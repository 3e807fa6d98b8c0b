-- ===== src/Kernel/Syscalls/Lengths.antt =====
-- The lengths of paths in src/kernel/syscalls.c.
use camellia.Base.{ℕ, ◌*◌, ◌^◌, ◌<◌, ◌≤◌, ◌≡◌, false, arith}
use camellia.Kernel.Malloc.{kmalloc_pages}
use camellia.Kernel.Syscalls.{is_too_long}

-- A path of a negative length passes the test of its length, and the buffer that it gets is shorter
-- than this length is as a `size_t`.
path_buffer_overflow :
    (len : ℕ)
    → 2 ^ 63 ≤ len
    → len < 2 ^ 64
    → (is_too_long len ≡ false) × (kmalloc_pages len * 4096 < len)
unfolding kmalloc_pages
path_buffer_overflow len lo hi = (ground arith, omega arith)
