-- ===== src/Libk.antt =====
-- The routines that the kernel and userland share: src/libk.
pub mod Fsutil
pub mod Mem
pub mod Path
pub mod Ring
pub mod Printf
