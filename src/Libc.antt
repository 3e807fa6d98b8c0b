-- ===== src/Libc.antt =====
-- The C library: src/libc.
pub mod Text
