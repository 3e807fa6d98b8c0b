-- ===== src/Kernel.antt =====
-- The kernel: src/kernel.
pub mod State
pub mod Errno
pub mod Samples
pub mod Update
pub mod Runs
pub mod Pcpy
pub mod Copy
pub mod Proc
pub mod Pipe
pub mod Table
pub mod Request
pub mod Handle
pub mod Mount
pub mod Timer
pub mod Tree
pub mod Machine
pub mod Fork
pub mod Death
pub mod Malloc
pub mod Syscalls
mod Tests
