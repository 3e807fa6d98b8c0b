-- ===== src/Cmd.antt =====
-- Programs in user space: src/cmd.
pub mod Shell
pub mod Netstack
