-- ===== src/Kernel/Syscalls.antt =====
-- src/kernel/syscalls.c. `cur` is `proc_cur`. The calls on paths and handles are in Files,
-- those of file systems in Servers, those on processes in Procs, those on time and memory in Memory;
-- Schedule picks the next process, Execbuf runs buffers of system calls, and Dispatch chooses the call.
mod Tests
pub mod Lengths
pub mod Files
pub mod Servers
pub mod Pipes
pub mod Procs
pub mod Memory
pub mod Schedule
pub mod Execbuf
pub mod Dispatch
use camellia.Base.{
  ℕ, ◌≤◌, ◌^◌, Bool, Option, none, some, done, ℤ, leb, ltb, not, ◌&&◌, if◌then◌else◌,
}
use camellia.Kernel.State.{
  Proc, Handle, Kernel, M, pure, ◌>>=◌, ◌>>◌, check, proc, handle, save_return,
}
use camellia.Kernel.Proc.{is_running}
use camellia.Kernel.Machine.{Machine}
use camellia.Kernel.Pcpy.{Pcpy}
use camellia.Kernel.Request.{Driver}
use camellia.Kernel.Table.{table, handle_get}

-- what is outside of the modelled code
pub record Outside : Type 0 where
  pub machine : Machine
  pub driver : Driver
  pub copy : Pcpy

-- SYSCALL_RETURN(val)
abbrev pub ret : (cur : ℕ) → ℤ → M (Unit {0})
ret cur val = do x ← proc cur; check (is_running x.state); save_return cur val

-- `proc_handle_get(proc_cur, hid)`
abbrev pub get_handle : (cur : ℕ) → (hid : ℤ) → M (Option ℕ)
get_handle cur hid = do t ← table cur; pure (handle_get t hid)

-- a `long` that is negative, as a number of 64 bits
abbrev pub is_negative : ℕ → Bool
is_negative n = leb (2 ^ 63) n

-- `PATH_MAX < len`
abbrev pub is_too_long : ℕ → Bool
is_too_long len = not (is_negative len) && ltb 512 len

unfoldable pub fetch : Pcpy → (cur buf path len : ℕ) → M ℕ
fetch copy cur buf path len k =
    let (n, mem) = copy.from k.mem buf ((k.procs cur).pages) path len in
    done (n, record k { mem = mem })
