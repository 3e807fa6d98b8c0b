-- ===== src/Kernel/Syscalls/Dispatch.antt =====
-- `_syscall` of src/kernel/syscalls.c. An argument is a `long`, as a number of 64 bits.
use camellia.Base.{ℕ, ◌%◌, ◌^◌, Bool, Option, none, ◌==◌, if◌then◌else◌, int_of_size, long_of, neg}
use camellia.Kernel.State.{M, pure, ◌>>=◌, ◌>>◌, skip, save_return}
use camellia.Kernel.Syscalls.{Outside}
use camellia.Kernel.Syscalls.Files.{
  sys_open, sys_dup, sys_read, sys_write, sys_getsize, sys_remove, sys_close,
}
use camellia.Kernel.Syscalls.Servers.{sys_mount, sys_fs_wait, sys_fs_respond}
use camellia.Kernel.Syscalls.Pipes.{sys_pipe}
use camellia.Kernel.Syscalls.Procs.{
  sys_exit, sys_fork, sys_intr, sys_intr_set, sys_getpid, sys_getppid, sys_wait2, sys_getprocfs,
}
use camellia.Kernel.Syscalls.Memory.{sys_memflag, sys_sleep, sys_time, sys_execbuf}

-- the bits of an `int` argument
abbrev pub bits : ℕ → ℕ
bits a = a % 2 ^ 32

-- DUP_SEARCH, FSR_DELEGATE
abbrev pub flag_1 : ℕ → Bool
flag_1 a = (a % 2) == 1

-- `_syscall`, but for `_sys_exit`, which does not return to it
unfoldable pub syscall_returning : Outside → (cur num a b c d e : ℕ) → M (Unit {0})
syscall_returning o cur num a b c d e =
    if num == 2
    then sys_fork o cur (bits a) b
    else if num == 3
    then sys_open o cur a b (bits c)
    else if num == 4
    then sys_mount o cur (int_of_size a) b c
    else if num == 5
    then sys_dup o cur (int_of_size a) (int_of_size b) (flag_1 c)
    else if num == 6
    then sys_read o cur (int_of_size a) b c (long_of d)
    else if num == 7
    then sys_write o cur (int_of_size a) b c (long_of d) (bits e)
    else if num == 8
    then sys_getsize o cur (int_of_size a)
    else if num == 9
    then sys_remove o cur (int_of_size a)
    else if num == 10
    then sys_close o cur (int_of_size a)
    else if num == 11
    then sys_fs_wait o cur a b c
    else if num == 12
    then sys_fs_respond o cur (int_of_size a) b (long_of c) (flag_1 d)
    else if num == 13
    then sys_memflag o cur a b (bits c)
    else if num == 14
    then sys_pipe o cur a (bits b)
    else if num == 15
    then sys_sleep o cur a
    else if num == 17
    then sys_intr o cur a b
    else if num == 18
    then sys_intr_set o cur a
    else if num == 19
    then sys_getpid o cur
    else if num == 20
    then sys_getppid o cur
    else if num == 21
    then sys_wait2 o cur (int_of_size a) (bits b) c
    else if num == 22
    then sys_getprocfs o cur (bits a)
    else if num == 23
    then sys_time o cur (bits a)
    else if num == 100
    then sys_execbuf o cur a b
    else if num == 101
    then skip
    else save_return cur (neg 1)

-- `_syscall`. The result is the process to go on with after `_sys_exit`; `none` is the return.
unfoldable pub syscall : Outside → (cur num a b c d e : ℕ) → M (Option (Option ℕ))
syscall o cur num a b c d e =
    if num == 0
    then (do p ← sys_exit o cur a; pure (Option.some p))
    else (do syscall_returning o cur num a b c d e; pure none)
