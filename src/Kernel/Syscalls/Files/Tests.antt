-- ===== src/Kernel/Syscalls/Files/Tests.antt =====
-- Runs of system calls on files.
use camellia.Base.{◌≡◌, refl, [], ◌∷◌, true, some, done, pos, neg}
use camellia.Kernel.Errno.{enosys}
use camellia.Kernel.State.{Kernel, fs_front, read_op}
use camellia.Kernel.Samples.{empty, outside, no_handle}
use camellia.Kernel.Runs.{with_proc}
use camellia.Kernel.Table.{handle_get}
use camellia.Kernel.Syscalls.Files.{simple_vfsop}
use camellia.Kernel.Syscalls.Files.Refusal.{allows, can, simple_vfsop-refused}

-- the handle 0 is a front of a file system
abbrev fronted : Kernel
fronted = record empty {
  tables = λ t. some 7 ∷ [];
  handles = λ h. record no_handle { type = fs_front; readable = true };
}

simple_vfsop-refused_example :
    simple_vfsop outside 5 read_op (pos 0) 4096 16 (pos 0) 0 fronted
    ≡ done (tt, with_proc fronted 5 (record (fronted.procs 5) { rax = neg enosys }))
unfolding allows can handle_get
simple_vfsop-refused_example =
    simple_vfsop-refused outside 5 4096 16 (pos 0) 0 read_op (pos 0) fronted enosys refl refl refl
