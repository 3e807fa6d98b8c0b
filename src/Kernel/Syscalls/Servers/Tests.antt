-- ===== src/Kernel/Syscalls/Servers/Tests.antt =====
-- Runs of system calls of file systems.
use camellia.Base.{◌≡◌, refl, text, [], ◌∷◌, true, none, some, done, pos, if◌then◌else◌}
use camellia.Kernel.State.{Kernel, fs_front}
use camellia.Kernel.Samples.{empty, outside, no_handle}
use camellia.Kernel.Table.{handle_get}
use camellia.Kernel.Mount.{resolve, covers}
use camellia.Kernel.Syscalls.Files.{find_mount}
use camellia.Kernel.Syscalls.Servers.{mount_path, trim}
use camellia.Kernel.Syscalls.Servers.Mounted.{InUse, mount_path-find_mount}

-- the handle 0 is the front of a file system without a backend
abbrev fronted : Kernel
fronted = record empty {
  tables = λ t. some 7 ∷ [];
  handles = λ h. record no_handle { type = fs_front };
}

mount_path-find_mount_example :
    (k' : Kernel) × (mount_path outside 5 (pos 0) 60 (some (text "/this/")) fronted ≡ done (tt, k'))
    × (find_mount 5 (text "/this/file") k'
        ≡ done (
          if covers (trim outside 5 (text "/this/")) (text "/this/file")
              then some (record {
                prefix = trim outside 5 (text "/this/");
                prefix_owned = true;
                backend = none;
                refs = 1;
              })
              else none,
          k',
        ))
unfolding InUse handle_get resolve
mount_path-find_mount_example =
    mount_path-find_mount outside 5 (pos 0) 60 7 (text "/this/") (text "/this/file") fronted refl
      refl refl tt tt
