-- ===== src/Kernel/Mount.antt =====
-- src/kernel/vfs/mount.c. For `vfs_mount_resolve` the chain of mounts from `top` over `prev` is a
-- list, and the prefix of a mount is the list of its bytes, `prefix[0 .. prefix_len)`.
pub mod Resolve
mod Tests
use camellia.Kernel.State.{
  Mount, Backend, Kernel, M, ◌>>=◌, ◌>>◌, alloc, check, skip, mount_at, set_mount, set_backend,
}
use camellia.Kernel.Request.{Driver, refdown_of}
use camellia.Base.{
  done, panic, is_empty, ℕ, ◌-◌, List, [], ◌∷◌, Bool, true, false, ◌&&◌, ◌||◌, not, Option, none,
  some, ltb, ◌==◌, if◌then◌else◌, length, get_or,
}

-- `memcmp(prefix, path, prefix_len) == 0`
unfoldable pub starts_with : (prefix path : List ℕ) → Bool
starts_with [] path = true
starts_with (c ∷ prefix) [] = false
starts_with (c ∷ prefix) (d ∷ path) = c == d && starts_with prefix path

-- the tests of the loop body, in their order: true where the loop breaks
unfoldable pub covers : (prefix path : List ℕ) → Bool
covers prefix path =
    let n = length prefix in
    not (ltb (length path) n)
    && (starts_with prefix path
        && (n == length path
            || (get_or path n 0 == b'/' || (not (n == 0) && get_or path (n - 1) 0 == b'/'))))

unfoldable pub resolve : List Mount → List ℕ → Option Mount
resolve [] path = none
resolve (m ∷ ms) path = if covers m.prefix path then some m else resolve ms path

abbrev pub push_root : ℕ → M (Unit {0})
push_root m k = done (tt, record k { mount_root = m ∷ k.mount_root })

-- vfs_root_register
unfoldable pub root_register : (path : List ℕ) → M (Unit {0})
root_register path = do
  b ← alloc
  m ← alloc
  set_backend b (record {
    usehcnt = 1;
    provhcnt = 1;
    queue = [];
    is_user = false;
    handler = none;
    has_accept = true;
    has_cleanup = false;
    allocated = true;
  })
  set_mount m (record { prefix = path; prefix_owned = false; backend = some b; refs = 1 })
  push_root m

module _ (driver : Driver) where
  -- vfs_mount_remref on the mounts of a chain. The memory of a mount and of its prefix is not
  -- modelled.
  unfoldable pub remref : List ℕ → M (Unit {0})
  remref [] = λ k. panic
  remref (m ∷ prev) =
      let rest = remref prev in
      do
        x ← mount_at m
        check (ltb 0 x.refs)
        set_mount m (record x { refs = x.refs - 1 })
        if ltb 0 (x.refs - 1)
            then skip
            else (do refdown_of driver x.backend; if is_empty prev then skip else rest)
