-- ===== src/Kernel/Machine.antt =====
-- What the kernel asks of src/kernel/arch for processes: page directories and the power switch.
use camellia.Base.{ℕ, Bool, Option}
use camellia.Kernel.State.{M}

pub record Machine : Type 0 where
  -- pagedir_copy
  pub copy_pages : ℕ → M ℕ
  -- pagedir_free
  pub free_pages : ℕ → M (Unit {0})
  -- shutdown
  pub shutdown : M (Unit {0})
  -- pagedir_findfree: the directory, the address to start from, the length
  pub find_free : ℕ → ℕ → ℕ → M ℕ
  -- pagedir_unmap_user: the directory, the address, the length
  pub unmap_user : ℕ → ℕ → ℕ → M (Unit {0})
  -- pagedir_iskern: the directory, the address
  pub is_kern : ℕ → ℕ → M Bool
  -- pagedir_virt2phys for the kernel, reading: the directory, the address
  pub virt2phys : ℕ → ℕ → M (Option ℕ)
  -- pagedir_map of a zeroed page for user space, writeable: the directory, the address
  pub map_new : ℕ → ℕ → M (Unit {0})
  -- procfs_backend of src/kernel/vfs/procfs.c
  pub procfs_backend : ℕ → M ℕ
  -- get_counter, and hpet_period
  pub counter : M ℕ
  pub period : ℕ
