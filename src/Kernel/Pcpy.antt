-- ===== src/Kernel/Pcpy.antt =====
-- What the kernel asks of src/kernel/pcpy.c and the page tables below it: copying between the
-- address spaces of two processes. A page directory is an address or NULL, memory is a function
-- from physical addresses, and a copy returns how many bytes it copied and the new memory.
use camellia.Base.{ℕ, List, Option, ℤ}
use camellia.Kernel.State.{VfsOp}

-- struct ufs_request
pub record UfsRequest : Type 0 where
  pub op : VfsOp
  pub len : ℕ
  pub capacity : ℕ
  pub id : ℕ
  pub offset : ℤ
  pub flags : ℕ

-- sizeof(struct ufs_request): four 8-byte members and two 4-byte ones, each padded to 8
abbrev pub ufs_request_size : ℕ
ufs_request_size = 48

pub record Pcpy : Type 0 where
  -- pcpy_bi: destination, source, length
  pub bi : (ℕ → ℕ) → Option ℕ → ℕ → Option ℕ → ℕ → ℕ → ℕ × (ℕ → ℕ)
  -- pcpy_to from kernel memory: destination, source, length
  pub to : (ℕ → ℕ) → Option ℕ → ℕ → ℕ → ℕ → ℕ × (ℕ → ℕ)
  -- pcpy_to of a request on the kernel stack: destination
  pub send : (ℕ → ℕ) → Option ℕ → ℕ → UfsRequest → ℕ × (ℕ → ℕ)
  -- pcpy_to of words on the kernel stack: destination, the words
  pub put : (ℕ → ℕ) → Option ℕ → ℕ → List ℤ → ℕ × (ℕ → ℕ)
  -- pcpy_from to kernel memory: destination, source, length
  pub from : (ℕ → ℕ) → ℕ → Option ℕ → ℕ → ℕ → ℕ × (ℕ → ℕ)
  -- pcpy_from to the kernel stack: source, length; the bytes that are copied
  pub take : (ℕ → ℕ) → Option ℕ → ℕ → ℕ → List ℕ
