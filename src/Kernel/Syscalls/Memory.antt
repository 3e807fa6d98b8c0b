-- ===== src/Kernel/Syscalls/Memory.antt =====
-- The system calls on time and on memory.
pub mod Flag
use camellia.Base.{
  ℕ, zero, suc, ◌+◌, ◌-◌, ◌*◌, ◌/◌, ◌%◌, ◌^◌, Bool, true, false, ◌&&◌, ◌||◌, not, Option, none,
  some, Outcome, done, panic, ltb, ◌==◌, if◌then◌else◌, ℤ, pos, neg, long_of,
}
use camellia.Kernel.Copy.{page_size}
use camellia.Kernel.Errno.{enosys}
use camellia.Kernel.State.{
  Proc, ExecBuf, Kernel, M, pure, ◌>>=◌, ◌>>◌, check, skip, alloc_buffer, free_buffer, proc,
  set_proc,
}
use camellia.Kernel.Machine.{Machine}
use camellia.Kernel.Timer.{schedule, uptime_ns}
use camellia.Kernel.Syscalls.{Outside, ret, fetch}

-- `flags & MEMFLAG_PRESENT`, `flags & MEMFLAG_FINDFREE`
abbrev pub is_present : ℕ → Bool
is_present flags = (flags % 2) == 1

abbrev pub is_findfree : ℕ → Bool
is_findfree flags = (flags / 2 % 2) == 1

unfoldable pub map_missing : Machine → (pages page : ℕ) → Option ℕ → M (Unit {0})
map_missing machine pages page none = machine.map_new pages page
map_missing machine pages page (some phys) = skip

-- the loop body of `_sys_memflag`
unfoldable pub map_page : Machine → (pages page : ℕ) → M (Unit {0})
map_page machine pages page = do
  kern ← machine.is_kern pages page
  if kern
      then skip
      else (do phys ← machine.virt2phys pages page; map_missing machine pages page phys)

-- the loop; it counts `off` in 64 bits
unfoldable pub map_pages : (fuel : ℕ) → Machine → (pages addr len off : ℕ) → M (Unit {0})
map_pages zero machine pages addr len off = λ k. panic
map_pages (suc fuel) machine pages addr len off = elim (ltb off len) [
  | false ↦ skip
  | true ↦ do
    map_page machine pages ((addr + off) % 2 ^ 64)
    map_pages fuel machine pages addr len ((off + page_size) % 2 ^ 64)
]

-- the directory of a process, which is not NULL
unfoldable pub directory : Option ℕ → M ℕ
directory none = λ k. panic
directory (some d) = pure d

module _ (o : Outside) (cur : ℕ) where
  unfoldable pub flag_at : (pages addr len flags : ℕ) → M (Unit {0})
  flag_at pages addr len flags =
      if is_present flags
      then (do map_pages (len / page_size + 2) o.machine pages addr len 0; ret cur (long_of addr))
      else (do o.machine.unmap_user pages addr len; ret cur (long_of addr))

  -- _sys_memflag
  unfoldable pub sys_memflag : (addr len flags : ℕ) → M (Unit {0})
  sys_memflag addr len flags = do
    x ← proc cur
    pages ← directory x.pages
    let base = addr - addr % page_size
    if is_findfree flags
        then (do
          found ← o.machine.find_free pages base len
          if is_present flags then flag_at pages found len flags else ret cur (long_of found))
        else flag_at pages base len flags

  -- _sys_sleep
  unfoldable pub sys_sleep : (ms : ℕ) → M (Unit {0})
  sys_sleep ms = do
    now ← o.machine.counter
    schedule now o.machine.period cur (ms * 1000000 % 2 ^ 64)

  -- _sys_time
  unfoldable pub sys_time : (flags : ℕ) → M (Unit {0})
  sys_time flags = if not (flags == 0) then ret cur (neg enosys) else (do
    count ← o.machine.counter
    x ← proc cur
    let now = uptime_ns count o.machine.period
    let base = if x.basetime == 0 then now else x.basetime
    set_proc cur (record x { basetime = base })
    ret cur (long_of ((now + (2 ^ 64 - base)) % 2 ^ 64)))

  abbrev pub has_buf : Option ExecBuf → Bool
  has_buf none = false
  has_buf (some e) = true

  -- `_sys_execbuf` behind its tests
  unfoldable pub load_buf : (addr len : ℕ) → M (Unit {0})
  load_buf addr len = do
    buf ← alloc_buffer
    n ← fetch o.copy cur buf addr len
    if ltb n len then (do free_buffer buf; ret cur (neg 1)) else (do
      x ← proc cur
      set_proc cur (record x { execbuf = some (record { buf = buf; len = len; pos = 0 }) })
      ret cur (pos 0))

  -- _sys_execbuf
  unfoldable pub sys_execbuf : (addr len : ℕ) → M (Unit {0})
  sys_execbuf addr len =
      if len == 0
      then ret cur (pos 0)
      else if ltb 4096 len
      then ret cur (neg 1)
      else (do x ← proc cur; if has_buf x.execbuf then ret cur (neg 1) else load_buf addr len)
