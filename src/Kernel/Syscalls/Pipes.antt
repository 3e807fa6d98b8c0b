-- ===== src/Kernel/Syscalls/Pipes.antt =====
-- The system call that makes a pipe.
use camellia.Base.{ℕ, [], ◌∷◌, true, Option, none, some, done, ◌==◌, if◌then◌else◌, ℤ, pos, neg}
use camellia.Kernel.Errno.{emfile, enosys}
use camellia.Kernel.State.{pipe, M, ◌>>=◌, ◌>>◌, handle, set_handle}
use camellia.Kernel.Table.{init_handle}
use camellia.Kernel.Syscalls.{Outside, ret}
use camellia.Kernel.Syscalls.Files.{close_and}

module _ (o : Outside) (cur : ℕ) where
  -- the number of an end of a pipe, -1 if the table is full
  abbrev pub number : Option (ℕ × ℕ) → ℤ
  number none = neg 1
  number (some (hid, h)) = pos hid

  unfoldable pub fail_pipe : (rend wend : Option (ℕ × ℕ)) → M (Unit {0})
  fail_pipe rend wend =
      close_and o cur (number rend) (close_and o cur (number wend) (ret cur (neg emfile)))

  unfoldable pub make_pipe : (ends : ℕ) → (rend wend : Option (ℕ × ℕ)) → M (Unit {0})
  make_pipe ends none wend = fail_pipe none wend
  make_pipe ends (some r) none = fail_pipe (some r) none
  make_pipe ends (some (rid, r)) (some (wid, w)) = do
    x ← handle w
    set_handle w (record x { sister = some r; writeable = true })
    y ← handle r
    set_handle r (record y { sister = some w; readable = true })
    (λ k. done (
      tt,
      record k { mem = (o.copy.put k.mem ((k.procs cur).pages) ends (pos rid ∷ pos wid ∷ [])).1 },
    ))
    ret cur (pos 0)

  -- _sys_pipe
  unfoldable pub sys_pipe : (ends flags : ℕ) → M (Unit {0})
  sys_pipe ends flags =
      if flags == 0
      then (do rend ← init_handle cur pipe; wend ← init_handle cur pipe; make_pipe ends rend wend)
      else ret cur (neg enosys)
