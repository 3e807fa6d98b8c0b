-- ===== src/Kernel/Pipe.antt =====
-- src/kernel/pipe.c: processes that wait at the two ends of a pipe, and the copy between a reader
-- and a writer. `copy` stands for pcpy.c.
pub mod Inv
pub mod Transfer
pub mod Join
pub mod Match
pub mod Close
mod Tests
use mathlib.Core.List.{head?, tail}
use camellia.Base.{
  is_empty, through_int, int_of_size, ℕ, ◌+◌, ◌-◌, ◌%◌, ◌^◌, min, List, [], ◌∷◌, ◌++◌, Bool, true,
  false, ◌&&◌, ◌||◌, not, Option, none, some, Outcome, done, panic, ltb, if◌then◌else◌, ℤ, pos,
  negsuc, neg,
}
use camellia.Kernel.Errno.{epipe}
use camellia.Kernel.State.{
  ProcState, running, waits4pipe, HandleType, pipe, Handle, Proc, Kernel, update, M, pure, ◌>>=◌,
  ◌>>◌, check, skip, proc, handle, set_proc, set_handle, save_return,
}
use camellia.Kernel.Pcpy.{Pcpy}
use camellia.Kernel.Proc.{set_state}

abbrev pub is_pipe : HandleType → Bool
is_pipe pipe = true
is_pipe _ = false

abbrev pub is_waiting : ProcState → Bool
is_waiting waits4pipe = true
is_waiting _ = false

abbrev pub xor : Bool → Bool → Bool
xor true b = not b
xor false b = b

-- the assertion that the walk along the queue makes of each member
unfoldable pub all_waiting : Kernel → List ℕ → Bool
all_waiting k [] = true
all_waiting k (p ∷ ps) = is_waiting ((k.procs p).state) && all_waiting k ps

-- `len = min(rdr->waits4pipe.len, wtr->waits4pipe.len)`, as it reaches `pcpy_bi`
unfoldable pub copy_length : ℕ → ℕ → ℕ
copy_length a b = through_int (min a b)

-- `h->pipe.queued = h->pipe.queued->waits4pipe.next`
unfoldable pub pop : ℕ → M (Unit {0})
pop h = do v ← handle h; set_handle h (record v { queued = tail v.queued })

module _ (copy : Pcpy) where
  unfoldable pub copy_between : (rdr wtr : ℕ) → M ℕ
  copy_between rdr wtr k =
      let r = k.procs rdr in
      let w = k.procs wtr in
      let (n, mem) =
        copy.bi k.mem r.pages r.pipe_buf w.pages w.pipe_buf (copy_length r.pipe_len w.pipe_len) in
      done (n, record k { mem = mem })

  -- `pipe_trytransfer` from the copy on
  unfoldable pub transfer : (h s rdr wtr : ℕ) → M (Unit {0})
  transfer h s rdr wtr = do
    r ← proc rdr
    w ← proc wtr
    check (is_waiting r.state)
    check (is_waiting w.state)
    n ← copy_between rdr wtr
    pop h
    pop s
    set_state rdr running
    set_state wtr running
    save_return rdr (int_of_size n)
    save_return wtr (int_of_size n)

  -- `if (!(rdr && wtr)) return`
  unfoldable pub start_transfer : (h s : ℕ) → Option ℕ → Option ℕ → M (Unit {0})
  start_transfer h s none wtr = skip
  start_transfer h s (some rdr) none = skip
  start_transfer h s (some rdr) (some wtr) = transfer h s rdr wtr

  unfoldable pub try_transfer : ℕ → M (Unit {0})
  try_transfer h = do
    v ← handle h
    check (is_pipe v.type)
    check (xor v.readable v.writeable)
    elim v.sister [
      | none ↦ check (is_empty v.queued)
      | some s ↦ do
        w ← handle s
        start_transfer h s (head? (if v.readable then v.queued else w.queued))
            (head? (if v.writeable then v.queued else w.queued))
    ]

  -- the process becomes the last one in the queue
  unfoldable pub enqueue : (h p buf len : ℕ) → M (Unit {0})
  enqueue h p buf len = do
    v ← handle h
    (λ k. check (all_waiting k v.queued) k)
    set_state p waits4pipe
    set_handle h (record v { queued = v.queued ++ (p ∷ []) })
    x ← proc p
    set_proc p (record x { pipe_end = h; pipe_buf = buf; pipe_len = len })

  unfoldable pub join_queue : (h p buf len : ℕ) → M (Unit {0})
  join_queue h p buf len = do
    v ← handle h
    check (is_pipe v.type)
    check (xor v.readable v.writeable)
    elim v.sister [
      | none ↦ save_return p (if v.readable then pos 0 else neg epipe)
      | some s ↦ do enqueue h p buf len; try_transfer h
    ]

-- the loop of `pipe_invalidate_end` over the queue
unfoldable pub wake_all : List ℕ → M (Unit {0})
wake_all [] = skip
wake_all (p ∷ ps) = do
  x ← proc p
  check (is_waiting x.state)
  set_state p running
  save_return p (neg 1)
  wake_all ps

unfoldable pub invalidate_end : ℕ → M (Unit {0})
invalidate_end h = do
  v ← handle h
  wake_all v.queued
  v' ← handle h
  set_handle h (record v' { queued = [] })
