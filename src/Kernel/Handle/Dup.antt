-- ===== src/Kernel/Handle/Dup.antt =====
-- A handle that gets a second number.
use camellia.Base.{
  ℕ, ◌+◌, ◌<◌, ◌≡◌, ◌≢◌, ap, ◌∙◌, true, false, none, some, done, pos, ltb, leb, ◌==◌, get_or, set,
  arith,
}
use camellia.Kernel.State.{Kernel, update, ◌>>=◌, ◌>>◌, pure}
use camellia.Kernel.Pcpy.{Pcpy}
use camellia.Kernel.Table.{handle_max, handle_get}
use camellia.Kernel.Request.{Driver}
use camellia.Kernel.Handle.{handle_dup, dup_target, dup_onto, close_entry, retain}

module _ (driver : Driver) (copy : Pcpy) (p m n h : ℕ) (k : Kernel) where
  abbrev own : ℕ
  own = (k.procs p).handles

  abbrev entered : Kernel
  entered = record k { tables = update k.tables own (set (k.tables own) n (some h)) }

  target : n < 16 → dup_target driver copy (k.tables own) (pos n) false ≡ pos n
  unfolding dup_target
  target l = let fits : leb handle_max n ≡ false = ground arith in simp (dup_target, fits)

  source :
      m < 16 → get_or (k.tables own) m none ≡ some h → handle_get (k.tables own) (pos m) ≡ some h
  unfolding handle_get
  source l e = let fits : ltb m handle_max ≡ true = ground arith in simp (handle_get, fits, e)

  onto :
      n ≢ m
      → get_or (k.tables own) n none ≡ none
      → handle_get (k.tables own) (pos m) ≡ some h
      → dup_onto driver copy p (pos m) (pos n) k ≡ (retain (some h) >>= λ _. pure (pos n)) entered
  unfolding dup_onto close_entry
  onto ne free here =
      let other : (n == m) ≡ false = ground arith in simp (dup_onto, other, free, here, ◌>>=◌, ◌>>◌)

-- A handle under the number `m` of a process gets the free number `n` too: `proc_handle_dup`
-- returns `n`, the entry of `n` is the handle, and its count of references is one more; nothing
-- else changes.
handle_dup_lem :
    (driver : Driver) (copy : Pcpy) (p m n h : ℕ) (k : Kernel)
    → m < 16
    → n < 16
    → n ≢ m
    → get_or (k.tables ((k.procs p).handles)) m none ≡ some h
    → get_or (k.tables ((k.procs p).handles)) n none ≡ none
    → handle_dup driver copy p (pos m) (pos n) false k
      ≡ done (
        pos n,
        record k {
          tables =
              update k.tables
                ((k.procs p).handles)
                (set (k.tables ((k.procs p).handles)) n (some h));
          handles =
              update k.handles h (record (k.handles h) { refcount = (k.handles h).refcount + 1 });
        },
      )
unfolding handle_dup retain
handle_dup_lem driver copy p m n h k lm ln ne here free =
    ap (λ i. dup_onto driver copy p (pos m) i k) (target driver copy p m n h k ln)
    ∙ onto driver copy p m n h k ne free (source driver copy p m n h k lm here)
