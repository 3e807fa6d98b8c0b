-- ===== src/Kernel/Pipe/Transfer.antt =====
-- The copy between a reader and a writer, and the state that it leaves.
use mathlib.Core.List.{tail}
use camellia.Base.{int_of_size, ℕ, done, ℤ, ◌≡◌, ◌≢◌, ap, ◌∙◌, arith}
use camellia.Kernel.State.{running, waits4pipe, Proc, Kernel, update, ◌>>=◌, check}
use camellia.Kernel.Update.{update_ne}
use camellia.Kernel.Pcpy.{Pcpy}
use camellia.Kernel.Proc.{set_state}
use camellia.Kernel.Pipe.{pop, copy_between, transfer, copy_length}
use camellia.Kernel.Pipe.Inv.{IsWaiting}

pub set_state_runs :
    (p : ℕ) (k : Kernel)
    → (k.procs p).state ≡ waits4pipe
    → set_state p running k
      ≡ done (tt, record k { procs = update k.procs p (record (k.procs p) { state = running }) })
unfolding set_state
set_state_runs p k e = simp (set_state, e)

abbrev pub pop_queue : ℕ → Kernel → Kernel
pop_queue h k = record k {
  handles = update k.handles h (record (k.handles h) { queued = tail ((k.handles h).queued) });
}

abbrev pub run_again : ℕ → Kernel → Kernel
run_again p k = record k { procs = update k.procs p (record (k.procs p) { state = running }) }

abbrev pub returned : ℕ → ℤ → Kernel → Kernel
returned p value k = record k { procs = update k.procs p (record (k.procs p) { rax = value }) }

-- the two processes of a transfer that copied `n` bytes, each woken with the count
module _ (n : ℕ) where
  abbrev pub woken : Proc → Proc
  woken x = record x { state = running; rax = int_of_size n }

  -- what a transfer leaves
  pub record Transferred (k k' : Kernel) (h s a b : ℕ) : Type 0 where
    pub first : k'.procs a ≡ woken (k.procs a)
    pub second : k'.procs b ≡ woken (k.procs b)
    pub others : (x : ℕ) → a ≢ x → b ≢ x → k'.procs x ≡ k.procs x
    pub near : k'.handles h ≡ record (k.handles h) { queued = tail ((k.handles h).queued) }
    pub far : k'.handles s ≡ record (k.handles s) { queued = tail ((k.handles s).queued) }

-- what the copy from the buffer of `b` to that of `a` gives
abbrev pub copied : Pcpy → (a b : ℕ) → Kernel → ℕ × (ℕ → ℕ)
copied copy a b k =
    copy.bi k.mem ((k.procs a).pages) ((k.procs a).pipe_buf) ((k.procs b).pages)
      ((k.procs b).pipe_buf) (copy_length ((k.procs a).pipe_len) ((k.procs b).pipe_len))

module _ (copy : Pcpy) (h s a b : ℕ) (k : Kernel) where
  -- the steps of a transfer behind its assertions
  abbrev pub popped : Kernel
  popped = pop_queue s (pop_queue h (record k { mem = (copied copy a b k).1 }))

  abbrev pub resumed : Kernel
  resumed = run_again b (run_again a popped)

  abbrev pub transferred : Kernel
  transferred =
      returned b (int_of_size (copied copy a b k).0)
        (returned a (int_of_size (copied copy a b k).0) resumed)

  pub transfer_lem :
      IsWaiting k a → IsWaiting k b → a ≢ b → transfer copy h s a b k ≡ done (tt, transferred)
  unfolding transfer copy_between pop
  transfer_lem ea eb ab =
      let second : IsWaiting (run_again a popped) b =
        ap (λ (x : Proc). x.state)
          (update_ne k.procs a b (record (k.procs a) { state = running }) ab)
        ∙ eb in
      simp (
        transfer,
        ea,
        eb,
        ◌>>=◌,
        check,
        set_state_runs a popped ea,
        set_state_runs b (run_again a popped) second,
      )

  pub transfer-Transferred : a ≢ b → h ≢ s → Transferred (copied copy a b k).0 k transferred h s a b
  transfer-Transferred ab hs = record {
    first = ground (arith, ab);
    second = ground (arith, ab);
    others = λ x ax bx. ground (arith, ax, bx);
    near = ground (arith, hs);
    far = ground (arith, hs);
  }
