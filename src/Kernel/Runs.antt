-- ===== src/Kernel/Runs.antt =====
-- How a sequence of kernel code runs when its first part does, and what a write to a process leaves.
use camellia.Base.{ℕ, ◌≡◌, ◌≢◌, true, false, ap, done, panic}
use camellia.Kernel.State.{ProcState, Proc, Kernel, M, update, ◌>>=◌, ◌>>◌}
use camellia.Kernel.Update.{update_self, update_ne}
use camellia.Kernel.Proc.{set_state, allowed, wants_parent}
use camellia.Kernel.Request.Enter.{set_state_lem}

pub runs :
    {A B : Type 0} {k k' : Kernel} (m : M A) (f : A → M B) {a : A}
    → m k ≡ done (a, k')
    → (m >>= f) k ≡ f a k'
runs m f e = ap (λ o. elim o [ panic ↦ panic | done (a, k) ↦ f a k ]) e

pub runs_then :
    {B : Type 0} {k k' : Kernel} (m : M (Unit {0})) (n : M B)
    → m k ≡ done (tt, k')
    → (m >> n) k ≡ n k'
runs_then m n e = ap (λ o. elim o [ panic ↦ panic | done (a, k) ↦ n k ]) e

pub runs_panic :
    {A B : Type 0} {k : Kernel} (m : M A) (f : A → M B) → m k ≡ panic → (m >>= f) k ≡ panic
runs_panic m f e = ap (λ o. elim o [ panic ↦ panic | done (a, k) ↦ f a k ]) e

-- the kernel with another process at an address
unfoldable pub with_proc : Kernel → ℕ → Proc → Kernel
with_proc k p v = record k { procs = update k.procs p v }

pub with_proc_self : (k : Kernel) (p : ℕ) (v : Proc) → (with_proc k p v).procs p ≡ v
unfolding with_proc
with_proc_self k p v = update_self k.procs p v

pub with_proc_ne : (k : Kernel) (p x : ℕ) (v : Proc) → p ≢ x → (with_proc k p v).procs x ≡ k.procs x
unfolding with_proc
with_proc_ne k p x v ne = update_ne k.procs p x v ne

pub moves_to :
    (k : Kernel) (p : ℕ) (new : ProcState)
    → allowed new ((k.procs p).state) ≡ true
    → wants_parent new ≡ false
    → set_state p new k ≡ done (tt, with_proc k p (record (k.procs p) { state = new }))
unfolding with_proc
moves_to k p new a w = set_state_lem p new k a w
