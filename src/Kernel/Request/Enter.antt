-- ===== src/Kernel/Request/Enter.antt =====
-- A process that makes a request: it waits, and the request is in its slot.
use camellia.Base.{
  ℕ, ◌+◌, ◌≡◌, ◌≢◌, refl, sym, ap, ◌∙◌, true, false, Option, none, some, Option-cases, inl, inr,
  done,
}
use mathlib.Core.Path.{subst}
use camellia.Kernel.State.{ProcState, running, waits4fs, Proc, Kernel, update, ◌>>=◌, check}
use camellia.Kernel.Update.{update_self, update_ne}
use camellia.Kernel.Pcpy.{Pcpy}
use camellia.Kernel.Proc.{set_state, allowed, wants_parent}
use camellia.Kernel.Request.{Driver, request_slot, own_slot}

pub set_state_lem :
    (p : ℕ) (new : ProcState) (k : Kernel)
    → allowed new ((k.procs p).state) ≡ true
    → wants_parent new ≡ false
    → set_state p new k
      ≡ done (tt, record k { procs = update k.procs p (record (k.procs p) { state = new }) })
unfolding set_state
set_state_lem p new k a w = simp (set_state, a, w, ◌>>=◌, check)

-- the address of the request that a process makes
abbrev pub slot_of : ℕ → Option ℕ → ℕ
slot_of next none = next
slot_of next (some r) = r

-- `p` waits for the request `r`, which lies in its slot, and the rest is as in `k`.
pub record Entered (k k' : Kernel) (p r : ℕ) : Type 0 where
  pub self : k'.procs p ≡ record (k.procs p) { state = waits4fs; reqslot = some r }
  pub others : (x : ℕ) → p ≢ x → k'.procs x ≡ k.procs x
  pub backends : k'.backends ≡ k.backends
  pub reqs : k'.reqs ≡ k.reqs
  pub handles : k'.handles ≡ k.handles
  pub tables : k'.tables ≡ k.tables
  pub buffers : k'.buffers ≡ k.buffers

module _ (driver : Driver) (copy : Pcpy) (p : ℕ) (k : Kernel) where
  abbrev waiting : Kernel
  waiting = record k { procs = update k.procs p (record (k.procs p) { state = waits4fs }) }

  now_waiting : waiting.procs p ≡ record (k.procs p) { state = waits4fs }
  now_waiting = update_self k.procs p (record (k.procs p) { state = waits4fs })

  abbrev allocated : Kernel
  allocated = record waiting {
    procs = update waiting.procs p (record (waiting.procs p) { reqslot = some k.next });
    next = k.next + 1;
  }

  new_slot :
      (own_slot driver copy p (waiting.procs p) none waiting ≡ done (k.next, allocated))
      × Entered k allocated p k.next
  unfolding own_slot
  new_slot = (
    refl,
    record {
      self =
          update_self waiting.procs p _
          ∙ ap (λ (v : Proc). record v { reqslot = some k.next }) now_waiting;
      others = λ x ne. update_ne waiting.procs p x _ ne ∙ update_ne k.procs p x _ ne;
      backends = refl;
      reqs = refl;
      handles = refl;
      tables = refl;
      buffers = refl;
    },
  )

  module _ (r : ℕ) (e : (k.procs p).reqslot ≡ some r) where
    old_slot :
        (own_slot driver copy p (waiting.procs p) (some r) waiting ≡ done (r, waiting))
        × Entered k waiting p r
    unfolding own_slot
    old_slot = (
      refl,
      record {
        self = now_waiting ∙ ap (λ o. record (k.procs p) { state = waits4fs; reqslot = o }) e;
        others = λ x ne. update_ne k.procs p x _ ne;
        backends = refl;
        reqs = refl;
        handles = refl;
        tables = refl;
        buffers = refl;
      },
    )

  slot_waiting : (waiting.procs p).reqslot ≡ (k.procs p).reqslot
  slot_waiting = ap (λ (v : Proc). v.reqslot) now_waiting

  enter :
      (k.procs p).state ≡ running
      → request_slot driver copy (some p) k
        ≡ own_slot driver copy p (waiting.procs p) ((k.procs p).reqslot) waiting
  unfolding request_slot
  enter e =
      let allowed_now : allowed waits4fs ((k.procs p).state) ≡ true = unfold allowed in rw e refl in
      simp (request_slot, set_state_lem p waits4fs k allowed_now refl, ◌>>=◌, slot_waiting)

  abbrev Slotted : Option ℕ → Type 0
  Slotted o =
      (k' : Kernel) × (own_slot driver copy p (waiting.procs p) o waiting
        ≡ done (slot_of k.next o, k'))
      × Entered k k' p (slot_of k.next o)

  slotted : Slotted ((k.procs p).reqslot)
  slotted = elim (Option-cases ((k.procs p).reqslot)) [
    | inl free ↦ subst Slotted (sym free) (allocated, new_slot.0, new_slot.1)
    | inr (r, own) ↦ subst Slotted (sym own) (waiting, (old_slot r own).0, (old_slot r own).1)
  ]

  pub request_slot_lem :
      (k.procs p).state ≡ running
      → (k' : Kernel) × (request_slot driver copy (some p) k
          ≡ done (slot_of k.next ((k.procs p).reqslot), k'))
        × Entered k k' p (slot_of k.next ((k.procs p).reqslot))
  request_slot_lem e = (slotted.0, enter e ∙ slotted.1, slotted.2)
