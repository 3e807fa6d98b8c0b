-- ===== src/Kernel/Update.antt =====
-- What a write to one address leaves at the others.
use native.Mathlib.Decide.{ℕ_discrete}
use camellia.Base.{sym, ◌∙◌, ℕ, ◌≡◌, ◌≢◌, arith}
use camellia.Kernel.State.{update}

pub update_self {ℓ} : {A : Type ℓ} (f : ℕ → A) (p : ℕ) (v : A) → update f p v p ≡ v
update_self f p v = ground arith

pub update_at {ℓ} : {A : Type ℓ} (f : ℕ → A) (p q : ℕ) (v : A) → p ≡ q → update f p v q ≡ v
update_at f p q v e = ground (arith, e)

pub update_ne {ℓ} : {A : Type ℓ} (f : ℕ → A) (p q : ℕ) (v : A) → p ≢ q → update f p v q ≡ f q
update_ne f p q v h = ground arith

pub update_twice :
    {A : Type 0} (f : ℕ → A) (b : ℕ) (u v : A) (x : ℕ)
    → update (update f b u) b v x ≡ update f b v x
update_twice f b u v x = elim (ℕ_discrete b x) [
  | yes e ↦ update_at (update f b u) b x v e ∙ sym (update_at f b x v e)
  | no d ↦ update_ne (update f b u) b x v d ∙ update_ne f b x u d ∙ sym (update_ne f b x v d)
]
