-- ===== src/Kernel/Request/Orphan.antt =====
-- A backend whose last provider goes while requests wait in its queue.
use mathlib.Core.Path.{subst}
use camellia.Base.{
  or_true, ℕ, ◌-◌, ◌≡◌, sym, ap, ◌∙◌, List, ◌∷◌, true, false, ◌||◌, not, none, some, ◌==◌,
  Bool-cases, inl, inr, done, panic, ltb, arith, neg,
}
use camellia.Kernel.State.{Backend, Kernel, update, ◌>>=◌, ◌>>◌, check}
use camellia.Kernel.Update.{update_self}
use camellia.Kernel.Request.{
  Driver, is_read, at_most, free_unused, dismiss, last_use, refdown_use, refdown_of, finish_rest,
  fail_all, orphan, refdown_prov,
}

-- the last use of a backend in user space, which no server waits for, while `r` is in its queue
pub record IsLast (x : Backend) (provhcnt r : ℕ) (rs : List ℕ) : Type 0 where
  pub uses : x.usehcnt ≡ 1
  pub provides : x.provhcnt ≡ provhcnt
  pub waits : x.queue ≡ r ∷ rs
  pub user : x.is_user ≡ true
  pub busy : x.handler ≡ none

module _ (driver : Driver) (b r : ℕ) (rs : List ℕ) where
  free_unused_panics :
      (k : Kernel)
      → (k.backends b).usehcnt ≡ 0
      → (k.backends b).provhcnt ≡ 0
      → (k.backends b).queue ≡ r ∷ rs
      → free_unused b k ≡ panic
  unfolding free_unused
  free_unused_panics k u p q = simp (free_unused, u, p, q, ◌>>=◌, ◌>>◌, check)

  last_use_idle :
      (x : Backend) (k : Kernel)
      → x.is_user ≡ true
      → x.handler ≡ none
      → last_use driver b x k ≡ done (tt, k)
  unfolding last_use dismiss
  last_use_idle x k u h = simp (last_use, u) (ap (λ o. dismiss b o k) h)

  refdown_use_panics : (k : Kernel) → IsLast (k.backends b) 0 r rs → refdown_use driver b k ≡ panic
  unfolding refdown_use
  refdown_use_panics k v =
      let x = k.backends b in
      let k' : Kernel = record k {
        backends = update k.backends b (record x { usehcnt = x.usehcnt - 1 });
      } in
      let self = update_self k.backends b (record x { usehcnt = x.usehcnt - 1 }) in
      let some_use : ltb 0 x.usehcnt ≡ true = ground (arith, v.uses) in
      let no_more : (x.usehcnt - 1 == 0) ≡ true = ground (arith, v.uses) in
      simp (refdown_use, some_use, no_more, ◌>>=◌, ◌>>◌, check, last_use_idle x k' v.user v.busy)
        (free_unused_panics k' (ap (λ (y : Backend). y.usehcnt) self ∙ ap (λ n. n - 1) v.uses)
          (ap (λ (y : Backend). y.provhcnt) self ∙ v.provides)
          (ap (λ (y : Backend). y.queue) self ∙ v.waits))

  refdown_of_panics :
      (k : Kernel) → IsLast (k.backends b) 0 r rs → refdown_of driver (some b) k ≡ panic
  unfolding refdown_of
  refdown_of_panics k v = refdown_use_panics k v

  finish_panics :
      (k : Kernel)
      → IsLast (k.backends b) 0 r rs
      → (k.reqs r).backend ≡ some b
      → finish_rest driver r (neg 1) k ≡ panic
  unfolding finish_rest
  finish_panics k v e =
      let fine : (not (is_read (k.reqs r).op) || at_most (neg 1) (k.reqs r).out_len) ≡ true =
        or_true (not (is_read (k.reqs r).op)) in
      elim (Bool-cases ((k.reqs r).in_kern)) [
        | inl kern ↦ simp (
          finish_rest,
          fine,
          kern,
          e,
          ◌>>=◌,
          ◌>>◌,
          check,
          refdown_of_panics (record k { buffers = update k.buffers ((k.reqs r).in_buf) false }) v,
        )
        | inr user ↦ simp (finish_rest, fine, user, e, ◌>>=◌, ◌>>◌, check, refdown_of_panics k v)
      ]

  orphan_panics :
      (k : Kernel)
      → IsLast (k.backends b) 0 r rs
      → (k.reqs r).backend ≡ some b
      → orphan driver b k ≡ panic
  unfolding orphan fail_all
  orphan_panics k v e = simp (orphan, v.waits, fail_all, finish_panics k v e, ◌>>=◌, ◌>>◌)

-- The last provider of a backend in user space goes while no server waits there and the first
-- request in its queue is its only use: `vfs_backend_refdown` fails an assertion.
pub refdown_prov_panics :
    (driver : Driver) (b r : ℕ) (rs : List ℕ) (k : Kernel)
    → IsLast (k.backends b) 1 r rs
    → (k.reqs r).backend ≡ some b
    → refdown_prov driver b k ≡ panic
unfolding refdown_prov
refdown_prov_panics driver b r rs k v e =
    let x = k.backends b in
    let less : Backend = record x { provhcnt = x.provhcnt - 1 } in
    let k' : Kernel = record k { backends = update k.backends b less } in
    let self = update_self k.backends b less in
    let v' : IsLast (k'.backends b) 0 r rs =
      subst (λ (y : Backend). IsLast y 0 r rs) (sym self)
        (record {
          uses = v.uses;
          provides = ap (λ n. n - 1) v.provides;
          waits = v.waits;
          user = v.user;
          busy = v.busy;
        }) in
    let some_left : ltb 0 x.provhcnt ≡ true = ground (arith, v.provides) in
    let no_more : (x.provhcnt - 1 == 0) ≡ true = ground (arith, v.provides) in
    simp (refdown_prov, some_left, no_more, ◌>>=◌, ◌>>◌, check, orphan_panics driver b r rs k' v' e)
