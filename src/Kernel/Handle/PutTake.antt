-- ===== src/Kernel/Handle/PutTake.antt =====
-- A handle that is put in a table and taken out again.
use mathlib.Core.Path.{subst}
use native.Mathlib.Decide.{ℕ_discrete}
use camellia.Base.{
  true, arith, ℕ, ◌≡◌, refl, sym, ap, ◌∙◌, Option, none, some, zero, suc, [], ◌∷◌, get_or, set,
  length, get_or-set_self, arith, done, pos, ltb, ◌<◌,
}
use camellia.Kernel.State.{Kernel, update, ◌>>=◌, ◌>>◌, pure}
use camellia.Kernel.Update.{update_self, update_at, update_ne}
use camellia.Kernel.Pcpy.{Pcpy}
use camellia.Kernel.Table.{Table, handle_max, find_free_handle, hid_take}
use camellia.Kernel.Table.Free.{IsFirstFree, Found, find_free_handle_lem}
use camellia.Kernel.Request.{Driver}
use camellia.Kernel.Handle.{handle_put, put_at}

set-get : (t : Table) (i : ℕ) (v : Option ℕ) → get_or t i none ≡ none → set (set t i v) i none ≡ t
set-get [] i v e = refl
set-get (x ∷ t) zero v e = ap (λ y. y ∷ t) (sym e)
set-get (x ∷ t) (suc i) v e = ap (λ u. x ∷ u) (set-get t i v e)

module _ (driver : Driver) (copy : Pcpy) (p h i : ℕ) (k : Kernel) where
  abbrev own : ℕ
  own = (k.procs p).handles

  abbrev put : Kernel
  put = record k { tables = update k.tables own (set (k.tables own) i (some h)) }

  restored :
      (t : ℕ)
      → set (set (k.tables own) i (some h)) i none ≡ k.tables own
      → put.tables own ≡ set (k.tables own) i (some h)
      → update put.tables own (set (put.tables own) i none) t ≡ k.tables t
  restored t back same = elim (ℕ_discrete own t) [
    | yes e ↦ update_at put.tables own t _ e ∙ ap (λ u. set u i none) same ∙ back ∙ ap k.tables e
    | no d ↦ update_ne put.tables own t _ d ∙ update_ne k.tables own t _ d
  ]

  put_lem :
      find_free_handle (k.tables own) (pos 1) ≡ some i
      → handle_put driver copy p h k ≡ done (pos i, put)
  unfolding handle_put put_at
  put_lem e = ap (λ o. put_at driver copy p h o k) e

  abbrev taken : Kernel
  taken = record put { tables = update put.tables own (set (put.tables own) i none) }

  take_lem : i < 16 → hid_take p (pos i) put ≡ done (get_or (put.tables own) i none, taken)
  unfolding hid_take
  take_lem l =
      let e : ltb i handle_max ≡ true = ground arith in simp (hid_take, e, ◌>>=◌, ◌>>◌, pure)

  -- A handle put in a table of HANDLE_MAX entries that has a free one, and taken from there again,
  -- is that handle, and all the tables are as before.
  pub put_take :
      length (k.tables own) ≡ 16
      → find_free_handle (k.tables own) (pos 1) ≡ some i
      → (k' k'' : Kernel) × (handle_put driver copy p h k ≡ done (pos i, k'))
        × (hid_take p (pos i) k' ≡ done (some h, k''))
        × ((t : ℕ) → k''.tables t ≡ k.tables t)
  put_take full e =
      let first : IsFirstFree (k.tables own) 1 i =
        subst (Found (k.tables own) 1) e (find_free_handle_lem (k.tables own) 1 (omega arith)) in
      let same : put.tables own ≡ set (k.tables own) i (some h) = update_self k.tables own _ in
      let here : get_or (put.tables own) i none ≡ some h =
        ap (λ t. get_or t i none) same
        ∙ get_or-set_self (k.tables own) i (some h) none (omega (arith, first.inside, full)) in
      (
        put,
        taken,
        put_lem e,
        take_lem first.inside ∙ ap (λ o. done (o, taken)) here,
        λ t. restored t (set-get (k.tables own) i (some h) first.free) same,
      )
