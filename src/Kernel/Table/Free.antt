-- ===== src/Kernel/Table/Free.antt =====
-- The search for a free entry, and a handle that is put in a table and taken out.
use mathlib.Core.Path.{subst}
use native.Mathlib.Decide.{ℕ_discrete}
use camellia.Base.{
  ℕ, zero, suc, ◌+◌, ◌-◌, ◌<◌, ◌≤◌, ◌≡◌, ◌≢◌, sym, inl, inr, Option, none, some, Option-cases,
  get_or, arith, pos,
}
use camellia.Kernel.Table.{Table, free_from, find_free_handle}

-- `i` is the first free entry of the table from `start` on
pub record IsFirstFree (t : Table) (start i : ℕ) : Type 0 where
  pub from : start ≤ i
  pub inside : i < 16
  pub free : get_or t i none ≡ none
  pub first : (j : ℕ) → start ≤ j → j < i → get_or t j none ≢ none

-- no entry from `start` on is free
abbrev pub IsFull : Table → ℕ → Type 0
IsFull t start = (j : ℕ) → start ≤ j → j < 16 → get_or t j none ≢ none

-- what the result of a search from `start` on says
abbrev pub Found : Table → ℕ → Option ℕ → Type 0
Found t start none = IsFull t start
Found t start (some i) = IsFirstFree t start i

used_before :
    (t : Table) (hid j : ℕ)
    → get_or t hid none ≢ none
    → hid ≤ j
    → (suc hid ≤ j → get_or t j none ≢ none)
    → get_or t j none ≢ none
used_before t hid j ne a f = elim (ℕ_discrete hid j) [
  | yes e ↦ subst (λ i. get_or t i none ≢ none) e ne
  | no d ↦ f (omega arith)
]

later :
    (t : Table) (hid : ℕ) (o : Option ℕ)
    → get_or t hid none ≢ none
    → Found t (suc hid) o
    → Found t hid o
later t hid none ne f = λ j a b. used_before t hid j ne a (λ c. f j c b)
later t hid (some i) ne f = record {
  from = omega (arith, f.from);
  inside = f.inside;
  free = f.free;
  first = λ j a b. used_before t hid j ne a (λ c. f.first j c b);
}

module _ (t : Table) (n hid : ℕ) where
  search_free : get_or t hid none ≡ none → free_from t (suc n) hid ≡ some hid
  unfolding free_from
  search_free e = rw (free_from, e)

  search_used :
      (h : ℕ) → get_or t hid none ≡ some h → free_from t (suc n) hid ≡ free_from t n (suc hid)
  unfolding free_from
  search_used h e = rw (free_from, e)

found : (t : Table) (n hid : ℕ) → n + hid ≡ 16 → Found t hid (free_from t n hid)
found t zero hid e = unfold free_from in λ j a b c. absurd (omega arith)
found t (suc n) hid e = elim (Option-cases (get_or t hid none)) [
  | inl free ↦ subst (Found t hid) (sym (search_free t n hid free)) (record {
    from = omega arith;
    inside = omega arith;
    free = free;
    first = λ j a b. absurd (omega arith);
  })
  | inr (h, used) ↦ subst (Found t hid) (sym (search_used t n hid h used)) (
      later t hid (free_from t n (suc hid)) (λ c. absurd (ground (arith, used, c)))
        (found t n (suc hid) (omega arith)))
]

-- The search in a table of HANDLE_MAX entries from a number that it has: it gives the first free
-- entry, and -1 only if none is free.
pub find_free_handle_lem :
    (t : Table) (start : ℕ) → start ≤ 16 → Found t start (find_free_handle t (pos start))
unfolding find_free_handle
find_free_handle_lem t start h = found t (16 - start) start (omega arith)
