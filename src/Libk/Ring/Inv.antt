-- ===== src/Libk/Ring/Inv.antt =====
-- The invariant of `ring_t`: both indices lie in the storage, and no `size_t` sum wraps.
use camellia.Base.{
  ℕ, ◌+◌, ◌-◌, ◌^◌, ◌≤◌, ◌<◌, ◌≡◌, ◌∙◌, refl, List, Bool, true, false, arith, length, length-set,
  [], ◌∷◌,
}
use camellia.Libk.Ring.{Ring, at_end, used, put1b, put, contig, get}

pub record IsValid (r : Ring) : Type 0 where
  pub storage : r.capacity ≤ length r.buf
  pub small : r.capacity ≤ 2 ^ 63
  pub head_in : r.head < r.capacity
  pub tail_in : r.tail < r.capacity

-- The number of stored bytes, with no wrap.
pub used-eq :
    {r : Ring}
    → IsValid r
    → ((r.tail ≤ r.head → used r ≡ r.head - r.tail))
      × (r.head < r.tail → used r ≡ r.head + r.capacity - r.tail)
      × (used r < r.capacity)
unfolding used
used-eq v = ground arith

-- `at_end` says that all slots but one are taken.
pub at_end-true : {r : Ring} → IsValid r → at_end r ≡ true → used r + 1 ≡ r.capacity
unfolding used at_end
at_end-true v h = ground arith

pub at_end-false : {r : Ring} → IsValid r → at_end r ≡ false → used r + 1 < r.capacity
unfolding used at_end
at_end-false v h = ground arith

pub put1b-IsValid : {r : Ring} (b : ℕ) → IsValid r → IsValid (put1b r b)
unfolding put1b
put1b-IsValid {r} b v = ground (arith, length-set r.buf r.head b)

-- `ring_put` keeps a ring valid.
pub put-IsValid : (bs : List ℕ) {r : Ring} → IsValid r → IsValid (put r bs)
unfolding put
put-IsValid [] v = v
put-IsValid (b ∷ bs) v = put-IsValid bs (put1b-IsValid b v)

capacity-put1b : (r : Ring) (b : ℕ) → (put1b r b).capacity ≡ r.capacity
unfolding put1b
capacity-put1b r b = ground arith

pub capacity-put : (bs : List ℕ) (r : Ring) → (put r bs).capacity ≡ r.capacity
unfolding put
capacity-put [] r = refl
capacity-put (b ∷ bs) r = capacity-put bs (put1b r b) ∙ capacity-put1b r b

pub contig-IsValid : {r : Ring} (len : ℕ) → IsValid r → IsValid (contig r len).2
unfolding contig
contig-IsValid len v = ground arith

capacity-contig : (r : Ring) (len : ℕ) → (contig r len).2.capacity ≡ r.capacity
unfolding contig
capacity-contig r len = refl

pub capacity-get : (r : Ring) (keep : Bool) (len : ℕ) → (get r keep len).2.capacity ≡ r.capacity
unfolding get contig
capacity-get r keep len = refl

-- `ring_get` keeps a ring valid.
pub get-IsValid : {r : Ring} (keep : Bool) (len : ℕ) → IsValid r → IsValid (get r keep len).2
unfolding get
get-IsValid keep len v = contig-IsValid _ (contig-IsValid _ v)
