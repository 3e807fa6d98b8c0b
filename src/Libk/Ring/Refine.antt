-- ===== src/Libk/Ring/Refine.antt =====
-- A valid ring behaves as the queue of the bytes that it holds.
use native.Mathlib.Decide.{dec_lt}
use camellia.Base.{
  take-nil, take-cons, length-take, ◌⊎◌, ℕ, suc, ◌+◌, ◌-◌, ◌^◌, ◌≤◌, ◌<◌, ◌≡◌, List, true, false,
  arith, length, refl, [], ◌∷◌, ◌++◌, append-nil, append_assoc, leb, if◌then◌else◌, slice,
  length-slice, slice-add, slice-set_out, slice-set_end, slice-zero, Bool-cases, inl, inr,
  length-append, take, min, set, ap,
}
use camellia.Libk.Ring.{add_size, sub_size, Ring, at_end, used, avail, put1b, put, contig, get}
use camellia.Libk.Ring.Inv.{
  IsValid, used-eq, at_end-true, at_end-false, put1b-IsValid, put-IsValid, contig-IsValid,
}

-- the stored bytes, oldest first
abbrev pub contents : Ring → List ℕ
contents r =
    if leb r.tail r.head
    then slice r.buf r.tail (r.head - r.tail)
    else slice r.buf r.tail (r.capacity - r.tail) ++ slice r.buf 0 r.head

pub length-contents : {r : Ring} → IsValid r → length (contents r) ≡ used r
unfolding used
length-contents {r} v = ground (
  arith,
  length-slice buf tail (head - tail),
  length-slice buf tail (capacity - tail),
  length-slice buf 0 head,
  length-append (slice buf tail (capacity - tail)) (slice buf 0 head),
)
  where
    open r use {buf, tail, head, capacity}

module _ {r : Ring} (b : ℕ) (v : IsValid r) (room : at_end r ≡ false) where
  open r use {buf, tail, head, capacity}

  put1b-room_next :
      (head + 1 < capacity) → put1b r b ≡ record r { buf = set buf head b; head = head + 1 }
  unfolding put1b
  put1b-room_next h = ground arith

  put1b-room_wrap : (head + 1 ≡ capacity) → put1b r b ≡ record r { buf = set buf head b; head = 0 }
  unfolding put1b
  put1b-room_wrap h = ground arith

  -- a byte put in a ring with room goes behind the stored ones
  contents-put1b : contents (put1b r b) ≡ contents r ++ (b ∷ [])
  unfolding at_end
  contents-put1b = elim (dec_lt (head + 1) capacity) [
    | yes p ↦ rw (put1b-room_next p) (
        ground (
          arith,
          slice-set_end buf tail (head - tail) head b,
          slice-set_end buf 0 head head b,
          slice-set_out buf tail (capacity - tail) head b,
          append_assoc (slice buf tail (capacity - tail)) (slice buf 0 head) (b ∷ []),
        ))
    | no p ↦ rw (put1b-room_wrap (omega arith)) (
        ground (
          arith,
          slice-set_end buf tail (head - tail) head b,
          append-nil (slice buf tail (head - tail) ++ (b ∷ [])),
          append-nil (slice (set buf head b) tail (suc (head - tail))),
          slice-zero (set buf head b) 0,
        ))
  ]

module _ {r : Ring} (v : IsValid r) where
  put1b-full : (b : ℕ) → at_end r ≡ true → put1b r b ≡ r
  unfolding put1b
  put1b-full b h = rw h

  capacity-put1b : (b : ℕ) → (put1b r b).capacity ≡ r.capacity
  unfolding put1b
  capacity-put1b b = ground arith

  used-put1b : (b : ℕ) → at_end r ≡ false → used (put1b r b) ≡ used r + 1
  used-put1b b h = omega (
    arith,
    length-contents (put1b-IsValid b v),
    ap length (contents-put1b b v h),
    length-append (contents r) (b ∷ []),
    length-contents v,
  )

-- On a valid ring, `ring_put` appends as many of the bytes as keep one slot free, in order.
pub put_refines :
    (bs : List ℕ) {r : Ring}
    → IsValid r
    → contents (put r bs) ≡ contents r ++ take (r.capacity - 1 - used r) bs
unfolding put
put_refines [] {r} v = rw (take-nil, append-nil)
put_refines (b ∷ bs) {r} v = elim (Bool-cases (at_end r)) [
  | inl full ↦
      let none_left : r.capacity - 1 - used r ≡ 0 = omega (arith, at_end-true v full) in
      rw (put, put1b-full v b full, put_refines bs v, none_left)
  | inr room ↦
      let left : (put1b r b).capacity - 1 - used (put1b r b) ≡ r.capacity - 1 - used r - 1 =
        omega (arith, capacity-put1b v b, used-put1b v b room) in
      rw (
        put,
        put_refines bs (put1b-IsValid b v),
        contents-put1b b v room,
        left,
        append_assoc,
        take-cons (r.capacity - 1 - used r) b bs (omega (arith, at_end-false v room)),
      )
]

-- What `ring_contig` has done when it returns index `at`, length `n` and the ring `r'`.
record Taken (r : Ring) (len at n : ℕ) (r' : Ring) : Type 0 where
  start : at ≡ r.tail
  same_buf : r'.buf ≡ r.buf
  bytes : contents r ≡ slice r.buf at n ++ contents r'
  whole : r.tail ≤ r.head → n ≡ min len (used r)
  wraps : (n ≡ len) ⊎ (r'.tail ≤ r'.head)
  bound : n ≤ len

module _ {r : Ring} (v : IsValid r) (n : ℕ) where
  open r use {buf, tail, head, capacity}

  -- the bytes from `tail` on, when the new tail lies before the end of the storage
  bytes_next :
      tail + n < capacity
      → (tail ≤ head → tail + n ≤ head)
      → contents r ≡ slice buf tail n ++ contents (record r { tail = tail + n })
  bytes_next h k = ground (
    arith,
    slice-add buf tail n (head - (tail + n)),
    slice-add buf tail n (capacity - (tail + n)),
    append_assoc (slice buf tail n) (slice buf (tail + n) (capacity - (tail + n)))
        (slice buf 0 head),
  )

  -- the same, when they reach the end of the storage
  bytes_wrap :
      tail + n ≡ capacity
      → head < tail
      → contents r ≡ slice buf tail n ++ contents (record r { tail = 0 })
  bytes_wrap h k = ground arith

  bytes_step :
      (tail ≤ head → tail + n ≤ head)
      → tail + n ≤ capacity
      → contents r
        ≡ slice buf tail n
          ++ contents
              (record r { tail = if leb capacity (add_size tail n) then 0 else add_size tail n })
  bytes_step h k = elim (dec_lt (tail + n) capacity) [
    | yes p ↦
        let e : (if leb capacity (add_size tail n) then 0 else add_size tail n) ≡ tail + n =
          ground arith in
        rw e (bytes_next p h)
    | no p ↦
        let e : (if leb capacity (add_size tail n) then 0 else add_size tail n) ≡ 0 =
          ground arith in
        rw e (bytes_wrap (omega arith) (grind arith))
  ]

contig-Taken :
    {r : Ring} (len : ℕ) → IsValid r → let (at, n, r') = contig r len in Taken r len at n r'
unfolding contig used
contig-Taken {r} len v = record {
  start = refl;
  same_buf = refl;
  bytes = bytes_step v _ (ground arith) (ground arith);
  whole = ground arith;
  wraps = ground arith;
  bound = ground arith;
}

used-Taken :
    {r r' : Ring} {len at n : ℕ}
    → IsValid r
    → IsValid r'
    → Taken r len at n r'
    → used r ≡ n + used r'
used-Taken {r} {r'} {at = at} {n = n} v v' t = omega (
  arith,
  ap length t.bytes,
  length-append (slice r.buf at n) (contents r'),
  length-slice r.buf at n,
  length-contents v,
  length-contents v',
)

-- the two rounds of `ring_get` together
two_rounds :
    {r r1 r2 : Ring} {len at1 at2 n1 n2 : ℕ}
    → IsValid r
    → IsValid r1
    → IsValid r2
    → Taken r len at1 n1 r1
    → Taken r1 (len - n1) at2 n2 r2
    → (n1 + n2 ≡ min len (used r))
      × (contents r ≡ (slice r.buf at1 n1 ++ slice r1.buf at2 n2) ++ contents r2)
two_rounds {r} {r1} {r2} {at1 = at1} {at2} {n1} {n2} v v1 v2 t1 t2 =
    (grind (arith, used-Taken v v1 t1, used-Taken v1 v2 t2), rw (t1.bytes, t2.bytes, append_assoc))

-- On a valid ring, with a buffer and a 64-bit length, `ring_get` takes as many bytes as are asked
-- for and stored, from the front of the queue, and leaves the others.
pub get_refines :
    {r : Ring} (len : ℕ)
    → IsValid r
    → len < 2 ^ 64
    → let (read, out, r') = get r true len in
      (read ≡ min len (used r)) × (length out ≡ read) × (contents r ≡ out ++ contents r')
unfolding get
get_refines {r} len v h =
    let from_0 : sub_size len 0 ≡ len = omega arith in
    rw from_0 (
      let n1 = (contig r len).1 in
      let r1 = (contig r len).2 in
      let v1 = contig-IsValid len v in
      let t1 = contig-Taken len v in
      let left : sub_size len (add_size 0 n1) ≡ len - n1 = omega (arith, t1.bound) in
      rw left (
        let n2 = (contig r1 (len - n1)).1 in
        let v2 = contig-IsValid (len - n1) v1 in
        let t2 = contig-Taken (len - n1) v1 in
        let both = two_rounds v v1 v2 t1 t2 in
        let total : add_size (add_size 0 n1) n2 ≡ n1 + n2 = omega (arith, t1.bound, t2.bound) in
        rw total (both.0, rw (length-append, length-slice, length-slice), both.1)))

-- On a valid ring, `ring_avail` counts the slot that is kept free: of as many bytes as it reports,
-- `ring_put` drops exactly one.
avail-overcounts :
    {r : Ring} (bs : List ℕ)
    → IsValid r
    → length bs ≡ avail r
    → used (put r bs) + 1 ≡ used r + length bs
unfolding avail
avail-overcounts {r} bs v h = omega (
  arith,
  length-contents v,
  length-contents (put-IsValid bs v),
  ap length (put_refines bs v),
  length-append (contents r) (take (r.capacity - 1 - used r) bs),
  length-take (r.capacity - 1 - used r) bs,
  used-eq v,
)
