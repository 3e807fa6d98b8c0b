-- ===== src/Libk/Ring.antt =====
-- src/libk/ring.c: a byte ring that keeps one slot free. `ring_t` is the record `Ring`; a function
-- that updates `*r` returns the new ring. `size_t` arithmetic is modulo 2 ^ 64.
pub mod Inv
pub mod Refine
mod Tests
use camellia.Base.{
  ℕ, zero, suc, ◌+◌, ◌-◌, ◌%◌, ◌^◌, List, [], ◌∷◌, ◌++◌, Bool, true, false, ◌&&◌, ◌||◌, ltb, leb,
  ◌==◌, if◌then◌else◌, set, slice,
}

pub record Ring : Type 0 where
  pub buf : List ℕ
  pub capacity : ℕ
  pub head : ℕ
  pub tail : ℕ

abbrev pub size_mod : ℕ
size_mod = 2 ^ 64

abbrev pub add_size : ℕ → ℕ → ℕ
add_size a b = (a + b) % size_mod

abbrev pub sub_size : ℕ → ℕ → ℕ
sub_size a b = (a + size_mod - b) % size_mod

pub at_end : Ring → Bool
at_end r = add_size r.head 1 == r.tail || (add_size r.head 1 == r.capacity && r.tail == 0)

pub used : Ring → ℕ
used r =
    if leb r.tail r.head
    then sub_size r.head r.tail
    else sub_size (add_size r.head r.capacity) r.tail

pub avail : Ring → ℕ
avail r = sub_size r.capacity (used r)

-- `buf[_head++] = byte`, then the wrap to the start
pub put1b : Ring → ℕ → Ring
unfolding at_end
put1b r byte =
    if at_end r
    then r
    else let head = add_size r.head 1 in
      record r { buf = set r.buf r.head byte; head = if leb r.capacity head then 0 else head }

-- the loop over `buf[0 .. len)`
pub put : Ring → List ℕ → Ring
put r [] = r
put r (b ∷ bs) = put (put1b r b) bs

-- The index of the returned pointer, the new `*len`, and the ring.
pub contig : Ring → ℕ → ℕ × ℕ × Ring
contig r len =
    let available =
      if leb r.tail r.head then sub_size r.head r.tail else sub_size r.capacity r.tail in
    let len' = if ltb available len then available else len in
    let tail = add_size r.tail len' in
    (r.tail, len', record r { tail = if leb r.capacity tail then 0 else tail })

-- The two rounds of the loop. The result is the count, the bytes copied to `buf` (when it is not
-- NULL) and the ring.
get_loop : ℕ → Bool → Ring → (len read : ℕ) → List ℕ → ℕ × List ℕ × Ring
get_loop zero keep r len read out = (read, out, r)
get_loop (suc n) keep r len read out =
    let (at, plen, r') = contig r (sub_size len read) in
    get_loop n keep r' len (add_size read plen) (if keep then out ++ slice r.buf at plen else out)

pub get : Ring → (keep : Bool) → ℕ → ℕ × List ℕ × Ring
unfolding get_loop
get r keep len = get_loop 2 keep r len 0 []
