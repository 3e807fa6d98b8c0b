-- ===== src/Libk/Ring/Tests.antt =====
-- The functions of ring.c at a ring whose contents go round the end, and the theorems there.
use camellia.Base.{◌-◌, ◌≡◌, refl, true, [], ◌∷◌, ◌++◌, arith, length, take, min, slice}
use camellia.Libk.Ring.{Ring, used, put1b, put, get, contig}
use camellia.Libk.Ring.Inv.{IsValid}
use camellia.Libk.Ring.Refine.{contents, put_refines, get_refines}

-- 8, then 9, of at most three bytes
abbrev wrapped : Ring
wrapped = record { buf = 9 ∷ 0 ∷ 7 ∷ 8 ∷ []; capacity = 4; head = 1; tail = 3 }

wrapped-IsValid : IsValid wrapped
wrapped-IsValid = omega arith

contents-wrapped : contents wrapped ≡ 8 ∷ 9 ∷ []
unfolding slice
contents-wrapped = refl

put-wrapped : put wrapped (1 ∷ 2 ∷ []) ≡ record wrapped { buf = 9 ∷ 1 ∷ 7 ∷ 8 ∷ []; head = 2 }
unfolding put put1b
put-wrapped = refl

get-wrapped : get wrapped true 5 ≡ (2, 8 ∷ 9 ∷ [], record wrapped { tail = 1 })
unfolding get contig slice
get-wrapped = refl

put_refines_example :
    contents (put wrapped (1 ∷ 2 ∷ [])) ≡ contents wrapped ++ take (3 - used wrapped) (1 ∷ 2 ∷ [])
put_refines_example = put_refines (1 ∷ 2 ∷ []) wrapped-IsValid

get_refines_example :
    let (read, out, r') = get wrapped true 5 in
    (read ≡ min 5 (used wrapped)) × (length out ≡ read) × (contents wrapped ≡ out ++ contents r')
get_refines_example = get_refines 5 wrapped-IsValid (omega arith)
