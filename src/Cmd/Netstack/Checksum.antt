-- ===== src/Cmd/Netstack/Checksum.antt =====
-- The checksum of IP: a packet with its checksum in place sums to nothing.
use native.Mathlib.Decide.{dec_le}
use camellia.Base.{
  ℕ, zero, suc, ◌+◌, ◌*◌, ◌/◌, ◌%◌, ◌^◌, ◌<◌, ◌≤◌, ◌≡◌, ◌∙◌, refl, ap, List, [], ◌∷◌, ◌++◌, length,
  arith, All, length-append,
}
use camellia.Cmd.Netstack.Util.{
  nput16, sum_words, fold_carries, complement, ip_checksum, ip_checksumphdr,
}

-- the same sum without the limit of 32 bits
abbrev pub total : List ℕ → ℕ
total [] = 0
total (b ∷ []) = b * 256
total (a ∷ b ∷ buf) = a * 256 + b + total buf

-- The carries are folded in after three rounds at most, and the number stays the same modulo 65535.
record Folded (c d : ℕ) : Type 0 where
  small : d ≤ 65535
  same : d % 65535 ≡ c % 65535
  bound : d ≤ c
  nonzero : 0 < c → 0 < d

carry-Folded : (c : ℕ) → (c % 65536 + c / 65536) % 65535 ≡ c % 65535
carry-Folded c = omega arith

fold_carries-small : (fuel c : ℕ) → c ≤ 65535 → fold_carries fuel c ≡ c
unfolding fold_carries
fold_carries-small zero c h = refl
fold_carries-small (suc fuel) c h = ground arith

fold_carries-zero : (c : ℕ) → fold_carries 0 c ≡ c
unfolding fold_carries
fold_carries-zero c = refl

fold_carries-suc :
    (fuel c : ℕ) → 65535 < c → fold_carries (suc fuel) c ≡ fold_carries fuel (c % 65536 + c / 65536)
unfolding fold_carries
fold_carries-suc fuel c h = ground arith

fold_carries-Folded : (fuel c : ℕ) → fold_carries fuel c ≤ 65535 → Folded c (fold_carries fuel c)
fold_carries-Folded zero c h =
    let e = fold_carries-zero c in
    rw e (record { small = omega (arith, e); same = refl; bound = omega arith; nonzero = λ x. x })
fold_carries-Folded (suc fuel) c h = elim (dec_le c 65535) [
  | yes p ↦
      rw (fold_carries-small (suc fuel) c p)
        (record { small = p; same = refl; bound = omega arith; nonzero = λ x. x })
  | no p ↦
      let e = fold_carries-suc fuel c (omega arith) in
      let r = fold_carries-Folded fuel (c % 65536 + c / 65536) (omega (arith, e)) in
      rw e (record {
        small = r.small;
        same = r.same ∙ carry-Folded c;
        bound = omega (arith, r.bound);
        nonzero = λ x. r.nonzero (omega arith);
      })
]

fold_carries_ends : (c : ℕ) → c < 2 ^ 32 → fold_carries 3 c ≤ 65535
unfolding fold_carries
fold_carries_ends c h = ground arith

-- the sum of bytes, when it has 32 bits
abbrev pub IsByte : ℕ → Type 0
IsByte b = b < 256

total-bound : (buf : List ℕ) → All IsByte buf → total buf ≤ 65536 * length buf
total-bound [] h = omega arith
total-bound (b ∷ []) h = omega (arith, h)
total-bound (a ∷ b ∷ buf) h = omega (arith, h, total-bound buf h.1.1)

sum_words-total : (c : ℕ) (buf : List ℕ) → c + total buf < 2 ^ 32 → sum_words c buf ≡ c + total buf
unfolding sum_words
sum_words-total c [] h = omega arith
sum_words-total c (b ∷ []) h = omega arith
sum_words-total c (a ∷ b ∷ buf) h =
    let e : (c + (a * 256 + b)) % 2 ^ 32 ≡ c + (a * 256 + b) = omega (arith, h) in
    rw e (sum_words-total (c + (a * 256 + b)) buf (omega (arith, h)) ∙ omega arith)

total-append : (pre buf : List ℕ) → length pre % 2 ≡ 0 → total (pre ++ buf) ≡ total pre + total buf
total-append [] buf h = omega arith
total-append (b ∷ []) buf h = absurd (omega arith)
total-append (a ∷ b ∷ pre) buf h = omega (arith, total-append pre buf (omega arith))

-- a packet with `q` in a field between `pre` and `post`
abbrev pub with_field : (pre : List ℕ) (q : ℕ) (post : List ℕ) → List ℕ
with_field pre q post = pre ++ (nput16 q ++ post)

-- the number that a field of two zero bytes gives way to
total-field :
    (pre post : List ℕ) (q : ℕ)
    → length pre % 2 ≡ 0
    → q < 65536
    → total (with_field pre q post) ≡ total (pre ++ (0 ∷ 0 ∷ post)) + q
unfolding nput16
total-field pre post q h k =
    let e : total (with_field pre q post)
        ≡ total pre + (q / 256 % 256 * 256 + q % 256 + total post) =
      total-append pre (nput16 q ++ post) h in
    omega (arith, e, total-append pre (0 ∷ 0 ∷ post) h)

-- A sum that is 0 modulo 65535, and not 0, folds to all ones.
complement-Folded : (c d : ℕ) → Folded c d → 0 < c → c % 65535 ≡ 0 → complement d ≡ 0
complement-Folded c d f h k = omega (arith, f.small, f.same, f.nonzero h)

sum-Folded :
    (buf : List ℕ) → total buf < 2 ^ 32 → Folded (total buf) (fold_carries 3 (sum_words 0 buf))
sum-Folded buf h =
    let e : sum_words 0 buf ≡ total buf = sum_words-total 0 buf (omega (arith, h)) ∙ omega arith in
    rw e (fold_carries-Folded 3 (total buf) (fold_carries_ends (total buf) h))

-- what the pseudo-header adds
abbrev pseudo : (ip1 ip2 proto len : ℕ) → ℕ
pseudo ip1 ip2 proto len = ip1 % 65536 + ip1 / 65536 + (ip2 % 65536 + ip2 / 65536) + (proto + len)

ip_checksumphdr_lem :
    (buf : List ℕ) (ip1 ip2 proto : ℕ)
    → total buf < 2 ^ 32
    → ip1 < 2 ^ 32
    → ip2 < 2 ^ 32
    → proto < 256
    → length buf < 65536
    → ip_checksumphdr buf ip1 ip2 proto
      ≡ complement
          (fold_carries 3 (fold_carries 3 (sum_words 0 buf) + pseudo ip1 ip2 proto (length buf)))
unfolding ip_checksumphdr ip_checksum
ip_checksumphdr_lem buf ip1 ip2 proto t h k l n =
    let d = fold_carries 3 (sum_words 0 buf) in
    let f = sum-Folded buf t in
    ap (λ c. complement (fold_carries 3 c)) (omega (arith, f.small, h, k, l, n))

-- the total of the packet with `q` in its field has 32 bits
module _ (pre post : List ℕ) (b : All IsByte pre) (b' : All IsByte post) (even : length pre % 2 ≡ 0)
    (short : length pre + length post < 32768) where
  field_zero : total (pre ++ (0 ∷ 0 ∷ post)) < 2 ^ 31
  field_zero =
      omega (arith, total-append pre (0 ∷ 0 ∷ post) even, total-bound pre b, total-bound post b')

  -- A packet gets the checksum of IP where it has two zero bytes, at an even offset. Then its
  -- `ip_checksum` is 0. All its bytes are below 256, and it has less than 32770 of them.
  pub ip_checksum-verifies :
      ip_checksum (with_field pre (ip_checksum (pre ++ (0 ∷ 0 ∷ post))) post) ≡ 0
  unfolding ip_checksum
  ip_checksum-verifies =
      let t = total (pre ++ (0 ∷ 0 ∷ post)) in
      let d = fold_carries 3 (sum_words 0 (pre ++ (0 ∷ 0 ∷ post))) in
      let f = sum-Folded (pre ++ (0 ∷ 0 ∷ post)) (omega (arith, field_zero)) in
      let e = total-field pre post (complement d) even (omega arith) in
      let g = sum-Folded (with_field pre (complement d) post) (omega (arith, field_zero, e)) in
      complement-Folded _ _ g (omega (arith, e, f.small, f.bound))
        (omega (arith, e, f.small, f.same))

  -- The same with the pseudo-header of TCP, where the two addresses have 32 bits.
  pub ip_checksumphdr-verifies :
      (ip1 ip2 proto : ℕ)
      → ip1 < 2 ^ 32
      → ip2 < 2 ^ 32
      → proto < 256
      → ip_checksumphdr
          (with_field pre (ip_checksumphdr (pre ++ (0 ∷ 0 ∷ post)) ip1 ip2 proto) post)
          ip1
          ip2
          proto
        ≡ 0
  unfolding nput16
  ip_checksumphdr-verifies ip1 ip2 proto h k l =
      let buf = pre ++ (0 ∷ 0 ∷ post) in
      let p = pseudo ip1 ip2 proto (length buf) in
      let d = fold_carries 3 (sum_words 0 buf) in
      let f = sum-Folded buf (omega (arith, field_zero)) in
      let n : length buf < 65536 = omega (arith, length-append pre (0 ∷ 0 ∷ post)) in
      let c = fold_carries 3 (d + p) in
      let fc = fold_carries-Folded 3 (d + p) (fold_carries_ends (d + p) (omega (arith, f.small))) in
      let buf' = with_field pre (complement c) post in
      let e = total-field pre post (complement c) even (omega arith) in
      let f' = sum-Folded buf' (omega (arith, field_zero, e)) in
      let d' = fold_carries 3 (sum_words 0 buf') in
      let same : length buf' ≡ length buf = omega (
        arith,
        length-append pre (nput16 (complement c) ++ post),
        length-append pre (0 ∷ 0 ∷ post),
      ) in
      let fc' =
        fold_carries-Folded 3 (d' + p) (fold_carries_ends (d' + p) (omega (arith, f'.small))) in
      let some_bit : 0 < d' + p = elim (dec_le (total buf') 0) [
        | yes none_left ↦ omega (arith, none_left, e, fc.bound, fc.small, f.bound)
        | no left ↦ omega (arith, f'.nonzero (omega (arith, left)))
      ] in
      rw (ip_checksumphdr_lem buf ip1 ip2 proto (omega (arith, field_zero)) h k l n) (
        ip_checksumphdr_lem buf' ip1 ip2 proto (omega (arith, field_zero, e)) h k l
          (omega (arith, same, n))
        ∙ ap (λ m. complement (fold_carries 3 (d' + pseudo ip1 ip2 proto m))) same
        ∙ complement-Folded _ _ fc' some_bit (omega (arith, e, f'.same, f.same, fc.same, fc.small)))
