-- ===== src/Cmd/Netstack/Util.antt =====
-- src/cmd/netstack/util.h and util.c: numbers in network byte order and the checksum of IP.
use camellia.Base.{
  ℕ, zero, suc, ◌+◌, ◌-◌, ◌*◌, ◌/◌, ◌%◌, ◌^◌, List, [], ◌∷◌, leb, if◌then◌else◌, length, get_or,
  set,
}

unfoldable pub nput16 : ℕ → List ℕ
nput16 n = n / 256 % 256 ∷ n % 256 ∷ []

unfoldable pub nput32 : ℕ → List ℕ
nput32 n = n / 2 ^ 24 % 256 ∷ n / 2 ^ 16 % 256 ∷ n / 256 % 256 ∷ n % 256 ∷ []

-- the numbers at an offset
abbrev pub byte : List ℕ → ℕ → ℕ
byte buf i = get_or buf i 0

unfoldable pub nget16 : List ℕ → ℕ → ℕ
nget16 buf i = byte buf i * 256 + byte buf (i + 1)

unfoldable pub nget32 : List ℕ → ℕ → ℕ
nget32 buf i =
    byte buf i * 2 ^ 24 + byte buf (i + 1) * 2 ^ 16 + byte buf (i + 2) * 256 + byte buf (i + 3)

-- the loop of ip_checksum over pairs of bytes, and the last byte
unfoldable pub sum_words : (c : ℕ) → List ℕ → ℕ
sum_words c [] = c
sum_words c (b ∷ []) = (c + b * 256) % 2 ^ 32
sum_words c (a ∷ b ∷ buf) = sum_words ((c + (a * 256 + b)) % 2 ^ 32) buf

-- the loop `while (c > 0xFFFF)`
unfoldable pub fold_carries : (fuel c : ℕ) → ℕ
fold_carries zero c = c
fold_carries (suc fuel) c =
    let rest = fold_carries fuel (c % 65536 + c / 65536) in if leb c 65535 then c else rest

-- the uint16_t complement
abbrev pub complement : ℕ → ℕ
complement c = 65535 - c % 65536

unfoldable pub ip_checksum : List ℕ → ℕ
ip_checksum buf = complement (fold_carries 3 (sum_words 0 buf))

unfoldable pub ip_checksumphdr : List ℕ → (ip1 ip2 proto : ℕ) → ℕ
ip_checksumphdr buf ip1 ip2 proto =
    let c = complement (ip_checksum buf) in
    let c = (c + (ip1 % 65536 + ip1 / 65536)) % 2 ^ 32 in
    let c = (c + (ip2 % 65536 + ip2 / 65536)) % 2 ^ 32 in
    let c = (c + (proto + length buf)) % 2 ^ 32 in complement (fold_carries 3 c)

-- a memcpy or a nput to `buf + off`
unfoldable pub write_at : List ℕ → (off : ℕ) → List ℕ → List ℕ
write_at buf off [] = buf
write_at buf off (b ∷ bs) = write_at (set buf off b) (suc off) bs
