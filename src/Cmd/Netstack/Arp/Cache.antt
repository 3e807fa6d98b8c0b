-- ===== src/Cmd/Netstack/Arp/Cache.antt =====
-- The ARP cache after `arpcache_put`.
use camellia.Base.{
  ℕ, zero, suc, ◌≡◌, ◌≢◌, refl, List, [], ◌∷◌, true, false, Option, none, some, take, arith,
}
use camellia.Cmd.Netstack.Arp.{Arpc, same_bytes, find_mac, put_after, arpcache_put, arpcache_get}

get-put_after :
    (found : Option Arpc) (cache : List Arpc) (ip : ℕ) (mac : List ℕ)
    → ((e : Arpc) → found ≡ some e → e.ip ≢ ip)
    → arpcache_get ip (put_after found cache ip mac) ≡ some (take 6 mac)
unfolding arpcache_get put_after
get-put_after none cache ip mac h = ground arith
get-put_after (some e) cache ip mac h = ground (arith, h e refl)

-- The MAC of a sender that the cache does not hold, or holds first with another address, is found under
-- its address after `arpcache_put`.
pub arpcache_get-put :
    (cache : List Arpc) (ip : ℕ) (mac : List ℕ)
    → ((e : Arpc) → find_mac mac cache ≡ some e → e.ip ≢ ip)
    → arpcache_get ip (arpcache_put cache ip mac) ≡ some (take 6 mac)
unfolding arpcache_put
arpcache_get-put cache ip mac h = get-put_after (find_mac mac cache) cache ip mac h

same_bytes-nil : (n : ℕ) → same_bytes n [] [] ≡ true
unfolding same_bytes
same_bytes-nil zero = refl
same_bytes-nil (suc n) = same_bytes-nil n

same_bytes-take : (n : ℕ) (x : List ℕ) → same_bytes n (take n x) x ≡ true
unfolding same_bytes
same_bytes-take zero x = refl
same_bytes-take (suc n) [] = same_bytes-nil n
same_bytes-take (suc n) (a ∷ x) = ground (arith, same_bytes-take n x)

-- An address that moves to another MAC and back is not found under the first one again:
-- `arpcache_put` sees the old entry for that MAC and does nothing, while the newer entry stands
-- before it. This holds for every address and every two different MACs.
pub arpcache_put_stale :
    (ip : ℕ) (mac other : List ℕ)
    → same_bytes 6 (take 6 other) mac ≡ false
    → same_bytes 6 (take 6 mac) other ≡ false
    → arpcache_get ip (arpcache_put (arpcache_put (arpcache_put [] ip mac) ip other) ip mac)
      ≡ some (take 6 other)
unfolding arpcache_put find_mac put_after arpcache_get
arpcache_put_stale ip mac other h k = ground (arith, h, k, same_bytes-take 6 mac)
