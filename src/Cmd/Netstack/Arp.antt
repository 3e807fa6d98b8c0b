-- ===== src/Cmd/Netstack/Arp.antt =====
-- src/cmd/netstack/arp.c, and ether_start of ether.c: the ARP cache, requests and replies. A `mac_t` is a
-- list of six bytes, and a frame is the bytes that `ether_finish` writes.
pub mod Cache
pub mod Resolve
mod Tests
use camellia.Base.{
  ℕ, zero, suc, ◌+◌, ◌-◌, ◌^◌, List, [], ◌∷◌, ◌++◌, Bool, true, false, ◌&&◌, ◌||◌, not, Option,
  none, some, ltb, ◌==◌, if◌then◌else◌, length, take, drop,
}
use camellia.Cmd.Netstack.Util.{nput16, nput32, byte, nget16, nget32, write_at}

-- the part of `struct net_state` that is used here
pub record NetState : Type 0 where
  pub mac : List ℕ
  pub ip : ℕ

pub record Arpc : Type 0 where
  pub ip : ℕ
  pub mac : List ℕ

-- memcmp(x, y, n) == 0
unfoldable pub same_bytes : (n : ℕ) (x y : List ℕ) → Bool
same_bytes zero x y = true
same_bytes (suc n) x y = byte x 0 == byte y 0 && same_bytes n (drop 1 x) (drop 1 y)

-- the entry where the loop of arpcache_put stops
unfoldable pub find_mac : List ℕ → List Arpc → Option Arpc
find_mac mac [] = none
find_mac mac (e ∷ cache) =
    let rest = find_mac mac cache in if same_bytes 6 e.mac mac then some e else rest

-- the cache after a put, when the loop stopped at `found`
unfoldable pub put_after : (found : Option Arpc) → List Arpc → (ip : ℕ) (mac : List ℕ) → List Arpc
put_after none cache ip mac = record { ip = ip; mac = take 6 mac } ∷ cache
put_after (some e) cache ip mac =
    if e.ip == ip then cache else record { ip = ip; mac = take 6 mac } ∷ cache

unfoldable pub arpcache_put : List Arpc → (ip : ℕ) (mac : List ℕ) → List Arpc
arpcache_put cache ip mac = put_after (find_mac mac cache) cache ip mac

-- the MAC, or none for -1
unfoldable pub arpcache_get : (ip : ℕ) → List Arpc → Option (List ℕ)
arpcache_get ip [] = none
arpcache_get ip (e ∷ cache) =
    let rest = arpcache_get ip cache in if e.ip == ip then some e.mac else rest

abbrev pub zeros : ℕ → List ℕ
zeros zero = []
zeros (suc n) = 0 ∷ zeros n

-- the header and the zeros behind it; `pkt` is 14 bytes in
unfoldable pub ether_start : (len : ℕ) (dst src : List ℕ) (type : ℕ) → List ℕ
ether_start len dst src type =
    take 6 dst ++ take 6 src ++ nput16 type ++ zeros (if ltb len (60 - 14) then 60 - 14 else len)

abbrev pub mac_broadcast : List ℕ
mac_broadcast = 255 ∷ 255 ∷ 255 ∷ 255 ∷ 255 ∷ 255 ∷ []

-- ET_IPv4 and ET_ARP
abbrev pub et_ipv4 : ℕ
et_ipv4 = 2048

abbrev pub et_arp : ℕ
et_arp = 2054

-- the packet of `state` with an operation, to the MAC and IP in the ten bytes `target`
unfoldable pub arp_packet : NetState → (frame : List ℕ) (op : ℕ) (target : List ℕ) → List ℕ
arp_packet state frame op target =
    let pkt = write_at frame 14 (nput16 1) in
    let pkt = write_at pkt 16 (nput16 et_ipv4) in
    let pkt = write_at pkt 18 (6 ∷ 4 ∷ []) in
    let pkt = write_at pkt 20 (nput16 op) in
    let pkt = write_at pkt 22 (take 6 state.mac) in
    let pkt = write_at pkt 28 (nput32 state.ip) in write_at pkt 32 target

unfoldable pub arp_request : NetState → (ip : ℕ) → List ℕ
arp_request state ip =
    arp_packet state (ether_start 28 mac_broadcast state.mac et_arp) 1 (mac_broadcast ++ nput32 ip)

-- the reply to the sender in `buf`
unfoldable pub arp_reply : NetState → (buf : List ℕ) → List ℕ
arp_reply state buf =
    arp_packet state (ether_start 30 (drop 8 buf) state.mac et_arp) 2 (take 10 (drop 8 buf))

-- the cache, and the frame that is sent
unfoldable pub arp_parse : NetState → List Arpc → (buf : List ℕ) → List Arpc × Option (List ℕ)
arp_parse state cache buf =
    if ltb (length buf) 8
      || not (nget16 buf 0 == 1 && nget16 buf 2 == et_ipv4)
      || ltb (length buf) 28
    then (cache, none)
    else (
      arpcache_put cache (nget32 buf 14) (drop 8 buf),
      (if nget16 buf 6 == 1 && nget32 buf 24 == state.ip then some (arp_reply state buf) else none),
    )
