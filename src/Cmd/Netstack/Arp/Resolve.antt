-- ===== src/Cmd/Netstack/Arp/Resolve.antt =====
-- A request, its reply, and what the two hosts then know.
use camellia.Base.{
  ℕ, ◌^◌, ◌<◌, ◌≡◌, ◌≢◌, refl, sym, ◌∙◌, List, [], ◌∷◌, true, none, some, ◌==◌, if◌then◌else◌, drop,
  arith, ◌++◌, ◌+◌, ◌*◌, ◌/◌, ◌%◌, ◌&&◌,
}
use camellia.Cmd.Netstack.Arp.Cache.{arpcache_get-put}
use camellia.Cmd.Netstack.Util.{nput16, nput32, nget16, nget32, write_at}
use camellia.Cmd.Netstack.Arp.{
  NetState, Arpc, find_mac, arpcache_put, arpcache_get, arp_parse, arp_reply, arp_request,
  arp_packet, ether_start, zeros, mac_broadcast, same_bytes,
}

abbrev pub mac_of : (a b c d e f : ℕ) → List ℕ
mac_of a b c d e f = a ∷ b ∷ c ∷ d ∷ e ∷ f ∷ []

abbrev pub host : (a b c d e f ip : ℕ) → NetState
host a b c d e f ip = record { mac = mac_of a b c d e f; ip = ip }

-- a packet in 46 bytes
abbrev packet : (op : ℕ) (mac : List ℕ) (ip : ℕ) (mac' : List ℕ) (ip' : ℕ) → List ℕ
packet op mac ip mac' ip' =
    0 ∷ 1 ∷ 8 ∷ 0 ∷ 6 ∷ 4 ∷ 0 ∷ op ∷ [] ++ mac ++ nput32 ip ++ mac' ++ nput32 ip' ++ zeros 18

nput32-value :
    (n : ℕ)
    → n < 2 ^ 32
    → n / 2 ^ 24 % 256 * 2 ^ 24 + n / 2 ^ 16 % 256 * 2 ^ 16 + n / 256 % 256 * 256 + n % 256 ≡ n
nput32-value n h = omega arith

module _ (a b c d e f : ℕ) where
  -- only six bytes of a MAC are compared
  find_mac-prefix :
      (rest : List ℕ) (cache : List Arpc)
      → find_mac (mac_of a b c d e f ++ rest) cache ≡ find_mac (mac_of a b c d e f) cache
  unfolding find_mac same_bytes
  find_mac-prefix rest [] = refl
  find_mac-prefix rest (e ∷ cache) = rw (find_mac-prefix rest cache) refl

  module _ (a' b' c' d' e' f' : ℕ) where
    request_packet :
        (ip ip' : ℕ)
        → drop 14 (arp_request (host a b c d e f ip) ip')
          ≡ packet 1 (mac_of a b c d e f) ip mac_broadcast ip'
    unfolding arp_request arp_packet ether_start write_at nput16 nput32
    request_packet ip ip' = refl

    reply_packet :
        (op ip ip' ip'' : ℕ)
        → drop 14 (
            arp_reply
              (host a b c d e f ip)
              (packet op (mac_of a' b' c' d' e' f') ip' mac_broadcast ip''))
          ≡ packet 2 (mac_of a b c d e f) ip (mac_of a' b' c' d' e' f') ip'
    unfolding arp_reply arp_packet ether_start write_at nput16 nput32
    reply_packet op ip ip' ip'' = refl

    packet_parsed :
        (state : NetState) (cache : List Arpc) (op ip ip' : ℕ)
        → ip < 2 ^ 32
        → ip' < 2 ^ 32
        → arp_parse state cache (packet op (mac_of a b c d e f) ip (mac_of a' b' c' d' e' f') ip')
          ≡ (
            arpcache_put cache ip
                (drop 8 (packet op (mac_of a b c d e f) ip (mac_of a' b' c' d' e' f') ip')),
            (if op == 1 && ip' == state.ip
                then some (
                    arp_reply state
                      (packet op (mac_of a b c d e f) ip (mac_of a' b' c' d' e' f') ip'))
                else none),
          )
    unfolding arp_parse nput32 nget16 nget32
    packet_parsed state cache op ip ip' h k =
        let e : 0 * 256 + op ≡ op = omega arith in
        rw (nput32-value ip h, nput32-value ip' k, e) refl

-- A host that asks for the address of another gets a reply, and from the reply learns the other's MAC,
-- unless its cache already holds that MAC first under the same address.
pub arp_resolves :
    (a b c d e f a' b' c' d' e' f' ip ip' : ℕ) (cache cache' : List Arpc)
    → ip < 2 ^ 32
    → ip' < 2 ^ 32
    → ((x : Arpc) → find_mac (mac_of a' b' c' d' e' f') cache ≡ some x → x.ip ≢ ip')
    → let asker = host a b c d e f ip in
      let other = host a' b' c' d' e' f' ip' in
      (reply : List ℕ) × ((arp_parse other cache' (drop 14 (arp_request asker ip'))).1 ≡ some reply)
      × (arpcache_get ip' (arp_parse asker cache (drop 14 reply)).0
          ≡ some (mac_of a' b' c' d' e' f'))
arp_resolves a b c d e f a' b' c' d' e' f' ip ip' cache cache' h k fresh =
    (arp_reply other asked, replies, learns)
  where
    asker : NetState
    asker = host a b c d e f ip

    other : NetState
    other = host a' b' c' d' e' f' ip'

    asked : List ℕ
    asked = packet 1 (mac_of a b c d e f) ip mac_broadcast ip'

    replies :
        (arp_parse other cache' (drop 14 (arp_request asker ip'))).1 ≡ some (arp_reply other asked)
    replies =
        let self : (ip' == ip') ≡ true = ground arith in
        rw
          (
            request_packet a b c d e f a' b' c' d' e' f' ip ip',
            packet_parsed a b c d e f 255 255 255 255 255 255 other cache' 1 ip ip' h k,
            self,
          )
          refl

    learns :
        arpcache_get ip' (arp_parse asker cache (drop 14 (arp_reply other asked))).0
        ≡ some (mac_of a' b' c' d' e' f')
    learns =
        rw
          (
            reply_packet a' b' c' d' e' f' a b c d e f 1 ip' ip ip',
            packet_parsed a' b' c' d' e' f' a b c d e f asker cache 2 ip' ip k h,
          )
          (arpcache_get-put cache ip' _
            (λ x found. fresh x (sym (find_mac-prefix a' b' c' d' e' f' _ cache) ∙ found)))
