-- ===== src/Cmd/Netstack/Arp/Tests.antt =====
-- arp.c at concrete hosts, and the theorems there.
use camellia.Base.{ℕ, ◌≡◌, ◌≢◌, refl, List, [], ◌∷◌, some, drop, arith}
use camellia.Cmd.Netstack.Arp.{
  Arpc, same_bytes, find_mac, arpcache_put, arpcache_get, arp_parse, arp_request,
}
use camellia.Cmd.Netstack.Arp.Cache.{arpcache_get-put, arpcache_put_stale}
use camellia.Cmd.Netstack.Arp.Resolve.{arp_resolves, host, mac_of}

abbrev gateway : Arpc
gateway = record { ip = 167772674; mac = mac_of 82 85 10 0 2 2 }

abbrev guest_mac : List ℕ
guest_mac = mac_of 82 84 0 18 52 86

-- the only entry has another MAC
gateway_only : (e : Arpc) → find_mac guest_mac (gateway ∷ []) ≡ some e → e.ip ≢ 167772687
unfolding find_mac same_bytes
gateway_only e h = absurd (ground arith)

arpcache_get-put_example :
    arpcache_get 167772687 (arpcache_put (gateway ∷ []) 167772687 guest_mac) ≡ some guest_mac
arpcache_get-put_example = arpcache_get-put (gateway ∷ []) 167772687 guest_mac gateway_only

arpcache_put_stale_example :
    arpcache_get 167772674 (
      arpcache_put
        (arpcache_put (arpcache_put [] 167772674 gateway.mac) 167772674 guest_mac)
        167772674
        gateway.mac)
    ≡ some guest_mac
unfolding same_bytes
arpcache_put_stale_example = arpcache_put_stale 167772674 gateway.mac guest_mac refl refl

arp_resolves_example :
    (reply : List ℕ) × ((arp_parse
        (host 82 84 0 18 52 86 167772687)
        []
        (drop 14 (arp_request (host 82 85 10 0 2 2 167772674) 167772687))).1
      ≡ some reply)
    × (arpcache_get 167772687
          (arp_parse (host 82 85 10 0 2 2 167772674) (gateway ∷ []) (drop 14 reply)).0
        ≡ some guest_mac)
arp_resolves_example =
    arp_resolves 82 85 10 0 2 2 82 84 0 18 52 86 167772674 167772687 (gateway ∷ []) [] (omega arith)
      (omega arith) gateway_only
