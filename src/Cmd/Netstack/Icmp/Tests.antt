-- ===== src/Cmd/Netstack/Icmp/Tests.antt =====
-- An echo request to the guest, and the theorem there.
use camellia.Base.{◌≡◌, refl, [], ◌∷◌, some, arith, text}
use camellia.Cmd.Netstack.Util.{ip_checksum}
use camellia.Cmd.Netstack.Arp.{NetState}
use camellia.Cmd.Netstack.Tcp.{Ipv4}
use camellia.Cmd.Netstack.Icmp.{IcmpTo, icmp_send, icmp_parse, icmp_parse-icmp_send}

abbrev guest : NetState
guest = record { mac = 82 ∷ 84 ∷ 0 ∷ 18 ∷ 52 ∷ 86 ∷ []; ip = 167772687 }

abbrev request : IcmpTo
request = record { type = 8; code = 0; src = 167772674; dst = 167772687; mac = guest.mac }

abbrev asked : Ipv4
asked = record { src = 167772674; dst = 167772687; mac = guest.mac }

icmp_parse-icmp_send_example :
    (ip_checksum (icmp_send (text "ping") request).payload ≡ 0)
    × (icmp_parse guest (icmp_send (text "ping") request).payload asked
        ≡ some (
            icmp_send
              (text "ping")
              (record { type = 0; code = 0; src = 0; dst = 167772674; mac = guest.mac })))
icmp_parse-icmp_send_example =
    icmp_parse-icmp_send guest (text "ping") request asked (omega arith) (omega arith) refl refl
