-- ===== src/Cmd/Netstack/Icmp.antt =====
-- src/cmd/netstack/icmp.c. A call of `ipv4_send` is its payload with the addresses.
mod Tests
use camellia.Base.{
  ℕ, ◌+◌, ◌%◌, ◌^◌, ◌<◌, ◌≡◌, refl, List, [], ◌∷◌, ◌++◌, Bool, true, false, ◌&&◌, Option, none,
  some, ltb, ◌==◌, if◌then◌else◌, length, drop, All, arith,
}
use camellia.Cmd.Netstack.Util.{nput16, byte, ip_checksum}
use camellia.Cmd.Netstack.Checksum.{IsByte, ip_checksum-verifies}
use camellia.Cmd.Netstack.Arp.{NetState}
use camellia.Cmd.Netstack.Tcp.{Ipv4, Sent}

-- `struct icmp`: an address of 0 is left to ipv4_send
pub record IcmpTo : Type 0 where
  pub type : ℕ
  pub code : ℕ
  pub src : ℕ
  pub dst : ℕ
  pub mac : List ℕ

-- the packet with 0 for its checksum, and with a checksum
unfoldable pub icmp_packet : (type code checksum : ℕ) → List ℕ → List ℕ
icmp_packet type code checksum payload =
    (type % 256 ∷ code % 256 ∷ []) ++ (nput16 checksum ++ payload)

unfoldable pub icmp_send : List ℕ → IcmpTo → Sent
icmp_send payload i = record {
  payload = icmp_packet i.type i.code (ip_checksum (icmp_packet i.type i.code 0 payload)) payload;
  src = i.src;
  dst = i.dst;
  mac = i.mac;
}

-- the echo reply, if there is one
unfoldable pub icmp_parse : NetState → (buf : List ℕ) → Ipv4 → Option Sent
icmp_parse state buf ip =
    if ltb (length buf) 4
    then none
    else if byte buf 0 == 8 && ip.dst == state.ip
    then some (
        icmp_send (drop 4 buf) (record { type = 0; code = 0; src = 0; dst = ip.src; mac = ip.mac }))
    else none

-- The packet of `icmp_send` has 0 as its checksum, when the payload is of bytes and has less than
-- 32766 of them; and an echo request for this host that icmp_send makes is answered by `icmp_parse` with an
-- echo reply to the sender, with the same payload.
pub icmp_parse-icmp_send :
    (state : NetState) (payload : List ℕ) (i : IcmpTo) (ip : Ipv4)
    → All IsByte payload
    → length payload < 32766
    → i.type ≡ 8
    → ip.dst ≡ state.ip
    → (ip_checksum (icmp_send payload i).payload ≡ 0)
      × (icmp_parse state (icmp_send payload i).payload ip
          ≡ some (
              icmp_send payload
                (record { type = 0; code = 0; src = 0; dst = ip.src; mac = ip.mac })))
unfolding icmp_send icmp_packet icmp_parse nput16
icmp_parse-icmp_send state payload i ip b short t d = (
  ip_checksum-verifies (i.type % 256 ∷ i.code % 256 ∷ []) payload (omega arith) b (omega arith)
      (omega arith),
  let request : (i.type % 256 == 8) ≡ true = ground (arith, t) in
      let here : (ip.dst == state.ip) ≡ true = ground (arith, d) in
      let long : ltb (length (0 ∷ 0 ∷ 0 ∷ 0 ∷ payload)) 4 ≡ false = ground arith in
      rw (request, here, long) refl,
)
