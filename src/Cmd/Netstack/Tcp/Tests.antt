-- ===== src/Cmd/Netstack/Tcp/Tests.antt =====
-- tcp.c and the checksum at concrete connections, and the theorems there.
use camellia.Base.{
  ℕ, ◌+◌, ◌*◌, ◌^◌, ◌≡◌, refl, List, [], ◌∷◌, ◌++◌, true, false, some, done, arith, text, ◌<◌,
  ◌>>=◌,
}
use camellia.Cmd.Netstack.Util.{ip_checksum, ip_checksumphdr, sum_words, fold_carries}
use camellia.Cmd.Netstack.Checksum.{ip_checksumphdr-verifies, with_field}
use camellia.Cmd.Netstack.Arp.{zeros}
use camellia.Cmd.Netstack.Tcp.{
  TcpConn, Header, Ipv4, User, estabilished, tcpc_sendraw, tcpc_send, tcpc_close, read_header, ack,
  psh, fin,
}
use camellia.Cmd.Netstack.Tcp.Parse.{tcp_parse, tcp_loop, back}
use camellia.Cmd.Netstack.Tcp.Segment.{read_header-tcpc_sendraw}
use camellia.Cmd.Netstack.Tcp.Moves.{Evolves, tcp_parse-Evolves}
use camellia.Cmd.Netstack.Tcp.Close.{
  arrives, closes, live, Reaches, freed_in_either_order, recv_after_close, user_of,
}
use camellia.Cmd.Netstack.Tcp.Delivery.{InStep}

-- a user that counts its callbacks
abbrev counter : User ℕ
counter = record {
  connected = λ addr carg n. n + 1;
  received = λ carg rx n. (rx, n + 1);
  disconnected = λ carg n. n + 1;
}

abbrev pub client : TcpConn
client = record {
  addr = 4096;
  lip = 167772687;
  rip = 167772674;
  rmac = 82 ∷ 85 ∷ 10 ∷ 0 ∷ 2 ∷ 2 ∷ [];
  lport = 50002;
  rport = 80;
  state = estabilished;
  lack = 1000;
  rack = 500;
  lseq = 500;
  uclosed = false;
  on_conn = true;
  on_recv = true;
  on_close = true;
  carg = 7;
  rx = record { buf = zeros 8; capacity = 8; head = 0; tail = 0 };
}

-- the other end, which acknowledges what the client sent
abbrev pub server : TcpConn
server = record client {
  lip = 167772674;
  rip = 167772687;
  lport = 80;
  rport = 50002;
  lack = 500;
  lseq = 1000;
}

pub client-InStep : InStep client server
client-InStep = record {
  sized = record {
    lport_width = omega arith;
    rport_width = omega arith;
    lseq_width = omega arith;
    lack_width = omega arith;
  };
  to_port = refl;
  from_port = refl;
  from_ip = refl;
  next_byte = refl;
  not_closed = refl;
  not_listen = refl;
  not_syn_sent = refl;
  not_last_ack = refl;
  valid = record {
    storage = omega arith;
    small = omega arith;
    head_in = omega arith;
    tail_in = omega arith;
  };
}

read_header-tcpc_sendraw_example :
    read_header (tcpc_sendraw client (ack + psh) (text "GE")).1.payload
    ≡ some (record {
      srcport = 50002;
      dstport = 80;
      seq = 500;
      acknum = 1000;
      flags = 24 + 5 * 2 ^ 12;
      payload = text "GE";
    })
read_header-tcpc_sendraw_example =
    read_header-tcpc_sendraw client 24 (text "GE") client-InStep.sized (omega arith) (omega arith)

abbrev from_gateway : Ipv4
from_gateway = record { src = 167772674; dst = 167772687; mac = client.rmac }

-- an acknowledgement, a FIN, and data without an acknowledgement, from the server
abbrev from_server : (flags : ℕ) → List ℕ → Header
from_server flags buf = record {
  srcport = 80;
  dstport = 50002;
  seq = 1000;
  acknum = 500;
  flags = flags + 5 * 2 ^ 12;
  payload = buf;
}

abbrev packet : (flags : ℕ) → List ℕ
packet flags = (tcpc_sendraw (record server { lseq = 1000; lack = 500 }) flags []).1.payload

packet-Reaches :
    (flags : ℕ) → flags < 64 → Reaches (packet flags) from_gateway (from_server flags []) client
packet-Reaches flags h = record {
  reads =
      read_header-tcpc_sendraw server flags []
        (record {
          lport_width = omega arith;
          rport_width = omega arith;
          lseq_width = omega arith;
          lack_width = omega arith;
        })
        (omega arith) (omega arith);
  port = refl;
  from_port = refl;
  from_ip = refl;
}

freed_in_either_order_example :
    (live counter (closes ∷ arrives (packet ack) from_gateway ∷ []) (client ∷ []) 0 ≡ done ([], 0))
    × (live counter
          (arrives (packet (fin + ack)) from_gateway
            ∷ arrives (packet ack) from_gateway
            ∷ closes
            ∷ [])
          (client ∷ [])
          0
        ≡ done ([], 1))
freed_in_either_order_example =
    freed_in_either_order counter client [] from_gateway (packet ack) (packet (fin + ack))
      (from_server ack []) (from_server (fin + ack) []) 0 (packet-Reaches ack (omega arith))
      (packet-Reaches (fin + ack) (omega arith)) refl refl refl refl refl refl refl

recv_after_close_example :
    (tcpc_close client >>= λ r.
    done (user_of (tcp_loop counter (back r.0 []) (from_server psh (text "x")) from_gateway 0)))
    ≡ done (some 1)
recv_after_close_example =
    recv_after_close counter client [] (from_server psh (text "x")) from_gateway 0 refl refl refl
      refl refl refl refl refl refl

tcp_parse-Evolves_example :
    Evolves
      (client ∷ [])
      (tcp_parse counter (client ∷ []) (tcpc_send server (text "ok")).1.payload from_gateway 0).0
tcp_parse-Evolves_example =
    tcp_parse-Evolves counter (client ∷ []) (tcpc_send server (text "ok")).1.payload from_gateway 0

-- the header of an IPv4 packet, around its checksum
abbrev before_checksum : List ℕ
before_checksum = 69 ∷ 0 ∷ 0 ∷ 115 ∷ 0 ∷ 0 ∷ 64 ∷ 0 ∷ 64 ∷ 17 ∷ []

abbrev after_checksum : List ℕ
after_checksum = 192 ∷ 168 ∷ 0 ∷ 1 ∷ 192 ∷ 168 ∷ 0 ∷ 199 ∷ []

checksum_known : ip_checksum (before_checksum ++ (0 ∷ 0 ∷ after_checksum)) ≡ 47201
unfolding ip_checksum sum_words fold_carries
checksum_known = refl

ip_checksumphdr-verifies_example :
    ip_checksumphdr
      (with_field before_checksum
        (ip_checksumphdr (before_checksum ++ (0 ∷ 0 ∷ after_checksum)) 167772687 167772674 6)
        after_checksum)
      167772687
      167772674
      6
    ≡ 0
ip_checksumphdr-verifies_example =
    ip_checksumphdr-verifies before_checksum after_checksum (omega arith) (omega arith)
      (omega arith) (omega arith) 167772687 167772674 6 (omega arith) (omega arith) (omega arith)
