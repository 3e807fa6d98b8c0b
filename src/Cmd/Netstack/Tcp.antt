-- ===== src/Cmd/Netstack/Tcp.antt =====
-- src/cmd/netstack/tcp.c. The connections are the list from `conns` on; a connection has its address as a
-- number, for the calls that take a pointer. A callback pointer is a Boolean, false for NULL, and the
-- user behind it (fs.c) is a state with what it does in each callback. A segment that is sent is its bytes
-- with the addresses for `ipv4_send`.
pub mod Parse
pub mod Moves
pub mod Close
pub mod Segment
pub mod Delivery
pub mod Tests
use camellia.Base.{
  ℕ, zero, suc, ◌+◌, ◌-◌, ◌*◌, ◌/◌, ◌%◌, ◌^◌, List, [], ◌∷◌, ◌++◌, Bool, true, false, ◌&&◌, ◌||◌,
  not, Option, none, some, ltb, leb, ◌==◌, if◌then◌else◌, length, take, drop, Outcome, done, panic,
  assert, ◌>>=◌, ◌>>◌,
}
use camellia.Libk.Ring.{Ring, used, avail, put, get}
use camellia.Cmd.Netstack.Util.{nput16, nput32, byte, nget16, nget32, write_at, ip_checksumphdr}
use camellia.Cmd.Netstack.Arp.{zeros}

pub data TcpState : Type 0 where
  listen : TcpState
  syn_sent : TcpState
  syn_rcvd : TcpState
  estabilished : TcpState
  last_ack : TcpState
  closed : TcpState

abbrev pub is_listen : TcpState → Bool
is_listen listen = true
is_listen _ = false

abbrev pub is_syn_sent : TcpState → Bool
is_syn_sent syn_sent = true
is_syn_sent _ = false

abbrev pub is_last_ack : TcpState → Bool
is_last_ack last_ack = true
is_last_ack _ = false

abbrev pub is_closed : TcpState → Bool
is_closed closed = true
is_closed _ = false

pub record TcpConn : Type 0 where
  pub addr : ℕ
  pub lip : ℕ
  pub rip : ℕ
  pub rmac : List ℕ
  pub lport : ℕ
  pub rport : ℕ
  pub state : TcpState
  pub lack : ℕ
  pub rack : ℕ
  pub lseq : ℕ
  pub uclosed : Bool
  pub on_conn : Bool
  pub on_recv : Bool
  pub on_close : Bool
  pub carg : ℕ
  pub rx : Ring

-- a call of `ipv4_send`
pub record Sent : Type 0 where
  pub payload : List ℕ
  pub src : ℕ
  pub dst : ℕ
  pub mac : List ℕ

-- the parts of `struct ipv4` that tcp_parse reads
pub record Ipv4 : Type 0 where
  pub src : ℕ
  pub dst : ℕ
  pub mac : List ℕ

abbrev pub fin : ℕ
fin = 1

abbrev pub syn : ℕ
syn = 2

abbrev pub rst : ℕ
rst = 4

abbrev pub psh : ℕ
psh = 8

abbrev pub ack : ℕ
ack = 16

-- `flags & flag`, for a flag of one bit
abbrev pub has : (flags flag : ℕ) → Bool
has flags flag = not (flags / flag % 2 == 0)

abbrev pub u32 : ℕ → ℕ
u32 n = n % 2 ^ 32

-- The packet before its checksum. `flags` has none of the bits of the header's size, so that the size is
-- added.
unfoldable pub header : TcpConn → (flags : ℕ) → List ℕ
header c flags =
    nput16 c.lport
    ++ nput16 c.rport
    ++ nput32 c.lseq
    ++ nput32 c.lack
    ++ nput16 (flags + 5 * 2 ^ 12)
    ++ nput16 (avail c.rx)

-- the bytes of a packet, with the checksum in its field
unfoldable pub with_checksum : (head buf : List ℕ) (src dst : ℕ) → List ℕ
with_checksum head buf src dst =
    write_at (head ++ zeros 4 ++ buf) 16
      (nput16 (ip_checksumphdr (head ++ zeros 4 ++ buf) src dst 6))

unfoldable pub tcpc_sendraw : TcpConn → (flags : ℕ) → (buf : List ℕ) → TcpConn × Sent
tcpc_sendraw c flags buf = (
  record c { lseq = u32 (c.lseq + length buf) },
  record {
    payload = with_checksum (header c flags) buf c.lip c.rip;
    src = c.lip;
    dst = c.rip;
    mac = c.rmac;
  },
)

-- a callback with the user's state and, for on_recv, the ring that tcpc_tryread reads
pub record User (F : Type 0) : Type 0 where
  pub connected : (addr carg : ℕ) → F → F
  pub received : (carg : ℕ) → Ring → F → Ring × F
  pub disconnected : (carg : ℕ) → F → F

-- what a handler leaves of its connection, none when it is freed
pub record After (F : Type 0) : Type 0 where
  pub conn : Option TcpConn
  pub sent : List Sent
  pub user : F

unfoldable pub tcpc_tryfree : TcpConn → Option TcpConn
tcpc_tryfree c = if is_closed c.state && c.uclosed then none else some c

-- the connection, what it sent and the user; none stands for a failed assertion
unfoldable pub close_sends : TcpConn → TcpConn × List Sent
close_sends c =
    if is_closed c.state || is_last_ack c.state || is_listen c.state
    then (c, [])
    else let (c, s) = tcpc_sendraw c (fin + ack) [] in
      (record c { state = last_ack; on_conn = false; on_close = false }, s ∷ [])

unfoldable pub tcpc_close : TcpConn → Outcome (Option TcpConn × List Sent)
tcpc_close c = do
  assert (not c.uclosed)
  let (c, sent) = close_sends (record c { uclosed = true })
  done (tcpc_tryfree c, sent)

unfoldable pub tcpc_send : TcpConn → List ℕ → TcpConn × Sent
tcpc_send c buf = tcpc_sendraw c (ack + psh) buf

-- the count, the bytes (when `buf` is not NULL) and the connection
unfoldable pub tcpc_tryread : TcpConn → (keep : Bool) → (len : ℕ) → ℕ × List ℕ × TcpConn
tcpc_tryread c keep len =
    if keep
    then (let (n, out, rx) = get c.rx true len in (n, out, record c { rx = rx }))
    else (used c.rx, [], c)

-- what tcp_parse reads from the header
pub record Header : Type 0 where
  pub srcport : ℕ
  pub dstport : ℕ
  pub seq : ℕ
  pub acknum : ℕ
  pub flags : ℕ
  pub payload : List ℕ

-- none where tcp_parse returns. `payloadlen` is a uint16_t.
unfoldable pub read_header : List ℕ → Option Header
read_header buf =
    let hdrlen = nget16 buf 12 / 2 ^ 12 % 16 * 4 in
    if ltb (length buf) 20 || ltb (length buf) hdrlen
    then none
    else some (record {
      srcport = nget16 buf 0;
      dstport = nget16 buf 2;
      seq = nget32 buf 4;
      acknum = nget32 buf 8;
      flags = nget16 buf 12;
      payload = take ((length buf - hdrlen) % 2 ^ 16) (drop hdrlen buf);
    })
