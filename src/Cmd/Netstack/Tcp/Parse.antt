-- ===== src/Cmd/Netstack/Tcp/Parse.antt =====
-- src/cmd/netstack/tcp.c: what arrives, and the opening of connections.
use camellia.Base.{
  ℕ, ◌+◌, ◌-◌, ◌*◌, ◌%◌, ◌^◌, List, [], ◌∷◌, ◌++◌, Bool, false, ◌&&◌, ◌||◌, not, Option, none, some,
  ltb, ◌==◌, if◌then◌else◌, length, is_empty, take,
}
use camellia.Libk.Ring.{put}
use camellia.Cmd.Netstack.Util.{nput16, nput32}
use camellia.Cmd.Netstack.Arp.{NetState, Arpc, arpcache_get, arp_request}
use camellia.Cmd.Netstack.Tcp.{
  TcpState, TcpConn, Sent, Ipv4, Header, User, After, listen, syn_sent, syn_rcvd, estabilished,
  last_ack, closed, is_listen, is_syn_sent, is_last_ack, is_closed, has, u32, fin, syn, rst, ack,
  with_checksum, tcpc_sendraw, tcpc_tryfree, read_header,
}

-- the list with the connection that was handled, or without it
abbrev pub back : Option TcpConn → List TcpConn → List TcpConn
back none cs = cs
back (some c) cs = c ∷ cs

-- the result of the loop: none, when no connection takes the segment
abbrev pub Result : Type 0 → Type 0
Result F = Option (List TcpConn × List Sent × F)

abbrev pub taken_by : {F : Type 0} → After F → List TcpConn → Result F
taken_by a cs = some (back a.conn cs, a.sent, a.user)

abbrev pub past : {F : Type 0} → TcpConn → Result F → Result F
past c none = none
past c (some (cs, sent, f)) = some (c ∷ cs, sent, f)

-- the answer to a segment that no connection takes
unfoldable pub reset : Header → Ipv4 → List Sent
reset h ip =
    if has h.flags rst
    then []
    else record {
      payload =
          with_checksum
            (nput16 h.dstport
              ++ nput16 h.srcport
              ++ nput32 h.acknum
              ++ nput32 (u32 (h.seq + 1))
              ++ nput16 (rst + ack + 5 * 2 ^ 12)
              ++ nput16 0)
            [] ip.src ip.dst;
      src = ip.dst;
      dst = ip.src;
      mac = ip.mac;
    }
      ∷ []

abbrev pub or_reset :
    {F : Type 0} → Result F → List TcpConn → Header → Ipv4 → F → List TcpConn × List Sent × F
or_reset none conns h ip f = (conns, reset h ip, f)
or_reset (some r) conns h ip f = r

module _ {F : Type 0} (user : User F) where
  -- if (iter->on_conn) iter->on_conn(iter, iter->carg)
  abbrev pub call_conn : TcpConn → F → F
  call_conn c f = if c.on_conn then user.connected c.addr c.carg f else f

  -- a SYN for a listening connection
  unfoldable pub handle_listen : TcpConn → Header → Ipv4 → F → After F
  handle_listen c h ip f =
      let c = record c {
        state = syn_rcvd;
        rip = ip.src;
        rport = h.srcport;
        lack = u32 (h.seq + 1);
        rmac = take 6 ip.mac;
      } in
      let (c, s) = tcpc_sendraw c (syn + ack) [] in
      let c = record c { lseq = u32 (c.lseq + 1) } in
      record { conn = some c; sent = s ∷ []; user = call_conn c f }

  unfoldable pub handle_syn_sent : TcpConn → Header → F → After F
  handle_syn_sent c h f =
      if has h.flags syn
      then (let c = record c { state = estabilished; lack = u32 (h.seq + 1) } in
          let (c, s) = tcpc_sendraw c ack [] in
          record { conn = some c; sent = s ∷ []; user = call_conn c f })
      else record { conn = some c; sent = []; user = f }

  -- the payload: the connection, the segments and the user
  unfoldable pub handle_payload : TcpConn → Header → F → TcpConn × List Sent × F
  handle_payload c h f =
      if is_empty h.payload
      then (c, [], f)
      else let rx = put c.rx h.payload in
        let (rx, f) = if c.on_recv then user.received c.carg rx f else (rx, f) in
        let (c, s) =
          tcpc_sendraw (record c { lack = u32 (h.seq + length h.payload); rx = rx }) ack [] in
        (c, s ∷ [], f)

  unfoldable pub handle_fin : TcpConn → Header → List Sent → F → After F
  handle_fin c h sent f =
      if has h.flags fin
      then (let (c, s) = tcpc_sendraw c (fin + ack) [] in
          record {
            conn = some (record c { state = last_ack });
            sent = sent ++ (s ∷ []);
            user = if c.on_close then user.disconnected c.carg f else f;
          })
      else record { conn = some c; sent = sent; user = f }

  -- from the test of the sequence number on
  unfoldable pub handle_data : TcpConn → Header → F → After F
  handle_data c h f =
      if not (c.lack == h.seq) && not (u32 (c.lack + 2 ^ 32 - 1) == h.seq)
      then (let (c, s) = tcpc_sendraw c ack [] in record { conn = some c; sent = s ∷ []; user = f })
      else let (c, sent, f) = handle_payload c h f in handle_fin c h sent f

  unfoldable pub handle_known : TcpConn → Header → F → After F
  handle_known c h f =
      let acked = record c { rack = if ltb c.rack h.acknum then h.acknum else c.rack } in
      if is_syn_sent c.state
      then handle_syn_sent c h f
      else if has h.flags ack && is_last_ack c.state
      then record { conn = tcpc_tryfree (record acked { state = closed }); sent = []; user = f }
      else handle_data (if has h.flags ack then acked else c) h f

  unfoldable pub tcp_loop : List TcpConn → Header → Ipv4 → F → Result F
  tcp_loop [] h ip f = none
  tcp_loop (c ∷ cs) h ip f =
      let rest = past c (tcp_loop cs h ip f) in
      if is_closed c.state || not (c.lport == h.dstport)
      then rest
      else if is_listen c.state && h.flags % 64 == syn
      then taken_by (handle_listen c h ip f) cs
      else if not (c.rip == ip.src) || not (c.rport == h.srcport)
      then rest
      else taken_by (handle_known c h f) cs

  unfoldable pub parse_header :
      Option Header → List TcpConn → Ipv4 → F → List TcpConn × List Sent × F
  parse_header none conns ip f = (conns, [], f)
  parse_header (some h) conns ip f = or_reset (tcp_loop conns h ip f) conns h ip f

  unfoldable pub tcp_parse : List TcpConn → (buf : List ℕ) → Ipv4 → F → List TcpConn × List Sent × F
  tcp_parse conns buf ip f = parse_header (read_header buf) conns ip f

-- The callbacks and the storage of 4096 bytes that a new connection gets.
pub record Fresh : Type 0 where
  pub addr : ℕ
  pub on_conn : Bool
  pub on_recv : Bool
  pub on_close : Bool
  pub carg : ℕ
  pub storage : List ℕ

-- malloc, memset and the assignments that tcp_listen and tcp_connect share
unfoldable pub new_conn : Fresh → TcpState → TcpConn
new_conn n state = record {
  addr = n.addr;
  lip = 0;
  rip = 0;
  rmac = 0 ∷ 0 ∷ 0 ∷ 0 ∷ 0 ∷ 0 ∷ [];
  lport = 0;
  rport = 0;
  state = state;
  lack = 0;
  rack = 0;
  lseq = 0;
  uclosed = false;
  on_conn = n.on_conn;
  on_recv = n.on_recv;
  on_close = n.on_close;
  carg = n.carg;
  rx = record { buf = n.storage; capacity = 4096; head = 0; tail = 0 };
}

unfoldable pub tcp_listen : NetState → Fresh → (port : ℕ) → List TcpConn → List TcpConn
tcp_listen st n port conns = record (new_conn n listen) { lport = port; lip = st.ip } ∷ conns

-- `struct tcp`
pub record Target : Type 0 where
  pub lip : ℕ
  pub rip : ℕ
  pub lport : ℕ
  pub rport : ℕ

-- the MAC that arpcache_get finds for the target, or else for the gateway, and the frames sent
unfoldable pub route :
    NetState → (gateway : ℕ) → List Arpc → (rip : ℕ) → Option (List ℕ) × List (List ℕ)
route st gateway cache rip = elim (arpcache_get rip cache) [
  | some mac ↦ (some mac, [])
  | none ↦ (arpcache_get gateway cache, arp_request st rip ∷ [])
]

-- A connection to `t` by a MAC, and its SYN.
unfoldable pub open_to : NetState → Fresh → Target → (mac : List ℕ) → TcpConn × Sent
open_to st n t mac =
    let (c, s) =
      tcpc_sendraw
        (record (new_conn n syn_sent) {
          lip = if t.lip == 0 then st.ip else t.lip;
          rip = t.rip;
          lport = if t.lport == 0 then 50002 else t.lport;
          rport = t.rport;
          rmac = mac;
        })
        syn [] in
    (record c { lseq = u32 (c.lseq + 1) }, s)

-- the list, what goes out as frames and as segments, and the user
unfoldable pub tcp_connect :
    {F : Type 0}
    → User F
    → NetState
    → (gateway : ℕ) → List Arpc
    → Fresh
    → Target
    → List TcpConn
    → F
    → List TcpConn × List (List ℕ) × List Sent × F
tcp_connect user st gateway cache n t conns f =
    let (mac, frames) = route st gateway cache t.rip in
    elim mac [
      | none ↦ (conns, frames, [], user.disconnected n.carg f)
      | some mac ↦ let (c, s) = open_to st n t mac in (c ∷ conns, frames, s ∷ [], f)
    ]
