-- ===== src/Cmd/Netstack/Tcp/Close.antt =====
-- The end of a connection, in either order, and the callback that is left.
use camellia.Base.{
  ◌+◌, ◌*◌, ◌^◌, ℕ, ◌≡◌, ◌∙◌, refl, ap, List, [], ◌∷◌, true, false, Option, some, none,
  if◌then◌else◌, ◌==◌, ltb, is_empty, done, panic, Outcome, ◌>>=◌, arith,
}
use camellia.Libk.Ring.{put}
use camellia.Cmd.Netstack.Tcp.{
  TcpConn, Header, Ipv4, User, estabilished, last_ack, closed, tcpc_sendraw, tcpc_tryfree,
  tcpc_close, close_sends, has, fin, psh, ack, read_header,
}
use camellia.Cmd.Netstack.Tcp.Parse.{
  handle_fin, handle_payload, handle_data, handle_known, tcp_loop, tcp_parse, parse_header, Result,
  back,
}

-- what happens to the connections: a packet comes in, or the user of the first one closes it
pub data Event : Type 0 where
  arrives : (buf : List ℕ) → Ipv4 → Event
  closes : Event

-- the connections and the user after the events, where the user has a first connection to close
unfoldable pub live :
    {F : Type 0} → User F → List Event → List TcpConn → F → Outcome (List TcpConn × F)
live user [] conns f = done (conns, f)
live user (arrives buf ip ∷ es) conns f =
    let (conns', sent, f') = tcp_parse user conns buf ip f in live user es conns' f'
live user (closes ∷ es) [] f = panic
live user (closes ∷ es) (c ∷ conns) f = tcpc_close c >>= λ r. live user es (back r.0 conns) f

-- the packet has the header `h`, which is for `c`
pub record Reaches (buf : List ℕ) (ip : Ipv4) (h : Header) (c : TcpConn) : Type 0 where
  pub reads : read_header buf ≡ some h
  pub port : h.dstport ≡ c.lport
  pub from_port : h.srcport ≡ c.rport
  pub from_ip : ip.src ≡ c.rip

-- `c` when it has sent a FIN, and no more calls its user when it is connected or closed
abbrev user_closed : TcpConn → TcpConn
user_closed c = record (tcpc_sendraw (record c { uclosed = true }) (fin + ack) []).0 {
  state = last_ack;
  on_conn = false;
  on_close = false;
}

tcpc_close-estabilished :
    {A : Type 0} (c : TcpConn) (k : Option TcpConn → Outcome A)
    → c.state ≡ estabilished
    → c.uclosed ≡ false
    → (tcpc_close c >>= λ r. k r.0) ≡ k (some (user_closed c))
unfolding tcpc_close close_sends tcpc_tryfree tcpc_sendraw
tcpc_close-estabilished c k e u = rw (u, e) refl

module _ {F : Type 0} (user : User F) (conns : List TcpConn) (ip : Ipv4) (f : F) where
  -- an acknowledgement in LAST_ACK
  ack_closes :
      (c : TcpConn) (buf : List ℕ) (h : Header)
      → Reaches buf ip h c
      → c.state ≡ last_ack
      → has h.flags ack ≡ true
      → tcp_parse user (c ∷ conns) buf ip f ≡ (
        back
            (tcpc_tryfree (record c {
              state = closed;
              rack = if ltb c.rack h.acknum then h.acknum else c.rack;
            }))
            conns,
        [],
        f,
      )
  unfolding tcp_parse parse_header tcp_loop handle_known tcpc_tryfree
  ack_closes c buf h r e a =
      let port : (c.lport == h.dstport) ≡ true = ground (arith, r.port) in
      let from : (c.rport == h.srcport) ≡ true = ground (arith, r.from_port) in
      let from_ip : (c.rip == ip.src) ≡ true = ground (arith, r.from_ip) in
      rw (r.reads, e, port, from, from_ip, a) refl

  abbrev acked_by : TcpConn → Header → TcpConn
  acked_by c h = record c { rack = if ltb c.rack h.acknum then h.acknum else c.rack }

  -- `c` when it has answered a FIN `h`
  abbrev peer_closed : TcpConn → Header → TcpConn
  peer_closed c h = record (tcpc_sendraw (acked_by c h) (fin + ack) []).0 { state = last_ack }

  fin_closes :
      (c : TcpConn) (buf : List ℕ) (h : Header)
      → Reaches buf ip h c
      → c.state ≡ estabilished
      → has h.flags ack ≡ true
      → has h.flags fin ≡ true
      → h.seq ≡ c.lack
      → h.payload ≡ []
      → tcp_parse user (c ∷ conns) buf ip f ≡ (
        peer_closed c h ∷ conns,
        (tcpc_sendraw (acked_by c h) (fin + ack) []).1 ∷ [],
        if c.on_close then user.disconnected c.carg f else f,
      )
  unfolding tcp_parse parse_header tcp_loop handle_known handle_data handle_payload handle_fin
      tcpc_sendraw
  fin_closes c buf h r e a b n p =
      let port : (c.lport == h.dstport) ≡ true = ground (arith, r.port) in
      let from : (c.rport == h.srcport) ≡ true = ground (arith, r.from_port) in
      let from_ip : (c.rip == ip.src) ≡ true = ground (arith, r.from_ip) in
      let next_byte : (c.lack == h.seq) ≡ true = ground (arith, n) in
      rw (r.reads, e, port, from, from_ip, a, next_byte, p, b) refl

-- A connection that is up and first in the list is closed by its user and by the other end, in either
-- order, where `buf` holds an acknowledgement for it and `buf'` a FIN, in sequence and with an
-- acknowledgement, without data. If its user closes it first, the next acknowledgement frees it, whether or
-- not the other end has sent a FIN, and the user is not called. If the FIN comes first, on_close is called
-- once, if there is one, the acknowledgement leaves it closed, and the user's close frees it.
pub freed_in_either_order :
    {F : Type 0} (user : User F) (c : TcpConn) (conns : List TcpConn) (ip : Ipv4)
    (buf buf' : List ℕ) (h h' : Header) (f : F)
    → Reaches buf ip h c
    → Reaches buf' ip h' c
    → c.state ≡ estabilished
    → c.uclosed ≡ false
    → has h.flags ack ≡ true
    → has h'.flags ack ≡ true
    → has h'.flags fin ≡ true
    → h'.seq ≡ c.lack
    → h'.payload ≡ []
    → (live user (closes ∷ arrives buf ip ∷ []) (c ∷ conns) f ≡ done (conns, f))
      × (live user (arrives buf' ip ∷ arrives buf ip ∷ closes ∷ []) (c ∷ conns) f
          ≡ done (conns, if c.on_close then user.disconnected c.carg f else f))
unfolding live tcpc_tryfree tcpc_close close_sends tcpc_sendraw
freed_in_either_order user c conns ip buf buf' h h' f r r' e u a a' b n p =
    let still : Reaches buf ip h (user_closed c) = record {
      reads = r.reads;
      port = r.port;
      from_port = r.from_port;
      from_ip = r.from_ip;
    } in
    let d = peer_closed user conns ip f c h' in
    let still' : Reaches buf ip h d = record {
      reads = r.reads;
      port = r.port;
      from_port = r.from_port;
      from_ip = r.from_ip;
    } in
    let g = if c.on_close then user.disconnected c.carg f else f in
    (
      tcpc_close-estabilished c (λ o. live user (arrives buf ip ∷ []) (back o conns) f) e u
          ∙ ap (λ t. live user [] t.0 t.2)
              (ack_closes user conns ip f (user_closed c) buf h still refl a),
      ap (λ t. live user (arrives buf ip ∷ closes ∷ []) t.0 t.2)
            (fin_closes user conns ip f c buf' h' r' e a' b n p)
          ∙ ap (λ t. live user (closes ∷ []) t.0 t.2)
              (ack_closes user conns ip g d buf h still' refl a)
          ∙ (rw u refl),
    )

-- the user's state after a packet that a connection takes
abbrev pub user_of : {F : Type 0} → Result F → Option F
user_of none = none
user_of (some (cs, sent, f)) = some f

-- After the user of a connection that is up, and then first in the list, has closed it with tcpc_close,
-- `on_recv` is still called: a segment in sequence with data and without an acknowledgement runs it for
-- the argument that the user has given up.
pub recv_after_close :
    {F : Type 0} (user : User F) (c : TcpConn) (conns : List TcpConn) (h : Header) (ip : Ipv4)
    (f : F)
    → c.state ≡ estabilished
    → c.uclosed ≡ false
    → c.on_recv ≡ true
    → h.dstport ≡ c.lport
    → h.srcport ≡ c.rport
    → ip.src ≡ c.rip
    → h.seq ≡ c.lack
    → h.flags ≡ psh + 5 * 2 ^ 12
    → is_empty h.payload ≡ false
    → (tcpc_close c >>= λ r. done (user_of (tcp_loop user (back r.0 conns) h ip f)))
      ≡ done (some (user.received c.carg (put c.rx h.payload) f).1)
unfolding tcp_loop handle_known handle_data handle_payload handle_fin tcpc_sendraw
recv_after_close user c conns h ip f e u o p q r t k n =
    let port : (c.lport == h.dstport) ≡ true = ground (arith, p) in
    let from : (c.rport == h.srcport) ≡ true = ground (arith, q) in
    let from_ip : (c.rip == ip.src) ≡ true = ground (arith, r) in
    let next_byte : (c.lack == h.seq) ≡ true = ground (arith, t) in
    tcpc_close-estabilished c (λ d. done (user_of (tcp_loop user (back d conns) h ip f))) e u
    ∙ (rw (port, from, from_ip, k, next_byte, n, o) refl)
