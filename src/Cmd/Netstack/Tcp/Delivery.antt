-- ===== src/Cmd/Netstack/Tcp/Delivery.antt =====
-- Data that one connection sends with tcpc_send, as the other end receives it.
use camellia.Base.{
  ℕ, ◌+◌, ◌-◌, ◌*◌, ◌^◌, ◌<◌, ◌≤◌, ◌≡◌, ◌∙◌, refl, sym, ap, List, [], ◌∷◌, ◌++◌, true, false, some,
  length, take_all, arith, ltb, if◌then◌else◌, All, ◌==◌, Bool-cases, inl, inr, length-append,
  append-nil, append_assoc,
}
use camellia.Libk.Ring.{Ring, put, used}
use camellia.Libk.Ring.Inv.{IsValid, put-IsValid, capacity-put}
use camellia.Libk.Ring.Refine.{contents, put_refines, length-contents}
use camellia.Cmd.Netstack.Tcp.{
  TcpConn, Header, Ipv4, User, tcpc_sendraw, tcpc_send, u32, ack, psh, is_closed, is_listen,
  is_syn_sent, is_last_ack,
}
use camellia.Cmd.Netstack.Tcp.Parse.{
  tcp_parse, tcp_loop, handle_known, handle_data, handle_payload, handle_fin, or_reset,
  parse_header,
}
use camellia.Cmd.Netstack.Tcp.Segment.{Sized, read_header-tcpc_sendraw}

-- `r` is the other end of `c`, up and in step.
pub record InStep (c r : TcpConn) : Type 0 where
  pub sized : Sized c
  pub to_port : r.lport ≡ c.rport
  pub from_port : r.rport ≡ c.lport
  pub from_ip : r.rip ≡ c.lip
  pub next_byte : r.lack ≡ c.lseq
  pub not_closed : is_closed r.state ≡ false
  pub not_listen : is_listen r.state ≡ false
  pub not_syn_sent : is_syn_sent r.state ≡ false
  pub not_last_ack : is_last_ack r.state ≡ false
  pub valid : IsValid r.rx

-- The user of the connections loses nothing: what it has got for each connection, and what is still in
-- the ring after on_recv, is what it had got with what was there before.
pub record Reads {F : Type 0} (user : User F) (got : ℕ → F → List ℕ) : Type 0 where
  pub valid : (carg : ℕ) (rx : Ring) (f : F) → IsValid rx → IsValid (user.received carg rx f).0
  pub size :
      (carg : ℕ) (rx : Ring) (f : F)
      → IsValid rx
      → (user.received carg rx f).0.capacity ≡ rx.capacity
  pub lossless :
      (carg : ℕ) (rx : Ring) (f : F)
      → IsValid rx
      → got carg (user.received carg rx f).1 ++ contents (user.received carg rx f).0
        ≡ got carg f ++ contents rx
  pub shorter :
      (carg : ℕ) (rx : Ring) (f : F) → IsValid rx → used (user.received carg rx f).0 ≤ used rx

-- what `tcp_parse` reads from the segment
abbrev data_header : (c : TcpConn) → List ℕ → Header
data_header c buf = record {
  srcport = c.lport;
  dstport = c.rport;
  seq = c.lseq;
  acknum = c.lack;
  flags = ack + psh + 5 * 2 ^ 12;
  payload = buf;
}

tcpc_send-src : (c : TcpConn) (buf : List ℕ) → (tcpc_send c buf).1.src ≡ c.lip
unfolding tcpc_send tcpc_sendraw
tcpc_send-src c buf = refl

module _ {F : Type 0} (user : User F) where
  -- the ring and the user after the call of on_recv, if there is one
  abbrev given : TcpConn → Ring → F → Ring × F
  given r rx f = if r.on_recv then user.received r.carg rx f else (rx, f)

  -- `r` when it has taken `buf`, before and after its answer
  abbrev taken : (c r : TcpConn) → List ℕ → F → TcpConn
  taken c r buf f = record r {
    rack = if ltb r.rack c.lack then c.lack else r.rack;
    lack = u32 (c.lseq + length buf);
    rx = (given r (put r.rx buf) f).0;
  }

  abbrev received : (c r : TcpConn) → List ℕ → F → TcpConn
  received c r buf f = record (taken c r buf f) { lseq = u32 (r.lseq + 0) }

  loop-received :
      (c r : TcpConn) (post : List TcpConn) (b : ℕ) (buf : List ℕ) (ip : Ipv4) (f : F)
      → InStep c r
      → ip.src ≡ c.lip
      → tcp_loop user (r ∷ post) (data_header c (b ∷ buf)) ip f
        ≡ some (
          received c r (b ∷ buf) f ∷ post,
          (tcpc_sendraw (taken c r (b ∷ buf) f) ack []).1 ∷ [],
          (given r (put r.rx (b ∷ buf)) f).1,
        )
  unfolding tcp_loop handle_known handle_data handle_payload handle_fin tcpc_sendraw
  loop-received c r post b buf ip f s e =
      let port : (r.lport == c.rport) ≡ true = ground (arith, s.to_port) in
      let from : (r.rport == c.lport) ≡ true = ground (arith, s.from_port) in
      let from_ip : (r.rip == ip.src) ≡ true = ground (arith, s.from_ip, e) in
      let next_byte : (r.lack == c.lseq) ≡ true = ground (arith, s.next_byte) in
      rw
        (s.not_closed, port, s.not_listen, from_ip, from, s.not_syn_sent, s.not_last_ack, next_byte)
        refl

  parse-received :
      (c r : TcpConn) (post : List TcpConn) (b : ℕ) (buf : List ℕ) (ip : Ipv4) (f : F)
      → InStep c r
      → ip.src ≡ c.lip
      → length (b ∷ buf) + 20 < 2 ^ 16
      → tcp_parse user (r ∷ post) (tcpc_send c (b ∷ buf)).1.payload ip f ≡ (
        received c r (b ∷ buf) f ∷ post,
        (tcpc_sendraw (taken c r (b ∷ buf) f) ack []).1 ∷ [],
        (given r (put r.rx (b ∷ buf)) f).1,
      )
  unfolding tcp_parse parse_header tcpc_send
  parse-received c r post b buf ip f s e k =
      ap (λ o. parse_header user o (r ∷ post) ip f)
        (read_header-tcpc_sendraw c (ack + psh) (b ∷ buf) s.sized (omega arith) k)
      ∙ ap (λ o. or_reset o (r ∷ post) (data_header c (b ∷ buf)) ip f)
          (loop-received c r post b buf ip f s e)

module _ {F : Type 0} (user : User F) (got : ℕ → F → List ℕ) (w : Reads user got) where
  given-Reads :
      (r : TcpConn) (rx : Ring) (f : F)
      → IsValid rx
      → let (rx', f') = given user r rx f in
        IsValid rx'
        × (rx'.capacity ≡ rx.capacity)
        × (got r.carg f' ++ contents rx' ≡ got r.carg f ++ contents rx)
        × (used rx' ≤ used rx)
  given-Reads r rx f v = elim (Bool-cases r.on_recv) [
    | inl on ↦ rw on (
      w.valid r.carg rx f v,
      w.size r.carg rx f v,
      w.lossless r.carg rx f v,
      w.shorter r.carg rx f v,
    )
    | inr off ↦ rw off (v, refl, refl, omega arith)
  ]

  received-InStep :
      (c r : TcpConn) (buf : List ℕ) (f : F)
      → InStep c r
      → InStep (tcpc_send c buf).0 (received user c r buf f)
  unfolding tcpc_send tcpc_sendraw
  received-InStep c r buf f s = record {
    sized = record {
      lport_width = s.sized.lport_width;
      rport_width = s.sized.rport_width;
      lseq_width = omega arith;
      lack_width = s.sized.lack_width;
    };
    to_port = s.to_port;
    from_port = s.from_port;
    from_ip = s.from_ip;
    next_byte = refl;
    not_closed = s.not_closed;
    not_listen = s.not_listen;
    not_syn_sent = s.not_syn_sent;
    not_last_ack = s.not_last_ack;
    valid = (given-Reads r (put r.rx buf) f (put-IsValid buf s.valid)).0;
  }

-- each buffer sent by `c`, and the segment parsed at the other end
unfoldable pub stream :
    {F : Type 0} → User F → TcpConn → List TcpConn → List (List ℕ) → F → TcpConn × List TcpConn × F
stream user c conns [] f = (c, conns, f)
stream user c conns (buf ∷ bufs) f =
    let (c', s) = tcpc_send c buf in
    let (conns', acks, f') =
      tcp_parse user conns s.payload (record { src = s.src; dst = s.dst; mac = s.mac }) f in
    stream user c' conns' bufs f'

abbrev pub concat : List (List ℕ) → List ℕ
concat [] = []
concat (buf ∷ bufs) = buf ++ concat bufs

abbrev pub Sendable : List ℕ → Type 0
Sendable buf = (0 < length buf) × (length buf + 20 < 2 ^ 16)

-- a ring with room for the bytes takes all of them
contents-put :
    (r : Ring) (buf : List ℕ)
    → IsValid r
    → used r + length buf < r.capacity
    → (contents (put r buf) ≡ contents r ++ buf) × (used (put r buf) ≡ used r + length buf)
contents-put r buf v h =
    let e : contents (put r buf) ≡ contents r ++ buf =
      put_refines buf v
      ∙ ap (λ t. contents r ++ t) (take_all buf (r.capacity - 1 - used r) (omega (arith, h))) in
    (
      e,
      omega (
        arith,
        length-contents (put-IsValid buf v),
        ap length e,
        length-append (contents r) buf,
        length-contents v,
      ),
    )

stream-cons :
    {F : Type 0} (user : User F) (bufs : List (List ℕ)) (c r : TcpConn) (post : List TcpConn)
    (b : ℕ) (buf : List ℕ) (f : F)
    → InStep c r
    → length (b ∷ buf) + 20 < 2 ^ 16
    → stream user c (r ∷ post) ((b ∷ buf) ∷ bufs) f
      ≡ stream user
          (tcpc_send c (b ∷ buf)).0
          (received user c r (b ∷ buf) f ∷ post)
          bufs
          (given user r (put r.rx (b ∷ buf)) f).1
unfolding stream
stream-cons user bufs c r post b buf f s k =
    let s' = (tcpc_send c (b ∷ buf)).1 in
    ap (λ t. stream user (tcpc_send c (b ∷ buf)).0 t.0 bufs t.2)
      (parse-received user c r post b buf (record { src = s'.src; dst = s'.dst; mac = s'.mac }) f s
        (tcpc_send-src c (b ∷ buf)) k)

append_middle : (g k b c : List ℕ) → g ++ (k ++ b) ++ c ≡ g ++ k ++ (b ++ c)
append_middle g k b c = ap (λ t. t ++ c) (sym (append_assoc g k b)) ∙ append_assoc (g ++ k) b c

module _ {F : Type 0} (user : User F) (got : ℕ → F → List ℕ) (w : Reads user got) where
  -- the end of a stream: what the user has got and the ring have the old bytes and then the new ones
  abbrev pub Arrived :
      TcpConn → List TcpConn → List (List ℕ) → F → TcpConn × List TcpConn × F → Type 0
  Arrived r post bufs f (c', conns', f') =
      (r' : TcpConn) × (conns' ≡ r' ∷ post)
      × (got r.carg f' ++ contents r'.rx ≡ got r.carg f ++ contents r.rx ++ concat bufs)
      × InStep c' r'

  -- The bytes that `c` sends reach the user of its other end, or the ring there, in order.
  pub stream_arrives :
      (bufs : List (List ℕ)) (c r : TcpConn) (post : List TcpConn) (f : F)
      → InStep c r
      → All Sendable bufs
      → used r.rx + length (concat bufs) < r.rx.capacity
      → Arrived r post bufs f (stream user c (r ∷ post) bufs f)
  unfolding stream
  stream_arrives [] c r post f s a h =
      (r, refl, sym (append-nil (got r.carg f ++ contents r.rx)), s)
  stream_arrives ([] ∷ bufs) c r post f s a h = absurd (omega (arith, a))
  stream_arrives ((b ∷ buf) ∷ bufs) c r post f s a h =
      let (e, n) =
        contents-put r.rx (b ∷ buf) s.valid
          (omega (arith, h, length-append (b ∷ buf) (concat bufs))) in
      let f₁ = (given user r (put r.rx (b ∷ buf)) f).1 in
      let g = given-Reads user got w r (put r.rx (b ∷ buf)) f (put-IsValid (b ∷ buf) s.valid) in
      let (r', shape, bytes, step) =
        stream_arrives bufs (tcpc_send c (b ∷ buf)).0 (received user c r (b ∷ buf) f) post f₁
          (received-InStep user got w c r (b ∷ buf) f s) a.1
          (omega (
            arith,
            h,
            n,
            g.1,
            g.3,
            capacity-put (b ∷ buf) r.rx,
            length-append (b ∷ buf) (concat bufs),
          )) in
      rw (stream-cons user bufs c r post b buf f s a.0.1) (
        r',
        shape,
        bytes
            ∙ ap (λ t. t ++ concat bufs) (g.2 ∙ ap (λ t. got r.carg f ++ t) e)
            ∙ append_middle (got r.carg f) (contents r.rx) (b ∷ buf) (concat bufs),
        step,
      )
