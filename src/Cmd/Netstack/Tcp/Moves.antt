-- ===== src/Cmd/Netstack/Tcp/Moves.antt =====
-- The state diagram of a connection, and the connections after a segment.
use camellia.Base.{
  ℕ, ◌+◌, ◌^◌, ◌%◌, ◌-◌, ◌≡◌, refl, List, [], ◌∷◌, Bool, true, false, ◌&&◌, ◌||◌, not, Option, some,
  none, if◌then◌else◌, ◌==◌, ltb, is_empty, Bool-cases, inl, inr,
}
use camellia.Cmd.Netstack.Tcp.{
  TcpState, TcpConn, Header, Ipv4, User, After, Sent, listen, syn_sent, syn_rcvd, estabilished,
  last_ack, closed, tcpc_sendraw, tcpc_tryfree, is_listen, is_syn_sent, is_last_ack, is_closed, has,
  fin, syn, ack, u32, read_header,
}
use camellia.Cmd.Netstack.Tcp.Parse.{
  handle_listen, handle_syn_sent, handle_payload, handle_fin, handle_data, handle_known, tcp_loop,
  tcp_parse, parse_header, or_reset, Result, past, back,
}

-- A connection is up until it is closed.
abbrev pub IsUp : TcpState → Type 0
IsUp closed = ⊥
IsUp _ = Unit

-- the moves of a connection when a segment arrives
pub data Moves : TcpState → TcpState → Type 0 where
  stay : {s : TcpState} → Moves s s
  accepts : Moves listen syn_rcvd
  connects : Moves syn_sent estabilished
  ends : {s : TcpState} → IsUp s → Moves s last_ack
  acked : Moves last_ack closed

-- what a segment leaves as it is
abbrev pub Keeps : TcpConn → TcpConn → Type 0
Keeps c c' =
    (c'.addr ≡ c.addr)
    × (c'.lip ≡ c.lip)
    × (c'.lport ≡ c.lport)
    × (c'.carg ≡ c.carg)
    × (c'.uclosed ≡ c.uclosed)

-- one connection after a segment; none when it is freed
abbrev Goes : TcpConn → Option TcpConn → Type 0
Goes c none = (c.state ≡ last_ack) × (c.uclosed ≡ true)
Goes c (some c') = Moves c.state c'.state × Keeps c c'

-- The list after a segment: at most one connection changes or is freed.
pub data Evolves : List TcpConn → List TcpConn → Type 0 where
  same : {cs : List TcpConn} → Evolves cs cs
  one :
      {c c' : TcpConn} {cs : List TcpConn}
      → Moves c.state c'.state
      → Keeps c c'
      → Evolves (c ∷ cs) (c' ∷ cs)
  freed :
      {c : TcpConn} {cs : List TcpConn}
      → c.state ≡ last_ack
      → c.uclosed ≡ true
      → Evolves (c ∷ cs) cs
  further : {c : TcpConn} {cs cs' : List TcpConn} → Evolves cs cs' → Evolves (c ∷ cs) (c ∷ cs')

Keeps-refl : (c : TcpConn) → Keeps c c
Keeps-refl c = (refl, refl, refl, refl, refl)

is_listen_lem : (s : TcpState) → is_listen s ≡ true → s ≡ listen
is_listen_lem listen h = refl
is_listen_lem syn_sent h = absurd (cc)
is_listen_lem syn_rcvd h = absurd (cc)
is_listen_lem estabilished h = absurd (cc)
is_listen_lem last_ack h = absurd (cc)
is_listen_lem closed h = absurd (cc)

is_last_ack_lem : (s : TcpState) → is_last_ack s ≡ true → s ≡ last_ack
is_last_ack_lem listen h = absurd (cc)
is_last_ack_lem syn_sent h = absurd (cc)
is_last_ack_lem syn_rcvd h = absurd (cc)
is_last_ack_lem estabilished h = absurd (cc)
is_last_ack_lem last_ack h = refl
is_last_ack_lem closed h = absurd (cc)

is_syn_sent_lem : (s : TcpState) → is_syn_sent s ≡ true → s ≡ syn_sent
is_syn_sent_lem listen h = absurd (cc)
is_syn_sent_lem syn_sent h = refl
is_syn_sent_lem syn_rcvd h = absurd (cc)
is_syn_sent_lem estabilished h = absurd (cc)
is_syn_sent_lem last_ack h = absurd (cc)
is_syn_sent_lem closed h = absurd (cc)

is_closed-IsUp : (s : TcpState) → is_closed s ≡ false → IsUp s
is_closed-IsUp listen h = tt
is_closed-IsUp syn_sent h = tt
is_closed-IsUp syn_rcvd h = tt
is_closed-IsUp estabilished h = tt
is_closed-IsUp last_ack h = tt
is_closed-IsUp closed h = absurd (cc)

Goes-if :
    {F : Type 0} (c : TcpConn) (b : Bool) (x y : After F)
    → Goes c x.conn
    → Goes c y.conn
    → Goes c (if b then x else y).conn
Goes-if c true x y p q = p
Goes-if c false x y p q = q

back-Evolves :
    (c : TcpConn) (cs : List TcpConn) (o : Option TcpConn) → Goes c o → Evolves (c ∷ cs) (back o cs)
back-Evolves c cs none g = freed g.0 g.1
back-Evolves c cs (some c') g = one g.0 g.1

-- what the loop leaves, when it takes the segment
abbrev AllEvolve : {F : Type 0} → List TcpConn → Result F → Type 0
AllEvolve cs none = Unit
AllEvolve cs (some (cs', sent, f)) = Evolves cs cs'

AllEvolve-past :
    {F : Type 0} (c : TcpConn) (cs : List TcpConn) (r : Result F)
    → AllEvolve cs r
    → AllEvolve (c ∷ cs) (past c r)
AllEvolve-past c cs none e = tt
AllEvolve-past c cs (some (cs', sent, f)) e = further e

AllEvolve-if :
    {F : Type 0} (cs : List TcpConn) (b : Bool) (x y : Result F)
    → (b ≡ true → AllEvolve cs x)
    → (b ≡ false → AllEvolve cs y)
    → AllEvolve cs (if b then x else y)
AllEvolve-if cs true x y p q = p refl
AllEvolve-if cs false x y p q = q refl

left_of_or : (a b : Bool) → (a || b) ≡ false → a ≡ false
left_of_or true b h = h
left_of_or false b h = refl

left_of_and : (a b : Bool) → (a && b) ≡ true → a ≡ true
left_of_and true b h = refl
left_of_and false b h = h

tcpc_tryfree-Goes :
    (c : TcpConn) (rack : ℕ)
    → c.state ≡ last_ack
    → Goes c (tcpc_tryfree (record c { state = closed; rack = rack }))
unfolding tcpc_tryfree
tcpc_tryfree-Goes c rack e = elim (Bool-cases c.uclosed) [
  | inl u ↦ rw u (e, refl)
  | inr u ↦ rw u (rw e acked, (refl, refl, refl, refl, refl))
]

abbrev rack_of : TcpConn → Header → ℕ
rack_of c h = if ltb c.rack h.acknum then h.acknum else c.rack

module _ {F : Type 0} (user : User F) (h : Header) (f : F) where
  handle_listen-Goes :
      (c : TcpConn) (ip : Ipv4) → c.state ≡ listen → Goes c (handle_listen user c h ip f).conn
  unfolding handle_listen tcpc_sendraw
  handle_listen-Goes c ip e = (rw e accepts, (refl, refl, refl, refl, refl))

  handle_syn_sent-Goes :
      (c : TcpConn) → c.state ≡ syn_sent → Goes c (handle_syn_sent user c h f).conn
  unfolding handle_syn_sent tcpc_sendraw
  handle_syn_sent-Goes c e =
      Goes-if c (has h.flags syn) _ _ (rw e connects, Keeps-refl c) (stay, Keeps-refl c)

  handle_fin-Goes :
      (c c' : TcpConn) (sent : List Sent) (f' : F)
      → IsUp c.state
      → c'.state ≡ c.state
      → Keeps c c'
      → Goes c (handle_fin user c' h sent f').conn
  unfolding handle_fin tcpc_sendraw
  handle_fin-Goes c c' sent f' up e k = Goes-if c (has h.flags fin) _ _ (ends up, k) (rw e stay, k)

  payload-Keeps :
      (c c' : TcpConn)
      → c'.state ≡ c.state
      → Keeps c c'
      → let c'' = (handle_payload user c' h f).0 in (c''.state ≡ c.state) × Keeps c c''
  unfolding handle_payload tcpc_sendraw
  payload-Keeps c c' e k = elim (Bool-cases (is_empty h.payload)) [
    | inl p ↦ rw p (e, k)
    | inr p ↦ rw p (e, k)
  ]

  handle_data-Goes :
      (c c' : TcpConn)
      → IsUp c.state
      → c'.state ≡ c.state
      → Keeps c c'
      → Goes c (handle_data user c' h f).conn
  unfolding handle_data tcpc_sendraw
  handle_data-Goes c c' up e k =
      let (e', k') = payload-Keeps c c' e k in
      Goes-if c (not (c'.lack == h.seq) && not (u32 (c'.lack + 2 ^ 32 - 1) == h.seq)) _ _
        (rw e stay, k) (handle_fin-Goes c _ _ _ up e' k')

  known-Goes :
      (c : TcpConn)
      → IsUp c.state
      → (acks : Bool)
      → Goes c
          (if acks && is_last_ack c.state
            then record {
              conn = tcpc_tryfree (record c { state = closed; rack = rack_of c h });
              sent = [];
              user = f;
            }
            else handle_data user (if acks then record c { rack = rack_of c h } else c) h f).conn
  known-Goes c up true = elim (Bool-cases (is_last_ack c.state)) [
    | inl e ↦ rw e (tcpc_tryfree-Goes c (rack_of c h) (is_last_ack_lem c.state e))
    | inr e ↦ rw e (
        handle_data-Goes c (record c { rack = rack_of c h }) up refl (refl, refl, refl, refl, refl))
  ]
  known-Goes c up false = handle_data-Goes c c up refl (refl, refl, refl, refl, refl)

  handle_known-Goes : (c : TcpConn) → IsUp c.state → Goes c (handle_known user c h f).conn
  unfolding handle_known
  handle_known-Goes c up = elim (Bool-cases (is_syn_sent c.state)) [
    | inl e ↦ rw e (handle_syn_sent-Goes c (is_syn_sent_lem c.state e))
    | inr e ↦ rw e (known-Goes c up (has h.flags ack))
  ]

  loop-Evolves : (cs : List TcpConn) (ip : Ipv4) → AllEvolve cs (tcp_loop user cs h ip f)
  unfolding tcp_loop
  loop-Evolves [] ip = tt
  loop-Evolves (c ∷ cs) ip =
      let rest = AllEvolve-past c cs _ (loop-Evolves cs ip) in
      AllEvolve-if (c ∷ cs) (is_closed c.state || not (c.lport == h.dstport)) _ _ (λ p. rest)
        (λ up.
          AllEvolve-if (c ∷ cs) (is_listen c.state && h.flags % 64 == syn) _ _
            (λ p.
              back-Evolves c cs _
                (handle_listen-Goes c ip (is_listen_lem c.state (left_of_and _ _ p))))
            (λ p.
              AllEvolve-if (c ∷ cs) (not (c.rip == ip.src) || not (c.rport == h.srcport)) _ _
                (λ q. rest)
                (λ q.
                  back-Evolves c cs _
                    (handle_known-Goes c (is_closed-IsUp c.state (left_of_or _ _ up))))))

-- A segment changes one connection at most: it moves along the state diagram and keeps its address, its
-- local address and port, its user's argument and whether the user has closed it. The segment
-- frees one only in LAST_ACK when the user has closed it, and a closed one stays closed.
pub tcp_parse-Evolves :
    {F : Type 0} (user : User F) (conns : List TcpConn) (buf : List ℕ) (ip : Ipv4) (f : F)
    → Evolves conns (tcp_parse user conns buf ip f).0
unfolding tcp_parse parse_header
tcp_parse-Evolves {F} user conns buf ip f = by_header (read_header buf)
  where
    by_result :
        (r : Result F) (h : Header) → AllEvolve conns r → Evolves conns (or_reset r conns h ip f).0
    by_result none h e = same
    by_result (some r) h e = e

    by_header : (o : Option Header) → Evolves conns (parse_header user o conns ip f).0
    by_header none = same
    by_header (some h) = by_result (tcp_loop user conns h ip f) h (loop-Evolves user h f conns ip)
