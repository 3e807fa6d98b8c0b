-- ===== src/Cmd/Netstack/Fs.antt =====
-- src/cmd/netstack/fs.c: the files that stand for TCP connections. A handle has its address as a number,
-- which is the `carg` of its connection; its calls of `_sys_fs_respond`, which the kernel takes, are listed in
-- it in their order. A callback reads from the connection that it is called for.

pub mod Stream
mod Tests
use camellia.Base.{
  ℕ, List, [], ◌∷◌, ◌++◌, Bool, true, false, Option, none, some, ltb, if◌then◌else◌, ℤ, pos, negsuc,
  neg, is_neg,
}
use camellia.Libk.Ring.{Ring, get}
use camellia.Kernel.State.{update}
use camellia.Cmd.Netstack.Tcp.{User}

-- _sys_fs_respond(req, payload, result, 0)
pub record Reply : Type 0 where
  pub req : ℤ
  pub payload : List ℕ
  pub result : ℤ

-- `struct handle` of a TCP connection
pub record TcpHandle : Type 0 where
  pub conn : Option ℕ
  pub readcap : ℕ
  pub dead : Bool
  pub reqh : ℤ
  pub replies : List Reply

-- a response to the request that waits, of which there is none afterwards
unfoldable pub respond : TcpHandle → List ℕ → ℤ → TcpHandle
respond h bytes ret = record h {
  reqh = neg 1;
  replies = h.replies ++ (record { req = h.reqh; payload = bytes; result = ret } ∷ []);
}

unfoldable pub tcp_conn_callback : (addr : ℕ) → TcpHandle → TcpHandle
tcp_conn_callback addr h = respond (record h { conn = some addr }) [] (pos 0)

-- with what tcpc_tryread has read
unfoldable pub answer_read : TcpHandle → ℕ × List ℕ × Ring → Ring × TcpHandle
answer_read h (n, bytes, rx) = if ltb 0 n then (rx, respond h bytes (pos n)) else (rx, h)

unfoldable pub tcp_recv_callback : Ring → TcpHandle → Ring × TcpHandle
tcp_recv_callback rx h =
    let cap = if ltb 1024 h.readcap then 1024 else h.readcap in
    if is_neg h.reqh then (rx, h) else answer_read (record h { readcap = cap }) (get rx true cap)

unfoldable pub tcp_close_callback : TcpHandle → TcpHandle
tcp_close_callback h =
    let h = record h { dead = true } in if is_neg h.reqh then h else respond h [] (neg 12)

-- `reqh > 0`
abbrev pub is_positive : ℤ → Bool
is_positive (pos n) = ltb 0 n
is_positive (negsuc n) = false

-- a read of at most `readcap` bytes, from recv_enqueue; the reply to it if another one waits
unfoldable pub recv_enqueue : (reqh : ℤ) → (readcap : ℕ) → Ring → TcpHandle → Ring × TcpHandle
recv_enqueue reqh readcap rx h =
    if is_positive h.reqh
    then (
      rx,
      record h {
        replies = h.replies ++ (record { req = reqh; payload = []; result = neg 1 } ∷ []);
      },
    )
    else tcp_recv_callback rx (record h { reqh = reqh; readcap = readcap })

-- the callbacks that fs_open gives to tcp_listen and tcp_connect, on the handles by their addresses
unfoldable pub fs_user : User (ℕ → TcpHandle)
fs_user = record {
  connected = λ addr carg f. update f carg (tcp_conn_callback addr (f carg));
  received = λ carg rx f. let (rx', h) = tcp_recv_callback rx (f carg) in (rx', update f carg h);
  disconnected = λ carg f. update f carg (tcp_close_callback (f carg));
}
