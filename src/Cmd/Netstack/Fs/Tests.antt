-- ===== src/Cmd/Netstack/Fs/Tests.antt =====
-- A read of three bytes that waits while five bytes come in.
use camellia.Base.{ℕ, ◌≡◌, List, [], ◌∷◌, ◌++◌, false, some, pos, text, arith}
use camellia.Libk.Ring.Inv.{used-eq}
use camellia.Libk.Ring.Refine.{contents}
use camellia.Cmd.Netstack.Tcp.{TcpConn}
use camellia.Cmd.Netstack.Tcp.Tests.{client, server, client-InStep}
use camellia.Cmd.Netstack.Tcp.Delivery.{InStep, stream, concat}
use camellia.Cmd.Netstack.Fs.{TcpHandle, fs_user}
use camellia.Cmd.Netstack.Fs.Stream.{got, stream_delivers}

abbrev waiting : TcpHandle
waiting = record { conn = some 4096; readcap = 3; dead = false; reqh = pos 5; replies = [] }

abbrev handles : ℕ → TcpHandle
handles carg = waiting

abbrev hello : List (List ℕ)
hello = text "GE" ∷ text "T /" ∷ []

stream_delivers_example :
    let (c', conns', f') = stream fs_user client (server ∷ []) hello handles in
    (r' : TcpConn) × (conns' ≡ r' ∷ [])
    × (got 7 f' ++ contents r'.rx ≡ got 7 handles ++ contents server.rx ++ concat hello)
    × InStep c' r'
stream_delivers_example =
    stream_delivers hello client server [] handles client-InStep
      ((omega arith, omega arith), ((omega arith, omega arith), tt))
      (omega (arith, (used-eq client-InStep.valid).0 (omega arith)))
