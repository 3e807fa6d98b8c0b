-- ===== src/Cmd/Netstack/Fs/Stream.antt =====
-- Data from one end of a TCP connection to the reads of the file at the other end.

use camellia.Base.{
  ℕ, ◌+◌, ◌^◌, ◌<◌, ◌≤◌, ◌≡◌, ◌∙◌, refl, sym, ap, List, [], ◌∷◌, ◌++◌, true, inl, inr, Bool-cases,
  length, ltb, pos, ℤ, is_neg, arith, All, if◌then◌else◌, append-nil, append_assoc, length-append,
}
use camellia.Libk.Ring.{Ring, get, used}
use camellia.Libk.Ring.Inv.{IsValid, get-IsValid, capacity-get}
use camellia.Libk.Ring.Refine.{contents, get_refines, length-contents}
use camellia.Kernel.Update.{update_self}
use camellia.Cmd.Netstack.Tcp.{TcpConn}
use camellia.Cmd.Netstack.Tcp.Delivery.{InStep, Reads, stream, stream_arrives, Sendable, concat}
use camellia.Cmd.Netstack.Fs.{Reply, TcpHandle, respond, answer_read, tcp_recv_callback, fs_user}

-- the bytes of replies
abbrev pub bytes_of : List Reply → List ℕ
bytes_of [] = []
bytes_of (r ∷ rs) = r.payload ++ bytes_of rs

bytes_of-append : (rs qs : List Reply) → bytes_of (rs ++ qs) ≡ bytes_of rs ++ bytes_of qs
bytes_of-append [] qs = refl
bytes_of-append (r ∷ rs) qs =
    ap (λ t. r.payload ++ t) (bytes_of-append rs qs)
    ∙ sym (append_assoc r.payload (bytes_of rs) (bytes_of qs))

-- what the reads of the handle at an address have got
abbrev pub got : ℕ → (ℕ → TcpHandle) → List ℕ
got carg f = bytes_of ((f carg).replies)

-- A callback that took bytes from the ring `rx`, for the handle `h`, left the ring and the handle `r`.
abbrev Took : Ring → TcpHandle → Ring × TcpHandle → Type 0
Took rx h (rx', h') =
    IsValid rx'
    × (rx'.capacity ≡ rx.capacity)
    × (bytes_of h'.replies ++ contents rx' ≡ bytes_of h.replies ++ contents rx)
    × (used rx' ≤ used rx)

respond_bytes :
    (h : TcpHandle) (out : List ℕ) (ret : ℤ)
    → bytes_of ((respond h out ret).replies) ≡ bytes_of h.replies ++ out
unfolding respond
respond_bytes h out ret =
    bytes_of-append h.replies (record { req = h.reqh; payload = out; result = ret } ∷ [])
    ∙ ap (λ t. bytes_of h.replies ++ t) (append-nil out)

no_bytes : (bs : List ℕ) → length bs ≡ 0 → bs ≡ []
no_bytes [] e = refl
no_bytes (b ∷ bs) e = absurd (omega (arith, e))

answer_read-Took :
    (rx : Ring) (h : TcpHandle) (cap : ℕ)
    → IsValid rx
    → cap < 2 ^ 64
    → Took rx h (answer_read h (get rx true cap))
unfolding answer_read
answer_read-Took rx h cap v small =
    let (n, out, rx') = get rx true cap in
    let (count, all, bytes) = get_refines cap v small in
    let v' = get-IsValid true cap v in
    let size = capacity-get rx true cap in
    let lengths : length (contents rx) ≡ length out + length (contents rx') =
      ap length bytes ∙ length-append out (contents rx') in
    let less : used rx' ≤ used rx = omega (arith, length-contents v, length-contents v', lengths) in
    elim (Bool-cases (ltb 0 n)) [
      | inl e ↦ rw e (
        v',
        size,
        ap (λ t. t ++ contents rx') (respond_bytes h out (pos n))
            ∙ append_assoc (bytes_of h.replies) out (contents rx')
            ∙ ap (λ t. bytes_of h.replies ++ t) (sym bytes),
        less,
      )
      | inr e ↦
          let none_read : out ≡ [] = no_bytes out (ground (arith, all, e)) in
          rw e (
            v',
            size,
            ap (λ t. bytes_of h.replies ++ t) (sym (bytes ∙ ap (λ t. t ++ contents rx') none_read)),
            less,
          )
    ]

tcp_recv_callback-Took :
    (rx : Ring) (h : TcpHandle) → IsValid rx → Took rx h (tcp_recv_callback rx h)
unfolding tcp_recv_callback
tcp_recv_callback-Took rx h v = elim (Bool-cases (is_neg h.reqh)) [
  | inl e ↦ rw e (v, refl, refl, omega arith)
  | inr e ↦ rw e (
      answer_read-Took rx (record h { readcap = if ltb 1024 h.readcap then 1024 else h.readcap })
        (if ltb 1024 h.readcap then 1024 else h.readcap) v (ground arith))
]

fs_user-Reads : Reads fs_user got
unfolding fs_user
fs_user-Reads = record {
  valid = λ carg rx f v. (tcp_recv_callback-Took rx (f carg) v).0;
  size = λ carg rx f v. (tcp_recv_callback-Took rx (f carg) v).1;
  lossless = λ carg rx f v.
      let (rx', h) = tcp_recv_callback rx (f carg) in
      ap (λ (x : TcpHandle). bytes_of x.replies ++ contents rx') (update_self f carg h)
      ∙ (tcp_recv_callback-Took rx (f carg) v).2;
  shorter = λ carg rx f v. (tcp_recv_callback-Took rx (f carg) v).3;
}

-- `c` sends buffers of 1 to 65515 bytes with tcpc_send, and its other end `r`, which is up, in step with it
-- and first in the list of its server, has the callbacks of fs.c; no new read comes in between. When the receiving ring has room for
-- all of the bytes, then what the reads of the file have got, and after it what is in the ring, is what they
-- were before with the bytes that `c` sent after it, in their order; and the two ends are in step again.
pub stream_delivers :
    (bufs : List (List ℕ)) (c r : TcpConn) (post : List TcpConn) (f : ℕ → TcpHandle)
    → InStep c r
    → All Sendable bufs
    → used r.rx + length (concat bufs) < r.rx.capacity
    → let (c', conns', f') = stream fs_user c (r ∷ post) bufs f in
      (r' : TcpConn) × (conns' ≡ r' ∷ post)
      × (got r.carg f' ++ contents r'.rx ≡ got r.carg f ++ contents r.rx ++ concat bufs)
      × InStep c' r'
stream_delivers bufs c r post f s a h =
    stream_arrives fs_user got fs_user-Reads bufs c r post f s a h
