-- ===== src/Cmd/Netstack/Tcp/Segment.antt =====
-- The header that tcp.c writes is the one that it reads.
use camellia.Base.{
  ℕ, ◌+◌, ◌-◌, ◌*◌, ◌/◌, ◌%◌, ◌^◌, ◌<◌, ◌≡◌, refl, List, ◌++◌, false, some, length, take_all, arith,
  ltb,
}
use camellia.Cmd.Netstack.Util.{nput16, nput32, nget16, nget32, write_at}
use camellia.Cmd.Netstack.Arp.{zeros}
use camellia.Cmd.Netstack.Tcp.{TcpConn, tcpc_sendraw, header, with_checksum, read_header}

-- the fields of a connection in their widths
pub record Sized (c : TcpConn) : Type 0 where
  pub lport_width : c.lport < 2 ^ 16
  pub rport_width : c.rport < 2 ^ 16
  pub lseq_width : c.lseq < 2 ^ 32
  pub lack_width : c.lack < 2 ^ 32

nput16-value : (n : ℕ) → n < 2 ^ 16 → n / 256 % 256 * 256 + n % 256 ≡ n
nput16-value n h = omega arith

nput32-value :
    (n : ℕ)
    → n < 2 ^ 32
    → n / 2 ^ 24 % 256 * 2 ^ 24 + n / 2 ^ 16 % 256 * 2 ^ 16 + n / 256 % 256 * 256 + n % 256 ≡ n
nput32-value n h = omega arith

-- A segment that `tcpc_sendraw` sends reads back as its connection's ports and numbers, its flags and its
-- payload. The payload with the header fits in 16 bits.
pub read_header-tcpc_sendraw :
    (c : TcpConn) (flags : ℕ) (buf : List ℕ)
    → Sized c
    → flags < 64
    → length buf + 20 < 2 ^ 16
    → read_header (tcpc_sendraw c flags buf).1.payload
      ≡ some (record {
        srcport = c.lport;
        dstport = c.rport;
        seq = c.lseq;
        acknum = c.lack;
        flags = flags + 5 * 2 ^ 12;
        payload = buf;
      })
unfolding read_header tcpc_sendraw with_checksum header nput16 nput32 nget16 nget32 write_at
read_header-tcpc_sendraw c flags buf s h k =
    let f : (flags + 5 * 2 ^ 12) / 256 % 256 * 256 + (flags + 5 * 2 ^ 12) % 256
        ≡ flags + 5 * 2 ^ 12 =
      nput16-value (flags + 5 * 2 ^ 12) (omega arith) in
    let hdrlen : (flags + 5 * 2 ^ 12) / 2 ^ 12 % 16 * 4 ≡ 20 = omega arith in
    let n = length (zeros 20 ++ buf) in
    let long : ltb n 20 ≡ false = ground arith in
    rw
      (
        nput16-value c.lport s.lport_width,
        nput16-value c.rport s.rport_width,
        nput32-value c.lseq s.lseq_width,
        nput32-value c.lack s.lack_width,
        f,
        hdrlen,
        long,
        take_all buf ((n - 20) % 2 ^ 16) (omega arith),
      )
      refl
