-- ===== src/Cmd/Netstack.antt =====
-- The network server, src/cmd/netstack: the byte order and the checksum (util.c), the ARP cache (arp.c),
-- echo replies (icmp.c), TCP connections (tcp.c) and the files that stand for them (fs.c). A byte buffer is a
-- list, and what the server writes to the network card is a list of frames or segments.
pub mod Util
pub mod Checksum
pub mod Arp
pub mod Tcp
pub mod Icmp
pub mod Fs
