-- ===== src/Wire.antt =====
-- The packets of the stack as bytes: libsponge/util/parser.*, the checksum of util/util.cc, and the
-- headers and packets of libsponge/tcp_helpers.
pub mod Parser
pub mod Checksum
pub mod TcpHeader
pub mod TcpSegment
pub mod Ipv4Header
pub mod Ipv4Datagram
pub mod Ethernet
pub mod Arp
