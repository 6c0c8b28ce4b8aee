-- ===== src/Lib.antt =====
-- A verification library for the sponge TCP/IP stack (libsponge).
--
-- The program: `ByteStream` is a bounded pipe of bytes. `StreamReassembler` puts substrings that
-- arrive in any order into such a stream. `TCPReceiver` turns segments, with sequence numbers that
-- wrap, into substrings for it; `TCPSender` turns a stream into segments, and sends them again until
-- they are acknowledged. `TCPConnection` joins the two. Below it segments travel in IPv4 datagrams
-- (`TCPOverIPv4Adapter`), which `NetworkInterface` sends in Ethernet frames after ARP, and which
-- `Router` forwards among interfaces.
--
-- Files and sources (paths from the repository's root):
-- - ByteStream: libsponge/byte_stream.*. The calls are functions on a record; Fifo runs a sequence of
--   calls.
-- - Buffer: libsponge/util/buffer.*. The shared storage is never written to, so it is a value.
-- - Wrapping: libsponge/wrapping_integers.*. A `WrappingInt32` is its raw value.
-- - Reassembler: libsponge/stream_reassembler.*. `push_substring` is split as the source's body is:
--   `trim` (its first guards), `scan` (the loop over the waiting segments), `make_room` (eviction),
--   `store`, and `deliver` (the last loop). `Outcome` says whether the call returns or throws.
-- - TcpReceiver, TcpSender, TcpConnection: libsponge/tcp_receiver.*, tcp_sender.*, tcp_connection.*.
-- - Transfer: a sender and a receiver with a network between them that loses, repeats and reorders
--   segments, as sequences of events over the two components.
-- - Exchange: two connections with an application at either end and such a network between them. Its
--   invariant is carried by TcpConnection/Text, on top of TcpSender/Text and TcpReceiver/Delivery.
-- - TcpState: libsponge/tcp_helpers/tcp_state.*. A summary string is a constructor.
-- - Wire: Parser (libsponge/util/parser.*), Checksum (`InternetChecksum` of libsponge/util/util.*), and
--   TcpHeader, TcpSegment, Ipv4Header, Ipv4Datagram, Ethernet and Arp for the files of
--   libsponge/tcp_helpers with these names.
-- - NetworkInterface: libsponge/network_interface.*. Router: libsponge/router.*.
-- - TcpOverIp: libsponge/tcp_helpers/tcp_over_ip.cc, where a datagram has its payload in the buffers of
--   a `BufferList`. FdAdapter: libsponge/tcp_helpers/fd_adapter.* and
--   lossy_fd_adapter.hh. TuntapAdapter: libsponge/tcp_helpers/tuntap_adapter.*. What a descriptor
--   receives and the random numbers are arguments, and what is sent is a result.
-- - EventLoop: libsponge/util/eventloop.*. The descriptors, `poll` and the functions of the rules are
--   parameters over a state that they share.
-- - FileDescriptor: libsponge/util/file_descriptor.*, and `Socket::shutdown` of
--   libsponge/util/socket.cc. The system calls are functions on a state of the kernel.
-- - SpongeSocket: libsponge/tcp_helpers/tcp_sponge_socket.*. The rules are those of EventLoop over the
--   members of the socket; the adapter, like the kernel, is a record of functions. A round of the loop is
--   given what `poll` does, the time, and whether the owner has asked for an end. Loop has the loop and
--   what runs it.
-- - StreamCopy: apps/bidirectional_stream_copy.cc, likewise.
-- - Prelude: the shared names, Boolean tests, list and word lemmas, and `std::map` as a list ordered
--   by key. Tests: the theorems at concrete inputs.
--
-- Numbers are native natural numbers; `add64`, `sub64` and `add32` write the wrap-around of `size_t`,
-- `uint64_t` and `uint32_t` out. A call that can throw returns an `Option` or an `Outcome`.
--
-- Loops are structural recursion, or recursion on fuel: 5 rounds for `unwrap`, which starts at most two
-- periods before the nearest candidate and stops at the first that is farther than its predecessor; 3
-- for the folds of a 32-bit sum; one for each byte and each segment that waits for an eviction, two
-- more than the waiting segments for a delivery, and one more than the pushed bytes for the calls of
-- `push_substring` of itself, each of which has fewer bytes; the buffered bytes for the sender's data
-- loop; and one more than the bytes for the calls of `writev`, each of which but the last takes some.
--
-- Outside Buffer, FileDescriptor and TcpOverIp the bytes of a `Buffer` or a `BufferList` are in one piece.
--
-- Not modelled: printing and diagnostics, the sockets, addresses and devices of libsponge/util, the
-- threads of `TCPSpongeSocket` and the setting up of its adapter, and the other programs under
-- apps/. An `Address` is its number, with a port where one is read, and the sender's random initial
-- sequence number is an argument.
-- Nor are the cut of a system call's result to `int`, the undefined shift after 32 retransmissions in
-- a row, and the entries with no content that a lookup by `operator[]` may add to a map.
pub mod Prelude
pub mod Buffer
pub mod ByteStream
pub mod Wrapping
pub mod Reassembler
pub mod Wire
pub mod TcpReceiver
pub mod TcpSender
pub mod TcpConnection
pub mod TcpState
pub mod NetworkInterface
pub mod Router
pub mod TcpOverIp
pub mod EventLoop
pub mod FileDescriptor
pub mod SpongeSocket
pub mod StreamCopy
pub mod FdAdapter
pub mod TuntapAdapter
pub mod Transfer
pub mod Exchange
pub mod Tests
