-- ===== src/Tests.antt =====
-- The theorems at concrete inputs.
mod Streams
mod Tcp
mod Network
mod Adapters
mod Datagrams
mod Exchange
mod Sockets
