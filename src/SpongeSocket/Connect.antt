-- ===== src/SpongeSocket/Connect.antt =====
-- The check of `TCPSpongeSocket::connect` that the connection has sent its SYN.
use cs144_intro2network.TcpSender
use cs144_intro2network.TcpSender.{TcpSender, track, start_timer, bytes_in_flight}
use cs144_intro2network.TcpReceiver
use cs144_intro2network.TcpConnection
use cs144_intro2network.TcpConnection.{connect_from}
