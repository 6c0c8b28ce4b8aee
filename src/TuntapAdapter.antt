-- ===== src/TuntapAdapter.antt =====
-- libsponge/tcp_helpers/tuntap_adapter.*: segments over a TUN or a TAP device. What is read from the
-- device is an argument; what is written is a result, or for a TAP device a log in the state.
pub mod Pending
pub mod RoundTrip
use cs144_intro2network.Prelude.{ℕ, Option, none, some, List, [], ◌∷◌, ◌++◌, if◌then◌else◌}
use cs144_intro2network.Wire.Parser.{is_error}
use cs144_intro2network.Wire.TcpSegment.{TcpSegment}
use cs144_intro2network.Wire.Ipv4Datagram
use cs144_intro2network.Wire.Ipv4Datagram.{Ipv4Datagram}
use cs144_intro2network.Wire.Ethernet
use cs144_intro2network.Wire.Ethernet.{EthernetAddress, EthernetFrame, zero_address}
use cs144_intro2network.NetworkInterface
use cs144_intro2network.NetworkInterface.{NetworkInterface, recv_frame, send_datagram}
use cs144_intro2network.TcpOverIp.{
  InternetDatagram, in_one, whole, Adapter, wrap_tcp_in_ip, unwrap_tcp_in_ip,
}

-- `read` of `TCPOverIPv4OverTunFdAdapter`; `none` where it throws.
unfoldable pub tun_read : List ℕ → Adapter → Option (Option TcpSegment × Adapter)
unfolding Ipv4Datagram.parse unwrap_tcp_in_ip
tun_read bytes a =
    let (r, d) = Ipv4Datagram.parse Ipv4Datagram.default bytes in
    if is_error r then some (none, a) else unwrap_tcp_in_ip (in_one d) a

-- Its `write`: the bytes for the device, and the segment with its ports set; `none` where it throws.
abbrev pub serialized : InternetDatagram × TcpSegment → Option (List ℕ × TcpSegment)
serialized (d, seg) = elim (Ipv4Datagram.serialize (whole d)) [
  | none ↦ none
  | some bytes ↦ some (bytes, seg)
]

unfoldable pub tun_write : TcpSegment → Adapter → Option (List ℕ × TcpSegment)
unfolding Ipv4Datagram.serialize wrap_tcp_in_ip
tun_write seg a = elim (wrap_tcp_in_ip seg a) [ none ↦ none | some t ↦ serialized t ]

-- `TCPOverIPv4OverEthernetAdapter`, with everything that has been written to its device.
pub record EthernetAdapter : Type 0 where
  pub adapter : Adapter
  pub tap : List (List ℕ)
  pub interface : NetworkInterface
  pub next_hop : ℕ

abbrev pub default_frame : EthernetFrame
default_frame = record {
  header = record { dst = zero_address; src = zero_address; type = 0 };
  payload = [];
}

-- The constructor, which writes a dummy frame.
unfoldable pub init : Adapter → EthernetAddress → ℕ → ℕ → EthernetAdapter
unfolding Ethernet.serialize
init adapter eth_address ip_address next_hop = record {
  adapter = adapter;
  tap = Ethernet.serialize default_frame ∷ [];
  interface = NetworkInterface.init eth_address ip_address;
  next_hop = next_hop;
}

-- The loop of `send_pending`, over the queue of frames.
unfoldable pub send_frames : List EthernetFrame → EthernetAdapter → EthernetAdapter
unfolding Ethernet.serialize
send_frames [] e = record e { interface = record e.interface { frames_out = [] } }
send_frames (f ∷ frames) e = send_frames frames (record e {
  tap = e.tap ++ Ethernet.serialize f ∷ [];
  interface = record e.interface { frames_out = frames };
})

abbrev pub send_pending : EthernetAdapter → EthernetAdapter
send_pending e = send_frames e.interface.frames_out e

-- What becomes of the datagram that the frame carried.
abbrev pub gave :
    Option (Option TcpSegment × Adapter)
    → EthernetAdapter
    → Option (Option TcpSegment × EthernetAdapter)
gave none e = none
gave (some (seg, a)) e = some (seg, record e { adapter = a })

unfoldable pub give :
    Option Ipv4Datagram → EthernetAdapter → Option (Option TcpSegment × EthernetAdapter)
unfolding unwrap_tcp_in_ip
give none e = some (none, e)
give (some d) e = gave (unwrap_tcp_in_ip (in_one d) e.adapter) e

-- `none` where it throws, as for `write`.
unfoldable pub read : List ℕ → EthernetAdapter → Option (Option TcpSegment × EthernetAdapter)
unfolding Ethernet.parse recv_frame send_frames give
read bytes e =
    let (r, f) = Ethernet.parse default_frame bytes in
    if is_error r then some (none, e) else elim (recv_frame f e.interface) [
      | none ↦ none
      | some (d, n) ↦ give d (send_pending (record e { interface = n }))
    ]

unfoldable pub tick : ℕ → EthernetAdapter → EthernetAdapter
unfolding NetworkInterface.tick send_frames
tick ms e = send_pending (record e { interface = NetworkInterface.tick ms e.interface })

abbrev pub send_wrapped :
    EthernetAdapter → InternetDatagram × TcpSegment → Option (TcpSegment × EthernetAdapter)
unfolding send_datagram send_frames
send_wrapped e (d, seg) = elim (send_datagram (whole d) e.next_hop e.interface) [
  | none ↦ none
  | some n ↦ some (seg, send_pending (record e { interface = n }))
]

unfoldable pub write : TcpSegment → EthernetAdapter → Option (TcpSegment × EthernetAdapter)
unfolding wrap_tcp_in_ip send_datagram send_frames
write seg e = elim (wrap_tcp_in_ip seg e.adapter) [ none ↦ none | some t ↦ send_wrapped e t ]
