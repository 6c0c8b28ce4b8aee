-- ===== src/TcpOverIp.antt =====
-- libsponge/tcp_helpers/tcp_over_ip.cc: `TCPOverIPv4Adapter`, between TCP segments and datagrams.
-- An `Address` is a numeric IPv4 address and a port.
pub mod RoundTrip
use cs144_intro2network.Prelude.{
  ℕ, ◌+◌, ◌*◌, ◌%◌, Bool, false, not, ◌&&◌, Option, none, some, length, ◌==◌, if◌then◌else◌,
  u16_mod,
}
use cs144_intro2network.Buffer.{Buffer, of_string, str, concatenate, to_buffer}
use cs144_intro2network.Prelude.{List, [], ◌∷◌, ◌-◌, take, drop}
use cs144_intro2network.Wire.Parser.{is_error}
use cs144_intro2network.Wire.TcpSegment
use cs144_intro2network.Wire.TcpSegment.{TcpSegment}
use cs144_intro2network.Wire.Ipv4Header
use cs144_intro2network.Wire.Ipv4Header.{Ipv4Header, pseudo_cksum}
use cs144_intro2network.Wire.Ipv4Datagram.{Ipv4Datagram}

pub record Endpoint : Type 0 where
  pub ip : ℕ
  pub port : ℕ

-- The addresses of `FdAdapterConfig`, and `_listen` of `FdAdapterBase`.
pub record Adapter : Type 0 where
  pub source : Endpoint
  pub destination : Endpoint
  pub listening : Bool

-- The last test: is the segment from our peer?
abbrev from_peer : TcpSegment → Adapter → Option TcpSegment × Adapter
from_peer seg a = if seg.header.sport == a.destination.port then (some seg, a) else (none, a)

-- A SYN, and no RST, while listening sets both addresses.
abbrev accept : Ipv4Header → TcpSegment → Adapter → Adapter
accept h seg a = record {
  source = record { ip = h.dst; port = a.source.port };
  destination = record { ip = h.src; port = seg.header.sport };
  listening = false;
}

-- An `InternetDatagram` with its payload in buffers, as the adapter has it.
pub record InternetDatagram : Type 0 where
  pub header : Ipv4Header
  pub payload : List Buffer

-- What `Ipv4Datagram.parse` gives has its payload in one buffer; `serialize` takes the bytes of all.
abbrev pub in_one : Ipv4Datagram → InternetDatagram
in_one d = record { header = d.header; payload = of_string d.payload ∷ [] }

abbrev pub whole : InternetDatagram → Ipv4Datagram
whole d = record { header = d.header; payload = concatenate d.payload }

-- After the tests of the datagram, for the buffer that `parse` takes.
unfoldable pub unwrap_segment : Ipv4Header → List ℕ → Adapter → Option TcpSegment × Adapter
unfolding TcpSegment.parse pseudo_cksum
unwrap_segment h bytes a =
    let (r, seg) = TcpSegment.parse TcpSegment.default bytes (pseudo_cksum h) in
    if is_error r
    then (none, a)
    else if not (seg.header.dport == a.source.port)
    then (none, a)
    else if a.listening
    then (if seg.header.syn && not seg.header.rst
        then from_peer seg (accept h seg a)
        else (none, a))
    else from_peer seg a

-- `parse` takes a `Buffer`: `none` where the conversion of the payload to one throws.
unfoldable pub unwrap_tcp_in_ip : InternetDatagram → Adapter → Option (Option TcpSegment × Adapter)
unfolding unwrap_segment to_buffer
unwrap_tcp_in_ip d a =
    if not a.listening && not (d.header.dst == a.source.ip)
    then some (none, a)
    else if not a.listening && not (d.header.src == a.destination.ip)
    then some (none, a)
    else if not (d.header.proto == 6)
    then some (none, a)
    else (elim (to_buffer d.payload) [
      | none ↦ none
      | some b ↦ some (unwrap_segment d.header (str b) a)
    ])

-- `wrap_tcp_in_ip` sets the ports of the segment, which its caller sees; `none` where it throws.
abbrev pub ported : TcpSegment → Adapter → TcpSegment
ported seg a = record seg {
  header = record (seg.header) { sport = a.source.port; dport = a.destination.port };
}

abbrev pub datagram_header : TcpSegment → Adapter → Ipv4Header
datagram_header seg a = record (Ipv4Header.default) {
  src = a.source.ip;
  dst = a.destination.ip;
  len = (5 * 4 + seg.header.doff * 4 + length seg.payload) % u16_mod;
}

-- The `BufferList` that `TCPSegment::serialize` gives: the header, and the payload, which comes last.
abbrev pub pieces : List ℕ → ℕ → List Buffer
pieces bytes payload_size =
    let header_size = length bytes - payload_size in
    of_string (take header_size bytes) ∷ of_string (drop header_size bytes) ∷ []

unfoldable pub wrap_tcp_in_ip : TcpSegment → Adapter → Option (InternetDatagram × TcpSegment)
unfolding TcpSegment.serialize pseudo_cksum
wrap_tcp_in_ip seg a =
    let seg' = ported seg a in
    let h = datagram_header seg' a in
    elim (TcpSegment.serialize seg' (pseudo_cksum h)) [
      | none ↦ none
      | some bytes ↦
          some (record { header = h; payload = pieces bytes (length seg'.payload) }, seg')
    ]
