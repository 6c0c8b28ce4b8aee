-- ===== src/TuntapAdapter/RoundTrip.antt =====
-- A segment that crosses from one `TCPOverIPv4OverTunFdAdapter` to another.
use cs144_intro2network.Prelude.{ℕ, List, some, refl, arith, ◌+◌, ◌*◌, length, ◌<◌, ◌^◌, ◌≡◌}
use cs144_intro2network.Wire.TcpSegment.{TcpSegment, with_cksum}
use cs144_intro2network.Wire.Ipv4Header.RoundTrip
use cs144_intro2network.Wire.Ipv4Datagram
use cs144_intro2network.Wire.Ipv4Datagram.{Ipv4Datagram}
use cs144_intro2network.Wire.Ipv4Datagram.RoundTrip.{IsDatagram, parse-serialize_datagram}
use cs144_intro2network.TcpOverIp.{Adapter, ported, datagram_header}
use cs144_intro2network.TcpOverIp.RoundTrip.{
  concatenate-pieces, IsSendable, Sent, peer, wrap-Sent, unwrap-Sent,
}
use cs144_intro2network.TuntapAdapter.{tun_read, tun_write, serialized}

datagram_header-IsHeader :
    (seg : TcpSegment) (a : Adapter)
    → IsSendable a seg
    → RoundTrip.IsHeader (datagram_header (ported seg a) a)
datagram_header-IsHeader seg a s = record {
  version = refl;
  hlen_fits = omega arith;
  hlen_long = omega arith;
  tos_fits = omega arith;
  len_fits = omega arith;
  id_fits = omega arith;
  offset_fits = omega arith;
  ttl_fits = omega arith;
  proto_fits = omega arith;
  cksum_fits = omega arith;
  src_fits = s.source.ip_fits;
  dst_fits = s.destination.ip_fits;
}

-- The datagram of a segment that one datagram can hold.
abbrev carrier : (seg : TcpSegment) (a : Adapter) → Sent seg a → Ipv4Datagram
carrier seg a t = record { header = datagram_header (ported seg a) a; payload = t.payload }

carrier-IsDatagram :
    (seg : TcpSegment) (a : Adapter) (t : Sent seg a)
    → IsSendable a seg
    → 20 + 4 * seg.header.doff + length seg.payload < 2 ^ 16
    → IsDatagram (carrier seg a t)
carrier-IsDatagram seg a t s small = record {
  header = datagram_header-IsHeader seg a s;
  whole = omega (arith, t.size, small);
}

-- A segment that fits, in one datagram too, is written as bytes for the device, from which the adapter of
-- the peer reads the segment with the ports set and a checksum filled in.
pub tun_read-tun_write :
    (seg : TcpSegment) (a : Adapter)
    → IsSendable a seg
    → 20 + 4 * seg.header.doff + length seg.payload < 2 ^ 16
    → (bytes : List ℕ) × (tun_write seg a ≡ some (bytes, ported seg a))
      × (c : ℕ) × (tun_read bytes (peer a)
          ≡ some (
            some (record (ported seg a) { header = with_cksum c (ported seg a).header }),
            peer a,
          ))
unfolding tun_read tun_write
tun_read-tun_write seg a s small =
    let t = wrap-Sent seg a s in
    let d = carrier seg a t in
    let (bytes, e, c, p, _h) =
      parse-serialize_datagram Ipv4Datagram.default d (carrier-IsDatagram seg a t s small) in
    (
      bytes,
      rw (tun_write, serialized, t.wrapped, concatenate-pieces t.payload (length seg.payload), e)
          refl,
      t.cksum,
      rw (tun_read, p, unwrap-Sent seg a t c) refl,
    )
