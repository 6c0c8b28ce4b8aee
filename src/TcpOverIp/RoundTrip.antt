-- ===== src/TcpOverIp/RoundTrip.antt =====
-- A segment that one `TCPOverIPv4Adapter` wraps is unwrapped by the adapter of its peer.
use cs144_intro2network.Prelude.{
  ℕ, List, refl, ◌<◌, length, ◌≡◌, false, ◌^◌, some, true, ==_refl, arith, if◌then◌else◌, ◌&&◌, not,
  none, ◌*◌, ◌+◌, ap, ◌∙◌, ◌∷◌, [],
}
use cs144_intro2network.Wire.Parser.{no_error}
use cs144_intro2network.Wire.Ipv4Header.{pseudo_cksum}
use cs144_intro2network.Wire.Ipv4Datagram
use cs144_intro2network.Wire.Ipv4Datagram.{Ipv4Datagram}
use cs144_intro2network.Wire.TcpSegment
use cs144_intro2network.Wire.TcpSegment.{TcpSegment, with_cksum}
use cs144_intro2network.Wire.Checksum.Total.{AreBytes}
use cs144_intro2network.Wire.TcpHeader.RoundTrip.{IsHeader}
use cs144_intro2network.Wire.TcpSegment.RoundTrip.{parse-serialize_segment, length-serialize}
use cs144_intro2network.TcpOverIp.{
  Endpoint, Adapter, ported, datagram_header, wrap_tcp_in_ip, unwrap_tcp_in_ip, InternetDatagram,
  in_one, whole, pieces, unwrap_segment,
}
use cs144_intro2network.Buffer.{concatenate, concatenate_from, to_buffer, Buffer}
use cs144_intro2network.Prelude.{◌-◌, take-append-drop}

-- A 32-bit address and a 16-bit port.
pub record IsEndpoint (e : Endpoint) : Type 0 where
  pub ip_fits : e.ip < 2 ^ 32
  pub port_fits : e.port < 2 ^ 16

-- A segment that a connection of `a` may write.
pub record IsSendable (a : Adapter) (seg : TcpSegment) : Type 0 where
  pub source : IsEndpoint a.source
  pub destination : IsEndpoint a.destination
  pub header : IsHeader seg.header
  pub bytes : AreBytes seg.payload
  pub short : length seg.payload < 2 ^ 16

pseudo_lt :
    (seg : TcpSegment) (a : Adapter)
    → IsEndpoint a.source
    → IsEndpoint a.destination
    → pseudo_cksum (datagram_header seg a) < 2 ^ 23
unfolding pseudo_cksum
pseudo_lt seg a s d = omega (arith, s.ip_fits, d.ip_fits)

pub ported-IsHeader :
    (seg : TcpSegment) (a : Adapter) → IsSendable a seg → IsHeader (ported seg a).header
ported-IsHeader seg a s = record {
  sport_fits = s.source.port_fits;
  dport_fits = s.destination.port_fits;
  seqno_fits = s.header.seqno_fits;
  ackno_fits = s.header.ackno_fits;
  doff_fits = s.header.doff_fits;
  doff_long = s.header.doff_long;
  win_fits = s.header.win_fits;
  cksum_fits = s.header.cksum_fits;
  uptr_fits = s.header.uptr_fits;
}

-- The adapter of the peer, once it is connected.
abbrev pub peer : Adapter → Adapter
peer a = record { source = a.destination; destination = a.source; listening = false }

-- What `wrap_tcp_in_ip` hands to the network, and what the peer's `parse` makes of it.
pub record Sent (seg : TcpSegment) (a : Adapter) : Type 0 where
  pub payload : List ℕ
  pub wrapped :
      wrap_tcp_in_ip seg a
      ≡ some (
        record {
          header = datagram_header (ported seg a) a;
          payload = pieces payload (length seg.payload);
        },
        ported seg a,
      )
  pub size : length payload ≡ 4 * seg.header.doff + length seg.payload
  pub cksum : ℕ
  pub parsed :
      TcpSegment.parse TcpSegment.default payload (pseudo_cksum (datagram_header (ported seg a) a))
      ≡ (no_error, record (ported seg a) { header = with_cksum cksum (ported seg a).header })

pub wrap-Sent : (seg : TcpSegment) (a : Adapter) → IsSendable a seg → Sent seg a
unfolding wrap_tcp_in_ip
wrap-Sent seg a s =
    let h = datagram_header (ported seg a) a in
    let (bytes, e, c, p) =
      parse-serialize_segment TcpSegment.default (ported seg a) (pseudo_cksum h)
        (ported-IsHeader seg a s) s.bytes s.short
        (pseudo_lt (ported seg a) a s.source s.destination) in
    record {
      payload = bytes;
      wrapped = rw (wrap_tcp_in_ip, e) refl;
      size = length-serialize (ported seg a) (pseudo_cksum h) bytes (ported-IsHeader seg a s) e;
      cksum = c;
      parsed = p;
    }

-- The peer unwraps what was sent, with any checksum in the datagram's header, in one buffer.
pub unwrap-Sent :
    (seg : TcpSegment) (a : Adapter) (t : Sent seg a) (c : ℕ)
    → unwrap_tcp_in_ip
        (in_one (record {
          header = Ipv4Datagram.with_cksum c (datagram_header (ported seg a) a);
          payload = t.payload;
        }))
        (peer a)
      ≡ some (
        some (record (ported seg a) { header = with_cksum t.cksum (ported seg a).header }),
        peer a,
      )
unfolding unwrap_tcp_in_ip unwrap_segment to_buffer pseudo_cksum
unwrap-Sent seg a t c =
    rw
      (
        ==_refl a.source.ip,
        ==_refl a.destination.ip,
        t.parsed,
        ==_refl a.source.port,
        ==_refl a.destination.port,
      )
      refl

-- The two buffers of what is wrapped are the bytes that the peer parses.
pub concatenate-pieces : (bytes : List ℕ) (n : ℕ) → concatenate (pieces bytes n) ≡ bytes
unfolding concatenate_from
concatenate-pieces bytes n = take-append-drop (length bytes - n) bytes

-- An adapter that listens on the port of the peer, whatever its addresses.
abbrev pub listener : Adapter → ℕ → Endpoint → Adapter
listener a source_ip old = record {
  source = record { ip = source_ip; port = a.destination.port };
  destination = old;
  listening = true;
}

unwrap_listening :
    (seg : TcpSegment) (a : Adapter) (t : Sent seg a) (source_ip : ℕ) (old : Endpoint)
    → unwrap_tcp_in_ip
        (in_one (record { header = datagram_header (ported seg a) a; payload = t.payload }))
        (listener a source_ip old)
      ≡ some (
          if seg.header.syn && not seg.header.rst
          then (
            some (record (ported seg a) { header = with_cksum t.cksum (ported seg a).header }),
            peer a,
          )
          else (none, listener a source_ip old))
unfolding unwrap_tcp_in_ip unwrap_segment to_buffer
unwrap_listening seg a t source_ip old =
    rw (t.parsed, ==_refl a.destination.port, ==_refl a.source.port) refl

-- A payload in two buffers does not convert to one.
unwrap_split :
    (seg : TcpSegment) (a : Adapter) (b c : Buffer)
    → unwrap_tcp_in_ip (record { header = datagram_header seg a; payload = b ∷ c ∷ [] }) (peer a)
      ≡ none
unfolding unwrap_tcp_in_ip to_buffer
unwrap_split seg a b c = rw (==_refl a.source.ip, ==_refl a.destination.ip) refl

-- A segment that fits is wrapped, with the ports of the adapter, in two buffers: unwrapped as it is, it
-- makes the peer throw. With its payload in one buffer, as the network hands it over, the adapter of
-- the peer that is connected to the sender unwraps it into that segment, with a checksum filled in, and
-- stays as it is. One that listens on the port, whatever its addresses, does so exactly for a SYN
-- without RST, and becomes the adapter of the peer.
pub wrap-unwrap :
    (seg : TcpSegment) (a : Adapter) (source_ip : ℕ) (old : Endpoint)
    → IsSendable a seg
    → (d : InternetDatagram) × (wrap_tcp_in_ip seg a ≡ some (d, ported seg a))
      × (unwrap_tcp_in_ip d (peer a) ≡ none)
      × (c : ℕ) × (unwrap_tcp_in_ip (in_one (whole d)) (peer a)
          ≡ some (
            some (record (ported seg a) { header = with_cksum c (ported seg a).header }),
            peer a,
          ))
      × (unwrap_tcp_in_ip (in_one (whole d)) (listener a source_ip old)
          ≡ some (
              if seg.header.syn && not seg.header.rst
              then (
                some (record (ported seg a) { header = with_cksum c (ported seg a).header }),
                peer a,
              )
              else (none, listener a source_ip old)))
wrap-unwrap seg a source_ip old s =
    let t = wrap-Sent seg a s in
    let h = datagram_header (ported seg a) a in
    let joined = concatenate-pieces t.payload (length seg.payload) in
    (
      record { header = h; payload = pieces t.payload (length seg.payload) },
      t.wrapped,
      unwrap_split (ported seg a) a _ _,
      t.cksum,
      ap (λ b. unwrap_tcp_in_ip (in_one (record { header = h; payload = b })) (peer a)) joined
          ∙ unwrap-Sent seg a t 0,
      ap
            (λ b.
              unwrap_tcp_in_ip (in_one (record { header = h; payload = b }))
                (listener a source_ip old))
            joined
          ∙ unwrap_listening seg a t source_ip old,
    )
