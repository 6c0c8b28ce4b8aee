-- ===== src/FdAdapter/RoundTrip.antt =====
-- A segment that one `TCPOverUDPSocketAdapter` writes is read by the adapter of its peer.
use cs144_intro2network.Prelude.{
  ℕ, List, refl, some, ==_refl, ◌≡◌, true, if◌then◌else◌, ◌&&◌, arith,
}
use cs144_intro2network.Wire.TcpSegment
use cs144_intro2network.Wire.TcpSegment.{TcpSegment, with_cksum}
use cs144_intro2network.Wire.TcpSegment.RoundTrip.{parse-serialize_segment}
use cs144_intro2network.TcpOverIp.{Endpoint, Adapter, ported}
use cs144_intro2network.TcpOverIp.RoundTrip.{IsSendable, ported-IsHeader, peer}
use cs144_intro2network.FdAdapter.{read, write, not, none}

-- The adapter of the peer before it is connected.
abbrev pub listener : Adapter → Endpoint → Adapter
listener a old = record { source = a.destination; destination = old; listening = true }

-- A segment that fits is written, with the ports of the adapter, to the destination. The adapter of
-- the peer that is connected to the sender reads that segment, with a checksum filled in, and stays as
-- it is. One that listens does so exactly for a SYN without RST, which connects it to the sender.
pub read-write :
    (seg : TcpSegment) (a : Adapter) (old : Endpoint)
    → IsSendable a seg
    → (payload : List ℕ) × (write seg a
        ≡ some (record { address = a.destination; payload = payload }, ported seg a))
      × (c : ℕ) × (read (record { address = a.source; payload = payload }) (peer a)
          ≡ (some (record (ported seg a) { header = with_cksum c (ported seg a).header }), peer a))
      × (read (record { address = a.source; payload = payload }) (listener a old) ≡ (
          if seg.header.syn && not seg.header.rst
          then (
            some (record (ported seg a) { header = with_cksum c (ported seg a).header }),
            peer a,
          )
          else (none, listener a old)))
unfolding read write
read-write seg a old s =
    let (bytes, e, c, p) =
      parse-serialize_segment TcpSegment.default (ported seg a) 0 (ported-IsHeader seg a s) s.bytes
        s.short (omega arith) in
    (
      bytes,
      rw (write, e) refl,
      c,
      rw (==_refl a.source.ip, ==_refl a.source.port, p) refl,
      rw p refl,
    )
