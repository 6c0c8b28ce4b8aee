-- ===== src/FdAdapter.antt =====
-- libsponge/tcp_helpers/fd_adapter.* and lossy_fd_adapter.hh: segments in UDP payloads, and random
-- loss. What the socket received and the numbers drawn are arguments; what is sent is a result.
pub mod RoundTrip
use cs144_intro2network.Prelude.{
  ℕ, ◌%◌, Bool, true, false, not, ◌&&◌, Option, none, some, List, ltb, ◌==◌, if◌then◌else◌, u16_mod,
}
use cs144_intro2network.Wire.Parser.{is_error}
use cs144_intro2network.Wire.TcpSegment
use cs144_intro2network.Wire.TcpSegment.{TcpSegment}
use cs144_intro2network.TcpOverIp.{Endpoint, Adapter, ported}

-- A datagram that `UDPSocket::recv` returns, with its sender, or one for `sendto`, with its target.
pub record UdpDatagram : Type 0 where
  pub address : Endpoint
  pub payload : List ℕ

-- `operator==` of `Address`.
abbrev pub same_endpoint : Endpoint → Endpoint → Bool
same_endpoint p q = p.ip == q.ip && p.port == q.port

-- The end of `read`: a SYN, and no RST, while listening sets the destination.
abbrev pub target : Endpoint → TcpSegment → Adapter → Option TcpSegment × Adapter
target source seg a =
    if a.listening
    then (if seg.header.syn && not seg.header.rst
        then (some seg, record a { destination = source; listening = false })
        else (none, a))
    else (some seg, a)

unfoldable pub read : UdpDatagram → Adapter → Option TcpSegment × Adapter
unfolding TcpSegment.parse
read d a =
    if not a.listening && not (same_endpoint d.address a.destination)
    then (none, a)
    else (let (r, seg) = TcpSegment.parse TcpSegment.default d.payload 0 in
        if is_error r then (none, a) else target d.address seg a)

-- `write`: what it sends, and the segment with its ports set; `none` where it throws.
unfoldable pub write : TcpSegment → Adapter → Option (UdpDatagram × TcpSegment)
unfolding TcpSegment.serialize
write seg a = elim (TcpSegment.serialize (ported seg a) 0) [
  | none ↦ none
  | some bytes ↦ some (record { address = a.destination; payload = bytes }, ported seg a)
]

-- `loss_rate_dn` and `loss_rate_up` of `FdAdapterConfig`.
pub record LossRates : Type 0 where
  pub loss_rate_dn : ℕ
  pub loss_rate_up : ℕ

-- `_should_drop`, for the number that `_rand` draws if it is called.
abbrev pub should_drop : Bool → ℕ → LossRates → Bool
should_drop uplink rand cfg =
    let loss = if uplink then cfg.loss_rate_up else cfg.loss_rate_dn in
    not (loss == 0) && ltb (rand % u16_mod) loss

-- `LossyFdAdapter::read`, for what `read` of its adapter returns.
unfoldable pub lossy_read {ℓ} :
    {A : Type ℓ} → ℕ → LossRates → Option TcpSegment × A → Option TcpSegment × A
lossy_read rand cfg (ret, a) = if should_drop false rand cfg then (none, a) else (ret, a)

-- `LossyFdAdapter::write`, for `write` of its adapter: what is sent, if anything, and the segment.
unfoldable pub lossy_write {ℓ} :
    {D : Type ℓ}
    → ℕ
    → LossRates
    → (TcpSegment → Option (D × TcpSegment))
    → TcpSegment
    → Option (Option D × TcpSegment)
lossy_write rand cfg write seg =
    if should_drop true rand cfg
    then some (none, seg)
    else elim (write seg) [ none ↦ none | some (d, seg') ↦ some (some d, seg') ]
