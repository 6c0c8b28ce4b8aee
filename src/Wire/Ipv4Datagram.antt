-- ===== src/Wire/Ipv4Datagram.antt =====
-- libsponge/tcp_helpers/ipv4_datagram.hh and ipv4_datagram.cc.
pub mod RoundTrip
use cs144_intro2network.Prelude.{
  ℕ, not, Option, none, some, List, [], ◌++◌, length, ◌==◌, if◌then◌else◌,
}
use cs144_intro2network.Wire.Parser.{ParseResult, packet_too_short, start}
use cs144_intro2network.Wire.Checksum
use cs144_intro2network.Wire.Ipv4Header
use cs144_intro2network.Wire.Ipv4Header.{Ipv4Header, payload_length}

pub record Ipv4Datagram : Type 0 where
  pub header : Ipv4Header
  pub payload : List ℕ

abbrev pub default : Ipv4Datagram
default = record { header = Ipv4Header.default; payload = [] }

-- The result of the header's `parse` is dropped; only the parser's own error is returned.
unfoldable pub parse : Ipv4Datagram → List ℕ → ParseResult × Ipv4Datagram
unfolding Ipv4Header.parse
parse d buffer =
    let (_r, h, q) = Ipv4Header.parse d.header (start buffer) in
    let d' : Ipv4Datagram = record { header = h; payload = q.buffer } in
    if not (length q.buffer == payload_length h) then (packet_too_short, d') else (q.get_error, d')

abbrev pub with_cksum : ℕ → Ipv4Header → Ipv4Header
with_cksum c h = record h { cksum = c }

unfoldable pub serialize : Ipv4Datagram → Option (List ℕ)
unfolding Checksum.value Checksum.add Ipv4Header.serialize
serialize d =
    if not (length d.payload == payload_length d.header)
    then none
    else (elim (Ipv4Header.serialize (with_cksum 0 d.header)) [
      | none ↦ none
      | some zeroed ↦
          let c = Checksum.value (Checksum.add (Checksum.init 0) zeroed) in
          elim (Ipv4Header.serialize (with_cksum c d.header)) [
            | none ↦ none
            | some bytes ↦ some (bytes ++ d.payload)
          ]
    ])
