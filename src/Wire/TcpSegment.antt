-- ===== src/Wire/TcpSegment.antt =====
-- libsponge/tcp_helpers/tcp_segment.hh and tcp_segment.cc.
pub mod RoundTrip
use cs144_intro2network.Prelude.{
  ℕ, ◌+◌, Option, none, some, List, [], ◌++◌, length, ◌==◌, if◌then◌else◌,
}
use cs144_intro2network.Wire.Parser.{ParseResult, bad_checksum, start}
use cs144_intro2network.Wire.Checksum
use cs144_intro2network.Wire.TcpHeader
use cs144_intro2network.Wire.TcpHeader.{TcpHeader}

pub record TcpSegment : Type 0 where
  pub header : TcpHeader
  pub payload : List ℕ

abbrev pub default : TcpSegment
default = record { header = TcpHeader.default; payload = [] }

-- `parse` into `s`, which keeps its value when the checksum is bad.
unfoldable pub parse : TcpSegment → List ℕ → ℕ → ParseResult × TcpSegment
unfolding Checksum.value Checksum.add TcpHeader.parse
parse s buffer datagram_layer_checksum =
    if Checksum.value (Checksum.add (Checksum.init datagram_layer_checksum) buffer) == 0
    then (let (_r, h, q) = TcpHeader.parse (start buffer) in
        (q.get_error, record { header = h; payload = q.buffer }))
    else (bad_checksum, s)

unfoldable pub length_in_sequence_space : TcpSegment → ℕ
length_in_sequence_space s =
    length s.payload + (if s.header.syn then 1 else 0) + (if s.header.fin then 1 else 0)

abbrev pub with_cksum : ℕ → TcpHeader → TcpHeader
with_cksum c h = record h { cksum = c }

-- `serialize`; the `BufferList` of header and payload is one list.
unfoldable pub serialize : TcpSegment → ℕ → Option (List ℕ)
unfolding Checksum.value Checksum.add TcpHeader.serialize
serialize s datagram_layer_checksum = elim (TcpHeader.serialize (with_cksum 0 s.header)) [
  | none ↦ none
  | some zeroed ↦
      let c =
        Checksum.value
          (Checksum.add (Checksum.add (Checksum.init datagram_layer_checksum) zeroed) s.payload) in
      elim (TcpHeader.serialize (with_cksum c s.header)) [
        | none ↦ none
        | some bytes ↦ some (bytes ++ s.payload)
      ]
]
