-- ===== src/Tests/Datagrams.antt =====
-- IPv4 datagrams at concrete inputs.
use cs144_intro2network.Prelude.{ℕ, List, [], ◌∷◌, ◌++◌, some, true, refl, ◌≡◌, arith}
use cs144_intro2network.Wire.Parser.{no_error, start}
use cs144_intro2network.Wire.Ipv4Header
use cs144_intro2network.Wire.Ipv4Header.{Ipv4Header}
use cs144_intro2network.Wire.Ipv4Header.RoundTrip.{wire, padding}
use cs144_intro2network.Wire.Ipv4Datagram
use cs144_intro2network.Wire.Ipv4Datagram.{Ipv4Datagram, parse, serialize, with_cksum}
use cs144_intro2network.Wire.Ipv4Datagram.RoundTrip.{
  IsDatagram, parse-serialize_datagram, parse-any_cksum,
}

-- A fragment with a word of options, and a checksum that is wrong.
abbrev fragment : Ipv4Datagram
fragment = record {
  header = record Ipv4Header.default {
    hlen = 6;
    len = 27;
    mf = true;
    offset = 5000;
    cksum = 1;
    src = 0x0a000001;
    dst = 0x0a000002;
  };
  payload = 7 ∷ 8 ∷ 9 ∷ [];
}

fragment-IsDatagram : IsDatagram fragment
fragment-IsDatagram = record {
  header = record {
    version = refl;
    hlen_fits = omega arith;
    hlen_long = omega arith;
    tos_fits = omega arith;
    len_fits = omega arith;
    id_fits = omega arith;
    offset_fits = omega arith;
    ttl_fits = omega arith;
    proto_fits = omega arith;
    cksum_fits = omega arith;
    src_fits = omega arith;
    dst_fits = omega arith;
  };
  whole = refl;
}

parse-serialize_datagram_example :
    (bytes : List ℕ) × (serialize fragment ≡ some bytes)
    × (c : ℕ) × (parse Ipv4Datagram.default bytes
        ≡ (no_error, record fragment { header = with_cksum c fragment.header }))
    × (Ipv4Header.parse Ipv4Header.default (start bytes)
        ≡ (no_error, with_cksum c fragment.header, start fragment.payload))
parse-serialize_datagram_example =
    parse-serialize_datagram Ipv4Datagram.default fragment fragment-IsDatagram

parse-any_cksum_example :
    parse Ipv4Datagram.default (wire fragment.header (padding fragment.header) ++ fragment.payload)
    ≡ (no_error, fragment)
parse-any_cksum_example = parse-any_cksum Ipv4Datagram.default fragment fragment-IsDatagram
