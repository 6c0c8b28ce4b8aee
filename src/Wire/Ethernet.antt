-- ===== src/Wire/Ethernet.antt =====
-- libsponge/tcp_helpers/ethernet_header.* and ethernet_frame.*. An `EthernetAddress` is six bytes.
pub mod RoundTrip
use cs144_intro2network.Prelude.{
  ℕ, zero, suc, Bool, true, false, ◌&&◌, List, [], ◌∷◌, ◌++◌, length, ltb, ◌==◌, if◌then◌else◌,
}
use cs144_intro2network.Wire.Parser.{
  ParseResult, packet_too_short, NetParser, Parse, ◌>>=◌, start, parse_int, u8, u16, put_u8,
  put_u16,
}

pub record EthernetAddress : Type 0 where
  pub b0 : ℕ
  pub b1 : ℕ
  pub b2 : ℕ
  pub b3 : ℕ
  pub b4 : ℕ
  pub b5 : ℕ

abbrev pub broadcast : EthernetAddress
broadcast = record { b0 = 0xff; b1 = 0xff; b2 = 0xff; b3 = 0xff; b4 = 0xff; b5 = 0xff }

abbrev pub zero_address : EthernetAddress
zero_address = record { b0 = 0; b1 = 0; b2 = 0; b3 = 0; b4 = 0; b5 = 0 }

abbrev pub same_address : EthernetAddress → EthernetAddress → Bool
same_address a b =
    a.b0 == b.b0
    && (a.b1 == b.b1 && (a.b2 == b.b2 && (a.b3 == b.b3 && (a.b4 == b.b4 && a.b5 == b.b5))))

abbrev pub type_ipv4 : ℕ
type_ipv4 = 0x800

abbrev pub type_arp : ℕ
type_arp = 0x806

pub record EthernetHeader : Type 0 where
  pub dst : EthernetAddress
  pub src : EthernetAddress
  pub type : ℕ

unfoldable pub get_address : Parse EthernetAddress
unfolding parse_int
get_address = do
  b0 ← u8
  b1 ← u8
  b2 ← u8
  b3 ← u8
  b4 ← u8
  b5 ← u8
  λ p. (record { b0 = b0; b1 = b1; b2 = b2; b3 = b3; b4 = b4; b5 = b5 }, p)

abbrev pub put_address : EthernetAddress → List ℕ
put_address a =
    put_u8 a.b0 ++ (put_u8 a.b1 ++ (put_u8 a.b2 ++ (put_u8 a.b3 ++ (put_u8 a.b4 ++ put_u8 a.b5))))

unfoldable pub parse_header : EthernetHeader → NetParser → ParseResult × EthernetHeader × NetParser
unfolding get_address
parse_header h p =
    if ltb (length p.buffer) 14
    then (packet_too_short, h, p)
    else (let (dst, p1) = get_address p in
        let (src, p2) = get_address p1 in
        let (type, p3) = u16 p2 in (p3.get_error, record { dst = dst; src = src; type = type }, p3))

unfoldable pub serialize_header : EthernetHeader → List ℕ
serialize_header h = put_address h.dst ++ (put_address h.src ++ put_u16 h.type)

pub record EthernetFrame : Type 0 where
  pub header : EthernetHeader
  pub payload : List ℕ

-- The result of the header's `parse` is dropped, as in the source.
unfoldable pub parse : EthernetFrame → List ℕ → ParseResult × EthernetFrame
unfolding parse_header
parse f buffer =
    let (_r, h, q) = parse_header f.header (start buffer) in
    (q.get_error, record { header = h; payload = q.buffer })

unfoldable pub serialize : EthernetFrame → List ℕ
unfolding serialize_header
serialize f = serialize_header f.header ++ f.payload
