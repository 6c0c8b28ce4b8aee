-- ===== src/Wire/Ethernet/RoundTrip.antt =====
-- An Ethernet frame survives serialization and parsing.
use cs144_intro2network.Prelude.{
  ℕ, List, ◌++◌, ◌≡◌, ◌<◌, refl, arith, length, ltb, false, u16_mod, ap, ◌∙◌,
}
use cs144_intro2network.Wire.Ethernet.{
  EthernetAddress, EthernetFrame, get_address, put_address, parse_header, serialize_header, parse,
  serialize, put_u16, u16,
}
use cs144_intro2network.Wire.Parser.{no_error, start, NetParser, ParseResult, u16, put_u16}
use cs144_intro2network.Wire.Parser.Ints.{u8-put_u8, u16-put_u16}

-- Every byte of an address is one.
pub record IsAddress (a : EthernetAddress) : Type 0 where
  pub small0 : a.b0 < 256
  pub small1 : a.b1 < 256
  pub small2 : a.b2 < 256
  pub small3 : a.b3 < 256
  pub small4 : a.b4 < 256
  pub small5 : a.b5 < 256

pub get_address-put_address :
    (a : EthernetAddress) (rest : List ℕ)
    → IsAddress a
    → get_address (start (put_address a ++ rest)) ≡ (a, start rest)
unfolding get_address
get_address-put_address a rest h = rw (
  u8-put_u8 a.b0 _ h.small0,
  u8-put_u8 a.b1 _ h.small1,
  u8-put_u8 a.b2 _ h.small2,
  u8-put_u8 a.b3 _ h.small3,
  u8-put_u8 a.b4 _ h.small4,
  u8-put_u8 a.b5 rest h.small5,
)

parse-reads :
    (g : EthernetFrame) (x : List ℕ) (dst src : EthernetAddress) (type : ℕ) (p1 p2 p3 : NetParser)
    → ltb (length x) 14 ≡ false
    → get_address (start x) ≡ (dst, p1)
    → get_address p1 ≡ (src, p2)
    → u16 p2 ≡ (type, p3)
    → parse g x ≡ (
      p3.get_error,
      record { header = record { dst = dst; src = src; type = type }; payload = p3.buffer },
    )
unfolding parse parse_header
parse-reads g x dst src type p1 p2 p3 long e1 e2 e3 =
    let third : EthernetAddress → EthernetAddress → ℕ × NetParser → ParseResult × EthernetFrame =
      λ d s t. (
        t.1.get_error,
        record { header = record { dst = d; src = s; type = t.0 }; payload = t.1.buffer },
      ) in
    let second : EthernetAddress → EthernetAddress × NetParser → ParseResult × EthernetFrame =
      λ d q. third d q.0 (u16 q.1) in
    let first : EthernetAddress × NetParser → ParseResult × EthernetFrame =
      λ q. second q.0 (get_address q.1) in
    let whole : parse g x ≡ first (get_address (start x)) = rw long refl in
    whole ∙ ap first e1 ∙ ap (second dst) e2 ∙ ap (third dst src) e3

-- A frame whose addresses are bytes and whose type fits 16 bits survives serialization and parsing,
-- whatever frame the parser wrote into before.
pub parse-serialize :
    (f g : EthernetFrame)
    → IsAddress f.header.dst
    → IsAddress f.header.src
    → f.header.type < u16_mod
    → parse g (serialize f) ≡ (no_error, f)
unfolding serialize serialize_header
parse-serialize f g hd hs ht =
    let tail = put_u16 f.header.type ++ f.payload in
    let x : List ℕ = put_address f.header.dst ++ (put_address f.header.src ++ tail) in
    parse-reads g x f.header.dst f.header.src f.header.type _ _ _ (ground arith)
      (get_address-put_address f.header.dst (put_address f.header.src ++ tail) hd)
      (get_address-put_address f.header.src tail hs) (u16-put_u16 f.header.type f.payload ht)
