-- ===== src/Wire/TcpHeader.antt =====
-- libsponge/tcp_helpers/tcp_header.hh and tcp_header.cc.
pub mod Flags
pub mod RoundTrip
use Prim.Native.Nat.{bit_or}
use cs144_intro2network.Prelude.{
  ℕ, ◌-◌, ◌*◌, ◌/◌, ◌%◌, Bool, false, Option, none, some, List, ◌++◌, replicate, ltb, ◌==◌,
  if◌then◌else◌,
}
use cs144_intro2network.Wire.Parser.{
  ParseResult, header_too_short, NetParser, parse_int, remove_prefix, u8, u16, u32, put_u8, put_u16,
  put_u32, Parse, ◌>>=◌,
}

pub record TcpHeader : Type 0 where
  pub sport : ℕ
  pub dport : ℕ
  pub seqno : ℕ
  pub ackno : ℕ
  pub doff : ℕ
  pub urg : Bool
  pub ack : Bool
  pub psh : Bool
  pub rst : Bool
  pub syn : Bool
  pub fin : Bool
  pub win : ℕ
  pub cksum : ℕ
  pub uptr : ℕ

abbrev pub default : TcpHeader
default = record {
  sport = 0;
  dport = 0;
  seqno = 0;
  ackno = 0;
  doff = 5;
  urg = false;
  ack = false;
  psh = false;
  rst = false;
  syn = false;
  fin = false;
  win = 0;
  cksum = 0;
  uptr = 0;
}

-- `static_cast<bool>(byte & 2^k)`.
abbrev pub has_bit : ℕ → ℕ → Bool
has_bit byte mask = byte / mask % 2 == 1

-- The fields, read one after another whether or not the data has run out.
unfoldable pub fields : Parse TcpHeader
unfolding parse_int
fields = do
  sport ← u16
  dport ← u16
  seqno ← u32
  ackno ← u32
  doff ← u8
  fl_b ← u8
  win ← u16
  cksum ← u16
  uptr ← u16
  λ p. (
    record {
      sport = sport;
      dport = dport;
      seqno = seqno;
      ackno = ackno;
      doff = doff / 16;
      urg = has_bit fl_b 32;
      ack = has_bit fl_b 16;
      psh = has_bit fl_b 8;
      rst = has_bit fl_b 4;
      syn = has_bit fl_b 2;
      fin = has_bit fl_b 1;
      win = win;
      cksum = cksum;
      uptr = uptr;
    },
    p,
  )

-- `parse`: the result, the header, and the parser after it.
unfoldable pub parse : NetParser → ParseResult × TcpHeader × NetParser
unfolding fields remove_prefix
parse p =
    let (h, q) = fields p in
    if ltb h.doff 5
    then (header_too_short, h, q)
    else (let q' = remove_prefix (h.doff * 4 - 20) q in (q'.get_error, h, q'))

abbrev pub bit : Bool → ℕ → ℕ
bit b mask = if b then mask else 0

abbrev pub flags : TcpHeader → ℕ
flags h =
    bit_or
      (bit_or (bit_or (bit_or (bit_or (bit h.urg 32) (bit h.ack 16)) (bit h.psh 8)) (bit h.rst 4))
        (bit h.syn 2))
      (bit h.fin 1)

-- `none` where the source throws.
unfoldable pub serialize : TcpHeader → Option (List ℕ)
serialize h =
    if ltb h.doff 5
    then none
    else some (
        put_u16 h.sport
        ++ (put_u16 h.dport
            ++ (put_u32 h.seqno
                ++ (put_u32 h.ackno
                    ++ (put_u8 (h.doff * 16)
                        ++ (put_u8 (flags h)
                            ++ (put_u16 h.win
                                ++ (put_u16 h.cksum
                                    ++ (put_u16 h.uptr ++ replicate (4 * h.doff - 20) 0)))))))))
