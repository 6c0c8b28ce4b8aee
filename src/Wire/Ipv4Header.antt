-- ===== src/Wire/Ipv4Header.antt =====
-- libsponge/tcp_helpers/ipv4_header.hh and ipv4_header.cc.
pub mod Offsets
pub mod RoundTrip
use Prim.Native.Nat.{bit_or}
use cs144_intro2network.Prelude.{
  ℕ, ◌+◌, ◌-◌, ◌*◌, ◌/◌, ◌%◌, Bool, true, false, not, Option, none, some, List, ◌++◌, length, take,
  replicate, ltb, ◌==◌, if◌then◌else◌, u16_mod, add32,
}
use cs144_intro2network.Wire.Parser.{
  ParseResult, no_error, packet_too_short, wrong_ip_version, header_too_short, truncated_packet,
  bad_checksum, NetParser, error, parse_int, remove_prefix, u8, u16, u32, put_u8, put_u16, put_u32,
  Parse, ◌>>=◌,
}
use cs144_intro2network.Wire.TcpHeader.{has_bit, bit}
use cs144_intro2network.Wire.Checksum

pub record Ipv4Header : Type 0 where
  pub ver : ℕ
  pub hlen : ℕ
  pub tos : ℕ
  pub len : ℕ
  pub id : ℕ
  pub df : Bool
  pub mf : Bool
  pub offset : ℕ
  pub ttl : ℕ
  pub proto : ℕ
  pub cksum : ℕ
  pub src : ℕ
  pub dst : ℕ

abbrev pub default : Ipv4Header
default = record {
  ver = 4;
  hlen = 5;
  tos = 0;
  len = 0;
  id = 0;
  df = true;
  mf = false;
  offset = 0;
  ttl = 128;
  proto = 6;
  cksum = 0;
  src = 0;
  dst = 0;
}

unfoldable pub fields : Parse Ipv4Header
unfolding parse_int
fields = do
  first_byte ← u8
  tos ← u8
  len ← u16
  id ← u16
  fo_val ← u16
  ttl ← u8
  proto ← u8
  cksum ← u16
  src ← u32
  dst ← u32
  λ p. (
    record {
      ver = first_byte / 16;
      hlen = first_byte % 16;
      tos = tos;
      len = len;
      id = id;
      df = has_bit fo_val 0x4000;
      mf = has_bit fo_val 0x2000;
      offset = fo_val % 0x2000;
      ttl = ttl;
      proto = proto;
      cksum = cksum;
      src = src;
      dst = dst;
    },
    p,
  )

-- The checks behind the fields, in the source's order. `original` is the data from the header on.
unfoldable pub checks : List ℕ → Ipv4Header → NetParser → ParseResult × NetParser
unfolding remove_prefix Checksum.value Checksum.add
checks original h q =
    if ltb (length original) (4 * h.hlen)
    then (packet_too_short, q)
    else if not (h.ver == 4)
    then (wrong_ip_version, q)
    else if ltb h.hlen 5
    then (header_too_short, q)
    else if not (length original == h.len)
    then (truncated_packet, q)
    else (let q' = remove_prefix (h.hlen * 4 - 20) q in
        if error q'
        then (q'.get_error, q')
        else if Checksum.value (Checksum.add (Checksum.init 0) (take (4 * h.hlen) original)) == 0
        then (no_error, q')
        else (bad_checksum, q'))

-- `parse` into `h`, which keeps its value when the data is shorter than a header.
unfoldable pub parse : Ipv4Header → NetParser → ParseResult × Ipv4Header × NetParser
unfolding fields checks
parse h p =
    if ltb (length p.buffer) 20
    then (packet_too_short, h, p)
    else (let (h', q) = fields p in let (r, q') = checks p.buffer h' q in (r, h', q'))

-- `none` where the source throws.
unfoldable pub serialize : Ipv4Header → Option (List ℕ)
serialize h =
    if not (h.ver == 4)
    then none
    else if ltb (4 * h.hlen) 20
    then none
    else some (
        put_u8 (bit_or (h.ver * 16) (h.hlen % 16))
        ++ (put_u8 h.tos
            ++ (put_u16 h.len
                ++ (put_u16 h.id
                    ++ (put_u16
                          (bit_or (bit_or (bit h.df 0x4000) (bit h.mf 0x2000)) (h.offset % 0x2000))
                        ++ (put_u8 h.ttl
                            ++ (put_u8 h.proto
                                ++ (put_u16 h.cksum
                                    ++ (put_u32 h.src
                                        ++ (put_u32 h.dst ++ replicate (4 * h.hlen - 20) 0))))))))))

-- `uint16_t`: the difference wraps.
abbrev pub payload_length : Ipv4Header → ℕ
payload_length h = (h.len + u16_mod - 4 * h.hlen) % u16_mod

unfoldable pub pseudo_cksum : Ipv4Header → ℕ
pseudo_cksum h =
    add32
      (add32
        (add32 (add32 (h.src / u16_mod) (h.src % u16_mod))
          (add32 (h.dst / u16_mod) (h.dst % u16_mod)))
        h.proto)
      (payload_length h)
