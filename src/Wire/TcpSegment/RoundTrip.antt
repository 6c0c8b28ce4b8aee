-- ===== src/Wire/TcpSegment/RoundTrip.antt =====
-- A TCP segment survives serialization and parsing, its checksum included.
use mathlib.Core.Option.{some-injective}
use cs144_intro2network.Prelude.{
  refl, some, ◌∙◌, ℕ, List, ◌++◌, ◌<◌, false, ◌*◌, ◌≡◌, ◌+◌, arith, length, ◌≤◌, ◌-◌, ◌^◌, u32_mod,
  length-append, ◌∙◌, ap, length-replicate, some, sym,
}
use cs144_intro2network.Wire.Parser.{no_error, put_u8, put_u16, put_u32}
use cs144_intro2network.Wire.Checksum.{value, add, init}
use cs144_intro2network.Wire.Checksum.Verify.{value_verifies}
use cs144_intro2network.Wire.Checksum.Fields.{
  total-put_u16, AreBytes-put_u16, AreBytes-put_u32, AreBytes-put_u8,
}
use cs144_intro2network.Wire.Checksum.Total.{
  total, total-le, total-append, AreBytes, AreBytes-append, AreBytes-replicate, sum-add, add-append,
  value_lt, value-sum,
}
use cs144_intro2network.Wire.TcpHeader.{TcpHeader, flags}
use cs144_intro2network.Wire.TcpHeader.RoundTrip.{
  IsHeader, wire, padding, serialize-wire, parse-wire,
}
use cs144_intro2network.Wire.TcpSegment.{TcpSegment, parse, serialize, with_cksum}

-- The header up to its checksum, and what follows the checksum.
abbrev front : TcpHeader → List ℕ
front h =
    put_u16 h.sport
    ++ (put_u16 h.dport
        ++ (put_u32 h.seqno
            ++ (put_u32 h.ackno ++ (put_u8 (h.doff * 16) ++ (put_u8 (flags h) ++ put_u16 h.win)))))

abbrev back : TcpHeader → List ℕ → List ℕ
back h rest = put_u16 h.uptr ++ (padding h ++ rest)

total-with_cksum :
    (h : TcpHeader) (c : ℕ) (rest : List ℕ)
    → c < 65536
    → total false (wire (with_cksum c h) (padding h ++ rest))
      ≡ total false (wire (with_cksum 0 h) (padding h ++ rest)) + c
total-with_cksum h c rest b =
    let x = total-append false (front h) (put_u16 c ++ back h rest) in
    let y = total-append false (front h) (put_u16 0 ++ back h rest) in
    let x1 = total-put_u16 c (back h rest) b in
    let y1 = total-put_u16 0 (back h rest) (omega arith) in omega (arith, x, y, x1, y1)

AreBytes-wire : (h : TcpHeader) (rest : List ℕ) → AreBytes rest → AreBytes (wire h rest)
AreBytes-wire h rest b =
    let r8 = put_u16 h.uptr ++ rest in
    let r7 = put_u16 h.cksum ++ r8 in
    let r6 = put_u16 h.win ++ r7 in
    let r5 = put_u8 (flags h) ++ r6 in
    let r4 = put_u8 (h.doff * 16) ++ r5 in
    let r3 = put_u32 h.ackno ++ r4 in
    let r2 = put_u32 h.seqno ++ r3 in
    let r1 = put_u16 h.dport ++ r2 in
    let b8 = AreBytes-put_u16 h.uptr rest b in
    let b7 = AreBytes-put_u16 h.cksum r8 b8 in
    let b6 = AreBytes-put_u16 h.win r7 b7 in
    let b5 = AreBytes-put_u8 (flags h) r6 b6 in
    let b4 = AreBytes-put_u8 (h.doff * 16) r5 b5 in
    let b3 = AreBytes-put_u32 h.ackno r4 b4 in
    let b2 = AreBytes-put_u32 h.seqno r3 b3 in
    AreBytes-put_u16 h.sport r1 (AreBytes-put_u16 h.dport r2 b2)

abbrev datagram : TcpHeader → List ℕ → List ℕ
datagram h payload = wire h (padding h ++ payload)

total-datagram :
    (h : TcpHeader) (payload : List ℕ)
    → h.doff < 16
    → AreBytes payload
    → total false (datagram h payload) ≤ 65280 * (60 + length payload)
total-datagram h payload d b =
    let t = total-le false (datagram h payload) (
      AreBytes-wire h (padding h ++ payload)
        (AreBytes-append (padding h) payload (AreBytes-replicate (4 * h.doff - 20)) b)) in
    let l : length (padding h ++ payload) ≡ (4 * h.doff - 20) + length payload =
      length-append (padding h) payload
      ∙ ap (λ k. k + length payload) (length-replicate (4 * h.doff - 20) 0) in
    omega (arith, t, l, d)

-- The checksum that `serialize` computes.
abbrev checksum : TcpSegment → ℕ → ℕ
checksum s d = value (add (init d) (datagram (with_cksum 0 s.header) s.payload))

-- What carries its own checksum sums up to one whose value is zero.
datagram_verifies :
    (s : TcpSegment) (d : ℕ)
    → s.header.doff < 16
    → AreBytes s.payload
    → length s.payload < 2 ^ 16
    → d < 2 ^ 23
    → value (add (init d) (datagram (with_cksum (checksum s d) s.header) s.payload)) ≡ 0
datagram_verifies s d doff b l small =
    let h = s.header in
    let zeroed : List ℕ = datagram (with_cksum 0 h) s.payload in
    let c : ℕ = checksum s d in
    let filled : List ℕ = datagram (with_cksum c h) s.payload in
    let t0 = total-datagram (with_cksum 0 h) s.payload doff b in
    let t1 : total false filled ≡ total false zeroed + c =
      total-with_cksum h c s.payload (value_lt (add (init d) zeroed)) in
    let c_lt : c < 65536 = value_lt (add (init d) zeroed) in
    let s0 : (add (init d) zeroed).sum ≡ d + total false zeroed =
      sum-add d false zeroed (omega (arith, t0, l, small)) in
    let s1 : (add (init d) filled).sum ≡ d + total false filled =
      sum-add d false filled (omega (arith, t0, t1, l, small, c_lt)) in
    let bound : (add (init d) zeroed).sum + 0xffff < u32_mod = omega (arith, s0, t0, l, small) in
    value-sum (add (init d) filled)
      (record (add (init d) zeroed) { sum = (add (init d) zeroed).sum + c })
      (omega (arith, s0, s1, t1))
    ∙ (value_verifies (add (init d) zeroed) bound).1

IsHeader-cksum : (h : TcpHeader) (c : ℕ) → IsHeader h → c < 65536 → IsHeader (with_cksum c h)
IsHeader-cksum h c i b = record {
  sport_fits = i.sport_fits;
  dport_fits = i.dport_fits;
  seqno_fits = i.seqno_fits;
  ackno_fits = i.ackno_fits;
  doff_fits = i.doff_fits;
  doff_long = i.doff_long;
  win_fits = i.win_fits;
  cksum_fits = b;
  uptr_fits = i.uptr_fits;
}

-- What `serialize` returns for a segment whose header fits.
pub serialize-datagram :
    (s : TcpSegment) (d : ℕ)
    → IsHeader s.header
    → serialize s d
      ≡ some (wire (with_cksum (checksum s d) s.header) (padding s.header) ++ s.payload)
unfolding serialize
serialize-datagram s d i =
    let h0 = IsHeader-cksum s.header 0 i (omega arith) in
    let hc =
      IsHeader-cksum s.header (checksum s d) i
        (value_lt (add (init d) (datagram (with_cksum 0 s.header) s.payload))) in
    rw (serialize, serialize-wire (with_cksum 0 s.header) h0) rw
      (add-append (init d) (wire (with_cksum 0 s.header) (padding s.header)) s.payload) rw
      (serialize-wire (with_cksum (checksum s d) s.header) hc) refl

pub length-serialize :
    (s : TcpSegment) (d : ℕ) (bytes : List ℕ)
    → IsHeader s.header
    → serialize s d ≡ some bytes
    → length bytes ≡ 4 * s.header.doff + length s.payload
length-serialize s d bytes i e =
    let h = s.header in
    let hc = with_cksum (checksum s d) h in
    let same : datagram hc s.payload ≡ bytes =
      some-injective (datagram hc s.payload) bytes (sym (serialize-datagram s d i) ∙ e) in
    let l : length (padding h ++ s.payload) ≡ (4 * h.doff - 20) + length s.payload =
      length-append (padding h) s.payload
      ∙ ap (λ k. k + length s.payload) (length-replicate (4 * h.doff - 20) 0) in
    let whole : length (datagram hc s.payload) ≡ 4 * h.doff + length s.payload =
      omega (arith, l, i.doff_long) in
    ap length (sym same) ∙ whole

parse-datagram :
    (old : TcpSegment) (h : TcpHeader) (payload : List ℕ) (d : ℕ)
    → IsHeader h
    → value (add (init d) (datagram h payload)) ≡ 0
    → parse old (datagram h payload) d ≡ (no_error, record { header = h; payload = payload })
unfolding parse
parse-datagram old h payload d i v = rw (v, parse-wire h payload i) refl

-- A segment whose header fits its widths, with a payload of bytes shorter than 2^16 and
-- a datagram-layer sum below 2^23, is serialized; the bytes parse without an error, into a segment that
-- differs from the first in the checksum only, which `serialize` filled in.
pub parse-serialize_segment :
    (old s : TcpSegment) (d : ℕ)
    → IsHeader s.header
    → AreBytes s.payload
    → length s.payload < 2 ^ 16
    → d < 2 ^ 23
    → (bytes : List ℕ) × (serialize s d ≡ some bytes)
      × (c : ℕ) × (parse old bytes d ≡ (no_error, record s { header = with_cksum c s.header }))
parse-serialize_segment old s d i b l small =
    let c = checksum s d in
    let hc = with_cksum c s.header in
    (
      datagram hc s.payload,
      serialize-datagram s d i,
      c,
      parse-datagram old hc s.payload d
          (IsHeader-cksum s.header c i
            (value_lt (add (init d) (datagram (with_cksum 0 s.header) s.payload))))
          (datagram_verifies s d i.doff_fits b l small),
    )
