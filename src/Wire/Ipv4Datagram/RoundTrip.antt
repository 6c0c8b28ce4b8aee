-- ===== src/Wire/Ipv4Datagram/RoundTrip.antt =====
-- An IPv4 datagram survives serialization and parsing, its checksum included.
use Prim.Native.Nat.{bit_or}
use cs144_intro2network.Prelude.{
  refl, some, take, take_all, take-append_le, ℕ, List, ==_iff, ◌≡◌, length, if◌then◌else◌, ◌++◌,
  ◌∙◌, ◌==◌, not, ◌*◌, ◌+◌, true, ap, arith, ◌-◌, ◌<◌, false, ◌%◌, length-replicate, ◌≤◌,
}
use cs144_intro2network.Wire.Parser.{
  ParseResult, NetParser, no_error, packet_too_short, start, put_u8, put_u16, put_u32,
}
use cs144_intro2network.Wire.Checksum.{value, add, init}
use cs144_intro2network.Wire.Checksum.Verify.{value_verifies}
use cs144_intro2network.Wire.Checksum.Fields.{
  total-put_u16, AreBytes-put_u16, AreBytes-put_u32, AreBytes-put_u8,
}
use cs144_intro2network.Wire.Checksum.Total.{
  total, total-le, total-append, AreBytes, AreBytes-replicate, sum-add, value_lt, value-sum,
}
use cs144_intro2network.Wire.Ipv4Header
use cs144_intro2network.Wire.Ipv4Header.{Ipv4Header, payload_length}
use cs144_intro2network.Wire.Ipv4Header.RoundTrip.{
  IsHeader, wire, padding, fo_val, verdict, serialize-wire, parse-wire,
}
use cs144_intro2network.Wire.Ipv4Datagram.{Ipv4Datagram, parse, serialize, with_cksum}

-- The header fits, and its length counts the header and the payload.
pub record IsDatagram (d : Ipv4Datagram) : Type 0 where
  pub header : IsHeader d.header
  pub whole : d.header.len ≡ 4 * d.header.hlen + length d.payload

payload_length-IsDatagram :
    (d : Ipv4Datagram) → IsDatagram d → (length d.payload == payload_length d.header) ≡ true
payload_length-IsDatagram d i =
    let len_fits = i.header.len_fits in
    (==_iff (length d.payload) (payload_length d.header)).1 (omega (arith, i.whole, len_fits))

-- `parse`, once the header is parsed.
accept : ParseResult × Ipv4Header × NetParser → ParseResult × Ipv4Datagram
accept (_r, h, q) =
    let d : Ipv4Datagram = record { header = h; payload = q.buffer } in
    if not (length q.buffer == payload_length h) then (packet_too_short, d) else (q.get_error, d)

parse-accept :
    (old : Ipv4Datagram) (buffer : List ℕ)
    → parse old buffer ≡ accept (Ipv4Header.parse old.header (start buffer))
unfolding parse accept
parse-accept old buffer = refl

accept-IsDatagram :
    (r : ParseResult) (d : Ipv4Datagram)
    → IsDatagram d
    → accept (r, d.header, start d.payload) ≡ (no_error, d)
unfolding accept
accept-IsDatagram r d i = rw (accept, payload_length-IsDatagram d i) refl

-- The bytes of a header that fits, with any checksum, and of a payload as long as the header says, parse
-- without an error into that header and payload: the result of the header's `parse`, which checks
-- the checksum, is dropped.
pub parse-any_cksum :
    (old d : Ipv4Datagram)
    → IsDatagram d
    → parse old (wire d.header (padding d.header) ++ d.payload) ≡ (no_error, d)
parse-any_cksum old d i =
    parse-accept old (wire d.header (padding d.header ++ d.payload))
    ∙ ap accept (parse-wire old.header d.header d.payload i.header i.whole)
    ∙ accept-IsDatagram (verdict d.header (wire d.header (padding d.header ++ d.payload))) d i

-- The header up to its checksum, and what follows the checksum.
abbrev front : Ipv4Header → List ℕ
front h =
    put_u8 (bit_or (4 * 16) (h.hlen % 16))
    ++ (put_u8 h.tos
        ++ (put_u16 h.len
            ++ (put_u16 h.id ++ (put_u16 (fo_val h) ++ (put_u8 h.ttl ++ (put_u8 h.proto))))))

abbrev back : Ipv4Header → List ℕ
back h = put_u32 h.src ++ (put_u32 h.dst ++ padding h)

abbrev header_bytes : Ipv4Header → List ℕ
header_bytes h = wire h (padding h)

total-with_cksum :
    (h : Ipv4Header) (c : ℕ)
    → c < 65536
    → total false (header_bytes (with_cksum c h)) ≡ total false (header_bytes (with_cksum 0 h)) + c
total-with_cksum h c b =
    let x = total-append false (front h) (put_u16 c ++ back h) in
    let y = total-append false (front h) (put_u16 0 ++ back h) in
    let x1 = total-put_u16 c (back h) b in
    let y1 = total-put_u16 0 (back h) (omega arith) in omega (arith, x, y, x1, y1)

AreBytes-header : (h : Ipv4Header) → AreBytes (header_bytes h)
AreBytes-header h =
    let r9 : List ℕ = put_u32 h.dst ++ padding h in
    let r8 : List ℕ = put_u32 h.src ++ r9 in
    let r7 : List ℕ = put_u16 h.cksum ++ r8 in
    let r6 : List ℕ = put_u8 h.proto ++ r7 in
    let r5 : List ℕ = put_u8 h.ttl ++ r6 in
    let r4 : List ℕ = put_u16 (fo_val h) ++ r5 in
    let r3 : List ℕ = put_u16 h.id ++ r4 in
    let r2 : List ℕ = put_u16 h.len ++ r3 in
    let r1 : List ℕ = put_u8 h.tos ++ r2 in
    let b9 = AreBytes-put_u32 h.dst (padding h) (AreBytes-replicate (4 * h.hlen - 20)) in
    let b8 = AreBytes-put_u32 h.src r9 b9 in
    let b7 = AreBytes-put_u16 h.cksum r8 b8 in
    let b6 = AreBytes-put_u8 h.proto r7 b7 in
    let b5 = AreBytes-put_u8 h.ttl r6 b6 in
    let b4 = AreBytes-put_u16 (fo_val h) r5 b5 in
    let b3 = AreBytes-put_u16 h.id r4 b4 in
    let b2 = AreBytes-put_u16 h.len r3 b3 in
    let b1 = AreBytes-put_u8 h.tos r2 b2 in AreBytes-put_u8 (bit_or (4 * 16) (h.hlen % 16)) r1 b1

length-header : (h : Ipv4Header) → IsHeader h → length (header_bytes h) ≡ 4 * h.hlen
length-header h i =
    let l : length (padding h) ≡ 4 * h.hlen - 20 = length-replicate (4 * h.hlen - 20) 0 in
    omega (arith, l, i.hlen_long)

total-header : (h : Ipv4Header) → IsHeader h → total false (header_bytes h) ≤ 65280 * 60
total-header h i =
    let t = total-le false (header_bytes h) (AreBytes-header h) in
    let l = length-header h i in omega (arith, t, l, i.hlen_fits)

-- The checksum that `serialize` computes.
abbrev checksum : Ipv4Header → ℕ
checksum h = value (add (init 0) (header_bytes (with_cksum 0 h)))

IsHeader-cksum : (h : Ipv4Header) (c : ℕ) → IsHeader h → c < 65536 → IsHeader (with_cksum c h)
IsHeader-cksum h c i b = record {
  version = i.version;
  hlen_fits = i.hlen_fits;
  hlen_long = i.hlen_long;
  tos_fits = i.tos_fits;
  len_fits = i.len_fits;
  id_fits = i.id_fits;
  offset_fits = i.offset_fits;
  ttl_fits = i.ttl_fits;
  proto_fits = i.proto_fits;
  cksum_fits = b;
  src_fits = i.src_fits;
  dst_fits = i.dst_fits;
}

header_verifies :
    (h : Ipv4Header)
    → IsHeader h
    → value (add (init 0) (header_bytes (with_cksum (checksum h) h))) ≡ 0
header_verifies h i =
    let zeroed : List ℕ = header_bytes (with_cksum 0 h) in
    let c : ℕ = checksum h in
    let filled : List ℕ = header_bytes (with_cksum c h) in
    let c_lt : c < 65536 = value_lt (add (init 0) zeroed) in
    let t0 = total-header (with_cksum 0 h) (IsHeader-cksum h 0 i (omega arith)) in
    let t1 : total false filled ≡ total false zeroed + c = total-with_cksum h c c_lt in
    let s0 : (add (init 0) zeroed).sum ≡ 0 + total false zeroed =
      sum-add 0 false zeroed (omega (arith, t0)) in
    let s1 : (add (init 0) filled).sum ≡ 0 + total false filled =
      sum-add 0 false filled (omega (arith, t0, t1, c_lt)) in
    value-sum (add (init 0) filled)
      (record (add (init 0) zeroed) { sum = (add (init 0) zeroed).sum + c })
      (omega (arith, s0, s1, t1))
    ∙ (value_verifies (add (init 0) zeroed) (omega (arith, s0, t0))).1

take-header :
    (h : Ipv4Header) (payload : List ℕ)
    → IsHeader h
    → take (4 * h.hlen) (header_bytes h ++ payload) ≡ header_bytes h
take-header h payload i =
    let l = length-header h i in
    take-append_le (4 * h.hlen) (header_bytes h) payload (omega (arith, l))
    ∙ take_all (4 * h.hlen) (header_bytes h) (omega (arith, l))

filled_verdict :
    (h : Ipv4Header) (payload : List ℕ)
    → IsHeader h
    → verdict (with_cksum (checksum h) h) (header_bytes (with_cksum (checksum h) h) ++ payload)
      ≡ no_error
filled_verdict h payload i =
    let hc = with_cksum (checksum h) h in
    let ic =
      IsHeader-cksum h (checksum h) i (value_lt (add (init 0) (header_bytes (with_cksum 0 h)))) in
    rw (take-header hc payload ic, header_verifies h i) refl

serialize-filled :
    (d : Ipv4Datagram)
    → IsDatagram d
    → serialize d ≡ some (header_bytes (with_cksum (checksum d.header) d.header) ++ d.payload)
unfolding serialize
serialize-filled d i =
    let h = d.header in
    let c_lt = value_lt (add (init 0) (header_bytes (with_cksum 0 h))) in
    let e0 = serialize-wire (with_cksum 0 h) (IsHeader-cksum h 0 i.header (omega arith)) in
    let ec =
      serialize-wire (with_cksum (checksum h) h) (IsHeader-cksum h (checksum h) i.header c_lt) in
    rw (serialize, payload_length-IsDatagram d i, e0, ec) refl

-- A datagram whose header fits and whose length is right is serialized. The bytes parse without an error
-- into the datagram with the checksum filled in, and the header's own `parse` finds no error either.
pub parse-serialize_datagram :
    (old d : Ipv4Datagram)
    → IsDatagram d
    → (bytes : List ℕ) × (serialize d ≡ some bytes)
      × (c : ℕ) × (parse old bytes ≡ (no_error, record d { header = with_cksum c d.header }))
      × (Ipv4Header.parse old.header (start bytes)
          ≡ (no_error, with_cksum c d.header, start d.payload))
parse-serialize_datagram old d i =
    let h = d.header in
    let c = checksum h in
    let hc = with_cksum c h in
    let ic =
      IsHeader-cksum h c i.header (value_lt (add (init 0) (header_bytes (with_cksum 0 h)))) in
    (
      header_bytes hc ++ d.payload,
      serialize-filled d i,
      c,
      parse-any_cksum old (record d { header = hc }) (record { header = ic; whole = i.whole }),
      parse-wire old.header hc d.payload ic i.whole
          ∙ ap (λ r. (r, hc, start d.payload)) (filled_verdict h d.payload i.header),
    )
