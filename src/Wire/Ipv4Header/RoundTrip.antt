-- ===== src/Wire/Ipv4Header/RoundTrip.antt =====
-- An IPv4 header's fields, and a datagram, survive serialization and parsing.
use cs144_intro2network.Prelude.{
  ==_iff, ℕ, ◌*◌, ◌%◌, ◌/◌, List, ◌≡◌, ◌++◌, ◌<◌, ◌∙◌, some, replicate, ◌≤◌, ltb, ◌-◌, ap, false,
  ◌^◌, arith, refl, length, ◌+◌, if◌then◌else◌, length-append, Bool, sym, take, ◌==◌,
  length-replicate, true,
}
use cs144_intro2network.Wire.Parser.{
  NetParser, ParseResult, no_error, bad_checksum, start, u8, u16, u32, put_u8, put_u16, put_u32,
}
use cs144_intro2network.Wire.Parser.Ints.{
  u8-put_u8, u16-put_u16, u32-put_u32, remove_prefix_padding,
}
use cs144_intro2network.Wire.Checksum
use cs144_intro2network.Wire.TcpHeader.{has_bit, bit}
use cs144_intro2network.Wire.Ipv4Header.Offsets.{first_byte, fo_val-Read}
use cs144_intro2network.Wire.Ipv4Header.{Ipv4Header, fields, checks, parse, serialize}
use Prim.Native.Nat.{bit_or}

-- Version 4, every field fits its width, and the length counts the fixed header at least.
pub record IsHeader (h : Ipv4Header) : Type 0 where
  pub version : h.ver ≡ 4
  pub hlen_fits : h.hlen < 16
  pub hlen_long : 5 ≤ h.hlen
  pub tos_fits : h.tos < 2 ^ 8
  pub len_fits : h.len < 2 ^ 16
  pub id_fits : h.id < 2 ^ 16
  pub offset_fits : h.offset < 2 ^ 13
  pub ttl_fits : h.ttl < 2 ^ 8
  pub proto_fits : h.proto < 2 ^ 8
  pub cksum_fits : h.cksum < 2 ^ 16
  pub src_fits : h.src < 2 ^ 32
  pub dst_fits : h.dst < 2 ^ 32

abbrev made : ℕ → ℕ → ℕ → ℕ → ℕ → ℕ → ℕ → ℕ → ℕ → ℕ → Ipv4Header
made first_byte tos len id fo_val ttl proto cksum src dst = record {
  ver = first_byte / 16;
  hlen = first_byte % 16;
  tos = tos;
  len = len;
  id = id;
  df = has_bit fo_val 0x4000;
  mf = has_bit fo_val 0x2000;
  offset = fo_val % 0x2000;
  ttl = ttl;
  proto = proto;
  cksum = cksum;
  src = src;
  dst = dst;
}

-- `fields`, for what each integer that it reads is.
fields-reads :
    (p0 p1 p2 p3 p4 p5 p6 p7 p8 p9 p10 : NetParser) (a b c d e f g h i j : ℕ)
    → u8 p0 ≡ (a, p1)
    → u8 p1 ≡ (b, p2)
    → u16 p2 ≡ (c, p3)
    → u16 p3 ≡ (d, p4)
    → u16 p4 ≡ (e, p5)
    → u8 p5 ≡ (f, p6)
    → u8 p6 ≡ (g, p7)
    → u16 p7 ≡ (h, p8)
    → u32 p8 ≡ (i, p9)
    → u32 p9 ≡ (j, p10)
    → fields p0 ≡ (made a b c d e f g h i j, p10)
unfolding fields
fields-reads p0 p1 p2 p3 p4 p5 p6 p7 p8 p9 p10 a b c d e f g h i j q1 q2 q3 q4 q5 q6 q7 q8 q9 q10 =
    let Read : Type 0 = ℕ × NetParser in
    let Out : Type 0 = Ipv4Header × NetParser in
    let r10 : ℕ → ℕ → ℕ → ℕ → ℕ → ℕ → ℕ → ℕ → ℕ → Read → Out =
      λ a b c d e f g h i t. (made a b c d e f g h i t.0, t.1) in
    let r9 : ℕ → ℕ → ℕ → ℕ → ℕ → ℕ → ℕ → ℕ → Read → Out =
      λ a b c d e f g h t. r10 a b c d e f g h t.0 (u32 t.1) in
    let r8 : ℕ → ℕ → ℕ → ℕ → ℕ → ℕ → ℕ → Read → Out =
      λ a b c d e f g t. r9 a b c d e f g t.0 (u32 t.1) in
    let r7 : ℕ → ℕ → ℕ → ℕ → ℕ → ℕ → Read → Out = λ a b c d e f t. r8 a b c d e f t.0 (u16 t.1) in
    let r6 : ℕ → ℕ → ℕ → ℕ → ℕ → Read → Out = λ a b c d e t. r7 a b c d e t.0 (u8 t.1) in
    let r5 : ℕ → ℕ → ℕ → ℕ → Read → Out = λ a b c d t. r6 a b c d t.0 (u8 t.1) in
    let r4 : ℕ → ℕ → ℕ → Read → Out = λ a b c t. r5 a b c t.0 (u16 t.1) in
    let r3 : ℕ → ℕ → Read → Out = λ a b t. r4 a b t.0 (u16 t.1) in
    let r2 : ℕ → Read → Out = λ a t. r3 a t.0 (u16 t.1) in
    let r1 : Read → Out = λ t. r2 t.0 (u8 t.1) in
    let whole : fields p0 ≡ r1 (u8 p0) = refl in
    whole
    ∙ ap r1 q1
    ∙ ap (r2 a) q2
    ∙ ap (r3 a b) q3
    ∙ ap (r4 a b c) q4
    ∙ ap (r5 a b c d) q5
    ∙ ap (r6 a b c d e) q6
    ∙ ap (r7 a b c d e f) q7
    ∙ ap (r8 a b c d e f g) q8
    ∙ ap (r9 a b c d e f g h) q9
    ∙ ap (r10 a b c d e f g h i) q10

abbrev pub fo_val : Ipv4Header → ℕ
fo_val h = bit_or (bit_or (bit h.df 0x4000) (bit h.mf 0x2000)) (h.offset % 0x2000)

abbrev pub padding : Ipv4Header → List ℕ
padding h = replicate (4 * h.hlen - 20) 0

abbrev pub wire : Ipv4Header → List ℕ → List ℕ
wire h rest =
    put_u8 (bit_or (4 * 16) (h.hlen % 16))
    ++ (put_u8 h.tos
        ++ (put_u16 h.len
            ++ (put_u16 h.id
                ++ (put_u16 (fo_val h)
                    ++ (put_u8 h.ttl
                        ++ (put_u8 h.proto
                            ++ (put_u16 h.cksum ++ (put_u32 h.src ++ (put_u32 h.dst ++ rest)))))))))

fields-wire :
    (h : Ipv4Header) (rest : List ℕ)
    → IsHeader h
    → fields (start (wire h rest)) ≡ (
      made
          (bit_or (4 * 16) (h.hlen % 16))
          h.tos
          h.len
          h.id
          (fo_val h)
          h.ttl
          h.proto
          h.cksum
          h.src
          h.dst,
      start rest,
    )
fields-wire h rest i =
    let r9 : List ℕ = put_u32 h.dst ++ rest in
    let r8 : List ℕ = put_u32 h.src ++ r9 in
    let r7 : List ℕ = put_u16 h.cksum ++ r8 in
    let r6 : List ℕ = put_u8 h.proto ++ r7 in
    let r5 : List ℕ = put_u8 h.ttl ++ r6 in
    let r4 : List ℕ = put_u16 (fo_val h) ++ r5 in
    let r3 : List ℕ = put_u16 h.id ++ r4 in
    let r2 : List ℕ = put_u16 h.len ++ r3 in
    let r1 : List ℕ = put_u8 h.tos ++ r2 in
    fields-reads (start (wire h rest)) (start r1) (start r2) (start r3) (start r4) (start r5)
      (start r6) (start r7) (start r8) (start r9) (start rest) (bit_or (4 * 16) (h.hlen % 16)) h.tos
      h.len h.id (fo_val h) h.ttl h.proto h.cksum h.src h.dst
      (u8-put_u8 (bit_or (4 * 16) (h.hlen % 16)) r1 (first_byte h.hlen i.hlen_fits).0)
      (u8-put_u8 h.tos r2 i.tos_fits) (u16-put_u16 h.len r3 i.len_fits)
      (u16-put_u16 h.id r4 i.id_fits)
      (u16-put_u16 (fo_val h) r5 (fo_val-Read h.df h.mf h.offset i.offset_fits).0)
      (u8-put_u8 h.ttl r6 i.ttl_fits) (u8-put_u8 h.proto r7 i.proto_fits)
      (u16-put_u16 h.cksum r8 i.cksum_fits) (u32-put_u32 h.src r9 i.src_fits)
      (u32-put_u32 h.dst rest i.dst_fits)

made-same :
    (h : Ipv4Header)
    → IsHeader h
    → made
        (bit_or (4 * 16) (h.hlen % 16))
        h.tos
        h.len
        h.id
        (fo_val h)
        h.ttl
        h.proto
        h.cksum
        h.src
        h.dst
      ≡ h
made-same h i =
    let (_f, ver, hlen) = first_byte h.hlen i.hlen_fits in
    let (_o, df, mf, offset) = fo_val-Read h.df h.mf h.offset i.offset_fits in
    rw (ver, hlen, df, mf, offset, i.version) refl

pub serialize-wire : (h : Ipv4Header) → IsHeader h → serialize h ≡ some (wire h (padding h))
unfolding serialize
serialize-wire h i =
    let long : ltb (4 * h.hlen) 20 ≡ false = ground (arith, i.hlen_long) in
    rw (i.version, long) refl

length-wire :
    (h : Ipv4Header) (payload : List ℕ)
    → IsHeader h
    → length (wire h (padding h ++ payload)) ≡ 4 * h.hlen + length payload
length-wire h payload i =
    let l : length (padding h ++ payload) ≡ (4 * h.hlen - 20) + length payload =
      length-append (padding h) payload
      ∙ ap (λ k. k + length payload) (length-replicate (4 * h.hlen - 20) 0) in
    omega (arith, l, i.hlen_long)

-- What the last check makes of the header's bytes.
abbrev pub verdict : Ipv4Header → List ℕ → ParseResult
verdict h original =
    if Checksum.value (Checksum.add (Checksum.init 0) (take (4 * h.hlen) original)) == 0
    then no_error
    else bad_checksum

checks-wire :
    (h : Ipv4Header) (payload : List ℕ)
    → IsHeader h
    → h.len ≡ 4 * h.hlen + length payload
    → (original : List ℕ) → length original ≡ h.len
    → checks original h (start (padding h ++ payload)) ≡ (verdict h original, start payload)
unfolding checks
checks-wire h payload i whole original same =
    let enough : ltb (length original) (4 * h.hlen) ≡ false = ground (arith, same, whole) in
    let long : ltb h.hlen 5 ≡ false = ground (arith, i.hlen_long) in
    let exact : (length original == h.len) ≡ true = (==_iff (length original) h.len).1 same in
    let v4 : (h.ver == 4) ≡ true = (==_iff h.ver 4).1 i.version in
    let e : h.hlen * 4 - 20 ≡ 4 * h.hlen - 20 = omega arith in
    rw (enough, v4, long, exact, e, remove_prefix_padding (4 * h.hlen - 20) payload)
      (if_pair (Checksum.value (Checksum.add (Checksum.init 0) (take (4 * h.hlen) original)) == 0)
        (start payload))
  where
    if_pair :
        (b : Bool) (q : NetParser)
        → ◌≡◌ {A = ParseResult × NetParser}
            (if b then (no_error, q) else (bad_checksum, q))
            ((if b then no_error else bad_checksum), q)
    if_pair true q = refl
    if_pair false q = refl

-- `parse`, once the fields are read.
check : List ℕ → Ipv4Header × NetParser → ParseResult × Ipv4Header × NetParser
unfolding checks
check original (h, q) = let (r, q') = checks original h q in (r, h, q')

parse-check :
    (old : Ipv4Header) (p : NetParser)
    → ltb (length p.buffer) 20 ≡ false
    → parse old p ≡ check p.buffer (fields p)
unfolding parse check
parse-check old p enough = rw (parse, enough) refl

check-wire :
    (h : Ipv4Header) (payload original : List ℕ)
    → checks original h (start (padding h ++ payload)) ≡ (verdict h original, start payload)
    → check original (h, start (padding h ++ payload)) ≡ (verdict h original, h, start payload)
unfolding check
check-wire h payload original e = rw (check, e) refl

-- The bytes of a header that fits, before a payload of the length that it gives, parse into that
-- header, whatever its checksum.
pub parse-wire :
    (old h : Ipv4Header) (payload : List ℕ)
    → IsHeader h
    → h.len ≡ 4 * h.hlen + length payload
    → parse old (start (wire h (padding h ++ payload)))
      ≡ (verdict h (wire h (padding h ++ payload)), h, start payload)
parse-wire old h payload i whole =
    let original : List ℕ = wire h (padding h ++ payload) in
    let l = length-wire h payload i in
    let enough : ltb (length original) 20 ≡ false = ground (arith, l, i.hlen_long) in
    let read : fields (start original) ≡ (h, start (padding h ++ payload)) =
      fields-wire h (padding h ++ payload) i
      ∙ ap (λ t. (t, start (padding h ++ payload))) (made-same h i) in
    parse-check old (start original) enough
    ∙ ap (check original) read
    ∙ check-wire h payload original (checks-wire h payload i whole original (l ∙ sym whole))
