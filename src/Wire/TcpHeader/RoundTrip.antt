-- ===== src/Wire/TcpHeader/RoundTrip.antt =====
-- A TCP header survives serialization and parsing.
use cs144_intro2network.Prelude.{
  ℕ, List, refl, false, ◌/◌, ◌≡◌, ◌<◌, ◌∙◌, ◌^◌, ap, ◌≤◌, ltb, arith, ◌++◌, ◌*◌, replicate, ◌-◌,
  some, if◌then◌else◌,
}
use cs144_intro2network.Wire.Parser.{
  NetParser, ParseResult, no_error, start, u8, u16, u32, put_u8, put_u16, put_u32, remove_prefix,
  header_too_short,
}
use cs144_intro2network.Wire.Parser.Ints.{
  u8-put_u8, u16-put_u16, u32-put_u32, remove_prefix_padding,
}
use cs144_intro2network.Wire.TcpHeader.Flags.{flags-Flagged}
use cs144_intro2network.Wire.TcpHeader.{TcpHeader, has_bit, flags, fields, parse, serialize}

-- Every field fits its width, and the data offset counts the fixed header at least.
pub record IsHeader (h : TcpHeader) : Type 0 where
  pub sport_fits : h.sport < 2 ^ 16
  pub dport_fits : h.dport < 2 ^ 16
  pub seqno_fits : h.seqno < 2 ^ 32
  pub ackno_fits : h.ackno < 2 ^ 32
  pub doff_fits : h.doff < 16
  pub doff_long : 5 ≤ h.doff
  pub win_fits : h.win < 2 ^ 16
  pub cksum_fits : h.cksum < 2 ^ 16
  pub uptr_fits : h.uptr < 2 ^ 16

abbrev made : ℕ → ℕ → ℕ → ℕ → ℕ → ℕ → ℕ → ℕ → ℕ → TcpHeader
made sport dport seqno ackno doff fl_b win cksum uptr = record {
  sport = sport;
  dport = dport;
  seqno = seqno;
  ackno = ackno;
  doff = doff / 16;
  urg = has_bit fl_b 32;
  ack = has_bit fl_b 16;
  psh = has_bit fl_b 8;
  rst = has_bit fl_b 4;
  syn = has_bit fl_b 2;
  fin = has_bit fl_b 1;
  win = win;
  cksum = cksum;
  uptr = uptr;
}

abbrev Read : Type 0
Read = ℕ × NetParser

-- `fields`, for what each integer that it reads is.
fields-reads :
    (p0 p1 p2 p3 p4 p5 p6 p7 p8 p9 : NetParser) (a b c d e f g h i : ℕ)
    → u16 p0 ≡ (a, p1)
    → u16 p1 ≡ (b, p2)
    → u32 p2 ≡ (c, p3)
    → u32 p3 ≡ (d, p4)
    → u8 p4 ≡ (e, p5)
    → u8 p5 ≡ (f, p6)
    → u16 p6 ≡ (g, p7)
    → u16 p7 ≡ (h, p8)
    → u16 p8 ≡ (i, p9)
    → fields p0 ≡ (made a b c d e f g h i, p9)
unfolding fields
fields-reads p0 p1 p2 p3 p4 p5 p6 p7 p8 p9 a b c d e f g h i q1 q2 q3 q4 q5 q6 q7 q8 q9 =
    let Out : Type 0 = TcpHeader × NetParser in
    let r9 : ℕ → ℕ → ℕ → ℕ → ℕ → ℕ → ℕ → ℕ → Read → Out =
      λ a b c d e f g h t. (made a b c d e f g h t.0, t.1) in
    let r8 : ℕ → ℕ → ℕ → ℕ → ℕ → ℕ → ℕ → Read → Out =
      λ a b c d e f g t. r9 a b c d e f g t.0 (u16 t.1) in
    let r7 : ℕ → ℕ → ℕ → ℕ → ℕ → ℕ → Read → Out = λ a b c d e f t. r8 a b c d e f t.0 (u16 t.1) in
    let r6 : ℕ → ℕ → ℕ → ℕ → ℕ → Read → Out = λ a b c d e t. r7 a b c d e t.0 (u16 t.1) in
    let r5 : ℕ → ℕ → ℕ → ℕ → Read → Out = λ a b c d t. r6 a b c d t.0 (u8 t.1) in
    let r4 : ℕ → ℕ → ℕ → Read → Out = λ a b c t. r5 a b c t.0 (u8 t.1) in
    let r3 : ℕ → ℕ → Read → Out = λ a b t. r4 a b t.0 (u32 t.1) in
    let r2 : ℕ → Read → Out = λ a t. r3 a t.0 (u32 t.1) in
    let r1 : Read → Out = λ t. r2 t.0 (u16 t.1) in
    let whole : fields p0 ≡ r1 (u16 p0) = refl in
    whole
    ∙ ap r1 q1
    ∙ ap (r2 a) q2
    ∙ ap (r3 a b) q3
    ∙ ap (r4 a b c) q4
    ∙ ap (r5 a b c d) q5
    ∙ ap (r6 a b c d e) q6
    ∙ ap (r7 a b c d e f) q7
    ∙ ap (r8 a b c d e f g) q8
    ∙ ap (r9 a b c d e f g h) q9

abbrev pub padding : TcpHeader → List ℕ
padding h = replicate (4 * h.doff - 20) 0

abbrev pub wire : TcpHeader → List ℕ → List ℕ
wire h rest =
    put_u16 h.sport
    ++ (put_u16 h.dport
        ++ (put_u32 h.seqno
            ++ (put_u32 h.ackno
                ++ (put_u8 (h.doff * 16)
                    ++ (put_u8 (flags h)
                        ++ (put_u16 h.win ++ (put_u16 h.cksum ++ (put_u16 h.uptr ++ rest))))))))

fields-wire :
    (h : TcpHeader) (rest : List ℕ)
    → IsHeader h
    → fields (start (wire h rest)) ≡ (
      made h.sport h.dport h.seqno h.ackno (h.doff * 16) (flags h) h.win h.cksum h.uptr,
      start rest,
    )
fields-wire h r9 i =
    let r8 = put_u16 h.uptr ++ r9 in
    let r7 = put_u16 h.cksum ++ r8 in
    let r6 = put_u16 h.win ++ r7 in
    let r5 = put_u8 (flags h) ++ r6 in
    let r4 = put_u8 (h.doff * 16) ++ r5 in
    let r3 = put_u32 h.ackno ++ r4 in
    let r2 = put_u32 h.seqno ++ r3 in
    let r1 = put_u16 h.dport ++ r2 in
    fields-reads (start (wire h r9)) (start r1) (start r2) (start r3) (start r4) (start r5)
      (start r6) (start r7) (start r8) (start r9) h.sport h.dport h.seqno h.ackno (h.doff * 16)
      (flags h) h.win h.cksum h.uptr (u16-put_u16 h.sport r1 i.sport_fits)
      (u16-put_u16 h.dport r2 i.dport_fits) (u32-put_u32 h.seqno r3 i.seqno_fits)
      (u32-put_u32 h.ackno r4 i.ackno_fits)
      (u8-put_u8 (h.doff * 16) r5 (omega (arith, i.doff_fits)))
      (u8-put_u8 (flags h) r6 (flags-Flagged h).0) (u16-put_u16 h.win r7 i.win_fits)
      (u16-put_u16 h.cksum r8 i.cksum_fits) (u16-put_u16 h.uptr r9 i.uptr_fits)

made-same :
    (h : TcpHeader)
    → made h.sport h.dport h.seqno h.ackno (h.doff * 16) (flags h) h.win h.cksum h.uptr ≡ h
made-same h =
    let (_f, e32, e16, e8, e4, e2, e1) = flags-Flagged h in
    let e : h.doff * 16 / 16 ≡ h.doff = omega arith in rw (e, e32, e16, e8, e4, e2, e1) refl

-- `parse`, once the fields are read.
skip : TcpHeader × NetParser → ParseResult × TcpHeader × NetParser
unfolding remove_prefix
skip (h, q) =
    if ltb h.doff 5
    then (header_too_short, h, q)
    else (let q' = remove_prefix (h.doff * 4 - 20) q in (q'.get_error, h, q'))

parse-skip : (p : NetParser) → parse p ≡ skip (fields p)
unfolding parse skip
parse-skip p = refl

skip-padding :
    (h : TcpHeader) (rest : List ℕ)
    → IsHeader h
    → skip (h, start (padding h ++ rest)) ≡ (no_error, h, start rest)
unfolding skip
skip-padding h rest i =
    let long : ltb h.doff 5 ≡ false = ground (arith, i.doff_long) in
    let e : h.doff * 4 - 20 ≡ 4 * h.doff - 20 = omega arith in
    rw (long, e, remove_prefix_padding (4 * h.doff - 20) rest) refl

pub serialize-wire : (h : TcpHeader) → IsHeader h → serialize h ≡ some (wire h (padding h))
unfolding serialize
serialize-wire h i = let long : ltb h.doff 5 ≡ false = ground (arith, i.doff_long) in rw long refl

pub parse-wire :
    (h : TcpHeader) (rest : List ℕ)
    → IsHeader h
    → parse (start (wire h (padding h ++ rest))) ≡ (no_error, h, start rest)
parse-wire h rest i =
    let read : fields (start (wire h (padding h ++ rest))) ≡ (h, start (padding h ++ rest)) =
      fields-wire h (padding h ++ rest) i
      ∙ ap (λ t. (t, start (padding h ++ rest))) (made-same h) in
    parse-skip (start (wire h (padding h ++ rest))) ∙ ap skip read ∙ skip-padding h rest i

-- A header whose fields fit is serialized; what is parsed from the bytes is the header, without an
-- error and with the parser where the header ends, whatever bytes follow.
parse-serialize_header :
    (h : TcpHeader) (rest : List ℕ)
    → IsHeader h
    → (bytes : List ℕ) × (serialize h ≡ some bytes)
      × (parse (start (bytes ++ rest)) ≡ (no_error, h, start rest))
parse-serialize_header h rest i = (wire h (padding h), serialize-wire h i, parse-wire h rest i)
