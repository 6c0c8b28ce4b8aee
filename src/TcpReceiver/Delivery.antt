-- ===== src/TcpReceiver/Delivery.antt =====
-- What `TCPReceiver` makes of segments of one byte stream.
use cs144_intro2network.Prelude.{
  ℕ, ◌+◌, ◌≤◌, ◌<◌, ◌≡◌, ◌^◌, true, Option, none, some, List, arith, length, u32_mod, u64_mod, ◌*◌,
  Bool-cases, inl, inr, subst, sym,
}
use cs144_intro2network.Wrapping.{wrap, unwrap, dist}
use cs144_intro2network.Wrapping.Closest.{unwrap-wrap}
use cs144_intro2network.Reassembler.{Outcome, done, threw, out_of_fuel}
use cs144_intro2network.Reassembler.Slice.{AgreesAt}
use cs144_intro2network.Reassembler.Deliver.{IsConsistent}
use cs144_intro2network.Reassembler.Prefix.{Returns, push_substring-Returns}
use cs144_intro2network.Wire.TcpSegment.{TcpSegment}
use cs144_intro2network.TcpReceiver.{
  TcpReceiver, note_syn, data_seqno, data_index, pushed, segment_received,
}

-- The segment carries the bytes of `s` from `index` on, in a stream whose SYN had number `isn`: its
-- first payload byte has the relative number of absolute number `index + 1`.
pub record Carries (s : List ℕ) (isn : ℕ) (index : ℕ) (seg : TcpSegment) : Type 0 where
  pub numbered : data_seqno seg ≡ wrap (index + 1) isn
  pub agrees : AgreesAt s index seg.payload
  pub syn_first : seg.header.syn ≡ true → seg.header.seqno ≡ isn

-- What the receiver has of the stream: its ISN, and a consistent reassembler.
pub record Receives (s out : List ℕ) (isn : ℕ) (r : TcpReceiver) : Type 0 where
  pub numbered : r.isn_set ≡ true → r.isn ≡ isn
  pub consistent : IsConsistent s out r.reassembler

abbrev pub ReceivesAfter : List ℕ → List ℕ → ℕ → Option TcpReceiver → Type 0
ReceivesAfter s out isn none = ⊥
ReceivesAfter s out isn (some r) = Receives s out isn r

module _ (s out : List ℕ) (isn : ℕ) where
  pushed-Receives :
      (r : TcpReceiver) (o : Outcome)
      → r.isn ≡ isn
      → Returns s out o
      → ReceivesAfter s out isn (pushed r o)
  pushed-Receives r (done a) e c = record { numbered = λ _. e; consistent = c }
  pushed-Receives r threw e c = c
  pushed-Receives r out_of_fuel e c = c

data_index-Carries :
    (s : List ℕ) (isn index : ℕ) (seg : TcpSegment) (r : TcpReceiver)
    → isn < u32_mod
    → Carries s isn index seg
    → r.isn ≡ isn
    → length s + 4 * u32_mod ≤ u64_mod
    → r.reassembler.output.written ≤ length s
    → dist (index + 1) r.reassembler.output.written < 2 ^ 31
    → data_index seg r ≡ index
data_index-Carries s isn index seg r hi c e small w near =
    let u : unwrap (data_seqno seg) r.isn r.reassembler.output.written ≡ index + 1 =
      rw (c.numbered, e)
        (unwrap-wrap (index + 1) isn r.reassembler.output.written hi (omega arith) near) in
    omega (arith, u, c.agrees.fits, small)

-- A receiver that has had the bytes `out` of `s` read, whose stream began at the number `isn`, below
-- 2^32, and is at least 2^34 bytes shorter than 2^64, is given a segment of that stream whose first byte is within 2^31 of the bytes written so far. The
-- call returns, and the receiver stays consistent with `s`, whatever the order of arrival.
pub segment_received-Receives :
    (s out : List ℕ) (isn index : ℕ) (seg : TcpSegment) (r : TcpReceiver)
    → isn < u32_mod
    → length s + 4 * u32_mod ≤ u64_mod
    → Carries s isn index seg
    → dist (index + 1) r.reassembler.output.written < 2 ^ 31
    → Receives s out isn r
    → ReceivesAfter s out isn (segment_received seg r)
unfolding segment_received
segment_received-Receives s out isn index seg r hi small c near h =
    let same : (note_syn seg r).reassembler ≡ r.reassembler = ground arith in
    let isn_eq : (note_syn seg r).isn_set ≡ true → (note_syn seg r).isn ≡ isn = noted in
    elim (Bool-cases (note_syn seg r).isn_set) [
      | inr unset ↦ rw unset (record {
        numbered = isn_eq;
        consistent = subst (IsConsistent s out) (sym same) h.consistent;
      })
      | inl set ↦
          let place =
            data_index-Carries s isn index seg (note_syn seg r) hi c (isn_eq set) small
              (rw same (omega (arith, h.consistent.output.counted, h.consistent.output.held.fits)))
              (rw same near) in
          rw set (
            pushed-Receives s out isn (note_syn seg r) _ (isn_eq set) (
              rw (place, same)
                (push_substring-Returns s out seg.payload index seg.header.fin r.reassembler
                  (omega arith) c.agrees h.consistent)))
    ]
  where
    noted : (note_syn seg r).isn_set ≡ true → (note_syn seg r).isn ≡ isn
    noted = elim (Bool-cases seg.header.syn) [
      | inl syn ↦ rw syn (λ _. c.syn_first syn)
      | inr no_syn ↦ rw no_syn h.numbered
    ]
