-- ===== src/TcpReceiver/InOrder.antt =====
-- A segment that arrives at `TCPReceiver` in order.
use cs144_intro2network.Prelude.{
  ℕ, ◌+◌, ◌*◌, ◌^◌, ◌≤◌, ◌<◌, ◌≡◌, ◌∙◌, refl, sym, ap, subst, Option, true, false, Bool-cases, inl,
  inr, some, ◌++◌, length, arith, u32_mod, u64_mod, add64, if◌then◌else◌,
}
use cs144_intro2network.Wrapping.{wrap, dist}
use cs144_intro2network.Wrapping.Closest.{unwrap-wrap}
use cs144_intro2network.Reassembler.{Reassembler, push_substring}
use cs144_intro2network.Reassembler.InOrder.{CaughtUp, extended, push_substring-in_order}
use cs144_intro2network.Wire.TcpSegment.{TcpSegment}
use cs144_intro2network.TcpReceiver.{
  TcpReceiver, note_syn, data_seqno, data_index, pushed, segment_received, ackno,
}

data_index-in_order :
    (seg : TcpSegment) (r : TcpReceiver)
    → r.isn < u32_mod
    → r.reassembler.output.written + 4 * u32_mod ≤ u64_mod
    → data_seqno seg ≡ wrap (r.reassembler.output.written + 1) r.isn
    → data_index seg r ≡ r.reassembler.output.written
data_index-in_order seg r hi small e =
    let near : dist (r.reassembler.output.written + 1) r.reassembler.output.written < 2 ^ 31 =
      ground arith in
    let u =
      unwrap-wrap (r.reassembler.output.written + 1) r.isn r.reassembler.output.written hi small
        near in
    rw e (omega (arith, u, small))

-- The receiver once the payload is appended to its stream.
abbrev took : TcpSegment → TcpReceiver → TcpReceiver
took seg r = record r {
  reassembler = record (r.reassembler) {
    output = extended seg.payload seg.header.fin r.reassembler.output;
  };
}

segment_received_set :
    (seg : TcpSegment) (r : TcpReceiver)
    → (note_syn seg r).isn_set ≡ true
    → segment_received seg r
      ≡ pushed (note_syn seg r) (
          push_substring seg.payload
            (data_index seg (note_syn seg r))
            seg.header.fin
            (note_syn seg r).reassembler)
unfolding segment_received
segment_received_set seg r set = rw set refl

pushed-took :
    (seg : TcpSegment) (r : TcpReceiver)
    → data_index seg r ≡ r.reassembler.output.written
    → CaughtUp r.reassembler
    → 0 < length seg.payload
    → length seg.payload + length r.reassembler.output.buffer ≤ r.reassembler.output.capacity
    → pushed r (push_substring seg.payload (data_index seg r) seg.header.fin r.reassembler)
      ≡ some (took seg r)
pushed-took seg r place c some_bytes fits =
    ap (λ x. pushed r (push_substring seg.payload x seg.header.fin r.reassembler)) place
    ∙ ap (pushed r)
        (push_substring-in_order seg.payload seg.header.fin r.reassembler c some_bytes fits)

-- The payload is taken by a receiver with the reassembler `a`.
abbrev TakenAfter : ℕ → TcpSegment → Reassembler → Option TcpReceiver → Type 0
TakenAfter isn seg a o =
    (r' : TcpReceiver) × (o ≡ some r')
    × (r'.reassembler.output.buffer ≡ a.output.buffer ++ seg.payload)
    × (r'.reassembler.output.input_end ≡ seg.header.fin)
    × CaughtUp r'.reassembler
    × (ackno r'
        ≡ some
            (wrap (a.output.written + length seg.payload + (if seg.header.fin then 2 else 1)) isn))

-- What the receiver then shows.
took_shows :
    (seg : TcpSegment) (r : TcpReceiver)
    → r.isn_set ≡ true
    → r.reassembler.output.written + 4 * u32_mod ≤ u64_mod
    → CaughtUp r.reassembler
    → r.reassembler.output.input_end ≡ false
    → length seg.payload + length r.reassembler.output.buffer ≤ r.reassembler.output.capacity
    → r.reassembler.output.capacity < u32_mod
    → ((took seg r).reassembler.output.buffer ≡ r.reassembler.output.buffer ++ seg.payload)
      × ((took seg r).reassembler.output.input_end ≡ seg.header.fin)
      × CaughtUp (took seg r).reassembler
      × (ackno (took seg r)
          ≡ some (
              wrap
                (r.reassembler.output.written
                  + length seg.payload
                  + (if seg.header.fin then 2 else 1))
                r.isn))
unfolding ackno
took_shows seg r set small c is_open fits bound =
    let n : (k : ℕ)
        → k ≤ 2
        → add64 (r.reassembler.output.written + length seg.payload) k
          ≡ r.reassembler.output.written + length seg.payload + k =
      λ k le. omega (arith, le, fits, bound, small) in
    elim (Bool-cases seg.header.fin) [
      | inl last ↦
          rw (last, set)
            (
              refl,
              refl,
              record {
                nothing_waits = c.nothing_waits;
                no_bytes_wait = c.no_bytes_wait;
                one_capacity = c.one_capacity;
                representable = omega (arith, fits, bound, small);
              },
              ap (λ x. some (wrap x r.isn)) (n 2 (omega arith)),
            )
      | inr more ↦
          rw (more, set, is_open)
            (
              refl,
              refl,
              record {
                nothing_waits = c.nothing_waits;
                no_bytes_wait = c.no_bytes_wait;
                one_capacity = c.one_capacity;
                representable = omega (arith, fits, bound, small);
              },
              ap (λ x. some (wrap x r.isn)) (n 1 (omega arith)),
            )
    ]

-- A receiver in which nothing waits is given a segment with a payload, whose first byte is the next
-- of the stream: it has the number of what is written so far, and the SYN before it, in a stream
-- that began at `isn`, which is what the receiver knows, from this segment's SYN or from before. If the payload fits what the
-- stream has room for, the input has not ended and the numbers are at least 2^34 below 2^64, then the call
-- returns, the payload is appended to the stream, the input has ended exactly if the segment has the FIN,
-- nothing waits, and the receiver acknowledges the number past the payload, and past the FIN if there is one.
pub segment_received-in_order :
    (isn : ℕ) (seg : TcpSegment) (r : TcpReceiver)
    → isn < u32_mod
    → r.reassembler.output.written + 4 * u32_mod ≤ u64_mod
    → (note_syn seg r).isn_set ≡ true
    → (note_syn seg r).isn ≡ isn
    → data_seqno seg ≡ wrap (r.reassembler.output.written + 1) isn
    → CaughtUp r.reassembler
    → r.reassembler.output.input_end ≡ false
    → 0 < length seg.payload
    → length seg.payload + length r.reassembler.output.buffer ≤ r.reassembler.output.capacity
    → r.reassembler.output.capacity < u32_mod
    → (r' : TcpReceiver) × (segment_received seg r ≡ some r')
      × (r'.reassembler.output.buffer ≡ r.reassembler.output.buffer ++ seg.payload)
      × (r'.reassembler.output.input_end ≡ seg.header.fin)
      × CaughtUp r'.reassembler
      × (ackno r'
          ≡ some (
              wrap
                (r.reassembler.output.written
                  + length seg.payload
                  + (if seg.header.fin then 2 else 1))
                isn))
segment_received-in_order isn seg r hi small set known number c is_open some_bytes fits bound =
    let q = note_syn seg r in
    let same : q.reassembler ≡ r.reassembler = ground arith in
    let same_out : q.reassembler.output ≡ r.reassembler.output = ap (λ a. a.output) same in
    let caught = subst CaughtUp (sym same) c in
    let place =
      data_index-in_order seg q (rw known hi) (rw same_out small) (rw (known, same_out) number) in
    let (buffer, ended, caught_up, acks) =
      took_shows seg q set (rw same_out small) caught (rw same_out is_open) (rw same_out fits)
        (rw same_out bound) in
    subst (λ a. TakenAfter isn seg a (segment_received seg r)) same
      (
        took seg q,
        segment_received_set seg r set
            ∙ pushed-took seg q place caught some_bytes (rw same_out fits),
        buffer,
        ended,
        caught_up,
        subst
            (λ n.
              ackno (took seg q)
              ≡ some (
                  wrap
                    (q.reassembler.output.written
                      + length seg.payload
                      + (if seg.header.fin then 2 else 1))
                    n))
            known acks,
      )
