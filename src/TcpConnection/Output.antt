-- ===== src/TcpConnection/Output.antt =====
-- What leaves a `TCPConnection`.
use cs144_intro2network.Prelude.{refl, ◌≡◌, ◌∙◌, sym, List, [], ◌∷◌, ◌++◌, append-nil, append_assoc}
use mathlib.Core.List.{map}
use cs144_intro2network.Prelude.{◌≡◌, [], ◌++◌}
use cs144_intro2network.TcpConnection.{
  TcpConnection, fill_ack, send_common_from, send_all_from, send_all_segs,
}
use cs144_intro2network.Prelude.{◌%◌, ◌^◌, true, Bool-cases, inl, inr, if◌then◌else◌, add64}
use cs144_intro2network.ByteStream.{remaining_capacity}
use cs144_intro2network.Wrapping.{wrap}
use cs144_intro2network.TcpReceiver.{TcpReceiver, ackno, window_size}
use cs144_intro2network.Wire.TcpSegment.{TcpSegment}

send_all_from_lem :
    (queue : List TcpSegment) (c : TcpConnection)
    → c.sender.segments_out ≡ queue
    → send_all_from queue c ≡ record c {
      sender = record c.sender { segments_out = [] };
      segments_out = c.segments_out ++ map (fill_ack c) queue;
    }
unfolding send_all_from send_common_from fill_ack
send_all_from_lem [] c e = λ i. record c {
  sender = record (c.sender) { segments_out = e i };
  segments_out = sym (append-nil c.segments_out) i;
}
send_all_from_lem (seg ∷ rest) c e =
    send_all_from_lem rest (send_common_from (seg ∷ rest) c) refl ∙ λ i. record c {
      sender = record (c.sender) { segments_out = [] };
      segments_out = append_assoc c.segments_out (fill_ack c seg ∷ []) (map (fill_ack c) rest) i;
    }

-- The segment that goes out for `seg`: the same, but that once the receiver has its initial number, the
-- ACK flag is set, the acknowledgement number is that of the byte after all that was written, and of the
-- FIN if the stream has ended, and the window is the room left in the stream, cut to 16 bits.
pub record Stamped (r : TcpReceiver) (seg sent : TcpSegment) : Type 0 where
  pub payload : sent.payload ≡ seg.payload
  pub header : sent.header ≡ (
      if r.isn_set
      then record seg.header {
        ack = true;
        ackno =
            wrap
              (add64 r.reassembler.output.written (if r.reassembler.output.input_end then 2 else 1))
              r.isn;
        win = remaining_capacity r.reassembler.output % 2 ^ 16;
      }
      else seg.header)

-- The lists have the same length, and each segment of the one is sent for that of the other.
pub data AllStamped (r : TcpReceiver) : List TcpSegment → List TcpSegment → Type 0 where
  none_left : AllStamped r [] []
  stamped :
      {seg sent : TcpSegment} {segs sents : List TcpSegment}
      → Stamped r seg sent
      → AllStamped r segs sents
      → AllStamped r (seg ∷ segs) (sent ∷ sents)

fill_ack-Stamped : (c : TcpConnection) (seg : TcpSegment) → Stamped c.receiver seg (fill_ack c seg)
unfolding fill_ack ackno window_size
fill_ack-Stamped c seg = elim (Bool-cases c.receiver.isn_set) [
  | inr unset ↦ record { payload = refl; header = rw unset refl }
  | inl set ↦ elim (Bool-cases c.receiver.reassembler.output.input_end) [
    | inl ended ↦ record { payload = refl; header = rw (set, ended) refl }
    | inr more ↦ record { payload = refl; header = rw (set, more) refl }
  ]
]

fill_ack-AllStamped :
    (c : TcpConnection) (queue : List TcpSegment)
    → AllStamped c.receiver queue (map (fill_ack c) queue)
fill_ack-AllStamped c [] = none_left
fill_ack-AllStamped c (seg ∷ queue) = stamped (fill_ack-Stamped c seg) (fill_ack-AllStamped c queue)

pub send_all_segs-map :
    (c : TcpConnection)
    → send_all_segs c ≡ record c {
      sender = record c.sender { segments_out = [] };
      segments_out = c.segments_out ++ map (fill_ack c) c.sender.segments_out;
    }
unfolding send_all_segs
send_all_segs-map c = send_all_from_lem c.sender.segments_out c refl

-- `send_all_segs` empties the sender's queue: for every segment of it one goes out, in order and behind
-- what was queued, and nothing else changes. Each goes out as it is until the receiver has its initial
-- number; from then on with the ACK flag, the number of the byte after all that was written to the
-- receiver's stream, one more if that has ended, and the room left in it, cut to 16 bits, as the window.
pub send_all_segs_lem :
    (c : TcpConnection)
    → (sents : List TcpSegment) × (send_all_segs c ≡ record c {
      sender = record c.sender { segments_out = [] };
      segments_out = c.segments_out ++ sents;
    })
      × AllStamped c.receiver c.sender.segments_out sents
send_all_segs_lem c = (
  map (fill_ack c) c.sender.segments_out,
  send_all_segs-map c,
  fill_ack-AllStamped c c.sender.segments_out,
)
