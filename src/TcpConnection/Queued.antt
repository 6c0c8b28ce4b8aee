-- ===== src/TcpConnection/Queued.antt =====
-- The bytes that the owner writes on their way out of a `TCPConnection`.
use cs144_intro2network.Prelude.{
  ℕ, min, Bool-cases, inl, inr, ◌≡◌, ◌≤◌, ◌∙◌, sym, ap, refl, List, [], ◌∷◌, ◌++◌, arith, length,
  append_assoc, take_all,
}
use mathlib.Core.List.{map}
use cs144_intro2network.ByteStream
use cs144_intro2network.ByteStream.{ByteStream, remaining_capacity, end_input}
use cs144_intro2network.Wire.TcpSegment.{TcpSegment}
use cs144_intro2network.TcpSender.{TcpSender, fill_window}
use cs144_intro2network.TcpSender.Queued.{payloads, payloads-append, on_hand, fill_window-on_hand}
use cs144_intro2network.TcpConnection.{
  TcpConnection, fill_ack, send_all_segs, with_sender, write, end_input_stream,
  connection_establish,
}
use cs144_intro2network.TcpConnection.Output.{send_all_segs-map}

-- The bytes on their way out: those in the segments that the connection has queued, in those of its
-- sender's queue, and in the sender's stream.
abbrev pub outgoing : TcpConnection → List ℕ
outgoing c = payloads c.segments_out ++ on_hand c.sender

payloads-fill_ack :
    (c : TcpConnection) (segs : List TcpSegment) → payloads (map (fill_ack c) segs) ≡ payloads segs
unfolding payloads
payloads-fill_ack c [] = refl
payloads-fill_ack c (seg ∷ segs) =
    let same : (fill_ack c seg).payload ≡ seg.payload = unfold fill_ack in ground arith in
    rw same (ap (◌++◌ (seg.payload)) (payloads-fill_ack c segs))

send_all_segs-outgoing : (c : TcpConnection) → outgoing (send_all_segs c) ≡ outgoing c
unfolding payloads
send_all_segs-outgoing c =
    ap outgoing (send_all_segs-map c)
    ∙ ap (λ x. x ++ c.sender.stream.buffer)
        (payloads-append c.segments_out (map (fill_ack c) c.sender.segments_out)
          ∙ ap (◌++◌ (payloads c.segments_out)) (payloads-fill_ack c c.sender.segments_out))
    ∙ append_assoc (payloads c.segments_out) (payloads c.sender.segments_out) c.sender.stream.buffer

filled-outgoing :
    (t : TcpSender) (c : TcpConnection)
    → outgoing (send_all_segs (with_sender (fill_window t) c))
      ≡ payloads c.segments_out ++ on_hand t
filled-outgoing t c =
    send_all_segs-outgoing (with_sender (fill_window t) c)
    ∙ ap (◌++◌ (payloads c.segments_out)) (fill_window-on_hand t)

write-appends :
    (bytes : List ℕ) (o : ByteStream)
    → length bytes ≤ remaining_capacity o
    → (ByteStream.write o bytes).0.buffer ≡ o.buffer ++ bytes
unfolding ByteStream.write
write-appends bytes o fits =
    ap (◌++◌ o.buffer)
      (take_all (min (remaining_capacity o) (length bytes)) bytes (omega (arith, fits)))

-- Bytes that fit are behind all that is on its way out.
pub write-outgoing :
    (bytes : List ℕ) (c : TcpConnection)
    → length bytes ≤ remaining_capacity c.sender.stream
    → outgoing (write bytes c).0 ≡ outgoing c ++ bytes
unfolding write
write-outgoing bytes c fits =
    let t : TcpSender = record c.sender { stream = (ByteStream.write c.sender.stream bytes).0 } in
    let behind : payloads c.segments_out ++ on_hand t ≡ outgoing c ++ bytes =
      ap (λ x. payloads c.segments_out ++ (payloads c.sender.segments_out ++ x))
        (write-appends bytes c.sender.stream fits)
      ∙ ap (◌++◌ (payloads c.segments_out))
          (sym (append_assoc (payloads c.sender.segments_out) c.sender.stream.buffer bytes))
      ∙ sym (append_assoc (payloads c.segments_out) (on_hand c.sender) bytes) in
    elim (Bool-cases (connection_establish (with_sender t c))) [
      | inl established ↦ rw established (filled-outgoing t c ∙ behind)
      | inr not_yet ↦ rw not_yet behind
    ]

pub end_input_stream-outgoing : (c : TcpConnection) → outgoing (end_input_stream c) ≡ outgoing c
unfolding end_input_stream end_input
end_input_stream-outgoing c =
    filled-outgoing (record c.sender { stream = end_input c.sender.stream }) c
