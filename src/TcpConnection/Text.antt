-- ===== src/TcpConnection/Text.antt =====
-- What a `TCPConnection` sends keeps to the text of its application.
pub mod Arrival
pub mod Calls
pub mod Received
use mathlib.Core.List.{map}
use cs144_intro2network.Prelude.{
  ℕ, List, [], ◌∷◌, ◌++◌, Option, none, some, inl, inr, refl, true, false, length, ◌+◌, ◌<◌, ◌≡◌,
  ◌⊎◌, u32_mod, arith, Bool-cases, ◌==◌, if◌then◌else◌, ◌≤◌,
}
use cs144_intro2network.ByteStream.{write, end_input, set_error}
use cs144_intro2network.Reassembler.Slice.{AgreesAt}
use cs144_intro2network.Wire.TcpHeader.{TcpHeader}
use cs144_intro2network.Wire.TcpSegment.{TcpSegment}
use cs144_intro2network.TcpReceiver
use cs144_intro2network.TcpSender
use cs144_intro2network.TcpSender.{TcpSender, fill_window, ack_received, send_empty_segment}
use cs144_intro2network.TcpSender.Emits.{Every, Every-append}
use cs144_intro2network.TcpSender.Text.{Excerpt, Sends, Proceeds}
use cs144_intro2network.TcpSender.Text.Calls.{
  Sending, ack_received-Sending, tick-Sending, fill_window-Proceeds, fill_window-Sending,
  send_empty_segment-Sending, writes-Sending, end_input-Sending, ack_received-Keeps, tick-Keeps,
}
use cs144_intro2network.TcpSender.Text.Queue.{
  Sending-Emits, more-Sending, requeue-Sending, set_error-Sending,
}
use cs144_intro2network.TcpConnection.{
  TcpConnection, fill_header, fill_ack, send_common_from, send_common_seg, send_all_segs,
  with_sender, send_rst_from, ensure_segment, send_rst_seg,
}
use cs144_intro2network.TcpConnection.Output.{send_all_segs-map}

-- Before the SYN nothing is outstanding, so nothing has been sent again.
abbrev pub Fresh : TcpSender → Type 0
Fresh t = t.next_seqno ≡ 0 → (t.outstanding_segs ≡ []) × (t.rx_times ≡ 0)

pub begun-Fresh : (t : TcpSender) → 0 < t.next_seqno → Fresh t
begun-Fresh t begun e = absurd (omega (arith, begun, e))

module _ (s : List ℕ) (limit isn : ℕ) (small : length s + limit < u32_mod) where
  -- A segment of a connection: a RST, or an excerpt of the text.
  abbrev pub Utters : TcpSegment → Type 0
  Utters seg = (seg.header.rst ≡ true) ⊎ Excerpt s limit isn seg

  pub record Speaks (bound : ℕ) (c : TcpConnection) : Type 0 where
    pub sender : Sending s limit isn small bound c.sender
    pub fresh : Fresh c.sender
    pub out : Every Utters c.segments_out

  pub more-Speaks : (bound : ℕ) (c : TcpConnection) → Speaks bound c → Speaks (bound + 1) c
  more-Speaks bound c h = record {
    sender = more-Sending s limit isn small bound c.sender h.sender;
    fresh = h.fresh;
    out = h.out;
  }

  fill_header-Excerpt :
      (ackno : Option ℕ) (win : ℕ) (seg : TcpSegment)
      → Excerpt s limit isn seg
      → Excerpt s limit isn (record seg { header = fill_header ackno win seg.header })
  fill_header-Excerpt none win seg e = e
  fill_header-Excerpt (some ackno) win seg e = record {
    index = e.index;
    numbered = e.numbered;
    syn_first = e.syn_first;
    bounded = e.bounded;
    part = e.part;
  }

  fill_ack-Utters :
      (c : TcpConnection) (seg : TcpSegment) → Excerpt s limit isn seg → Utters (fill_ack c seg)
  unfolding fill_ack
  fill_ack-Utters c seg e = inr (
      fill_header-Excerpt (TcpReceiver.ackno c.receiver) (TcpReceiver.window_size c.receiver) seg e)

  rst-fill_header :
      (ackno : Option ℕ) (win : ℕ) (h : TcpHeader) → (fill_header ackno win h).rst ≡ h.rst
  rst-fill_header none win h = refl
  rst-fill_header (some ackno) win h = refl

  queue-Utters :
      (c : TcpConnection) (queue : List TcpSegment)
      → Every (Excerpt s limit isn) queue
      → Every Utters (map (fill_ack c) queue)
  queue-Utters c [] h = tt
  queue-Utters c (seg ∷ queue) h = (fill_ack-Utters c seg h.0, queue-Utters c queue h.1)

  queued :
      (bound : ℕ) (c : TcpConnection)
      → Speaks bound c
      → Every (Excerpt s limit isn) c.sender.segments_out
  queued bound c h = (Sending-Emits s limit isn small bound c.sender h.sender).queued

  pub send_all_segs-Speaks :
      (bound : ℕ) (c : TcpConnection) → Speaks bound c → Speaks bound (send_all_segs c)
  send_all_segs-Speaks bound c h = rw (send_all_segs-map c) (record {
    sender = requeue-Sending s limit isn small bound c.sender [] tt h.sender;
    fresh = h.fresh;
    out =
        Every-append Utters c.segments_out (map (fill_ack c) c.sender.segments_out) h.out
          (queue-Utters c c.sender.segments_out (queued bound c h));
  })

  send_common_from-Speaks :
      (bound : ℕ) (queue : List TcpSegment) (c : TcpConnection)
      → Every (Excerpt s limit isn) queue
      → Speaks bound c
      → Speaks bound (send_common_from queue c)
  unfolding send_common_from
  send_common_from-Speaks bound [] c q h = h
  send_common_from-Speaks bound (seg ∷ rest) c q h = record {
    sender = requeue-Sending s limit isn small bound c.sender rest q.1 h.sender;
    fresh = h.fresh;
    out =
        Every-append Utters c.segments_out (fill_ack c seg ∷ []) h.out
          (fill_ack-Utters c seg q.0, tt);
  }

  pub send_common_seg-Speaks :
      (bound : ℕ) (c : TcpConnection) → Speaks bound c → Speaks bound (send_common_seg c)
  unfolding send_common_seg
  send_common_seg-Speaks bound c h =
      send_common_from-Speaks bound c.sender.segments_out c (queued bound c h) h

  send_rst_from-Speaks :
      (bound : ℕ) (queue : List TcpSegment) (c : TcpConnection)
      → Speaks bound c
      → Speaks bound (send_rst_from queue c)
  unfolding send_rst_from fill_ack
  send_rst_from-Speaks bound [] c h = h
  send_rst_from-Speaks bound (seg ∷ rest) c h = record {
    sender = h.sender;
    fresh = h.fresh;
    out = Every-append Utters c.segments_out _ h.out (
      inl (
          rst-fill_header (TcpReceiver.ackno c.receiver) (TcpReceiver.window_size c.receiver)
            (record (seg.header) { rst = true })),
      tt,
    );
  }

  pub send_empty-Speaks :
      (bound : ℕ) (c : TcpConnection)
      → bound + length s ≤ limit
      → 0 < c.sender.next_seqno
      → Speaks bound c
      → Speaks bound (with_sender (send_empty_segment c.sender) c)
  send_empty-Speaks bound c room begun h = record {
    sender = send_empty_segment-Sending s limit isn small bound c.sender room begun h.sender;
    fresh = begun-Fresh (send_empty_segment c.sender) (unfold send_empty_segment in begun);
    out = h.out;
  }

  pub ensure_segment-Speaks :
      (bound : ℕ) (c : TcpConnection)
      → bound + length s ≤ limit
      → 0 < c.sender.next_seqno
      → Speaks bound c
      → Speaks bound (ensure_segment c)
  ensure_segment-Speaks bound c room begun h =
      elim (Bool-cases (length c.sender.segments_out == 0)) [
        | inl empty ↦ rw empty (send_empty-Speaks bound c room begun h)
        | inr some_left ↦ rw some_left h
      ]

  pub send_rst_seg-Speaks :
      (bound : ℕ) (c : TcpConnection)
      → bound + length s ≤ limit
      → 0 < c.sender.next_seqno
      → Speaks bound c
      → Speaks bound (send_rst_seg c)
  unfolding send_rst_seg
  send_rst_seg-Speaks bound c room begun h =
      send_rst_from-Speaks bound (ensure_segment c).sender.segments_out (ensure_segment c)
        (ensure_segment-Speaks bound c room begun h)

  -- The sender fills its window, and has sent its SYN then.
  pub fill_window-Speaks :
      (bound : ℕ) (c : TcpConnection)
      → bound + length s ≤ limit
      → Speaks bound c
      → Speaks (bound + 1) (with_sender (fill_window c.sender) c)
        × (0 < (fill_window c.sender).next_seqno)
  fill_window-Speaks bound c room h =
      let p = fill_window-Proceeds s limit isn small bound c.sender room h.sender in
      let begun : 0 < (fill_window c.sender).next_seqno = omega (arith, p.3.number) in
      (
        record { sender = inr p; fresh = begun-Fresh (fill_window c.sender) begun; out = h.out },
        begun,
      )
