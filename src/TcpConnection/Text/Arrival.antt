-- ===== src/TcpConnection/Text/Arrival.antt =====
-- `segment_received` of a `TCPConnection` that keeps to a text.
use cs144_intro2network.Prelude.{
  ◌≤◌, &&-split, subst, ℕ, List, [], ◌∷◌, Option, none, some, inl, inr, refl, true, false, not,
  ◌&&◌, length, ◌+◌, ◌<◌, ◌≡◌, ◌∙◌, u32_mod, arith, Bool, Bool-cases, ◌==◌, if◌then◌else◌, ◌≤◌,
}
use cs144_intro2network.ByteStream.{input_ended}
use cs144_intro2network.Wire.TcpSegment.{TcpSegment, length_in_sequence_space}
use cs144_intro2network.TcpReceiver
use cs144_intro2network.TcpReceiver.{TcpReceiver, stream_out}
use cs144_intro2network.TcpSender.{
  TcpSender, fill_window, ack_received, ack_absolute, acknowledge, drop_acked, send_empty_segment,
}
use cs144_intro2network.TcpSender.Text.Calls.{ack_received-Sending, ack_received-Keeps}
use cs144_intro2network.TcpConnection.{
  TcpConnection, send_common_from, send_common_seg, send_all_segs, with_sender, ensure_segment,
  to_sender, note_arrival, reply, reply_keep_alive, keep_alive_at, after_receiver, is_some,
  time_wait_state,
}
use cs144_intro2network.TcpConnection.Output.{send_all_segs-map}
use cs144_intro2network.TcpConnection.Text.{
  Fresh, Speaks, more-Speaks, send_all_segs-Speaks, send_common_seg-Speaks, send_empty-Speaks,
  ensure_segment-Speaks, fill_window-Speaks,
}

ack_received-Fresh :
    (ackno window : ℕ) (t : TcpSender) → Fresh t → Fresh (ack_received ackno window t)
unfolding ack_received acknowledge drop_acked
ack_received-Fresh ackno window t f =
    elim (ack_absolute ackno t)
      as (λ o. Fresh (elim o [ none ↦ t | some a ↦ acknowledge a ackno window t ])) [
        | none ↦ f
        | some a ↦ λ e. (rw (f e).0 refl, ground (arith, (f e).1))
      ]

module _ (s : List ℕ) (limit isn : ℕ) (small : length s + limit < u32_mod) where
  -- A connection that has come from `c`: it keeps to the text, and its receiver is the same.
  pub record Follows (bound : ℕ) (c c' : TcpConnection) : Type 0 where
    pub speaks : Speaks s limit isn small bound c'
    pub receiver : c'.receiver ≡ c.receiver
    pub begun : 0 < c.sender.next_seqno → 0 < c'.sender.next_seqno

  pub then_Follows :
      (b b' : ℕ) (c d e : TcpConnection) → Follows b c d → Follows b' d e → Follows b' c e
  then_Follows b b' c d e f g = record {
    speaks = g.speaks;
    receiver = g.receiver ∙ f.receiver;
    begun = λ h. g.begun (f.begun h);
  }

  pub same_Follows :
      (bound : ℕ) (c : TcpConnection) → Speaks s limit isn small bound c → Follows bound c c
  same_Follows bound c h = record { speaks = h; receiver = refl; begun = λ b. b }

  pub send_all_segs-Follows :
      (bound : ℕ) (c : TcpConnection)
      → Speaks s limit isn small bound c
      → Follows bound c (send_all_segs c)
  send_all_segs-Follows bound c h = record {
    speaks = send_all_segs-Speaks s limit isn small bound c h;
    receiver = rw (send_all_segs-map c) refl;
    begun = λ b. rw (send_all_segs-map c) b;
  }

  send_common_from-keeps :
      (queue : List TcpSegment) (c : TcpConnection)
      → ((send_common_from queue c).receiver ≡ c.receiver)
        × ((send_common_from queue c).sender.next_seqno ≡ c.sender.next_seqno)
  unfolding send_common_from
  send_common_from-keeps [] c = (refl, refl)
  send_common_from-keeps (seg ∷ rest) c = (refl, refl)

  send_common_seg-Follows :
      (bound : ℕ) (c : TcpConnection)
      → Speaks s limit isn small bound c
      → Follows bound c (send_common_seg c)
  unfolding send_common_seg
  send_common_seg-Follows bound c h =
      let (r, n) = send_common_from-keeps c.sender.segments_out c in
      record {
        speaks = send_common_seg-Speaks s limit isn small bound c h;
        receiver = r;
        begun = λ b. omega (arith, n, b);
      }

  ensure_segment-Follows :
      (bound : ℕ) (c : TcpConnection)
      → bound + length s ≤ limit
      → 0 < c.sender.next_seqno
      → Speaks s limit isn small bound c
      → Follows bound c (ensure_segment c)
  unfolding send_empty_segment
  ensure_segment-Follows bound c room begun h =
      elim (Bool-cases (length c.sender.segments_out == 0)) [
        | inl empty ↦ record {
          speaks = ensure_segment-Speaks s limit isn small bound c room begun h;
          receiver = rw empty refl;
          begun = λ b. rw empty b;
        }
        | inr some_left ↦ record {
          speaks = ensure_segment-Speaks s limit isn small bound c room begun h;
          receiver = rw some_left refl;
          begun = λ b. rw some_left b;
        }
      ]

  pub fill_window-Follows :
      (bound : ℕ) (c : TcpConnection)
      → bound + length s ≤ limit
      → Speaks s limit isn small bound c
      → Follows (bound + 1) c (with_sender (fill_window c.sender) c)
  fill_window-Follows bound c room h =
      let (speaks, begun) = fill_window-Speaks s limit isn small bound c room h in
      record { speaks = speaks; receiver = refl; begun = λ _. begun }

  acked-Follows :
      (bound ackno window : ℕ) (c : TcpConnection)
      → Speaks s limit isn small bound c
      → Follows bound c (with_sender (ack_received ackno window c.sender) c)
  acked-Follows bound ackno window c h = record {
    speaks = record {
      sender = ack_received-Sending s limit isn small bound ackno window c.sender h.sender;
      fresh = ack_received-Fresh ackno window c.sender h.fresh;
      out = h.out;
    };
    receiver = refl;
    begun = λ b. omega (arith, (ack_received-Keeps ackno window c.sender).next_seqno, b);
  }

  pub if_Follows :
      (bound : ℕ) (c d e : TcpConnection) (b : Bool)
      → (b ≡ true → Follows bound c d)
      → (b ≡ false → Follows bound c e)
      → Follows bound c (if b then d else e)
  if_Follows bound c d e true f g = f refl
  if_Follows bound c d e false f g = g refl

  if_sender-Follows :
      (bound : ℕ) (c : TcpConnection) (t u : TcpSender) (b : Bool)
      → Follows bound c (with_sender t c)
      → Follows bound c (with_sender u c)
      → Follows bound c (with_sender (if b then t else u) c)
  if_sender-Follows bound c t u true f g = f
  if_sender-Follows bound c t u false f g = g

  pub to_sender-Follows :
      (bound : ℕ) (seg : TcpSegment) (c : TcpConnection)
      → bound + length s ≤ limit
      → Speaks s limit isn small bound c
      → Follows (bound + 1) c (to_sender seg c)
  unfolding to_sender
  to_sender-Follows bound seg c room h =
      let t = ack_received seg.header.ackno seg.header.win c.sender in
      let a = with_sender t c in
      let f = acked-Follows bound seg.header.ackno seg.header.win c h in
      if_Follows (bound + 1) c (with_sender (if t.next_seqno == 0 then t else fill_window t) c) c
        seg.header.ack
        (λ _.
          if_sender-Follows (bound + 1) c t (fill_window t) (t.next_seqno == 0)
            (then_Follows bound (bound + 1) c a a f
              (same_Follows (bound + 1) a (more-Speaks s limit isn small bound a f.speaks)))
            (then_Follows bound (bound + 1) c a (with_sender (fill_window t) a) f
              (fill_window-Follows bound a room f.speaks)))
        (λ _. same_Follows (bound + 1) c (more-Speaks s limit isn small bound c h))

  reset_time-Follows :
      (bound time : ℕ) (c : TcpConnection)
      → Speaks s limit isn small bound c
      → Follows bound c (record c { time_since_last_seg_rec = time })
  reset_time-Follows bound time c h = record {
    speaks = record { sender = h.sender; fresh = h.fresh; out = h.out };
    receiver = refl;
    begun = λ b. b;
  }

  no_linger-Follows :
      (bound : ℕ) (c : TcpConnection)
      → Speaks s limit isn small bound c
      → Follows bound c (record c { linger_after_streams_finish = false })
  no_linger-Follows bound c h = record {
    speaks = record { sender = h.sender; fresh = h.fresh; out = h.out };
    receiver = refl;
    begun = λ b. b;
  }

  pub note_arrival-Follows :
      (bound : ℕ) (c : TcpConnection)
      → Speaks s limit isn small bound c
      → Follows bound c (note_arrival c)
  unfolding note_arrival
  note_arrival-Follows bound c h =
      let r : TcpConnection = record c { time_since_last_seg_rec = 0 } in
      let c' : TcpConnection = if time_wait_state c then r else c in
      let f : Follows bound c c' =
        if_Follows bound c r c (time_wait_state c) (λ _. reset_time-Follows bound 0 c h)
          (λ _. same_Follows bound c h) in
      if_Follows bound c (record c' { linger_after_streams_finish = false }) c'
        (input_ended (stream_out c'.receiver) && not (input_ended c'.sender.stream))
        (λ _. then_Follows bound bound c c' _ f (no_linger-Follows bound c' f.speaks)) (λ _. f)

  -- The reply fills the window first, if the SYN has not been sent.
  pub reply-Follows :
      (bound : ℕ) (seg : TcpSegment) (c : TcpConnection)
      → bound + 1 + length s ≤ limit
      → Speaks s limit isn small bound c
      → Follows (bound + 1) c (reply seg c)
        × ((length_in_sequence_space seg == 0) ≡ false
            → is_some (TcpReceiver.ackno c.receiver) ≡ true
            → 0 < (reply seg c).sender.next_seqno)
  unfolding reply
  reply-Follows bound seg c room h =
      let filled = with_sender (fill_window c.sender) c in
      let c' : TcpConnection = if c.sender.next_seqno == 0 then filled else c in
      let f : Follows (bound + 1) c c' =
        if_Follows (bound + 1) c filled c (c.sender.next_seqno == 0)
          (λ _. fill_window-Follows bound c (omega arith) h)
          (λ _. same_Follows (bound + 1) c (more-Speaks s limit isn small bound c h)) in
      let begun : 0 < c'.sender.next_seqno = begun_after (c.sender.next_seqno == 0) refl in
      let e = ensure_segment-Follows (bound + 1) c' room begun f.speaks in
      let g = send_common_seg-Follows (bound + 1) (ensure_segment c') e.speaks in
      let all =
        then_Follows (bound + 1) (bound + 1) c c' _ f
          (then_Follows (bound + 1) (bound + 1) c' (ensure_segment c') _ e g) in
      (
        if_Follows (bound + 1) c (send_common_seg (ensure_segment c')) c
            (not (length_in_sequence_space seg == 0) && is_some (TcpReceiver.ackno c.receiver))
            (λ _. all) (λ _. same_Follows (bound + 1) c (more-Speaks s limit isn small bound c h)),
        λ takes known. rw (takes, known) (g.begun (e.begun begun)),
      )
    where
      begun_after :
          (b : Bool)
          → (c.sender.next_seqno == 0) ≡ b
          → 0 < (if b then with_sender (fill_window c.sender) c else c).sender.next_seqno
      begun_after true q = (fill_window-Speaks s limit isn small bound c (omega arith) h).1
      begun_after false q = ground (arith, q)

  pub reply_keep_alive-Follows :
      (bound : ℕ) (seg : TcpSegment) (c : TcpConnection)
      → bound + length s ≤ limit
      → ((length_in_sequence_space seg == 0) ≡ true
          → is_some (TcpReceiver.ackno c.receiver) ≡ true
          → 0 < c.sender.next_seqno)
      → Speaks s limit isn small bound c
      → Follows bound c (reply_keep_alive seg c)
  unfolding reply_keep_alive send_empty_segment
  reply_keep_alive-Follows bound seg c room known h =
      let e = with_sender (send_empty_segment c.sender) c in
      if_Follows bound c (send_common_seg e) c
        (length_in_sequence_space seg == 0
          && keep_alive_at (TcpReceiver.ackno c.receiver) seg.header.seqno)
        (λ q.
          let begun = known (both q).0 (some_ackno (TcpReceiver.ackno c.receiver) (both q).1) in
          let speaks = send_empty-Speaks s limit isn small bound c room begun h in
          let g = send_common_seg-Follows bound e speaks in
          record { speaks = g.speaks; receiver = g.receiver; begun = λ b. g.begun b })
        (λ _. same_Follows bound c h)
    where
      both : {x y : Bool} → (x && y) ≡ true → (x ≡ true) × (y ≡ true)
      both {x} {y} q = &&-split x y q

      some_ackno : (o : Option ℕ) → keep_alive_at o seg.header.seqno ≡ true → is_some o ≡ true
      some_ackno none q = q
      some_ackno (some a) q = refl

  -- What follows the receiver's part of `segment_received`.
  pub after_receiver-Follows :
      (bound : ℕ) (seg : TcpSegment) (c : TcpConnection)
      → bound + 2 + length s ≤ limit
      → ((length_in_sequence_space seg == 0) ≡ true
          → is_some (TcpReceiver.ackno c.receiver) ≡ true
          → 0 < c.sender.next_seqno)
      → Speaks s limit isn small bound c
      → Follows (bound + 2) c (after_receiver seg c)
        × (is_some (TcpReceiver.ackno c.receiver) ≡ true
            → 0 < (after_receiver seg c).sender.next_seqno)
  unfolding after_receiver
  after_receiver-Follows bound seg c room known h =
      let c1 = to_sender seg c in
      let f1 = to_sender-Follows bound seg c (omega arith) h in
      let c2 = note_arrival c1 in
      let f2 = note_arrival-Follows (bound + 1) c1 f1.speaks in
      let f12 = then_Follows (bound + 1) (bound + 1) c c1 c2 f1 f2 in
      let c3 = reply seg c2 in
      let (f3, replied) = reply-Follows (bound + 1) seg c2 (omega arith) f2.speaks in
      let c4 = send_all_segs c3 in
      let f4 = send_all_segs-Follows (bound + 1 + 1) c3 f3.speaks in
      let f34 = then_Follows (bound + 1 + 1) (bound + 1 + 1) c2 c3 c4 f3 f4 in
      let f14 = then_Follows (bound + 1) (bound + 1 + 1) c c2 c4 f12 f34 in
      let begun : is_some (TcpReceiver.ackno c.receiver) ≡ true → 0 < c4.sender.next_seqno = λ acks.
        elim (Bool-cases (length_in_sequence_space seg == 0)) [
          | inl takes_none ↦ f14.begun (known takes_none acks)
          | inr takes ↦ f4.begun (replied takes (rw (f12.receiver) acks))
        ] in
      let f5 =
        reply_keep_alive-Follows (bound + 1 + 1) seg c4 (omega arith)
          (λ _ acks. begun (rw (← f14.receiver) acks)) f4.speaks in
      let two : bound + 1 + 1 ≡ bound + 2 = omega arith in
      let f15 =
        then_Follows (bound + 1 + 1) (bound + 1 + 1) c c4 (reply_keep_alive seg c4) f14 f5 in
      (subst (λ b. Follows b c (reply_keep_alive seg c4)) two f15, λ acks. f5.begun (begun acks))
