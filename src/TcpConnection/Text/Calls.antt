-- ===== src/TcpConnection/Text/Calls.antt =====
-- The calls of a `TCPConnection` that keeps to a text and hears another.
use cs144_intro2network.Prelude.{
  sym, add64, ℕ, List, [], ◌∷◌, Option, none, some, inl, inr, refl, true, false, length, ◌+◌, ◌<◌,
  ◌≤◌, ◌≡◌, ◌∙◌, u32_mod, arith, Bool, Bool-cases, ◌==◌, if◌then◌else◌, ltb, subst,
}
use cs144_intro2network.ByteStream
use cs144_intro2network.ByteStream.{end_input, set_error}
use cs144_intro2network.Reassembler.Slice.{AgreesAt}
use cs144_intro2network.Wire.TcpSegment.{TcpSegment}
use cs144_intro2network.TcpReceiver.{TcpReceiver, ackno}
use cs144_intro2network.TcpReceiver.Delivery.{Receives}
use cs144_intro2network.TcpSender
use cs144_intro2network.TcpSender.{
  TcpSender, fill_window, tick_zero, tick_oldest, track, consecutive_retransmissions,
}
use cs144_intro2network.TcpSender.Text.Calls.{
  tick-Sending, tick-Keeps, writes-Sending, end_input-Sending,
}
use cs144_intro2network.TcpSender.Text.Queue.{set_error-Sending}
use cs144_intro2network.TcpConnection.{
  TcpConnection, send_all_segs, with_sender, set_errors, send_rst_seg, send_rst_from,
  ensure_segment, write, end_input_stream, tick, after_tick, active, connection_establish,
  time_wait_state, max_retx_attempts, is_some,
}
use cs144_intro2network.TcpConnection.Text.{Fresh, Speaks, more-Speaks, send_rst_seg-Speaks}
use cs144_intro2network.TcpConnection.Text.Arrival.{
  Follows, then_Follows, same_Follows, if_Follows, send_all_segs-Follows, fill_window-Follows,
}

tick_oldest-Fresh :
    (ms : ℕ) (t : TcpSender)
    → t.outstanding_segs ≡ []
    → t.rx_times ≡ 0
    → ((tick_oldest ms t.outstanding_segs t).outstanding_segs ≡ [])
      × ((tick_oldest ms t.outstanding_segs t).rx_times ≡ 0)
unfolding tick_oldest
tick_oldest-Fresh ms t o r = rw (tick_oldest, o) (refl, r)

tick-Fresh : (ms : ℕ) (t : TcpSender) → Fresh t → Fresh (TcpSender.tick ms t)
unfolding TcpSender.tick tick_zero
tick-Fresh ms t f e =
    let (o, r) = f (subst (λ n. n ≡ 0) (tick-Keeps ms t).next_seqno e) in
    let (o', r') = tick_oldest-Fresh ms t o r in (ground (arith, o, o'), ground (arith, r, r'))

-- A receiver knows what to acknowledge once it has its initial number.
pub is_some-ackno : (r : TcpReceiver) → is_some (ackno r) ≡ r.isn_set
unfolding ackno
is_some-ackno r = ground arith

module _ (s : List ℕ) (limit isn : ℕ) (small : length s + limit < u32_mod) where
  -- The connection keeps to its text `s`, hears the text `p` with the number `peer_isn`, of which its
  -- application has had `out`, and has sent its SYN once it has had the peer's.
  pub record Talks (p out : List ℕ) (peer_isn bound : ℕ) (c : TcpConnection) : Type 0 where
    pub speaks : Speaks s limit isn small bound c
    pub hears : Receives p out peer_isn c.receiver
    pub answered : c.receiver.isn_set ≡ true → 0 < c.sender.next_seqno

  abbrev pub TalksAfter : List ℕ → List ℕ → ℕ → ℕ → Option TcpConnection → Type 0
  TalksAfter p out peer_isn bound none = ⊥
  TalksAfter p out peer_isn bound (some c) = Talks p out peer_isn bound c

  module _ (p out : List ℕ) (peer_isn : ℕ) where
    pub more-Talks :
        (bound : ℕ) (c : TcpConnection)
        → Talks p out peer_isn bound c
        → Talks p out peer_isn (bound + 1) c
    more-Talks bound c h = record {
      speaks = more-Speaks s limit isn small bound c h.speaks;
      hears = h.hears;
      answered = h.answered;
    }

    -- What leaves the receiver alone.
    pub follow-Talks :
        (bound bound' : ℕ) (c c' : TcpConnection)
        → Talks p out peer_isn bound c
        → Follows s limit isn small bound' c c'
        → Talks p out peer_isn bound' c'
    follow-Talks bound bound' c c' h f = record {
      speaks = f.speaks;
      hears = subst (Receives p out peer_isn) (sym f.receiver) h.hears;
      answered = λ set. f.begun (h.answered (subst (λ r. r.isn_set ≡ true) f.receiver set));
    }

    pub set_errors-Talks :
        (bound : ℕ) (c : TcpConnection)
        → Talks p out peer_isn bound c
        → Talks p out peer_isn bound (set_errors c)
    unfolding set_errors set_error
    set_errors-Talks bound c h =
        let o = h.hears.consistent.output in
        record {
          speaks = record {
            sender = set_error-Sending s limit isn small bound c.sender h.speaks.sender;
            fresh = h.speaks.fresh;
            out = h.speaks.out;
          };
          hears = record {
            numbered = h.hears.numbered;
            consistent = record {
              output = record {
                held = o.held;
                counted = o.counted;
                within = o.within;
                representable = o.representable;
              };
              waiting = h.hears.consistent.waiting;
            };
          };
          answered = h.answered;
        }

    pub write-Talks :
        (bound : ℕ) (bytes : List ℕ) (c : TcpConnection)
        → bound + length s ≤ limit
        → c.sender.stream.input_end ≡ false
        → AgreesAt s c.sender.stream.written bytes
        → Talks p out peer_isn bound c
        → Talks p out peer_isn (bound + 1) (write bytes c).0
    unfolding write
    write-Talks bound bytes c room is_open agrees h =
        let t : TcpSender = record c.sender {
          stream = (ByteStream.write c.sender.stream bytes).0;
        } in
        let c' = with_sender t c in
        let written : Follows s limit isn small bound c c' = record {
          speaks = record {
            sender =
                writes-Sending s limit isn small bound c.sender bytes is_open agrees
                  h.speaks.sender;
            fresh = h.speaks.fresh;
            out = h.speaks.out;
          };
          receiver = refl;
          begun = λ b. b;
        } in
        let filled = fill_window-Follows s limit isn small bound c' room written.speaks in
        let f = with_sender (fill_window t) c in
        let sent = send_all_segs-Follows s limit isn small (bound + 1) f filled.speaks in
        follow-Talks bound (bound + 1) c _ h (
          then_Follows s limit isn small bound (bound + 1) c c' _ written (
            if_Follows s limit isn small (bound + 1) c' (send_all_segs f) c'
              (connection_establish c')
              (λ _.
                then_Follows s limit isn small (bound + 1) (bound + 1) c' f (send_all_segs f) filled
                  sent)
              (λ _.
                same_Follows s limit isn small (bound + 1) c'
                  (more-Speaks s limit isn small bound c' written.speaks))))

    pub end_input_stream-Talks :
        (bound : ℕ) (c : TcpConnection)
        → bound + length s ≤ limit
        → Talks p out peer_isn bound c
        → Talks p out peer_isn (bound + 1) (end_input_stream c)
    unfolding end_input_stream
    end_input_stream-Talks bound c room h =
        let t : TcpSender = record c.sender { stream = end_input c.sender.stream } in
        let c' = with_sender t c in
        let ended : Follows s limit isn small bound c c' = record {
          speaks = record {
            sender = end_input-Sending s limit isn small bound c.sender h.speaks.sender;
            fresh = h.speaks.fresh;
            out = h.speaks.out;
          };
          receiver = refl;
          begun = λ b. b;
        } in
        let filled = fill_window-Follows s limit isn small bound c' room ended.speaks in
        let f = with_sender (fill_window t) c in
        let sent = send_all_segs-Follows s limit isn small (bound + 1) f filled.speaks in
        follow-Talks bound (bound + 1) c _ h (
          then_Follows s limit isn small bound (bound + 1) c c' _ ended (
            then_Follows s limit isn small (bound + 1) (bound + 1) c' f (send_all_segs f) filled
              sent))

    if_Talks :
        (bound : ℕ) (c d : TcpConnection) (b : Bool)
        → (b ≡ true → Talks p out peer_isn bound c)
        → (b ≡ false → Talks p out peer_isn bound d)
        → Talks p out peer_isn bound (if b then c else d)
    if_Talks bound c d true h k = h refl
    if_Talks bound c d false h k = k refl

    send_rst_from-receiver :
        (queue : List TcpSegment) (c : TcpConnection)
        → ((send_rst_from queue c).receiver ≡ c.receiver)
          × ((send_rst_from queue c).sender.next_seqno ≡ c.sender.next_seqno)
    unfolding send_rst_from
    send_rst_from-receiver [] c = (refl, refl)
    send_rst_from-receiver (seg ∷ rest) c = (refl, refl)

    ensure_segment-receiver :
        (c : TcpConnection)
        → ((ensure_segment c).receiver ≡ c.receiver)
          × ((ensure_segment c).sender.next_seqno ≡ c.sender.next_seqno)
    unfolding TcpSender.send_empty_segment
    ensure_segment-receiver c = elim (Bool-cases (length c.sender.segments_out == 0)) [
      | inl empty ↦ rw empty (refl, refl)
      | inr some_left ↦ rw some_left (refl, refl)
    ]

    send_rst_seg-Talks :
        (bound : ℕ) (c : TcpConnection)
        → bound + length s ≤ limit
        → 0 < c.sender.next_seqno
        → Talks p out peer_isn bound c
        → Talks p out peer_isn bound (send_rst_seg c)
    unfolding send_rst_seg
    send_rst_seg-Talks bound c room begun h =
        let e = ensure_segment c in
        let (r, n) = send_rst_from-receiver e.sender.segments_out e in
        let (r', n') = ensure_segment-receiver c in
        follow-Talks bound bound c (send_rst_seg c) h (record {
          speaks = send_rst_seg-Speaks s limit isn small bound c room begun h.speaks;
          receiver = r ∙ r';
          begun = λ b. omega (arith, n, n', b);
        })

    pub tick-Talks :
        (bound ms : ℕ) (c : TcpConnection)
        → bound + length s ≤ limit
        → Talks p out peer_isn bound c
        → Talks p out peer_isn bound (tick ms c)
    unfolding tick after_tick
    tick-Talks bound ms c room h =
        let t = TcpSender.tick ms c.sender in
        let c0 = with_sender t c in
        let k = tick-Keeps ms c.sender in
        let h0 : Talks p out peer_isn bound c0 = record {
          speaks = record {
            sender = tick-Sending s limit isn small bound ms c.sender h.speaks.sender;
            fresh = tick-Fresh ms c.sender h.speaks.fresh;
            out = h.speaks.out;
          };
          hears = h.hears;
          answered = λ set. omega (arith, k.next_seqno, h.answered set);
        } in
        let later : TcpConnection = record c0 {
          time_since_last_seg_rec = add64 c0.time_since_last_seg_rec ms;
        } in
        let c1 : TcpConnection = if time_wait_state c0 then later else c0 in
        let h1 : Talks p out peer_isn bound c1 =
          if_Talks bound later c0 (time_wait_state c0)
            (λ _. record {
              speaks = record {
                sender = h0.speaks.sender;
                fresh = h0.speaks.fresh;
                out = h0.speaks.out;
              };
              hears = h0.hears;
              answered = h0.answered;
            })
            (λ _. h0) in
        let many = ltb max_retx_attempts (consecutive_retransmissions c1.sender) in
        let c2 : TcpConnection = if many then send_rst_seg (set_errors c1) else c1 in
        let h2 : Talks p out peer_isn bound c2 =
          if_Talks bound (send_rst_seg (set_errors c1)) c1 many
            (λ q.
              send_rst_seg-Talks bound (set_errors c1) room
                (unfold set_errors in retransmitted c1 h1 q) (set_errors-Talks bound c1 h1))
            (λ _. h1) in
        if_Talks bound (after_tick ms c0) c (active c)
          (λ _.
            if_Talks bound (send_all_segs c2) c2 (active c2)
              (λ _.
                follow-Talks bound bound c2 (send_all_segs c2) h2
                  (send_all_segs-Follows s limit isn small bound c2 h2.speaks))
              (λ _. h2))
          (λ _. h)
      where
        retransmitted :
            (d : TcpConnection)
            → Talks p out peer_isn bound d
            → ltb max_retx_attempts (consecutive_retransmissions d.sender) ≡ true
            → 0 < d.sender.next_seqno
        retransmitted d g q = elim (Bool-cases (d.sender.next_seqno == 0)) [
          | inl none_sent ↦
              let fresh = g.speaks.fresh (ground (arith, none_sent)) in
              absurd (ground (arith, q, fresh.1))
          | inr sent ↦ ground (arith, sent)
        ]
