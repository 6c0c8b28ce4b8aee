-- ===== src/TcpConnection/Text/Received.antt =====
-- `connect` and `segment_received` of a `TCPConnection` that keeps to a text and hears another.
use cs144_intro2network.Prelude.{
  ap, ℕ, List, [], ◌∷◌, ◌++◌, Option, none, some, inr, refl, true, false, not, length, ◌+◌, ◌<◌,
  ◌≤◌, ◌≡◌, ◌∙◌, sym, u32_mod, arith, Bool, ◌==◌, if◌then◌else◌, subst, ap,
}
use cs144_intro2network.Wire.TcpSegment.{TcpSegment, length_in_sequence_space}
use cs144_intro2network.Reassembler.{Outcome, done, threw, out_of_fuel, push_substring}
use cs144_intro2network.TcpReceiver
use cs144_intro2network.TcpReceiver.{TcpReceiver, note_syn, data_index, pushed}
use cs144_intro2network.TcpReceiver.Delivery.{Receives, ReceivesAfter}
use cs144_intro2network.TcpSender.{TcpSender, fill_window, track, syn_segment, start_timer}
use cs144_intro2network.TcpSender.Emits.{Every, Every-append}
use cs144_intro2network.TcpSender.Text.{Excerpt}
use cs144_intro2network.TcpSender.Text.Queue.{Sending-Emits, requeue-Sending}
use cs144_intro2network.TcpConnection.{
  TcpConnection, with_sender, set_errors, active, connect, connect_from, is_some, segment_received,
  after_receiver,
}
use cs144_intro2network.TcpConnection.Text.{Utters, Speaks}
use cs144_intro2network.TcpConnection.Text.Arrival.{after_receiver-Follows, fill_window-Follows}
use cs144_intro2network.TcpConnection.Text.Calls.{
  Talks, TalksAfter, more-Talks, follow-Talks, set_errors-Talks, is_some-ackno,
}

-- Only a SYN sets the initial number.
isn_set-pushed :
    (r : TcpReceiver) (o : Outcome) (r' : TcpReceiver)
    → pushed r o ≡ some r'
    → r'.isn_set ≡ r.isn_set
isn_set-pushed r (done a) r' e =
    let same : record r { reassembler = a } ≡ r' = cc in ap (λ x. x.isn_set) (sym same)
isn_set-pushed r threw r' e = cc
isn_set-pushed r out_of_fuel r' e = cc

isn_set-if_pushed :
    (b : Bool) (r : TcpReceiver) (o : Outcome) (r' : TcpReceiver)
    → (if b then pushed r o else some r) ≡ some r'
    → r'.isn_set ≡ r.isn_set
isn_set-if_pushed true r o r' e = isn_set-pushed r o r' e
isn_set-if_pushed false r o r' e = let same : r ≡ r' = cc in ap (λ x. x.isn_set) (sym same)

isn_set-segment_received :
    (seg : TcpSegment) (r r' : TcpReceiver)
    → seg.header.syn ≡ false
    → TcpReceiver.segment_received seg r ≡ some r'
    → r'.isn_set ≡ r.isn_set
unfolding TcpReceiver.segment_received
isn_set-segment_received seg r r' no_syn e =
    let n = note_syn seg r in
    let same : n ≡ r = rw no_syn refl in
    isn_set-if_pushed n.isn_set n
      (push_substring seg.payload (data_index seg n) seg.header.fin n.reassembler) r' e
    ∙ ap (λ x. x.isn_set) same

no_syn_of_empty :
    (seg : TcpSegment) → (length_in_sequence_space seg == 0) ≡ true → seg.header.syn ≡ false
unfolding length_in_sequence_space
no_syn_of_empty seg h = ground arith

queue_of_first :
    (t : TcpSender)
    → (t.next_seqno == 0) ≡ true
    → (fill_window t).segments_out ≡ t.segments_out ++ syn_segment t ∷ []
unfolding fill_window track start_timer
queue_of_first t first = rw first (ground arith)

module _ (s : List ℕ) (limit isn : ℕ) (small : length s + limit < u32_mod) (p out : List ℕ)
    (peer_isn : ℕ) where
  connect_from-Talks :
      (bound : ℕ) (front : List TcpSegment) (seg : TcpSegment) (c : TcpConnection)
      → c.sender.segments_out ≡ front ++ seg ∷ []
      → Talks s limit isn small p out peer_isn bound c
      → TalksAfter s limit isn small p out peer_isn bound (connect_from (front ++ seg ∷ []) c)
  unfolding connect_from
  connect_from-Talks bound front seg c e h = sent front (
      subst (Every (Excerpt s limit isn)) e
        (Sending-Emits s limit isn small bound c.sender h.speaks.sender).queued)
    where
      popped :
          (first : TcpSegment) (rest : List TcpSegment)
          → Every (Excerpt s limit isn) (first ∷ rest)
          → Talks s limit isn small p out peer_isn bound (record c {
            sender = record c.sender { segments_out = rest };
            segments_out = c.segments_out ++ first ∷ [];
          })
      popped first rest q = record {
        speaks = record {
          sender = requeue-Sending s limit isn small bound c.sender rest q.1 h.speaks.sender;
          fresh = h.speaks.fresh;
          out =
              Every-append (Utters s limit isn small) c.segments_out (first ∷ []) h.speaks.out
                (inr q.0, tt);
        };
        hears = h.hears;
        answered = h.answered;
      }

      sent :
          (front : List TcpSegment)
          → Every (Excerpt s limit isn) (front ++ seg ∷ [])
          → TalksAfter s limit isn small p out peer_isn bound (connect_from (front ++ seg ∷ []) c)
      sent [] q = popped seg [] q
      sent (first ∷ rest) q = popped first (rest ++ seg ∷ []) q

  pub connect-Talks :
      (bound : ℕ) (c : TcpConnection)
      → bound + length s ≤ limit
      → (c.sender.next_seqno == 0) ≡ true
      → Talks s limit isn small p out peer_isn bound c
      → TalksAfter s limit isn small p out peer_isn (bound + 1) (connect c)
  unfolding connect
  connect-Talks bound c room first h =
      let d = with_sender (fill_window c.sender) c in
      let q = queue_of_first c.sender first in
      let h' =
        follow-Talks s limit isn small p out peer_isn bound (bound + 1) c d h
          (fill_window-Follows s limit isn small bound c room h.speaks) in
      subst (λ l. TalksAfter s limit isn small p out peer_isn (bound + 1) (connect_from l d))
        (sym q) (connect_from-Talks (bound + 1) c.sender.segments_out (syn_segment c.sender) d q h')

  after_receiver-Talks :
      (bound : ℕ) (seg : TcpSegment) (c : TcpConnection) (r : TcpReceiver)
      → bound + 2 + length s ≤ limit
      → TcpReceiver.segment_received seg c.receiver ≡ some r
      → Receives p out peer_isn r
      → Talks s limit isn small p out peer_isn bound c
      → Talks s limit isn small p out peer_isn
          (bound + 2)
          (after_receiver seg (record c { receiver = r }))
  after_receiver-Talks bound seg c r room e hears h =
      let d : TcpConnection = record c { receiver = r } in
      let speaks : Speaks s limit isn small bound d = record {
        sender = h.speaks.sender;
        fresh = h.speaks.fresh;
        out = h.speaks.out;
      } in
      let known : (length_in_sequence_space seg == 0) ≡ true
          → is_some (TcpReceiver.ackno r) ≡ true
          → 0 < c.sender.next_seqno =
        λ empty acks. h.answered (
          sym (isn_set-segment_received seg c.receiver r (no_syn_of_empty seg empty) e)
          ∙ sym (is_some-ackno r)
          ∙ acks) in
      let (f, begun) = after_receiver-Follows s limit isn small bound seg d room known speaks in
      record {
        speaks = f.speaks;
        hears = subst (Receives p out peer_isn) (sym f.receiver) hears;
        answered = λ set. begun (is_some-ackno r ∙ subst (λ x. x.isn_set ≡ true) f.receiver set);
      }

  if_TalksAfter :
      (bound : ℕ) (x y : Option TcpConnection) (b : Bool)
      → (b ≡ true → TalksAfter s limit isn small p out peer_isn bound x)
      → (b ≡ false → TalksAfter s limit isn small p out peer_isn bound y)
      → TalksAfter s limit isn small p out peer_isn bound (if b then x else y)
  if_TalksAfter bound x y true f g = f refl
  if_TalksAfter bound x y false f g = g refl

  pub segment_received-Talks :
      (bound : ℕ) (seg : TcpSegment) (c : TcpConnection)
      → bound + 2 + length s ≤ limit
      → (seg.header.rst ≡ false
          → ReceivesAfter p out peer_isn (TcpReceiver.segment_received seg c.receiver))
      → Talks s limit isn small p out peer_isn bound c
      → TalksAfter s limit isn small p out peer_isn (bound + 2) (segment_received seg c)
  unfolding segment_received
  segment_received-Talks bound seg c room received h =
      let more2 : (d : TcpConnection)
          → Talks s limit isn small p out peer_isn bound d
          → Talks s limit isn small p out peer_isn (bound + 2) d =
        λ d g.
          subst (λ b. Talks s limit isn small p out peer_isn b d) two
            (more-Talks s limit isn small p out peer_isn (bound + 1) d
              (more-Talks s limit isn small p out peer_isn bound d g)) in
      if_TalksAfter (bound + 2) (some c) _ (not (active c)) (λ _. more2 c h)
        (λ _.
          if_TalksAfter (bound + 2) (some (set_errors c)) _ seg.header.rst
            (λ _.
              more2 (set_errors c) (set_errors-Talks s limit isn small p out peer_isn bound c h))
            (λ no_rst. go (TcpReceiver.segment_received seg c.receiver) refl (received no_rst)))
    where
      two : bound + 1 + 1 ≡ bound + 2
      two = omega arith

      go :
          (o : Option TcpReceiver)
          → TcpReceiver.segment_received seg c.receiver ≡ o
          → ReceivesAfter p out peer_isn o
          → TalksAfter s limit isn small p out peer_isn (bound + 2) (elim o [
            | none ↦ none
            | some r ↦ some (after_receiver seg (record c { receiver = r }))
          ])
      go none e f = f
      go (some r) e f = after_receiver-Talks bound seg c r room e f h
