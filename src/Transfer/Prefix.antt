-- ===== src/Transfer/Prefix.antt =====
-- What the reader hears is a prefix of the writer's text.
use cs144_intro2network.Prelude.{
  ℕ, List, [], ◌∷◌, refl, inl, inr, none, some, true, false, Bool-cases, subst, Option, length, ◌≤◌,
  get_elem?, ◌+◌, ◌≡◌, ◌<◌, ◌++◌, ◌^◌, arith, u32_mod, ◌==◌, take, drop, if◌then◌else◌, replicate,
  u64_mod, ◌*◌, length-replicate, sym, ◌∙◌,
}
use cs144_intro2network.ByteStream
use cs144_intro2network.ByteStream.Text.{Wrote, Wrote-read}
use cs144_intro2network.Reassembler.Slice.{AgreesAt-next}
use cs144_intro2network.Wire.TcpSegment.{TcpSegment}
use cs144_intro2network.TcpSender.{TcpSender}
use cs144_intro2network.TcpSender.Emits.{Every, Every-append}
use cs144_intro2network.TcpSender.Text.{Excerpt}
use cs144_intro2network.TcpSender.Text.Calls.{
  Sending, ack_received-Sending, tick-Sending, fill_window-Sending, send_empty_segment-Sending,
  writes-Sending, end_input-Sending,
}
use cs144_intro2network.TcpSender.Text.Queue.{
  Sending-Emits, Sending-written, more-Sending, requeue-Sending,
}
use cs144_intro2network.TcpReceiver.{segment_received}
use cs144_intro2network.TcpReceiver.Delivery.{Receives, ReceivesAfter}
use cs144_intro2network.Transfer.Padding.{Excerpt-Receives, Every-get, hears_prefix}
use cs144_intro2network.Transfer.{
  World, init, Event, writes, ends, fills, acks, ticks, empties, transmits, delivers, reads, step,
  run, write_next, send_empty, deliver, with_sender, write,
}

-- What holds of both ends throughout: the sender keeps to the text, and the receiver is consistent
-- with the text followed by any padding that has room for the numbers of the FINs.
module _ (text pad : List ℕ) (limit isn : ℕ) (small : length text + limit + 1 < 2 ^ 31)
    (padded : length pad ≡ limit) (raw : isn < u32_mod) where
  pub fits32 : length text + limit < u32_mod
  fits32 = omega (arith, small)

  pub record Transfers (bound : ℕ) (w : World) : Type 0 where
    pub sender : Sending text limit isn fits32 bound w.sender
    pub sent : Every (Excerpt text limit isn) w.sent
    pub receiver : Receives (text ++ pad) w.heard isn w.receiver

  abbrev pub TransfersAfter : ℕ → Option World → Type 0
  TransfersAfter bound none = ⊥
  TransfersAfter bound (some w) = Transfers bound w

  sender_step :
      (bound bound' : ℕ) (w : World) (t : TcpSender)
      → Transfers bound w
      → Sending text limit isn fits32 bound' t
      → Transfers bound' (with_sender t w)
  sender_step bound bound' w t h s = record { sender = s; sent = h.sent; receiver = h.receiver }

  deliver-Transfers :
      (bound : ℕ) (w : World) (o : Option TcpSegment)
      → ((seg : TcpSegment) → o ≡ some seg → Excerpt text limit isn seg)
      → Transfers bound w
      → TransfersAfter bound (deliver o w)
  unfolding deliver
  deliver-Transfers bound w none e h = h
  deliver-Transfers bound w (some seg) e h =
      let after : ReceivesAfter (text ++ pad) w.heard isn (segment_received seg w.receiver) =
        Excerpt-Receives text pad w.heard limit isn seg w.receiver small padded raw (e seg refl)
          h.receiver in
      (elim (segment_received seg w.receiver)
          as (λ o.
            ReceivesAfter (text ++ pad) w.heard isn o
            → TransfersAfter bound
                (elim o [ none ↦ none | some r ↦ some (record w { receiver = r }) ])) [
                  | none ↦ λ f. f
                  | some r ↦ λ f. record { sender = h.sender; sent = h.sent; receiver = f }
                ])
        after

  write_next-Sending :
      (bound n : ℕ) (t : TcpSender)
      → Sending text limit isn fits32 bound t
      → Sending text limit isn fits32 bound (write_next text n t)
  unfolding write_next
  write_next-Sending bound n t h =
      let next = take n (drop t.stream.written text) in
      (elim t.stream.input_end
          as (λ b.
            (b ≡ false
              → Sending text limit isn fits32 bound (record t { stream = (write t.stream next).0 }))
            → Sending text limit isn fits32 bound
                (if b then t else record t { stream = (write t.stream next).0 })) [
                  | true ↦ λ _. h
                  | false ↦ λ written. written refl
                ])
        (λ is_open.
          writes-Sending text limit isn fits32 bound t next is_open
            (AgreesAt-next text t.stream.written n
              (Sending-written text limit isn fits32 bound t h))
            h)

  send_empty-Sending :
      (bound : ℕ) (t : TcpSender)
      → bound + length text ≤ limit
      → Sending text limit isn fits32 bound t
      → Sending text limit isn fits32 bound (send_empty t)
  unfolding send_empty
  send_empty-Sending bound t room h = elim (Bool-cases (t.next_seqno == 0)) [
    | inl fresh ↦ rw fresh h
    | inr begun ↦
        rw begun
          (send_empty_segment-Sending text limit isn fits32 bound t room (ground (arith, begun)) h)
  ]

  transmit-Sending :
      (bound : ℕ) (t : TcpSender)
      → Sending text limit isn fits32 bound t
      → Sending text limit isn fits32 bound (record t { segments_out = [] })
  transmit-Sending bound t = requeue-Sending text limit isn fits32 bound t [] tt

  step-Transfers :
      (bound : ℕ) (e : Event) (w : World)
      → bound + length text ≤ limit
      → Transfers bound w
      → TransfersAfter (bound + 1) (step text e w)
  unfolding step
  step-Transfers bound (writes n) w room h =
      sender_step bound (bound + 1) w _ h
        (more-Sending text limit isn fits32 bound _ (write_next-Sending bound n w.sender h.sender))
  step-Transfers bound ends w room h = sender_step bound (bound + 1) w _ h (
      more-Sending text limit isn fits32 bound _
        (end_input-Sending text limit isn fits32 bound w.sender h.sender))
  step-Transfers bound fills w room h =
      sender_step bound (bound + 1) w _ h
        (fill_window-Sending text limit isn fits32 bound w.sender room h.sender)
  step-Transfers bound (acks ackno window) w room h = sender_step bound (bound + 1) w _ h (
      more-Sending text limit isn fits32 bound _
        (ack_received-Sending text limit isn fits32 bound ackno window w.sender h.sender))
  step-Transfers bound (ticks ms) w room h = sender_step bound (bound + 1) w _ h (
      more-Sending text limit isn fits32 bound _
        (tick-Sending text limit isn fits32 bound ms w.sender h.sender))
  step-Transfers bound empties w room h =
      sender_step bound (bound + 1) w _ h (
        more-Sending text limit isn fits32 bound _
          (send_empty-Sending bound w.sender room h.sender))
  step-Transfers bound transmits w room h = record {
    sender = more-Sending text limit isn fits32 bound _ (transmit-Sending bound w.sender h.sender);
    sent =
        Every-append (Excerpt text limit isn) w.sent w.sender.segments_out h.sent
          (Sending-Emits text limit isn fits32 bound w.sender h.sender).queued;
    receiver = h.receiver;
  }
  step-Transfers bound (delivers i) w room h =
      deliver-Transfers (bound + 1) w (get_elem? w.sent i)
        (λ seg e. Every-get (Excerpt text limit isn) w.sent i seg h.sent e)
        (record {
          sender = more-Sending text limit isn fits32 bound _ h.sender;
          sent = h.sent;
          receiver = h.receiver;
        })
  step-Transfers bound (reads n) w room h = record {
    sender = more-Sending text limit isn fits32 bound _ h.sender;
    sent = h.sent;
    receiver = record {
      numbered = h.receiver.numbered;
      consistent = record {
        output =
            Wrote-read (text ++ pad) w.heard w.receiver.reassembler.output n
              h.receiver.consistent.output;
        waiting = h.receiver.consistent.waiting;
      };
    };
  }

  run-Transfers :
      (bound : ℕ) (events : List Event) (w : World)
      → bound + length events + length text ≤ limit
      → Transfers bound w
      → (w' : World) × (run text events w ≡ some w')
        × Receives (text ++ pad) w'.heard isn w'.receiver
  unfolding run
  run-Transfers bound [] w room h = (w, refl, h.receiver)
  run-Transfers bound (e ∷ events) w room h =
      (elim (step text e w)
          as (λ o.
            TransfersAfter (bound + 1) o
            → (w' : World) × ((elim o [ none ↦ none | some v ↦ run text events v ]) ≡ some w')
              × Receives (text ++ pad) w'.heard isn w'.receiver) [
                | none ↦ λ f. absurd f
                | some v ↦ λ f. run-Transfers (bound + 1) events v (omega arith) f
              ])
        (step-Transfers bound e w (omega arith) h)

initial :
    (text pad : List ℕ) (limit isn send_capacity recv_capacity retx_timeout : ℕ)
    (small : length text + limit + 1 < 2 ^ 31) (padded : length pad ≡ limit) (raw : isn < u32_mod)
    → send_capacity < u64_mod
    → recv_capacity < u64_mod
    → Transfers text pad limit isn small padded raw 0
        (init send_capacity recv_capacity retx_timeout isn)
initial text pad limit isn send_capacity recv_capacity retx_timeout small padded raw hs hr =
    record {
      sender = inl (record {
        stream = empty_stream text send_capacity hs;
        initial = refl;
        number = refl;
        over = inl refl;
        probe_fin = λ h. cc;
        emits = record { queued = tt; kept = tt; probe = λ h. cc; probe_syn = refl };
      });
      sent = tt;
      receiver = record {
        numbered = λ h. cc;
        consistent = record { output = empty_stream (text ++ pad) recv_capacity hr; waiting = tt };
      };
    }
  where
    empty_stream :
        (s : List ℕ) (capacity : ℕ) → capacity < u64_mod → Wrote s [] (ByteStream.init capacity)
    empty_stream s capacity h = record {
      held = record { fits = omega arith; same = refl };
      counted = refl;
      within = omega arith;
      representable = h;
    }

-- A writer gives a text, in pieces and nothing after it ends the stream, to a `TCPSender` whose initial
-- number is below 2^32; the sender's calls (`send_empty_segment` after the SYN only), its clock and any
-- acknowledgements come in any order, as do the deliveries of the segments that it sent: some never,
-- some often, some late. If twice the length of the text plus the number of events plus 2 is below
-- 2^31, and both capacities are below 2^64, every call of the `TCPReceiver` returns, and the bytes that
-- the reader has had followed by those buffered for it are the first `bytes_written()` bytes of the
-- text.
pub run_hears_prefix :
    (text : List ℕ) (isn send_capacity recv_capacity retx_timeout : ℕ) (events : List Event)
    → isn < u32_mod
    → send_capacity < u64_mod
    → recv_capacity < u64_mod
    → 2 * length text + length events + 2 < 2 ^ 31
    → (w : World) × (run text events (init send_capacity recv_capacity retx_timeout isn) ≡ some w)
      × (w.receiver.reassembler.output.written ≤ length text)
      × (w.heard ++ w.receiver.reassembler.output.buffer
          ≡ take w.receiver.reassembler.output.written text)
run_hears_prefix text isn send_capacity recv_capacity retx_timeout events raw hs hr small =
    let (w, e, r) = padded_run 0 in
    let (v, f, q) = padded_run 1 in
    let same : some v ≡ some w = sym f ∙ e in
    let same_world : v ≡ w = cc in
    let q' =
      subst (λ (u : World). Receives (text ++ replicate limit 1) u.heard isn u.receiver) same_world
        q in
    let (le, same) = hears_prefix text w.heard limit isn w.receiver r q' in (w, e, le, same)
  where
    limit : ℕ
    limit = length text + length events + 1

    padded_run :
        (x : ℕ)
        → (w : World) × (run text events (init send_capacity recv_capacity retx_timeout isn)
            ≡ some w)
          × Receives (text ++ replicate limit x) w.heard isn w.receiver
    padded_run x =
        run-Transfers text (replicate limit x) limit isn (omega (arith, small))
          (length-replicate limit x) raw 0 events
          (init send_capacity recv_capacity retx_timeout isn) (omega arith)
          (initial text (replicate limit x) limit isn send_capacity recv_capacity retx_timeout
            (omega (arith, small)) (length-replicate limit x) raw hs hr)
