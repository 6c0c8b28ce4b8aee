-- ===== src/TcpSender/Text/Calls.antt =====
-- The calls of `TCPSender` keep to the text.
use cs144_intro2network.Prelude.{
  ℕ, List, [], ◌∷◌, refl, inl, inr, none, some, true, false, arith, length, ◌≡◌, ◌+◌, ◌<◌, u32_mod,
  ◌⊎◌, ◌∙◌, ◌≤◌, ◌==◌, ap, ltb, ◌&&◌, not, if◌then◌else◌,
}
use cs144_intro2network.Prelude.Map.{Map}
use cs144_intro2network.ByteStream.{write, end_input}
use cs144_intro2network.ByteStream.Text.{Wrote-write, Wrote-fits}
use cs144_intro2network.Reassembler.Slice.{AgreesAt}
use cs144_intro2network.Wrapping.{wrap}
use cs144_intro2network.TcpSender.{
  TcpSender, fill_window, fill_open, fill_zero, ack_received, ack_absolute, acknowledge, tick,
  tick_zero, tick_oldest, tick_running, send_empty_segment, bytes_in_flight, TcpSegment,
}
use cs144_intro2network.TcpSender.Emits.{Emits, ack_received-Emits, tick-Emits, queue-Emits}
use cs144_intro2network.TcpSender.Text.{
  Excerpt, Sends, Proceeds, Excerpt-at, syn-Proceeds, with_stream-Emits,
}
use cs144_intro2network.TcpSender.Text.Open.{fill_open-Proceeds}
use cs144_intro2network.TcpSender.Text.Zero.{fill_zero-Proceeds}

-- What acknowledgements and time leave alone.
pub record Keeps (t u : TcpSender) : Type 0 where
  pub stream : u.stream ≡ t.stream
  pub isn : u.isn ≡ t.isn
  pub next_seqno : u.next_seqno ≡ t.next_seqno
  pub zero_win_seg : u.zero_win_seg ≡ t.zero_win_seg

pub ack_received-Keeps : (ackno window : ℕ) (t : TcpSender) → Keeps t (ack_received ackno window t)
unfolding ack_received acknowledge
ack_received-Keeps ackno window t =
    elim (ack_absolute ackno t)
      as (λ o. Keeps t (elim o [ none ↦ t | some a ↦ acknowledge a ackno window t ])) [
        | none ↦ record { stream = refl; isn = refl; next_seqno = refl; zero_win_seg = refl }
        | some a ↦ record { stream = refl; isn = refl; next_seqno = refl; zero_win_seg = refl }
      ]

tick_oldest-Keeps :
    (ms : ℕ) (segs : Map TcpSegment) (t : TcpSender) → Keeps t (tick_oldest ms segs t)
unfolding tick_oldest tick_running
tick_oldest-Keeps ms [] t = record {
  stream = refl;
  isn = refl;
  next_seqno = refl;
  zero_win_seg = refl;
}
tick_oldest-Keeps ms ((key, seg) ∷ segs) t = record {
  stream = ground arith;
  isn = ground arith;
  next_seqno = ground arith;
  zero_win_seg = ground arith;
}

pub tick-Keeps : (ms : ℕ) (t : TcpSender) → Keeps t (tick ms t)
unfolding tick tick_zero
tick-Keeps ms t =
    let old = tick_oldest-Keeps ms t.outstanding_segs t in
    record {
      stream = ground (arith, old.stream);
      isn = ground (arith, old.isn);
      next_seqno = ground (arith, old.next_seqno);
      zero_win_seg = ground (arith, old.zero_win_seg);
    }

module _ (s : List ℕ) (limit isn : ℕ) (small : length s + limit < u32_mod) where
  -- Before the SYN, or after it with at most `bound` FINs sent.
  abbrev pub Sending : ℕ → TcpSender → Type 0
  Sending bound t = Sends s limit isn 0 [] 0 t ⊎ Proceeds s limit isn small bound t

  keep-Sends :
      (start : ℕ) (gone : List ℕ) (fins : ℕ) (t u : TcpSender)
      → Keeps t u
      → Emits (Excerpt s limit isn) u
      → Sends s limit isn start gone fins t
      → Sends s limit isn start gone fins u
  keep-Sends start gone fins t u k e h = record {
    stream = rw (k.stream) h.stream;
    initial = k.isn ∙ h.initial;
    number = k.next_seqno ∙ h.number;
    over = rw (k.stream) h.over;
    probe_fin = rw (k.zero_win_seg) h.probe_fin;
    emits = e;
  }

  keep-Sending :
      (bound : ℕ) (t u : TcpSender)
      → Keeps t u
      → (Emits (Excerpt s limit isn) t → Emits (Excerpt s limit isn) u)
      → Sending bound t
      → Sending bound u
  keep-Sending bound t u k e (inl h) = inl (keep-Sends 0 [] 0 t u k (e h.emits) h)
  keep-Sending bound t u k e (inr (gone, fins, le, h)) =
      inr (gone, fins, le, keep-Sends 1 gone fins t u k (e h.emits) h)

  pub ack_received-Sending :
      (bound ackno window : ℕ) (t : TcpSender)
      → Sending bound t
      → Sending bound (ack_received ackno window t)
  ack_received-Sending bound ackno window t =
      keep-Sending bound t (ack_received ackno window t) (ack_received-Keeps ackno window t)
        (ack_received-Emits (Excerpt s limit isn) ackno window t)

  pub tick-Sending : (bound ms : ℕ) (t : TcpSender) → Sending bound t → Sending bound (tick ms t)
  tick-Sending bound ms t =
      keep-Sending bound t (tick ms t) (tick-Keeps ms t) (tick-Emits (Excerpt s limit isn) ms t)

  -- The SYN has been sent after it.
  pub fill_window-Proceeds :
      (bound : ℕ) (t : TcpSender)
      → bound + length s ≤ limit
      → Sending bound t
      → Proceeds s limit isn small (bound + 1) (fill_window t)
  unfolding fill_window
  fill_window-Proceeds bound t room (inl h) =
      let first : (t.next_seqno == 0) ≡ true = ground (arith, h.number) in
      let (gone, fins, le, h') = syn-Proceeds s limit isn small t h in
      rw first (gone, fins, omega arith, h')
  fill_window-Proceeds bound t room (inr (gone, fins, le, h)) =
      let later : (t.next_seqno == 0) ≡ false = ground (arith, h.number) in
      let weaken : (u : TcpSender)
          → Proceeds s limit isn small (fins + 1) u
          → Proceeds s limit isn small (bound + 1) u =
        λ u p. (p.0, p.1, omega (arith, p.2), p.3) in
      rw later
        (elim (ltb (bytes_in_flight t) t.win_size && not t.zero_win_seg_send)
          as (λ b. Proceeds s limit isn small (bound + 1) (
            if b
            then fill_open t
            else if t.win_size == 0 && ltb (bytes_in_flight t) t.next_seqno
            then fill_zero t
            else t)) [
              | true ↦ weaken _ (fill_open-Proceeds s limit isn small gone fins t (omega arith) h)
              | false ↦
                  elim (t.win_size == 0 && ltb (bytes_in_flight t) t.next_seqno)
                    as (λ b.
                      Proceeds s limit isn small (bound + 1) (if b then fill_zero t else t)) [
                        | true ↦
                            weaken _
                              (fill_zero-Proceeds s limit isn small gone fins t (omega arith) h)
                        | false ↦ (gone, fins, omega arith, h)
                      ]
            ])

  pub fill_window-Sending :
      (bound : ℕ) (t : TcpSender)
      → bound + length s ≤ limit
      → Sending bound t
      → Sending (bound + 1) (fill_window t)
  fill_window-Sending bound t room h = inr (fill_window-Proceeds bound t room h)

  -- An empty segment, of a sender that has sent its SYN.
  pub send_empty_segment-Sending :
      (bound : ℕ) (t : TcpSender)
      → bound + length s ≤ limit
      → 0 < t.next_seqno
      → Sending bound t
      → Sending bound (send_empty_segment t)
  unfolding send_empty_segment
  send_empty_segment-Sending bound t room begun (inl h) = absurd (omega (arith, h.number))
  send_empty_segment-Sending bound t room begun (inr (gone, fins, le, h)) =
      let fits = Wrote-fits s gone t.stream h.stream in
      inr (
        gone,
        fins,
        le,
        record {
          stream = h.stream;
          initial = h.initial;
          number = h.number;
          over = h.over;
          probe_fin = h.probe_fin;
          emits = record {
            queued =
                queue-Emits (Excerpt s limit isn) t.segments_out _
                  (Excerpt-at s limit isn small _ t.next_seqno (length gone + fins) refl
                    (ap (wrap t.next_seqno) h.initial) (omega (arith, h.number))
                    (omega (arith, fits)) (inl refl))
                  h.emits.queued;
            kept = h.emits.kept;
            probe = h.emits.probe;
            probe_syn = h.emits.probe_syn;
          };
        },
      )

  -- The application writes bytes of the text on an open stream, or ends the stream.
  write-Sends :
      (start : ℕ) (gone : List ℕ) (fins : ℕ) (t : TcpSender) (bytes : List ℕ)
      → t.stream.input_end ≡ false
      → AgreesAt s t.stream.written bytes
      → Sends s limit isn start gone fins t
      → Sends s limit isn start gone fins (record t { stream = (write t.stream bytes).0 })
  write-Sends start gone fins t bytes is_open agrees h =
      let first : fins ≡ 0 = ground (arith, h.over, is_open) in
      record {
        stream = Wrote-write s gone t.stream bytes (omega arith) h.stream agrees;
        initial = h.initial;
        number = h.number;
        over = inl first;
        probe_fin = h.probe_fin;
        emits =
            with_stream-Emits s limit isn small (Excerpt s limit isn) t (write t.stream bytes).0
              h.emits;
      }

  end_input-Sends :
      (start : ℕ) (gone : List ℕ) (fins : ℕ) (t : TcpSender)
      → Sends s limit isn start gone fins t
      → Sends s limit isn start gone fins (record t { stream = end_input t.stream })
  unfolding end_input
  end_input-Sends start gone fins t h = record {
    stream = record {
      held = h.stream.held;
      counted = h.stream.counted;
      within = h.stream.within;
      representable = h.stream.representable;
    };
    initial = h.initial;
    number = h.number;
    over = ground (arith, h.over);
    probe_fin = h.probe_fin;
    emits =
        with_stream-Emits s limit isn small (Excerpt s limit isn) t (end_input t.stream) h.emits;
  }

  pub writes-Sending :
      (bound : ℕ) (t : TcpSender) (bytes : List ℕ)
      → t.stream.input_end ≡ false
      → AgreesAt s t.stream.written bytes
      → Sending bound t
      → Sending bound (record t { stream = (write t.stream bytes).0 })
  writes-Sending bound t bytes is_open agrees (inl h) =
      inl (write-Sends 0 [] 0 t bytes is_open agrees h)
  writes-Sending bound t bytes is_open agrees (inr (gone, fins, le, h)) =
      inr (gone, fins, le, write-Sends 1 gone fins t bytes is_open agrees h)

  pub end_input-Sending :
      (bound : ℕ) (t : TcpSender)
      → Sending bound t
      → Sending bound (record t { stream = end_input t.stream })
  end_input-Sending bound t (inl h) = inl (end_input-Sends 0 [] 0 t h)
  end_input-Sending bound t (inr (gone, fins, le, h)) =
      inr (gone, fins, le, end_input-Sends 1 gone fins t h)
