-- ===== src/Exchange/Endpoints.antt =====
-- One end of an exchange: it keeps to its text, and what it hears is consistent with the padded text of
-- the other end.
use cs144_intro2network.Prelude.{
  ℕ, List, [], Option, none, some, inl, inr, refl, ◌++◌, ◌+◌, ◌<◌, ◌≤◌, ◌≡◌, length, u32_mod, subst,
  ◌^◌, sym, Bool-cases, arith, ◌==◌, true, false, if◌then◌else◌, take, drop,
}
use cs144_intro2network.ByteStream.Text.{Wrote-read}
use cs144_intro2network.Reassembler.Slice.{AgreesAt-next}
use cs144_intro2network.Wire.TcpSegment.{TcpSegment}
use cs144_intro2network.TcpSender.Emits.{Every, Every-append}
use cs144_intro2network.TcpSender.Text.Queue.{Sending-written}
use cs144_intro2network.TcpConnection.{TcpConnection, segment_received, write}
use cs144_intro2network.TcpConnection.Text.{Utters}
use cs144_intro2network.TcpConnection.Text.Calls.{
  Talks, TalksAfter, more-Talks, write-Talks, end_input_stream-Talks, tick-Talks,
}
use cs144_intro2network.TcpConnection.Text.Received.{connect-Talks, segment_received-Talks}
use cs144_intro2network.Transfer.Padding.{Excerpt-Receives}
use cs144_intro2network.Exchange.{
  Endpoint, Call, call, deliver, connect_first, hear, write_next, with_connection, or_fail,
  connects, writes, ends, ticks, transmits, reads,
}

module _ (text : List ℕ) (limit isn : ℕ) (small : length text + limit < u32_mod) (peer pad : List ℕ)
    (peer_isn : ℕ) where
  pub record Holds (bound : ℕ) (e : Endpoint) : Type 0 where
    pub talks : Talks text limit isn small (peer ++ pad) e.heard peer_isn bound e.connection
    pub sent : Every (Utters text limit isn small) e.sent

  abbrev pub HoldsAfter : ℕ → Option Endpoint → Type 0
  HoldsAfter bound none = ⊥
  HoldsAfter bound (some e) = Holds bound e

  two_more :
      (bound : ℕ) (out : List ℕ) (c : TcpConnection)
      → Talks text limit isn small (peer ++ pad) out peer_isn (bound + 1) c
      → Talks text limit isn small (peer ++ pad) out peer_isn (bound + 2) c
  two_more bound out c h =
      let two : bound + 1 + 1 ≡ bound + 2 = omega arith in
      subst (λ b. Talks text limit isn small (peer ++ pad) out peer_isn b c) two
        (more-Talks text limit isn small (peer ++ pad) out peer_isn (bound + 1) c h)

  pub more-Holds : (bound : ℕ) (e : Endpoint) → Holds bound e → Holds (bound + 2) e
  more-Holds bound e h = record {
    talks =
        two_more bound e.heard e.connection (
          more-Talks text limit isn small (peer ++ pad) e.heard peer_isn bound e.connection
            h.talks);
    sent = h.sent;
  }

  -- A call that leaves the application's bytes and the sent segments alone.
  called-Holds :
      (bound : ℕ) (e : Endpoint) (c : TcpConnection)
      → Holds bound e
      → Talks text limit isn small (peer ++ pad) e.heard peer_isn (bound + 1) c
      → Holds (bound + 2) (with_connection c e)
  called-Holds bound e c h t = record { talks = two_more bound e.heard c t; sent = h.sent }

  tried-Holds :
      (bound : ℕ) (e : Endpoint) (o : Option TcpConnection)
      → Holds bound e
      → TalksAfter text limit isn small (peer ++ pad) e.heard peer_isn (bound + 2) o
      → HoldsAfter (bound + 2) (or_fail e o)
  tried-Holds bound e none h t = t
  tried-Holds bound e (some c) h t = record { talks = t; sent = h.sent }

  write_next-Talks :
      (bound n : ℕ) (out : List ℕ) (c : TcpConnection)
      → bound + length text ≤ limit
      → Talks text limit isn small (peer ++ pad) out peer_isn bound c
      → Talks text limit isn small (peer ++ pad) out peer_isn (bound + 1) (write_next text n c)
  write_next-Talks bound n out c room h =
      let next = take n (drop c.sender.stream.written text) in
      (elim c.sender.stream.input_end
          as (λ b.
            (b ≡ false
              → Talks text limit isn small (peer ++ pad) out peer_isn (bound + 1) (write next c).0)
            → Talks text limit isn small (peer ++ pad) out peer_isn (bound + 1)
                (if b then c else (write next c).0)) [
                  | true ↦ λ _. more-Talks text limit isn small (peer ++ pad) out peer_isn bound c h
                  | false ↦ λ written. written refl
                ])
        (λ is_open.
          write-Talks text limit isn small (peer ++ pad) out peer_isn bound next c room is_open
            (AgreesAt-next text c.sender.stream.written n
              (Sending-written text limit isn small bound c.sender h.speaks.sender))
            h)

  connect_first-Talks :
      (bound : ℕ) (out : List ℕ) (c : TcpConnection)
      → bound + length text ≤ limit
      → Talks text limit isn small (peer ++ pad) out peer_isn bound c
      → TalksAfter text limit isn small (peer ++ pad) out peer_isn (bound + 1) (connect_first c)
  connect_first-Talks bound out c room h = elim (Bool-cases (c.sender.next_seqno == 0)) [
    | inl first ↦
        rw first
          (connect-Talks text limit isn small (peer ++ pad) out peer_isn bound c room first h)
    | inr begun ↦ rw begun (more-Talks text limit isn small (peer ++ pad) out peer_isn bound c h)
  ]

  more_after :
      (bound : ℕ) (out : List ℕ) (o : Option TcpConnection)
      → TalksAfter text limit isn small (peer ++ pad) out peer_isn (bound + 1) o
      → TalksAfter text limit isn small (peer ++ pad) out peer_isn (bound + 2) o
  more_after bound out none h = h
  more_after bound out (some c) h = two_more bound out c h

  transmit-Holds :
      (bound : ℕ) (e e' : Endpoint)
      → e' ≡ record e {
        connection = record e.connection { segments_out = [] };
        sent = e.sent ++ e.connection.segments_out;
      }
      → Holds bound e
      → Holds bound e'
  transmit-Holds bound e e' same h = subst (Holds bound) (sym same) (record {
    talks = record {
      speaks = record { sender = h.talks.speaks.sender; fresh = h.talks.speaks.fresh; out = tt };
      hears = h.talks.hears;
      answered = h.talks.answered;
    };
    sent =
        Every-append (Utters text limit isn small) e.sent e.connection.segments_out h.sent
          h.talks.speaks.out;
  })

  hear-Holds : (bound n : ℕ) (e : Endpoint) → Holds bound e → Holds bound (hear n e)
  hear-Holds bound n e h = record {
    talks = record {
      speaks = record {
        sender = h.talks.speaks.sender;
        fresh = h.talks.speaks.fresh;
        out = h.talks.speaks.out;
      };
      hears = record {
        numbered = h.talks.hears.numbered;
        consistent = record {
          output =
              Wrote-read (peer ++ pad) e.heard e.connection.receiver.reassembler.output n
                h.talks.hears.consistent.output;
          waiting = h.talks.hears.consistent.waiting;
        };
      };
      answered = h.talks.answered;
    };
    sent = h.sent;
  }

  pub call-Holds :
      (bound : ℕ) (c : Call) (e : Endpoint)
      → bound + length text ≤ limit
      → Holds bound e
      → HoldsAfter (bound + 2) (call text c e)
  unfolding call
  call-Holds bound connects e room h = tried-Holds bound e (connect_first e.connection) h (
      more_after bound e.heard (connect_first e.connection)
        (connect_first-Talks bound e.heard e.connection room h.talks))
  call-Holds bound (writes n) e room h =
      called-Holds bound e _ h (write_next-Talks bound n e.heard e.connection room h.talks)
  call-Holds bound ends e room h = called-Holds bound e _ h (
      end_input_stream-Talks text limit isn small (peer ++ pad) e.heard peer_isn bound e.connection
        room h.talks)
  call-Holds bound (ticks ms) e room h = called-Holds bound e _ h (
      more-Talks text limit isn small (peer ++ pad) e.heard peer_isn bound _ (
        tick-Talks text limit isn small (peer ++ pad) e.heard peer_isn bound ms e.connection room
          h.talks))
  call-Holds bound transmits e room h = more-Holds bound _ (transmit-Holds bound e _ refl h)
  call-Holds bound (reads n) e room h = more-Holds bound _ (hear-Holds bound n e h)

  -- A segment that the other end has sent, or none.
  pub deliver-Holds :
      (peer_limit : ℕ) (peer_small : length peer + peer_limit < u32_mod) (bound : ℕ)
      (o : Option TcpSegment) (e : Endpoint)
      → length peer + peer_limit + 1 < 2 ^ 31
      → length pad ≡ peer_limit
      → peer_isn < u32_mod
      → bound + 2 + length text ≤ limit
      → ((seg : TcpSegment) → o ≡ some seg → Utters peer peer_limit peer_isn peer_small seg)
      → Holds bound e
      → HoldsAfter (bound + 2) (deliver o e)
  deliver-Holds peer_limit peer_small bound none e fits padded raw room u h = more-Holds bound e h
  deliver-Holds peer_limit peer_small bound (some seg) e fits padded raw room u h =
      tried-Holds bound e (segment_received seg e.connection) h (
        segment_received-Talks text limit isn small (peer ++ pad) e.heard peer_isn bound seg
          e.connection room
          (λ no_rst. elim (u seg refl) [
            | inl rst ↦ cc
            | inr x ↦
                Excerpt-Receives peer pad e.heard peer_limit peer_isn seg e.connection.receiver fits
                  padded raw x h.talks.hears
          ])
          h.talks)
