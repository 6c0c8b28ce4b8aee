-- ===== src/Tests/Tcp.antt =====
-- The sender and the connection at concrete inputs.
use cs144_intro2network.Prelude.{
  refl, ℕ, List, [], ◌∷◌, true, arith, ◌++◌, false, ◌≡◌, some, if◌then◌else◌, ◌≤◌, take,
}
use cs144_intro2network.ByteStream.{ByteStream}
use cs144_intro2network.Reassembler
use cs144_intro2network.Reassembler.{Segment, Reassembler, push_substring}
use cs144_intro2network.Wire.TcpHeader
use cs144_intro2network.Wire.TcpHeader.{TcpHeader}
use cs144_intro2network.Wire.TcpSegment
use cs144_intro2network.Wire.TcpSegment.{TcpSegment}
use cs144_intro2network.TcpReceiver
use cs144_intro2network.TcpReceiver.{TcpReceiver}
use cs144_intro2network.Tests.Streams.{first_segment}
use cs144_intro2network.TcpSender
use cs144_intro2network.TcpConnection
use cs144_intro2network.TcpConnection.{
  TcpConnection, active, segment_received, tick, destroy, send_all_segs, fill_ack,
}
use cs144_intro2network.TcpConnection.Reset.{reset_is_final}
use cs144_intro2network.TcpConnection.Output.{AllStamped, send_all_segs_lem}
use cs144_intro2network.TcpSender.Window.{Settled, send_data_settles}
use cs144_intro2network.TcpSender.{TcpSender, send_data}
use cs144_intro2network.TcpSender.Ack.{Latest, ack_absolute-Latest, unacked, drop_acked-unacked}
use cs144_intro2network.Wire.TcpSegment.{length_in_sequence_space}
use cs144_intro2network.TcpSender.{ack_absolute, drop_acked}
use cs144_intro2network.TcpState.{State, official}
use cs144_intro2network.TcpState.Official.{connection_state, time_wait_summary}
use cs144_intro2network.Transfer
use cs144_intro2network.Transfer.{
  World, Event, writes, ends, fills, transmits, delivers, reads, acks,
}
use cs144_intro2network.Transfer.Prefix.{run_hears_prefix}
use cs144_intro2network.TcpSender.Timer
use cs144_intro2network.TcpSender.Timer.{ticks_retransmit, Grows}
use cs144_intro2network.TcpConnection.Linger
use cs144_intro2network.TcpConnection.Linger.{ticks_linger}

abbrev reset_segment : TcpSegment
reset_segment = record { header = record TcpHeader.default { rst = true; seqno = 7 }; payload = [] }

abbrev fresh : TcpConnection
fresh = TcpConnection.init 1000 8 8 17

-- The peer's SYN has been had.
abbrev met : TcpConnection
met = record fresh { receiver = record (TcpReceiver.init 8) { isn = 6; isn_set = true } }

reset_is_final_example :
    (c : TcpConnection) × (segment_received reset_segment met ≡ some c)
    × (connection_state c ≡ official State.reset)
    × (c.segments_out ≡ [])
    × ((later : TcpSegment) → segment_received later c ≡ some c)
    × ((ms : ℕ) → tick ms c ≡ c)
    × (destroy c ≡ c)
reset_is_final_example = reset_is_final reset_segment met (unfold active in refl) refl refl

-- Both directions are open, and the sender has two segments queued.
abbrev busy : TcpConnection
busy = record fresh {
  receiver = record (TcpReceiver.init 8) { isn = 17; isn_set = true };
  sender = record (TcpSender.init 8 1000 17) {
    segments_out = first_segment ∷ TcpSegment.default ∷ [];
  };
}

send_all_segs_example :
    (sents : List TcpSegment) × (send_all_segs busy ≡ record busy {
      sender = record busy.sender { segments_out = [] };
      segments_out = busy.segments_out ++ sents;
    })
    × AllStamped busy.receiver (first_segment ∷ TcpSegment.default ∷ []) sents
send_all_segs_example = send_all_segs_lem busy

-- One byte went out and was acknowledged with the FIN, and the peer's FIN arrived.
abbrev finished : ByteStream
finished = record {
  capacity = 8;
  written = 1;
  popped = 1;
  buffer = [];
  input_end = true;
  failed = false;
}

abbrev waiting : TcpConnection
waiting = record fresh {
  receiver = record (TcpReceiver.init 8) {
    reassembler = record (Reassembler.init 8) { output = finished };
    isn_set = true;
  };
  sender = record (TcpSender.init 8 1000 17) { stream = finished; next_seqno = 3 };
}

time_wait_summary_example :
    connection_state waiting ≡ official (if active waiting then State.time_wait else State.closed)
time_wait_summary_example =
    time_wait_summary waiting refl refl refl (omega arith)
      (unfold TcpConnection.time_wait_state TcpSender.bytes_in_flight in refl) (λ _. refl)

-- Three bytes to send, and a window of two.
abbrev sending : TcpSender
sending = record (TcpSender.init 8 1000 17) {
  stream = record {
    capacity = 8;
    written = 3;
    popped = 0;
    buffer = 1 ∷ 2 ∷ 3 ∷ [];
    input_end = true;
    failed = false;
  };
  next_seqno = 1;
  win_size = 2;
}

send_data_settles_example : Settled (send_data 3 sending)
send_data_settles_example = send_data_settles sending (omega arith)

-- The acknowledgement of two of the three numbers sent, with numbers that wrap.
ack_absolute-Latest_example :
    let s = record (TcpSender.init 8 1000 4294967295) { next_seqno = 3 } in
    Latest 1 s (ack_absolute 1 s)
ack_absolute-Latest_example =
    ack_absolute-Latest 1 (record (TcpSender.init 8 1000 4294967295) { next_seqno = 3 })
      (omega arith) (omega arith) (omega arith)

abbrev two_bytes : TcpSegment
two_bytes = record { header = TcpHeader.default; payload = 1 ∷ 2 ∷ [] }

abbrev outstanding : List (ℕ × TcpSegment)
outstanding = (1, two_bytes) ∷ (3, two_bytes) ∷ []

drop_acked-unacked_example : drop_acked 4 outstanding ≡ unacked 4 outstanding
drop_acked-unacked_example = drop_acked-unacked 4 0 outstanding (
    unfold length_in_sequence_space in
    (omega arith, omega arith, omega arith, (omega arith, omega arith, omega arith, tt)))

-- The first segment is lost once, and what follows it arrives twice.
abbrev journey : List Event
journey =
    fills
    ∷ transmits
    ∷ writes 2
    ∷ acks 18 4
    ∷ fills
    ∷ transmits
    ∷ delivers 1
    ∷ delivers 0
    ∷ delivers 1
    ∷ reads 1
    ∷ []

run_hears_prefix_example :
    (w : World) × (Transfer.run (5 ∷ 6 ∷ 7 ∷ []) journey (Transfer.init 8 8 1000 17) ≡ some w)
    × (w.receiver.reassembler.output.written ≤ 3)
    × (w.heard ++ w.receiver.reassembler.output.buffer
        ≡ take w.receiver.reassembler.output.written (5 ∷ 6 ∷ 7 ∷ []))
run_hears_prefix_example =
    run_hears_prefix (5 ∷ 6 ∷ 7 ∷ []) 17 8 8 1000 journey (omega arith) (omega arith) (omega arith)
      (omega arith)

-- One segment is outstanding, with a second left.
abbrev timed : TcpSender
timed = record (TcpSender.init 8 1000 17) {
  outstanding_segs = (1, two_bytes) ∷ [];
  next_seqno = 3;
  timer_running = true;
  rx_time_left = 1000;
}

ticks_retransmit_example :
    Grows (two_bytes ∷ []) (Timer.ticks (400 ∷ 700 ∷ 3000 ∷ []) timed).segments_out
ticks_retransmit_example =
    ticks_retransmit (400 ∷ 700 ∷ 3000 ∷ []) two_bytes timed
      (record { no_probe = refl; running = refl; key = 1; others = []; oldest = refl })
      (omega arith) (omega arith)

ticks_linger_example : active (Linger.ticks (4000 ∷ 5000 ∷ []) waiting) ≡ true
ticks_linger_example =
    ticks_linger (4000 ∷ 5000 ∷ []) waiting
      (record {
        heard = refl;
        said = refl;
        none_left = refl;
        finned = refl;
        no_probe = refl;
        no_error = refl;
        lingers = refl;
        few = refl;
      })
      (omega arith)
