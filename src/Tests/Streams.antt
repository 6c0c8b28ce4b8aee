-- ===== src/Tests/Streams.antt =====
-- Streams, sequence numbers, the reassembler and the receiver at concrete inputs.
use cs144_intro2network.Prelude.{
  refl, ℕ, List, [], ◌∷◌, true, arith, ◌++◌, false, ◌≡◌, min, some, take, ◌-◌, ◌+◌, length, ◌≤◌,
}
use cs144_intro2network.ByteStream
use cs144_intro2network.ByteStream.{ByteStream, write, remaining_capacity}
use cs144_intro2network.ByteStream.Fifo
use cs144_intro2network.ByteStream.Fifo.{
  IsValid, init-IsValid, Call, writes, reads, ends, fails, run_fifo, run-IsValid, write_lem,
}
use cs144_intro2network.Wrapping.{wrap, unwrap, unwrap?}
use cs144_intro2network.Reassembler
use cs144_intro2network.Reassembler.{Segment, Reassembler, push_substring}
use cs144_intro2network.Reassembler.Deliver.{IsConsistent}
use cs144_intro2network.Reassembler.Prefix.{Returns, push_substring-Returns}
use cs144_intro2network.Reassembler.History
use cs144_intro2network.Reassembler.History.{Event, arrives, run_prefix}
use cs144_intro2network.Wire.Checksum.{add}
use cs144_intro2network.Wire.TcpHeader
use cs144_intro2network.Wire.TcpHeader.{TcpHeader}
use cs144_intro2network.Wire.TcpSegment.{TcpSegment}
use cs144_intro2network.TcpReceiver
use cs144_intro2network.TcpReceiver.{TcpReceiver}
use cs144_intro2network.TcpReceiver.InOrder.{segment_received-in_order}
use cs144_intro2network.Reassembler.InOrder.{CaughtUp}
use cs144_intro2network.Wrapping.Closest.{IsClosest, unwrap-IsClosest, unwrap-wrap}

abbrev calls : List Call
calls = writes (1 ∷ 2 ∷ 3 ∷ []) ∷ reads 1 ∷ writes (4 ∷ 5 ∷ []) ∷ ends ∷ reads 3 ∷ []

run_fifo_example :
    [] ++ (Fifo.run (ByteStream.init 3) calls).accepted
    ≡ (Fifo.run (ByteStream.init 3) calls).delivered
      ++ (Fifo.run (ByteStream.init 3) calls).stream.buffer
run_fifo_example = run_fifo (ByteStream.init 3) calls

run-IsValid_example : IsValid (Fifo.run (ByteStream.init 3) calls).stream
run-IsValid_example = run-IsValid (ByteStream.init 3) calls (init-IsValid 3 (omega arith))

write_example :
    let (s', n) = write (ByteStream.init 3) (6 ∷ 7 ∷ 8 ∷ 9 ∷ []) in
    (n ≡ min (3 - 0) 4)
    × (s'.buffer ≡ [] ++ take n (6 ∷ 7 ∷ 8 ∷ 9 ∷ []))
    × (remaining_capacity s' + n ≡ remaining_capacity (ByteStream.init 3))
write_example =
    write_lem (ByteStream.init 3) (6 ∷ 7 ∷ 8 ∷ 9 ∷ []) refl (init-IsValid 3 (omega arith))

unwrap-IsClosest_example :
    (unwrap? 15 17 4294967300 ≡ some (unwrap 15 17 4294967300))
    × IsClosest 15 17 4294967300 (unwrap 15 17 4294967300)
unwrap-IsClosest_example =
    unwrap-IsClosest 15 17 4294967300 (omega arith) (omega arith) (omega arith)

unwrap-wrap_example : unwrap (wrap 4294967400 17) 17 4294967000 ≡ 4294967400
unwrap-wrap_example = unwrap-wrap 4294967400 17 4294967000 (omega arith) (omega arith) (omega arith)

abbrev text : List ℕ
text = 1 ∷ 2 ∷ 3 ∷ 4 ∷ 5 ∷ []

-- The first two bytes have been read, and the last waits.
abbrev half_full : Reassembler
half_full = record {
  output = record {
    capacity = 8;
    written = 2;
    popped = 1;
    buffer = 2 ∷ [];
    input_end = false;
    failed = false;
  };
  capacity = 8;
  substrs = (4, record { eof = true; bytes = 5 ∷ []; index = 4 }) ∷ [];
  substrs_size = 1;
}

half_full-IsConsistent : IsConsistent text (1 ∷ []) half_full
half_full-IsConsistent = record {
  output = record {
    held = record { fits = omega arith; same = refl };
    counted = refl;
    within = omega arith;
    representable = omega arith;
  };
  waiting = (record { keyed = refl; agrees = record { fits = omega arith; same = refl } }, tt);
}

push_substring-Returns_example :
    Returns text (1 ∷ []) (push_substring (2 ∷ 3 ∷ 4 ∷ []) 1 false half_full)
push_substring-Returns_example =
    push_substring-Returns text (1 ∷ []) (2 ∷ 3 ∷ 4 ∷ []) 1 false half_full (omega arith)
      (record { fits = omega arith; same = refl }) half_full-IsConsistent

abbrev events : List Event
events =
    arrives (3 ∷ 4 ∷ []) 2 false
    ∷ arrives (1 ∷ 2 ∷ 3 ∷ []) 0 false
    ∷ History.reads 2
    ∷ arrives (4 ∷ 5 ∷ []) 3 true
    ∷ []

run_prefix_example :
    (out : List ℕ) × (r : Reassembler) × (History.run [] (Reassembler.init 4) events
      ≡ some (out, r))
    × (out ++ r.output.buffer ≡ take r.output.written text)
    × (length r.output.buffer ≤ r.output.capacity)
run_prefix_example = run_prefix text 4 events (omega arith) (omega arith) (
  record { fits = omega arith; same = refl },
  (record { fits = omega arith; same = refl }, (record { fits = omega arith; same = refl }, tt)),
)

abbrev pub first_segment : TcpSegment
first_segment = record {
  header = record TcpHeader.default { syn = true; seqno = 4294967295 };
  payload = 1 ∷ 2 ∷ [];
}

-- A SYN with the first two bytes.
segment_received-in_order_example :
    (r' : TcpReceiver) × (TcpReceiver.segment_received first_segment (TcpReceiver.init 8) ≡ some r')
    × (r'.reassembler.output.buffer ≡ 1 ∷ 2 ∷ [])
    × (r'.reassembler.output.input_end ≡ false)
    × CaughtUp r'.reassembler
    × (TcpReceiver.ackno r' ≡ some (wrap 3 4294967295))
segment_received-in_order_example =
    segment_received-in_order 4294967295 first_segment (TcpReceiver.init 8) (omega arith)
      (omega arith) refl refl (unfold wrap add in refl)
      (record {
        nothing_waits = refl;
        no_bytes_wait = refl;
        one_capacity = refl;
        representable = omega arith;
      })
      refl (omega arith) (omega arith) (omega arith)
