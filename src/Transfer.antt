-- ===== src/Transfer.antt =====
-- libsponge/tcp_sender.* against libsponge/tcp_receiver.*: a `TCPSender` and a `TCPReceiver` with a
-- network between them that loses, repeats and reorders segments.
pub mod Padding
pub mod Prefix
use cs144_intro2network.Prelude.{
  ℕ, List, Option, none, some, ◌∷◌, ◌++◌, [], if◌then◌else◌, take, get_elem?, ◌==◌, drop,
}
use cs144_intro2network.ByteStream
use cs144_intro2network.ByteStream.{write, read, end_input}
use cs144_intro2network.Wire.TcpSegment.{TcpSegment}
use cs144_intro2network.TcpSender
use cs144_intro2network.TcpSender.{TcpSender, fill_window, ack_received, send_empty_segment}
use cs144_intro2network.TcpReceiver
use cs144_intro2network.TcpReceiver.{TcpReceiver, segment_received, stream_out}

-- Both ends, every segment sent so far, and the bytes that the reader has had.
pub record World : Type 0 where
  pub sender : TcpSender
  pub sent : List TcpSegment
  pub receiver : TcpReceiver
  pub heard : List ℕ

abbrev pub init : ℕ → ℕ → ℕ → ℕ → World
init send_capacity recv_capacity retx_timeout isn = record {
  sender = TcpSender.init send_capacity retx_timeout isn;
  sent = [];
  receiver = TcpReceiver.init recv_capacity;
  heard = [];
}

-- The writer writes the next bytes of its text, or ends the stream; the sender's calls; its queue
-- goes out; the network delivers a segment that was sent; the reader reads.
pub data Event : Type 0 where
  writes : ℕ → Event
  ends : Event
  fills : Event
  acks : ℕ → ℕ → Event
  ticks : ℕ → Event
  empties : Event
  transmits : Event
  delivers : ℕ → Event
  reads : ℕ → Event

abbrev pub with_sender : TcpSender → World → World
with_sender s w = record w { sender = s }

-- A writer writes nothing after the end, and an empty segment is sent after the SYN only.
unfoldable pub write_next : List ℕ → ℕ → TcpSender → TcpSender
write_next text n s =
    if s.stream.input_end
    then s
    else record s { stream = (write s.stream (take n (drop s.stream.written text))).0 }

unfoldable pub send_empty : TcpSender → TcpSender
send_empty s = if s.next_seqno == 0 then s else send_empty_segment s

-- `none` if the receiver's call does not return.
unfoldable pub deliver : Option TcpSegment → World → Option World
deliver none w = some w
deliver (some seg) w = elim (segment_received seg w.receiver) [
  | none ↦ none
  | some r ↦ some (record w { receiver = r })
]

abbrev pub hear : ℕ → World → World
hear n w =
    let (bytes, o) = read (stream_out w.receiver) n in
    record w {
      receiver = record w.receiver { reassembler = record w.receiver.reassembler { output = o } };
      heard = w.heard ++ bytes;
    }

unfoldable pub step : List ℕ → Event → World → Option World
unfolding write_next send_empty deliver
step text (writes n) w = some (with_sender (write_next text n w.sender) w)
step text ends w = some (with_sender (record w.sender { stream = end_input w.sender.stream }) w)
step text fills w = some (with_sender (fill_window w.sender) w)
step text (acks ackno window) w = some (with_sender (ack_received ackno window w.sender) w)
step text (ticks ms) w = some (with_sender (TcpSender.tick ms w.sender) w)
step text empties w = some (with_sender (send_empty w.sender) w)
step text transmits w = some (record w {
  sender = record w.sender { segments_out = [] };
  sent = w.sent ++ w.sender.segments_out;
})
step text (delivers i) w = deliver (get_elem? w.sent i) w
step text (reads n) w = some (hear n w)

unfoldable pub run : List ℕ → List Event → World → Option World
unfolding step
run text [] w = some w
run text (e ∷ events) w = elim (step text e w) [ none ↦ none | some w' ↦ run text events w' ]
