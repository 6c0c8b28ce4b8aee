-- ===== src/Exchange.antt =====
-- libsponge/tcp_connection.*: two connections, each with an application that writes a text and reads
-- what it hears, and a network between them that loses, repeats and reorders segments.
pub mod Endpoints
pub mod Prefix
use cs144_intro2network.Prelude.{
  ℕ, List, Option, none, some, ◌∷◌, ◌++◌, [], if◌then◌else◌, take, get_elem?, ◌==◌, drop, ◌<◌,
  u32_mod, u64_mod,
}
use cs144_intro2network.ByteStream.{read}
use cs144_intro2network.Wire.TcpSegment.{TcpSegment}
use cs144_intro2network.TcpReceiver.{stream_out}
use cs144_intro2network.TcpConnection
use cs144_intro2network.TcpConnection.{
  TcpConnection, segment_received, write, end_input_stream, tick, connect,
}

-- A connection, every segment that it has sent, and the bytes that its application has had.
pub record Endpoint : Type 0 where
  pub connection : TcpConnection
  pub sent : List TcpSegment
  pub heard : List ℕ

abbrev pub endpoint : TcpConnection → Endpoint
endpoint c = record { connection = c; sent = []; heard = [] }

-- The fields of `TCPConfig` that a connection uses; the number is the one that the sender drew.
pub record Config : Type 0 where
  pub rt_timeout : ℕ
  pub recv_capacity : ℕ
  pub send_capacity : ℕ
  pub isn : ℕ

-- The fields are in the range of their types.
pub record IsConfig (config : Config) : Type 0 where
  pub number : config.isn < u32_mod
  pub recv : config.recv_capacity < u64_mod
  pub send : config.send_capacity < u64_mod

abbrev pub start : Config → Endpoint
start config =
    endpoint
      (TcpConnection.init config.rt_timeout config.recv_capacity config.send_capacity config.isn)

-- What the application, the clock and the owner of the queue do. The application writes the next bytes
-- of its text; it connects at most once, and writes nothing after it has ended its stream.
pub data Call : Type 0 where
  connects : Call
  writes : ℕ → Call
  ends : Call
  ticks : ℕ → Call
  transmits : Call
  reads : ℕ → Call

abbrev pub with_connection : TcpConnection → Endpoint → Endpoint
with_connection c e = record e { connection = c }

abbrev pub write_next : List ℕ → ℕ → TcpConnection → TcpConnection
write_next text n c =
    if c.sender.stream.input_end
    then c
    else (write (take n (drop c.sender.stream.written text)) c).0

abbrev pub connect_first : TcpConnection → Option TcpConnection
connect_first c = if c.sender.next_seqno == 0 then connect c else some c

abbrev pub or_fail : Endpoint → Option TcpConnection → Option Endpoint
or_fail e none = none
or_fail e (some c) = some (with_connection c e)

abbrev pub hear : ℕ → Endpoint → Endpoint
hear n e =
    let c = e.connection in
    let (bytes, o) = read (stream_out c.receiver) n in
    record e {
      connection = record c {
        receiver = record c.receiver { reassembler = record c.receiver.reassembler { output = o } };
      };
      heard = e.heard ++ bytes;
    }

-- `none` if a call of the connection does not return.
unfoldable pub call : List ℕ → Call → Endpoint → Option Endpoint
unfolding connect write end_input_stream tick
call text connects e = or_fail e (connect_first e.connection)
call text (writes n) e = some (with_connection (write_next text n e.connection) e)
call text ends e = some (with_connection (end_input_stream e.connection) e)
call text (ticks ms) e = some (with_connection (tick ms e.connection) e)
call text transmits e = some (record e {
  connection = record e.connection { segments_out = [] };
  sent = e.sent ++ e.connection.segments_out;
})
call text (reads n) e = some (hear n e)

abbrev pub deliver : Option TcpSegment → Endpoint → Option Endpoint
deliver none e = some e
deliver (some seg) e = or_fail e (segment_received seg e.connection)

pub record World : Type 0 where
  pub us : Endpoint
  pub them : Endpoint

abbrev pub world : Config → Config → World
world ours theirs = record { us = start ours; them = start theirs }

-- A call at either end, or the delivery to one end of a segment that the other has sent.
pub data Event : Type 0 where
  ours : Call → Event
  theirs : Call → Event
  to_us : ℕ → Event
  to_them : ℕ → Event

abbrev pub with_us : World → Option Endpoint → Option World
with_us w none = none
with_us w (some e) = some (record w { us = e })

abbrev pub with_them : World → Option Endpoint → Option World
with_them w none = none
with_them w (some e) = some (record w { them = e })

unfoldable pub step : List ℕ → List ℕ → Event → World → Option World
unfolding call segment_received
step our_text their_text (ours c) w = with_us w (call our_text c w.us)
step our_text their_text (theirs c) w = with_them w (call their_text c w.them)
step our_text their_text (to_us i) w = with_us w (deliver (get_elem? w.them.sent i) w.us)
step our_text their_text (to_them i) w = with_them w (deliver (get_elem? w.us.sent i) w.them)

unfoldable pub run : List ℕ → List ℕ → List Event → World → Option World
unfolding step
run our_text their_text [] w = some w
run our_text their_text (e ∷ events) w = elim (step our_text their_text e w) [
  | none ↦ none
  | some w' ↦ run our_text their_text events w'
]
