-- ===== src/TcpReceiver.antt =====
-- libsponge/tcp_receiver.hh and tcp_receiver.cc: `TCPReceiver`.
pub mod Delivery
pub mod InOrder
use cs144_intro2network.Prelude.{
  ℕ, ◌+◌, Bool, true, false, Option, none, some, List, if◌then◌else◌, add32, add64, sub64,
}
use cs144_intro2network.ByteStream.{ByteStream, bytes_written, input_ended, remaining_capacity}
use cs144_intro2network.Wrapping.{wrap, unwrap}
use cs144_intro2network.Reassembler
use cs144_intro2network.Reassembler.{Reassembler, Outcome, done, threw, out_of_fuel, push_substring}
use cs144_intro2network.Wire.TcpSegment.{TcpSegment}

pub record TcpReceiver : Type 0 where
  pub reassembler : Reassembler
  pub capacity : ℕ
  pub isn : ℕ
  pub isn_set : Bool

abbrev pub init : ℕ → TcpReceiver
init capacity = record {
  reassembler = Reassembler.init capacity;
  capacity = capacity;
  isn = 0;
  isn_set = false;
}

abbrev pub stream_out : TcpReceiver → ByteStream
stream_out r = r.reassembler.output

abbrev pub unassembled_bytes : TcpReceiver → ℕ
unassembled_bytes r = Reassembler.unassembled_bytes r.reassembler

-- What the SYN flag does: the ISN is kept.
abbrev pub note_syn : TcpSegment → TcpReceiver → TcpReceiver
note_syn seg r = if seg.header.syn then record r { isn = seg.header.seqno; isn_set = true } else r

-- The sequence number of the first payload byte.
abbrev pub data_seqno : TcpSegment → ℕ
data_seqno seg = if seg.header.syn then add32 seg.header.seqno 1 else seg.header.seqno

-- The stream index that the payload is pushed at.
abbrev pub data_index : TcpSegment → TcpReceiver → ℕ
data_index seg r = sub64 (unwrap (data_seqno seg) r.isn (bytes_written (stream_out r))) 1

-- `none` if `push_substring` does not return.
abbrev pub pushed : TcpReceiver → Outcome → Option TcpReceiver
pushed r (done a) = some (record r { reassembler = a })
pushed r threw = none
pushed r out_of_fuel = none

unfoldable pub segment_received : TcpSegment → TcpReceiver → Option TcpReceiver
segment_received seg r =
    let r' = note_syn seg r in
    if r'.isn_set
    then pushed r' (push_substring seg.payload (data_index seg r') seg.header.fin r'.reassembler)
    else some r'

unfoldable pub ackno : TcpReceiver → Option ℕ
ackno r =
    if r.isn_set
    then (if input_ended (stream_out r)
        then some (wrap (add64 (bytes_written (stream_out r)) 2) r.isn)
        else some (wrap (add64 (bytes_written (stream_out r)) 1) r.isn))
    else none

unfoldable pub window_size : TcpReceiver → ℕ
window_size r = remaining_capacity (stream_out r)
