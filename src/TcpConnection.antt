-- ===== src/TcpConnection.antt =====
-- libsponge/tcp_connection.hh and tcp_connection.cc: `TCPConnection`.
pub mod Queued
pub mod Reset
pub mod Linger
pub mod Output
pub mod Text
use cs144_intro2network.Prelude.{
  ℕ, ◌+◌, ◌*◌, ◌%◌, Bool, true, false, not, ◌&&◌, Option, none, some, List, [], ◌∷◌, ◌++◌, length,
  ltb, leb, ◌==◌, if◌then◌else◌, u16_mod, add64,
}
use cs144_intro2network.ByteStream
use cs144_intro2network.ByteStream.{
  ByteStream, bytes_written, eof, error, input_ended, set_error, end_input, remaining_capacity,
}
use cs144_intro2network.Wrapping.{sub}
use cs144_intro2network.Wire.TcpHeader
use cs144_intro2network.Wire.TcpHeader.{TcpHeader}
use cs144_intro2network.Wire.TcpSegment
use cs144_intro2network.Wire.TcpSegment.{TcpSegment, length_in_sequence_space}
use cs144_intro2network.TcpReceiver
use cs144_intro2network.TcpReceiver.{TcpReceiver, stream_out, window_size}
use cs144_intro2network.TcpSender
use cs144_intro2network.TcpSender.{
  TcpSender, bytes_in_flight, fill_window, ack_received, send_empty_segment,
  consecutive_retransmissions,
}

pub record TcpConnection : Type 0 where
  pub rt_timeout : ℕ
  pub receiver : TcpReceiver
  pub sender : TcpSender
  pub segments_out : List TcpSegment
  pub linger_after_streams_finish : Bool
  pub time_since_last_seg_rec : ℕ

-- The constructor, for the fields of `TCPConfig`; `isn` as for the sender.
abbrev pub init : ℕ → ℕ → ℕ → ℕ → TcpConnection
init rt_timeout recv_capacity send_capacity isn = record {
  rt_timeout = rt_timeout;
  receiver = TcpReceiver.init recv_capacity;
  sender = TcpSender.init send_capacity rt_timeout isn;
  segments_out = [];
  linger_after_streams_finish = true;
  time_since_last_seg_rec = 0;
}

-- `TCPConfig::MAX_RETX_ATTEMPTS`.
abbrev pub max_retx_attempts : ℕ
max_retx_attempts = 8

-- The acknowledgement that an outgoing segment carries; `win` is a `uint16_t`.
abbrev pub fill_header : Option ℕ → ℕ → TcpHeader → TcpHeader
fill_header none win h = h
fill_header (some ackno) win h = record h { ack = true; ackno = ackno; win = win % u16_mod }

unfoldable pub fill_ack : TcpConnection → TcpSegment → TcpSegment
fill_ack c seg = record seg {
  header = fill_header (TcpReceiver.ackno c.receiver) (window_size c.receiver) seg.header;
}

-- `send_common_seg`, on the sender's queue. Its callers see to it that the queue is not empty.
unfoldable pub send_common_from : List TcpSegment → TcpConnection → TcpConnection
unfolding fill_ack
send_common_from [] c = c
send_common_from (seg ∷ rest) c = record c {
  sender = record c.sender { segments_out = rest };
  segments_out = c.segments_out ++ fill_ack c seg ∷ [];
}

unfoldable pub send_common_seg : TcpConnection → TcpConnection
unfolding send_common_from
send_common_seg c = send_common_from c.sender.segments_out c

-- `send_all_segs`: a round for each segment of the sender's queue.
unfoldable pub send_all_from : List TcpSegment → TcpConnection → TcpConnection
unfolding send_common_from
send_all_from [] c = c
send_all_from (seg ∷ rest) c = send_all_from rest (send_common_from (seg ∷ rest) c)

unfoldable pub send_all_segs : TcpConnection → TcpConnection
unfolding send_all_from
send_all_segs c = send_all_from c.sender.segments_out c

abbrev pub with_sender : TcpSender → TcpConnection → TcpConnection
with_sender s c = record c { sender = s }

-- The front of the queue goes out as a RST and stays in the sender's queue.
unfoldable pub send_rst_from : List TcpSegment → TcpConnection → TcpConnection
unfolding fill_ack
send_rst_from [] c = c
send_rst_from (seg ∷ rest) c = record c {
  segments_out =
      c.segments_out
      ++ fill_ack c (record seg { header = record (seg.header) { rst = true } }) ∷ [];
}

abbrev pub ensure_segment : TcpConnection → TcpConnection
ensure_segment c =
    if length c.sender.segments_out == 0 then with_sender (send_empty_segment c.sender) c else c

unfoldable pub send_rst_seg : TcpConnection → TcpConnection
unfolding send_rst_from
send_rst_seg c = let c' = ensure_segment c in send_rst_from c'.sender.segments_out c'

unfoldable pub time_wait_state : TcpConnection → Bool
time_wait_state c =
    eof (stream_out c.receiver)
    && (eof c.sender.stream
        && (bytes_in_flight c.sender == 0
            && (add64 (bytes_written c.sender.stream) 2 == c.sender.next_seqno
                && not c.sender.zero_win_seg_send)))

abbrev pub is_some {ℓ} : {A : Type ℓ} → Option A → Bool
is_some none = false
is_some (some a) = true

unfoldable pub connection_establish : TcpConnection → Bool
connection_establish c =
    is_some (TcpReceiver.ackno c.receiver) && ltb (bytes_in_flight c.sender) c.sender.next_seqno

unfoldable pub active : TcpConnection → Bool
unfolding time_wait_state
active c =
    if error c.sender.stream && error (stream_out c.receiver)
    then false
    else if not c.linger_after_streams_finish
    then not (time_wait_state c)
    else not (time_wait_state c && leb (10 * c.rt_timeout) c.time_since_last_seg_rec)

abbrev pub remaining_outbound_capacity : TcpConnection → ℕ
remaining_outbound_capacity c = remaining_capacity c.sender.stream

-- `set_error` on both streams.
unfoldable pub set_errors : TcpConnection → TcpConnection
set_errors c = record c {
  sender = record c.sender { stream = set_error c.sender.stream };
  receiver = record c.receiver {
    reassembler = record (c.receiver.reassembler) { output = set_error (stream_out c.receiver) };
  };
}

-- The part of `segment_received` for the sender.
unfoldable pub to_sender : TcpSegment → TcpConnection → TcpConnection
unfolding ack_received fill_window
to_sender seg c =
    if seg.header.ack
    then (let s = ack_received seg.header.ackno seg.header.win c.sender in
        with_sender (if s.next_seqno == 0 then s else fill_window s) c)
    else c

unfoldable pub note_arrival : TcpConnection → TcpConnection
unfolding time_wait_state
note_arrival c =
    let c' = if time_wait_state c then record c { time_since_last_seg_rec = 0 } else c in
    if input_ended (stream_out c'.receiver) && not (input_ended c'.sender.stream)
    then record c' { linger_after_streams_finish = false }
    else c'

-- The reply to a segment that takes up sequence numbers.
unfoldable pub reply : TcpSegment → TcpConnection → TcpConnection
unfolding send_common_seg fill_window
reply seg c =
    if not (length_in_sequence_space seg == 0) && is_some (TcpReceiver.ackno c.receiver)
    then (let c' = if c.sender.next_seqno == 0 then with_sender (fill_window c.sender) c else c in
        send_common_seg (ensure_segment c'))
    else c

abbrev keep_alive_at : Option ℕ → ℕ → Bool
keep_alive_at none seqno = false
keep_alive_at (some ackno) seqno = seqno == sub ackno 1

-- The reply to a keep-alive segment.
unfoldable pub reply_keep_alive : TcpSegment → TcpConnection → TcpConnection
unfolding send_common_seg
reply_keep_alive seg c =
    if length_in_sequence_space seg == 0
      && keep_alive_at (TcpReceiver.ackno c.receiver) seg.header.seqno
    then send_common_seg (with_sender (send_empty_segment c.sender) c)
    else c

-- What follows the receiver's part.
unfoldable pub after_receiver : TcpSegment → TcpConnection → TcpConnection
unfolding to_sender note_arrival reply send_all_segs reply_keep_alive
after_receiver seg c =
    reply_keep_alive seg (send_all_segs (reply seg (note_arrival (to_sender seg c))))

-- `none` if the receiver's call does not return.
unfoldable pub segment_received : TcpSegment → TcpConnection → Option TcpConnection
unfolding after_receiver set_errors active
segment_received seg c =
    if not (active c)
    then some c
    else if seg.header.rst
    then some (set_errors c)
    else (elim (TcpReceiver.segment_received seg c.receiver) [
      | none ↦ none
      | some r ↦ some (after_receiver seg (record c { receiver = r }))
    ])

-- Returns how many bytes were written beside the connection.
unfoldable pub write : List ℕ → TcpConnection → TcpConnection × ℕ
unfolding connection_establish send_all_segs
write bytes c =
    let (stream, n) = ByteStream.write c.sender.stream bytes in
    let c' = with_sender (record c.sender { stream = stream }) c in
    (
      if connection_establish c'
          then send_all_segs (with_sender (fill_window c'.sender) c')
          else c',
      n,
    )

-- The part of `tick` after the sender's.
unfoldable pub after_tick : ℕ → TcpConnection → TcpConnection
unfolding time_wait_state set_errors send_rst_seg active send_all_segs
after_tick ms c =
    let c1 =
      if time_wait_state c
      then record c { time_since_last_seg_rec = add64 c.time_since_last_seg_rec ms }
      else c in
    let c2 =
      if ltb max_retx_attempts (consecutive_retransmissions c1.sender)
      then send_rst_seg (set_errors c1)
      else c1 in
    if active c2 then send_all_segs c2 else c2

unfoldable pub tick : ℕ → TcpConnection → TcpConnection
unfolding after_tick active
tick ms c = if active c then after_tick ms (with_sender (TcpSender.tick ms c.sender) c) else c

unfoldable pub end_input_stream : TcpConnection → TcpConnection
unfolding send_all_segs
end_input_stream c =
    send_all_segs
      (with_sender (fill_window (record c.sender { stream = end_input c.sender.stream })) c)

-- `connect` sends the front of the sender's queue as it stands; `none` where that queue is empty,
-- which the source leaves undefined.
unfoldable pub connect_from : List TcpSegment → TcpConnection → Option TcpConnection
connect_from [] c = none
connect_from (seg ∷ rest) c = some (record c {
  sender = record c.sender { segments_out = rest };
  segments_out = c.segments_out ++ seg ∷ [];
})

unfoldable pub connect : TcpConnection → Option TcpConnection
unfolding connect_from
connect c = let s = fill_window c.sender in connect_from s.segments_out (with_sender s c)

-- The destructor: what it leaves in `segments_out`.
unfoldable pub destroy : TcpConnection → TcpConnection
unfolding active set_errors send_rst_seg
destroy c = if active c then send_rst_seg (set_errors c) else c
