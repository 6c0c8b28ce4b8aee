-- ===== src/TcpSender.antt =====
-- libsponge/tcp_sender.hh and tcp_sender.cc: `TCPSender`. A `std::queue` is a list, its front first.
pub mod Queued
pub mod Window
pub mod Ack
pub mod Emits
pub mod Timer
pub mod Text
use cs144_intro2network.Prelude.{
  ℕ, zero, suc, ◌+◌, ◌-◌, ◌*◌, ◌/◌, ◌%◌, ◌^◌, Bool, true, false, not, ◌&&◌, ◌||◌, Option, none,
  some, List, [], ◌∷◌, ◌++◌, length, ltb, leb, ◌==◌, if◌then◌else◌, u16_mod, u32_mod, u64_mod,
  add64, sub64,
}
use cs144_intro2network.Prelude.Map.{Map, insert}
use cs144_intro2network.ByteStream
use cs144_intro2network.ByteStream.{ByteStream, bytes_written, buffer_empty, eof, read}
use cs144_intro2network.Wrapping.{wrap, unwrap}
use cs144_intro2network.Wire.TcpHeader
use cs144_intro2network.Wire.TcpHeader.{TcpHeader}
use cs144_intro2network.Wire.TcpSegment
use cs144_intro2network.Wire.TcpSegment.{TcpSegment, length_in_sequence_space}

-- `TCPConfig::MAX_PAYLOAD_SIZE`.
abbrev pub max_payload_size : ℕ
max_payload_size = 1000

pub record TcpSender : Type 0 where
  pub isn : ℕ
  pub segments_out : List TcpSegment
  pub initial_retransmission_timeout : ℕ
  pub stream : ByteStream
  pub next_seqno : ℕ
  pub outstanding_segs : Map TcpSegment
  pub win_size : ℕ
  pub ackno : ℕ
  pub rx_time_left : ℕ
  pub timer_running : Bool
  pub rx_times : ℕ
  pub zero_win_seg : TcpSegment
  pub zero_win_seg_send : Bool
  pub zero_win_seg_seq : ℕ

-- The constructor; `isn` is the fixed or the random initial sequence number.
abbrev pub init : ℕ → ℕ → ℕ → TcpSender
init capacity retx_timeout isn = record {
  isn = isn;
  segments_out = [];
  initial_retransmission_timeout = retx_timeout;
  stream = ByteStream.init capacity;
  next_seqno = 0;
  outstanding_segs = [];
  win_size = 0;
  ackno = 0;
  rx_time_left = retx_timeout;
  timer_running = false;
  rx_times = 0;
  zero_win_seg = TcpSegment.default;
  zero_win_seg_send = false;
  zero_win_seg_seq = 0;
}

-- `std::less`.
abbrev pub before : ℕ → ℕ → Bool
before a b = ltb a b

unfoldable pub total_length : ℕ → Map TcpSegment → ℕ
total_length total [] = total
total_length total ((key, seg) ∷ segs) =
    total_length (add64 total (length_in_sequence_space seg)) segs

unfoldable pub bytes_in_flight : TcpSender → ℕ
unfolding total_length
bytes_in_flight s = total_length 0 s.outstanding_segs

abbrev pub consecutive_retransmissions : TcpSender → ℕ
consecutive_retransmissions s = s.rx_times % u32_mod

-- `next_seqno()`, the relative number.
abbrev pub next_seqno_relative : TcpSender → ℕ
next_seqno_relative s = wrap s.next_seqno s.isn

unfoldable pub start_timer : TcpSender → TcpSender
start_timer s =
    if s.timer_running
    then s
    else record s { timer_running = true; rx_time_left = s.initial_retransmission_timeout }

-- Enqueues a segment at `_next_seqno` and remembers it as outstanding.
unfoldable pub track : TcpSegment → TcpSender → TcpSender
unfolding start_timer
track seg s = start_timer (record s {
  segments_out = s.segments_out ++ seg ∷ [];
  outstanding_segs = insert before s.next_seqno seg s.outstanding_segs;
  next_seqno = add64 s.next_seqno (length_in_sequence_space seg);
})

unfoldable pub syn_segment : TcpSender → TcpSegment
syn_segment s = record {
  header = record TcpHeader.default { syn = true; seqno = s.isn };
  payload = [];
}

unfoldable pub fin_segment : TcpSender → TcpSegment
fin_segment s = record {
  header = record TcpHeader.default { fin = true; seqno = next_seqno_relative s };
  payload = [];
}

unfoldable pub transfer_size : TcpSender → ℕ
transfer_size s =
    let room = s.win_size - bytes_in_flight s in
    if ltb room max_payload_size then room % u16_mod else max_payload_size

-- The segment of a round of the data loop, for the bytes read and the sender after the read.
unfoldable pub data_segment : List ℕ → TcpSender → TcpSegment
data_segment bytes s =
    let plain : TcpSegment = record {
      header = record TcpHeader.default { seqno = next_seqno_relative s };
      payload = bytes;
    } in
    if ltb (add64 (bytes_in_flight s) (length_in_sequence_space plain)) s.win_size && eof s.stream
    then record plain {
      header = record TcpHeader.default { seqno = next_seqno_relative s; fin = true };
    }
    else plain

unfoldable pub send_data_one : TcpSender → TcpSender
unfolding track data_segment transfer_size read
send_data_one s =
    let (bytes, stream) = read s.stream (transfer_size s) in
    let s' = record s { stream = stream } in track (data_segment bytes s') s'

-- The data loop. Each round reads at least a byte of the stream, whose bytes are the fuel.
unfoldable pub send_data : ℕ → TcpSender → Option TcpSender
unfolding send_data_one bytes_in_flight
send_data zero s =
    if not (buffer_empty s.stream) && ltb (bytes_in_flight s) s.win_size then none else some s
send_data (suc fuel) s =
    let rest = send_data fuel (send_data_one s) in
    if not (buffer_empty s.stream) && ltb (bytes_in_flight s) s.win_size then rest else some s

unfoldable pub send_fin : TcpSender → TcpSender
unfolding track fin_segment
send_fin s =
    if eof s.stream && ltb s.next_seqno (add64 (bytes_written s.stream) 2)
    then track (fin_segment s) s
    else s

abbrev pub or_same : TcpSender → Option TcpSender → TcpSender
or_same s none = s
or_same s (some t) = t

-- The branch for an open window.
unfoldable pub fill_open : TcpSender → TcpSender
unfolding send_fin send_data
fill_open s = let s' = send_fin s in or_same s' (send_data (length s'.stream.buffer) s')

-- Sends `_zero_win_seg` as it stands after `change`.
unfoldable pub send_probe : TcpSegment → TcpSender → TcpSender
unfolding start_timer
send_probe seg s = start_timer (record s {
  zero_win_seg_send = true;
  zero_win_seg = seg;
  zero_win_seg_seq = s.next_seqno;
  next_seqno = add64 s.next_seqno (length_in_sequence_space seg);
  segments_out = s.segments_out ++ seg ∷ [];
})

unfoldable pub probe_data : TcpSender → TcpSender
unfolding send_probe read
probe_data s =
    if not (buffer_empty s.stream) && not s.zero_win_seg_send
    then (let (bytes, stream) = read s.stream 1 in
        send_probe
          (record {
            header = record (s.zero_win_seg.header) { seqno = next_seqno_relative s };
            payload = bytes;
          })
          (record s { stream = stream }))
    else s

unfoldable pub probe_fin : TcpSender → TcpSender
unfolding send_probe
probe_fin s =
    if eof s.stream && not s.zero_win_seg_send
    then send_probe
        (record {
          header = record (s.zero_win_seg.header) { seqno = next_seqno_relative s; fin = true };
          payload = [];
        })
        s
    else s

-- The branch for a window of zero.
unfoldable pub fill_zero : TcpSender → TcpSender
unfolding probe_data probe_fin
fill_zero s = probe_fin (probe_data s)

unfoldable pub fill_window : TcpSender → TcpSender
unfolding track syn_segment fill_open fill_zero bytes_in_flight
fill_window s =
    if s.next_seqno == 0
    then track (syn_segment s) s
    else if ltb (bytes_in_flight s) s.win_size && not s.zero_win_seg_send
    then fill_open s
    else if s.win_size == 0 && ltb (bytes_in_flight s) s.next_seqno
    then fill_zero s
    else s

-- The loop of `ack_received`: drops what is acknowledged in full, and stops at the first segment
-- that begins at or past the number.
unfoldable pub drop_acked : ℕ → Map TcpSegment → Map TcpSegment
drop_acked ack [] = []
drop_acked ack ((key, seg) ∷ segs) =
    let rest = drop_acked ack segs in
    if ltb (sub64 (add64 (length_in_sequence_space seg) key) 1) ack
    then rest
    else if leb ack key
    then (key, seg) ∷ segs
    else (key, seg) ∷ rest

-- The absolute number that is acknowledged; `none` for one that cannot be.
unfoldable pub ack_absolute : ℕ → TcpSender → Option ℕ
ack_absolute ackno s =
    let a = unwrap ackno s.isn s.next_seqno in
    if ltb s.next_seqno a then (if ltb a u32_mod then none else some (a - u32_mod)) else some a

-- The rest of `ack_received`, from the test of `_zero_win_seg_seq` on.
unfoldable pub acknowledge : ℕ → ℕ → ℕ → TcpSender → TcpSender
unfolding drop_acked
acknowledge a ackno window_size s =
    let zero_send = if ltb s.zero_win_seg_seq a then false else s.zero_win_seg_send in
    let segs = drop_acked a s.outstanding_segs in
    let running = if length segs == 0 && not zero_send then false else s.timer_running in
    let newer = not (s.ackno == ackno) in
    let timeout =
      if newer
      then s.initial_retransmission_timeout / 2 ^ s.rx_times
      else s.initial_retransmission_timeout in
    record s {
      zero_win_seg_send = zero_send;
      outstanding_segs = segs;
      timer_running = running;
      initial_retransmission_timeout = timeout;
      rx_times = if newer then 0 else s.rx_times;
      rx_time_left = if newer then timeout else s.rx_time_left;
      win_size = window_size;
      ackno = ackno;
    }

unfoldable pub ack_received : ℕ → ℕ → TcpSender → TcpSender
unfolding ack_absolute acknowledge
ack_received ackno window_size s = elim (ack_absolute ackno s) [
  | none ↦ s
  | some a ↦ acknowledge a ackno window_size s
]

abbrev pub time_after : ℕ → TcpSender → ℕ
time_after ms s = if ltb ms s.rx_time_left then s.rx_time_left - ms else 0

abbrev restart : TcpSender → TcpSender
restart s = record s { timer_running = true; rx_time_left = s.initial_retransmission_timeout }

-- `tick` while a zero-window segment is out.
unfoldable pub tick_zero : ℕ → TcpSender → TcpSender
tick_zero ms s =
    let left = time_after ms s in
    if left == 0
    then restart (record s { segments_out = s.segments_out ++ s.zero_win_seg ∷ [] })
    else record s { rx_time_left = left }

abbrev back_off : TcpSender → TcpSender
back_off s =
    if not (s.win_size == 0) || (ltb 0 s.next_seqno && s.next_seqno == bytes_in_flight s)
    then record s {
      rx_times = add64 s.rx_times 1;
      initial_retransmission_timeout = s.initial_retransmission_timeout * 2 % u32_mod;
    }
    else s

-- `tick` with segments outstanding and the timer running; `seg` is the oldest.
unfoldable pub tick_running : ℕ → TcpSegment → TcpSender → TcpSender
unfolding bytes_in_flight
tick_running ms seg s =
    let left = time_after ms s in
    if left == 0
    then (let s' = back_off s in restart (record s' { segments_out = s'.segments_out ++ seg ∷ [] }))
    else record s { rx_time_left = left }

unfoldable pub tick_oldest : ℕ → Map TcpSegment → TcpSender → TcpSender
unfolding tick_running
tick_oldest ms [] s = record s { timer_running = false }
tick_oldest ms ((key, seg) ∷ segs) s =
    if s.timer_running then tick_running ms seg s else record s { timer_running = false }

unfoldable pub tick : ℕ → TcpSender → TcpSender
unfolding tick_zero tick_oldest
tick ms s = if s.zero_win_seg_send then tick_zero ms s else tick_oldest ms s.outstanding_segs s

unfoldable pub send_empty_segment : TcpSender → TcpSender
send_empty_segment s = record s {
  segments_out =
      s.segments_out
      ++ record {
        header = record TcpHeader.default { seqno = next_seqno_relative s };
        payload = [];
      }
        ∷ [];
}
