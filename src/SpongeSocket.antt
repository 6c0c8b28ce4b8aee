-- ===== src/SpongeSocket.antt =====
-- libsponge/tcp_helpers/tcp_sponge_socket.hh and tcp_sponge_socket.cc: `TCPSpongeSocket`, as its TCP thread
-- sees it. The datagram adapter, like the kernel, is a parameter; a function that throws gives `none`.
pub mod Loop
pub mod Pipe
pub mod Serviced
pub mod Connect
use cs144_intro2network.Prelude.{
  ℕ, min, Bool, true, false, not, ◌&&◌, ◌||◌, Option, none, some, List, [], ◌∷◌, length, ltb, ◌==◌,
  if◌then◌else◌, sub64,
}
use cs144_intro2network.ByteStream
use cs144_intro2network.ByteStream.{
  ByteStream, buffer_size, buffer_empty, peek_output, pop_output, eof, error, remaining_capacity,
}
use cs144_intro2network.Wire.TcpSegment.{TcpSegment}
use cs144_intro2network.TcpReceiver.{stream_out}
use cs144_intro2network.TcpSender.{bytes_in_flight}
use cs144_intro2network.TcpConnection
use cs144_intro2network.TcpConnection.{
  destroy, TcpConnection, segment_received, write, end_input_stream, active,
  remaining_outbound_capacity, tick,
}
use cs144_intro2network.TcpState.{TcpState, State, summarize, official, same_state}
use cs144_intro2network.TcpConnection.{connect}
use cs144_intro2network.EventLoop.{
  Direction, dir_in, dir_out, Files, Rule, Poll, Result, success, timeout, exit, wait_next_event,
  add_rule,
}
use cs144_intro2network.FileDescriptor
use cs144_intro2network.FileDescriptor.{
  Kernel, FdWrapper, Outcome, Returned, done, threw, out_of_fuel, shut_wr, shut_rdwr,
}

-- What the socket asks of its `AdaptT`, whose calls may throw.
pub record Adapter (A K : Type 0) : Type 0 where
  pub receive : A → K → Option (Option TcpSegment × A × K)
  pub send : TcpSegment → A → K → Option (A × K)
  pub pass : ℕ → A → K → Option (A × K)
  pub at_eof : A → Bool
  pub is_closed : A → Bool
  pub reads : A → ℕ
  pub writes : A → ℕ

-- The members that the rules use, `_tcp` having its value, with the kernel.
pub record Socket (A K : Type 0) : Type 0 where
  pub tcp : TcpConnection
  pub thread_data : FdWrapper
  pub datagram_adapter : A
  pub inbound_shutdown : Bool
  pub outbound_shutdown : Bool
  pub fully_acked : Bool
  pub kernel : K

-- The two descriptors that the rules are for.
pub data Descriptor : Type 0 where
  pipe : Descriptor
  network : Descriptor

module _ {A K : Type 0} (sys : Kernel K) (adapter : Adapter A K) where
  abbrev file_eof : Descriptor → Socket A K → Bool
  file_eof pipe s = s.thread_data.eof
  file_eof network s = adapter.at_eof s.datagram_adapter

  abbrev file_closed : Descriptor → Socket A K → Bool
  file_closed pipe s = s.thread_data.closed
  file_closed network s = adapter.is_closed s.datagram_adapter

  abbrev file_reads : Descriptor → Socket A K → ℕ
  file_reads pipe s = s.thread_data.read_count
  file_reads network s = adapter.reads s.datagram_adapter

  abbrev file_writes : Descriptor → Socket A K → ℕ
  file_writes pipe s = s.thread_data.write_count
  file_writes network s = adapter.writes s.datagram_adapter

  abbrev pub files : Files Descriptor (Socket A K)
  files = record {
    eof = file_eof;
    closed = file_closed;
    read_count = file_reads;
    write_count = file_writes;
  }

  abbrev pub inbound : Socket A K → ByteStream
  inbound s = stream_out s.tcp.receiver

  abbrev pub with_tcp : TcpConnection → Socket A K → Socket A K
  with_tcp c s = record s { tcp = c }

  -- Rule 1: a segment from the adapter, if it has one, for the connection.
  unfoldable pub give : Option TcpSegment → Socket A K → Option (Socket A K)
  unfolding segment_received
  give none s = some s
  give (some seg) s = elim (segment_received seg s.tcp) [
    | none ↦ none
    | some c ↦ some (with_tcp c s)
  ]

  abbrev pub note_acked : Option (Socket A K) → Option (Socket A K)
  note_acked none = none
  note_acked (some s) =
      if s.thread_data.eof && (bytes_in_flight s.tcp.sender == 0 && not s.fully_acked)
      then some (record s { fully_acked = true })
      else some s

  unfoldable pub read_datagram : Socket A K → Option (Socket A K)
  unfolding give
  read_datagram s = elim (adapter.receive s.datagram_adapter s.kernel) [
    | none ↦ none
    | some (seg, a, k) ↦ note_acked (give seg (record s { datagram_adapter = a; kernel = k }))
  ]

  -- Rule 2: from the pipe into the outbound stream.
  abbrev pub shut_outbound : Socket A K → Socket A K
  shut_outbound s = record s { tcp = end_input_stream s.tcp; outbound_shutdown = true }

  unfoldable pub give_bytes : List ℕ → Socket A K → Option (Socket A K)
  unfolding write end_input_stream
  give_bytes bytes s =
      let (c, amount_written) = write bytes s.tcp in
      let s' = with_tcp c s in
      if not (amount_written == length bytes)
      then none
      else if s'.thread_data.eof
      then some (shut_outbound s')
      else some s'

  -- For what the read gives.
  unfoldable pub take_bytes : Returned K (List ℕ) → Socket A K → Option (Socket A K)
  unfolding give_bytes
  take_bytes (done bytes, f, k) s = give_bytes bytes (record s { thread_data = f; kernel = k })
  take_bytes (threw, f, k) s = none
  take_bytes (out_of_fuel, f, k) s = none

  unfoldable pub read_pipe : Socket A K → Option (Socket A K)
  unfolding take_bytes
  read_pipe s =
      take_bytes
        (FileDescriptor.read sys (remaining_outbound_capacity s.tcp) s.thread_data s.kernel) s

  abbrev pub wants_bytes : Socket A K → Bool
  wants_bytes s =
      active s.tcp && (not s.outbound_shutdown && ltb 0 (remaining_outbound_capacity s.tcp))

  -- Rule 3: from the inbound stream into the pipe.
  abbrev pub amount_to_write : ByteStream → ℕ
  amount_to_write o = min 65536 (buffer_size o)

  abbrev pub with_inbound : ByteStream → Socket A K → Socket A K
  with_inbound o s = record s {
    tcp = record s.tcp {
      receiver = record s.tcp.receiver {
        reassembler = record s.tcp.receiver.reassembler { output = o };
      };
    };
  }

  abbrev pub mark_inbound : Returned K Unit → Socket A K → Option (Socket A K)
  mark_inbound (done _, f, k) s =
      some (record s { thread_data = f; kernel = k; inbound_shutdown = true })
  mark_inbound (threw, f, k) s = none
  mark_inbound (out_of_fuel, f, k) s = none

  unfoldable pub shut_inbound : Socket A K → Option (Socket A K)
  shut_inbound s = mark_inbound (FileDescriptor.shutdown sys shut_wr s.thread_data s.kernel) s

  -- For what the write gives: only what was written leaves the stream.
  unfoldable pub pop_written : Returned K ℕ → Socket A K → Option (Socket A K)
  unfolding shut_inbound
  pop_written (done bytes_written, f, k) s =
      let o = pop_output (inbound s) bytes_written in
      let s' = with_inbound o (record s { thread_data = f; kernel = k }) in
      if eof o || error o then shut_inbound s' else some s'
  pop_written (threw, f, k) s = none
  pop_written (out_of_fuel, f, k) s = none

  unfoldable pub write_pipe : Socket A K → Option (Socket A K)
  unfolding pop_written
  write_pipe s =
      let o = inbound s in
      pop_written
        (FileDescriptor.write sys false (peek_output o (amount_to_write o) ∷ []) s.thread_data
          s.kernel)
        s

  abbrev pub has_bytes : Socket A K → Bool
  has_bytes s =
      let o = inbound s in not (buffer_empty o) || ((eof o || error o) && not s.inbound_shutdown)

  -- Rule 4: the loop over `segments_out`, a round for each segment.
  unfoldable pub send_from : List TcpSegment → Socket A K → Option (Socket A K)
  send_from [] s = some (with_tcp (record s.tcp { segments_out = [] }) s)
  send_from (seg ∷ rest) s = elim (adapter.send seg s.datagram_adapter s.kernel) [
    | none ↦ none
    | some (a, k) ↦
        send_from rest (record s {
          datagram_adapter = a;
          kernel = k;
          tcp = record s.tcp { segments_out = rest };
        })
  ]

  abbrev pub write_datagrams : Socket A K → Option (Socket A K)
  write_datagrams s = send_from s.tcp.segments_out s

  abbrev pub has_segments : Socket A K → Bool
  has_segments s = not (length s.tcp.segments_out == 0)

  abbrev pub network_in : Rule Descriptor (Socket A K)
  network_in = record {
    fd = network;
    direction = dir_in;
    callback = read_datagram;
    interest = λ s. active s.tcp;
    cancel = some;
  }

  abbrev pub pipe_in : Rule Descriptor (Socket A K)
  pipe_in = record {
    fd = pipe;
    direction = dir_in;
    callback = read_pipe;
    interest = wants_bytes;
    cancel = λ s. some (shut_outbound s);
  }

  abbrev pub pipe_out : Rule Descriptor (Socket A K)
  pipe_out = record {
    fd = pipe;
    direction = dir_out;
    callback = write_pipe;
    interest = has_bytes;
    cancel = some;
  }

  abbrev pub network_out : Rule Descriptor (Socket A K)
  network_out = record {
    fd = network;
    direction = dir_out;
    callback = write_datagrams;
    interest = has_segments;
    cancel = some;
  }

  -- The rules that `_initialize_TCP` adds.
  abbrev pub rules : List (Rule Descriptor (Socket A K))
  rules = add_rule network_out (add_rule pipe_out (add_rule pipe_in (add_rule network_in [])))
