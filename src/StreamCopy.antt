-- ===== src/StreamCopy.antt =====
-- apps/bidirectional_stream_copy.cc: `bidirectional_stream_copy`, over a kernel as in FileDescriptor; the
-- descriptors have been made non-blocking. A function that throws gives `none`.
pub mod Balance
pub mod Callbacks
pub mod Copied
use cs144_intro2network.Prelude.{
  ℕ, min, ◌*◌, Bool, true, false, not, ◌&&◌, ◌||◌, Option, none, some, List, [], ◌∷◌, ltb,
  if◌then◌else◌,
}
use cs144_intro2network.ByteStream
use cs144_intro2network.ByteStream.{
  ByteStream, buffer_size, buffer_empty, peek_output, pop_output, eof, error, remaining_capacity,
  write, end_input,
}
use cs144_intro2network.EventLoop.{
  dir_in, dir_out, Files, Rule, Poll, Polled, Polling, Result, success, timeout, exit,
  wait_next_event, add_rule,
}
use cs144_intro2network.FileDescriptor
use cs144_intro2network.FileDescriptor.{
  Kernel, FdWrapper, Returned, done, threw, out_of_fuel, shut_wr,
}

-- The local variables, with the kernel.
pub record Copy (K : Type 0) : Type 0 where
  pub input : FdWrapper
  pub output : FdWrapper
  pub socket : FdWrapper
  pub outbound : ByteStream
  pub inbound : ByteStream
  pub outbound_shutdown : Bool
  pub inbound_shutdown : Bool
  pub kernel : K

pub data Descriptor : Type 0 where
  input : Descriptor
  output : Descriptor
  socket : Descriptor

abbrev pub max_copy_length : ℕ
max_copy_length = 65536

-- `buffer_size`.
abbrev pub stream_capacity : ℕ
stream_capacity = 1048576

module _ {K : Type 0} (sys : Kernel K) where
  abbrev pub file : Descriptor → Copy K → FdWrapper
  file input s = s.input
  file output s = s.output
  file socket s = s.socket

  abbrev pub files : Files Descriptor (Copy K)
  files = record {
    eof = λ d s. (file d s).eof;
    closed = λ d s. (file d s).closed;
    read_count = λ d s. (file d s).read_count;
    write_count = λ d s. (file d s).write_count;
  }

  -- What a read from a descriptor into a stream leaves.
  unfoldable pub filled : Returned K (List ℕ) → ByteStream → Option (FdWrapper × ByteStream × K)
  unfolding write end_input
  filled (done bytes, f, k) o =
      let o' = (write o bytes).0 in some (f, (if f.eof then end_input o' else o'), k)
  filled (threw, f, k) o = none
  filled (out_of_fuel, f, k) o = none

  unfoldable pub fill : FdWrapper → ByteStream → K → Option (FdWrapper × ByteStream × K)
  unfolding filled remaining_capacity
  fill f o k = filled (FileDescriptor.read sys (remaining_capacity o) f k) o

  -- What a write from a stream to a descriptor leaves.
  unfoldable pub drained : Returned K ℕ → ByteStream → Option (FdWrapper × ByteStream × K)
  unfolding pop_output
  drained (done n, f, k) o = some (f, pop_output o n, k)
  drained (threw, f, k) o = none
  drained (out_of_fuel, f, k) o = none

  unfoldable pub drain : FdWrapper → ByteStream → K → Option (FdWrapper × ByteStream × K)
  unfolding drained peek_output
  drain f o k =
      drained
        (FileDescriptor.write sys false (peek_output o (min max_copy_length (buffer_size o)) ∷ []) f
          k)
        o

  -- Rule 1: from the standard input into the outbound stream.
  unfoldable pub read_input : Copy K → Option (Copy K)
  unfolding fill
  read_input s = elim (fill s.input s.outbound s.kernel) [
    | none ↦ none
    | some (f, o, k) ↦ some (record s { input = f; outbound = o; kernel = k })
  ]

  abbrev pub wants_input : Copy K → Bool
  wants_input s =
      not (error s.outbound) && (ltb 0 (remaining_capacity s.outbound) && not (error s.inbound))

  unfoldable pub end_outbound : Copy K → Copy K
  unfolding end_input
  end_outbound s = record s { outbound = end_input s.outbound }

  -- Rule 2: from the outbound stream into the socket.
  abbrev pub shut_socket : Returned K Unit → Copy K → Option (Copy K)
  shut_socket (done _, f, k) s =
      some (record s { socket = f; kernel = k; outbound_shutdown = true })
  shut_socket (threw, f, k) s = none
  shut_socket (out_of_fuel, f, k) s = none

  unfoldable pub sent : FdWrapper → ByteStream → K → Copy K → Option (Copy K)
  sent f o k s =
      let s' = record s { socket = f; outbound = o; kernel = k } in
      if eof o then shut_socket (FileDescriptor.shutdown sys shut_wr f k) s' else some s'

  unfoldable pub write_socket : Copy K → Option (Copy K)
  unfolding drain sent
  write_socket s = elim (drain s.socket s.outbound s.kernel) [
    | none ↦ none
    | some (f, o, k) ↦ sent f o k s
  ]

  abbrev pub has_outbound : Copy K → Bool
  has_outbound s = not (buffer_empty s.outbound) || (eof s.outbound && not s.outbound_shutdown)

  -- Rule 3: from the socket into the inbound stream.
  unfoldable pub read_socket : Copy K → Option (Copy K)
  unfolding fill
  read_socket s = elim (fill s.socket s.inbound s.kernel) [
    | none ↦ none
    | some (f, o, k) ↦ some (record s { socket = f; inbound = o; kernel = k })
  ]

  abbrev pub wants_socket : Copy K → Bool
  wants_socket s =
      not (error s.inbound) && (ltb 0 (remaining_capacity s.inbound) && not (error s.outbound))

  unfoldable pub end_inbound : Copy K → Copy K
  unfolding end_input
  end_inbound s = record s { inbound = end_input s.inbound }

  -- Rule 4: from the inbound stream into the standard output.
  abbrev pub close_output : Returned K Unit → Copy K → Option (Copy K)
  close_output (done _, f, k) s =
      some (record s { output = f; kernel = k; inbound_shutdown = true })
  close_output (threw, f, k) s = none
  close_output (out_of_fuel, f, k) s = none

  unfoldable pub shown : FdWrapper → ByteStream → K → Copy K → Option (Copy K)
  shown f o k s =
      let s' = record s { output = f; inbound = o; kernel = k } in
      if eof o then close_output (FileDescriptor.close sys f k) s' else some s'

  unfoldable pub write_output : Copy K → Option (Copy K)
  unfolding drain shown
  write_output s = elim (drain s.output s.inbound s.kernel) [
    | none ↦ none
    | some (f, o, k) ↦ shown f o k s
  ]

  abbrev pub has_inbound : Copy K → Bool
  has_inbound s = not (buffer_empty s.inbound) || (eof s.inbound && not s.inbound_shutdown)

  abbrev pub input_in : Rule Descriptor (Copy K)
  input_in = record {
    fd = input;
    direction = dir_in;
    callback = read_input;
    interest = wants_input;
    cancel = λ s. some (end_outbound s);
  }

  abbrev pub socket_out : Rule Descriptor (Copy K)
  socket_out = record {
    fd = socket;
    direction = dir_out;
    callback = write_socket;
    interest = has_outbound;
    cancel = λ s. some (end_outbound s);
  }

  abbrev pub socket_in : Rule Descriptor (Copy K)
  socket_in = record {
    fd = socket;
    direction = dir_in;
    callback = read_socket;
    interest = wants_socket;
    cancel = λ s. some (end_inbound s);
  }

  abbrev pub output_out : Rule Descriptor (Copy K)
  output_out = record {
    fd = output;
    direction = dir_out;
    callback = write_output;
    interest = has_inbound;
    cancel = λ s. some (end_inbound s);
  }

  abbrev pub rules : List (Rule Descriptor (Copy K))
  rules = add_rule output_out (add_rule socket_in (add_rule socket_out (add_rule input_in [])))

  abbrev pub start : FdWrapper → K → Copy K
  start f k = record {
    input = FileDescriptor.wrap 0;
    output = FileDescriptor.wrap 1;
    socket = f;
    outbound = ByteStream.init stream_capacity;
    inbound = ByteStream.init stream_capacity;
    outbound_shutdown = false;
    inbound_shutdown = false;
    kernel = k;
  }

  abbrev pub is_exit : Result → Bool
  is_exit success = false
  is_exit timeout = false
  is_exit exit = true

  -- What `poll` does to the kernel, for its `pollfd`s.
  abbrev pub KernelPoll : Type 0
  KernelPoll = List (Polling Descriptor (Copy K)) → K → Polled × K

  abbrev pub on_kernel : KernelPoll → Poll Descriptor (Copy K)
  on_kernel poll ps s = let (polled, k) = poll ps s.kernel in (polled, record s { kernel = k })

  -- The loop, for what `poll` does in each round: whether it has returned, and the variables.
  unfoldable pub copy_loop :
      List KernelPoll → List (Rule Descriptor (Copy K)) → Copy K → Option (Bool × Copy K)
  unfolding wait_next_event
  copy_loop [] left s = some (false, s)
  copy_loop (poll ∷ polls) left s = elim (wait_next_event files (on_kernel poll) left s) [
    | none ↦ none
    | some (result, left', s') ↦
        if is_exit result then some (true, s') else copy_loop polls left' s'
  ]

  abbrev pub bidirectional_stream_copy : List KernelPoll → FdWrapper → K → Option (Bool × Copy K)
  bidirectional_stream_copy polls f k = copy_loop polls rules (start f k)
