-- ===== src/Tests/Sockets.antt =====
-- Descriptors and the socket with a small kernel.
use cs144_intro2network.Prelude.{
  ℕ, min, true, false, none, some, List, [], ◌∷◌, ◌++◌, length, take, refl, inl, ◌≡◌, arith, ◌||◌,
  if◌then◌else◌,
}
use cs144_intro2network.ByteStream
use cs144_intro2network.ByteStream.{eof, error}
use cs144_intro2network.TcpSender
use cs144_intro2network.TcpConnection
use cs144_intro2network.TcpConnection.{TcpConnection}
use cs144_intro2network.FileDescriptor
use cs144_intro2network.FileDescriptor.{Kernel, Sys, returned, write}
use cs144_intro2network.Prelude.{◌==◌}
use cs144_intro2network.EventLoop.{ready}
use cs144_intro2network.FileDescriptor.Trace.{IsTraced}
use cs144_intro2network.StreamCopy.{KernelPoll, bidirectional_stream_copy}
use cs144_intro2network.StreamCopy.Copied.{Balanced, bidirectional_stream_copy-Balanced}
use cs144_intro2network.FileDescriptor.Write.{viewed, Takes, Wrote, write-Wrote}
use cs144_intro2network.SpongeSocket.{
  Adapter, Socket, inbound, read_pipe, write_pipe, write_datagrams, pipe_in, pipe_out, network_out,
}
use cs144_intro2network.SpongeSocket.Pipe.{read_pipe_conserves, write_pipe_conserves}
use cs144_intro2network.TcpConnection.Queued.{outgoing}
use cs144_intro2network.SpongeSocket.Serviced.{Serviced, rules-Serviced}

-- A kernel that keeps the bytes that it takes, at most three at a time, and always has two to read.
abbrev threes : Kernel (List ℕ)
threes = record {
  sys_read = λ fd n k. (returned (take n (4 ∷ 5 ∷ [])), k);
  sys_writev = λ fd vs k.
      (returned (min 3 (length (viewed vs))), k ++ take (min 3 (length (viewed vs))) (viewed vs));
  sys_close = λ fd k. (returned 0, k);
  sys_shutdown = λ fd how k. (returned 0, k);
  sys_getfl = λ fd k. (returned 2, k);
  sys_setfl = λ fd flags k. (returned 0, k);
}

abbrev kept : ℕ → List ℕ → List ℕ
kept fd k = k

threes-Takes :
    (fd : ℕ) (vs : List (List ℕ)) (k : List ℕ)
    → Takes kept fd (viewed vs) k (threes.sys_writev fd vs k)
unfolding Takes
threes-Takes fd vs k = (omega arith, refl)

abbrev two_views : List (List ℕ)
two_views = (1 ∷ 2 ∷ []) ∷ (3 ∷ 4 ∷ 5 ∷ []) ∷ []

write-Wrote_example :
    Wrote kept [] 0
      (1 ∷ 2 ∷ 3 ∷ 4 ∷ 5 ∷ [])
      (write threes true two_views (FileDescriptor.wrap 7) [])
write-Wrote_example =
    write-Wrote threes kept threes-Takes two_views (FileDescriptor.wrap 7) [] (omega arith)

abbrev quiet : Adapter Unit (List ℕ)
quiet = record {
  receive = λ a k. some (none, a, k);
  send = λ seg a k. some (a, k);
  pass = λ ms a k. some (a, k);
  at_eof = λ a. false;
  is_closed = λ a. false;
  reads = λ a. 0;
  writes = λ a. 0;
}

abbrev fresh : TcpConnection
fresh = TcpConnection.init 1000 8 8 17

abbrev socket : Socket Unit (List ℕ)
socket = record {
  tcp = fresh;
  thread_data = FileDescriptor.wrap 7;
  datagram_adapter = tt;
  inbound_shutdown = false;
  outbound_shutdown = false;
  fully_acked = false;
  kernel = [];
}

-- Four bytes wait for the owner.
abbrev loaded : Socket Unit (List ℕ)
loaded = record socket {
  tcp = record fresh {
    receiver = record fresh.receiver {
      reassembler = record fresh.receiver.reassembler {
        output = record (ByteStream.init 8) { buffer = 1 ∷ 2 ∷ 3 ∷ 4 ∷ []; written = 4 };
      };
    };
  };
}

read_pipe_conserves_example :
    (s' : Socket Unit (List ℕ)) × (read_pipe threes quiet socket ≡ some s')
    × (outgoing s'.tcp ≡ outgoing fresh ++ (4 ∷ 5 ∷ []))
    × (s'.outbound_shutdown ≡ (if s'.thread_data.eof then true else false))
    × (s'.kernel ≡ [])
unfolding ByteStream.remaining_capacity
read_pipe_conserves_example =
    read_pipe_conserves threes quiet (4 ∷ 5 ∷ []) [] socket refl (omega arith)

write_pipe_conserves_example :
    (s' : Socket Unit (List ℕ)) × (write_pipe threes quiet loaded ≡ some s')
    × (s'.kernel ++ (inbound threes quiet s').buffer ≡ 1 ∷ 2 ∷ 3 ∷ 4 ∷ [])
    × (s'.inbound_shutdown ≡ (
        if eof (inbound threes quiet s') || error (inbound threes quiet s') then true else false))
unfolding ByteStream.peek_output
write_pipe_conserves_example =
    write_pipe_conserves threes quiet kept 3 0 (1 ∷ 2 ∷ 3 ∷ []) (1 ∷ 2 ∷ 3 ∷ []) loaded threes-Takes
      (λ fd k. refl) (omega arith) (inl (omega arith)) refl refl

rules-Serviced_example :
    Serviced threes quiet (pipe_in threes quiet) loaded (read_pipe threes quiet loaded)
    × Serviced threes quiet (pipe_out threes quiet) loaded (write_pipe threes quiet loaded)
    × Serviced threes quiet (network_out threes quiet) loaded (write_datagrams threes quiet loaded)
rules-Serviced_example = rules-Serviced threes quiet loaded

-- What each file has given and taken.
abbrev Traces : Type 0
Traces = (ℕ → List ℕ) × (ℕ → List ℕ)

abbrev given : ℕ → Traces → List ℕ
given fd k = k.0 fd

abbrev taken : ℕ → Traces → List ℕ
taken fd k = k.1 fd

-- Every file always has two bytes to read, and takes at most three at a time.
abbrev tracing : Kernel Traces
tracing = record {
  sys_read = λ fd n k. (
    returned (take n (4 ∷ 5 ∷ [])),
    (λ o. if o == fd then k.0 o ++ take n (4 ∷ 5 ∷ []) else k.0 o, k.1),
  );
  sys_writev = λ fd vs k. (
    returned (min 3 (length (viewed vs))),
    (k.0, λ o. if o == fd then k.1 o ++ take (min 3 (length (viewed vs))) (viewed vs) else k.1 o),
  );
  sys_close = λ fd k. (returned 0, k);
  sys_shutdown = λ fd how k. (returned 0, k);
  sys_getfl = λ fd k. (returned 2, k);
  sys_setfl = λ fd flags k. (returned 0, k);
}

tracing-IsTraced : IsTraced given taken tracing
tracing-IsTraced = record {
  reads = λ fd n k. record { gave = λ o. refl; took = λ o. refl };
  writes = λ fd vs k. (omega arith, record { gave = λ o. refl; took = λ o. refl });
  closes = λ fd k. record { gave = λ o. refl; took = λ o. refl };
  shuts = λ fd how k. record { gave = λ o. refl; took = λ o. refl };
}

-- Every descriptor is ready.
abbrev all_ready : KernelPoll tracing
all_ready ps k = (
  ready 4 (λ i. record {
    pollin = true;
    pollout = true;
    pollerr = false;
    pollhup = false;
    pollnval = false;
  }),
  k,
)

abbrev untouched : Traces
untouched = (λ fd. [], λ fd. [])

bidirectional_stream_copy-Balanced_example :
    Balanced given taken tracing tracing-IsTraced 5 refl refl (
      bidirectional_stream_copy tracing
        (all_ready ∷ all_ready ∷ [])
        (FileDescriptor.wrap 5)
        untouched)
bidirectional_stream_copy-Balanced_example =
    bidirectional_stream_copy-Balanced given taken tracing tracing-IsTraced 5 refl refl
      (all_ready ∷ all_ready ∷ []) (FileDescriptor.wrap 5) untouched
      (
        (λ ps k. record { gave = λ o. refl; took = λ o. refl }),
        ((λ ps k. record { gave = λ o. refl; took = λ o. refl }), tt),
      )
      refl refl refl refl refl
