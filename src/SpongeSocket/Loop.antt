-- ===== src/SpongeSocket/Loop.antt =====
-- libsponge/tcp_helpers/tcp_sponge_socket.cc: the loop of `TCPSpongeSocket`, and the functions that run it.
use cs144_intro2network.Prelude.{
  ℕ, Bool, true, false, not, ◌||◌, Option, none, some, List, [], ◌∷◌, if◌then◌else◌, sub64,
}
use cs144_intro2network.TcpConnection.{destroy, TcpConnection, active, tick}
use cs144_intro2network.TcpState.{TcpState, State, summarize, official, same_state}
use cs144_intro2network.TcpConnection.{connect}
use cs144_intro2network.EventLoop.{Rule, Poll, Result, success, timeout, exit, wait_next_event}
use cs144_intro2network.FileDescriptor
use cs144_intro2network.FileDescriptor.{
  Kernel, FdWrapper, Outcome, Returned, done, threw, out_of_fuel, shut_wr, shut_rdwr,
}
use cs144_intro2network.SpongeSocket.{Adapter, Socket, Descriptor, files, with_tcp}

module _ {A K : Type 0} (sys : Kernel K) (adapter : Adapter A K) where
  -- A round of `_tcp_loop`: what `poll` does, whether `_abort` is then set, and the time.
  pub record Round : Type 0 where
    pub poll : Poll Descriptor (Socket A K)
    pub aborted : Bool
    pub now : ℕ

  -- Whether the loop has ended by itself, or only the rounds have; the rules left; the time of the last `tick`; the
  -- members.
  abbrev pub Looped : Type 0
  Looped = Option (Bool × List (Rule Descriptor (Socket A K)) × ℕ × Socket A K)

  abbrev pub is_exit : Result → Bool
  is_exit success = false
  is_exit timeout = false
  is_exit exit = true

  -- The ticks of a round; they pass the time since `base_time`.
  unfoldable pub pass_time : ℕ → ℕ → Socket A K → Option (Socket A K)
  unfolding tick
  pass_time now base_time s =
      let ms = sub64 now base_time in
      elim (adapter.pass ms s.datagram_adapter s.kernel) [
        | none ↦ none
        | some (a, k) ↦ some (record s { tcp = tick ms s.tcp; datagram_adapter = a; kernel = k })
      ]

  unfoldable pub tcp_loop :
      (Socket A K → Bool)
      → List Round
      → ℕ
      → List (Rule Descriptor (Socket A K))
      → Socket A K
      → Looped
  unfolding wait_next_event pass_time
  tcp_loop condition [] base_time left s = some (not (condition s), left, base_time, s)
  tcp_loop condition (r ∷ rounds) base_time left s =
      if not (condition s)
      then some (true, left, base_time, s)
      else (elim (wait_next_event (files sys adapter) r.poll left s) [
        | none ↦ none
        | some (ret, left', s') ↦
            if is_exit ret || r.aborted
            then some (true, left', base_time, s')
            else if active s'.tcp
            then (elim (pass_time r.now base_time s') [
              | none ↦ none
              | some s'' ↦ tcp_loop condition rounds r.now left' s''
            ])
            else tcp_loop condition rounds base_time left' s'
      ])

  abbrev pub state_of : Socket A K → TcpState
  state_of s =
      summarize s.tcp.sender s.tcp.receiver (active s.tcp) s.tcp.linger_after_streams_finish

  -- `_initialize_TCP`, beside its rules: the connection starts anew.
  abbrev pub initialize : TcpConnection → Socket A K → Socket A K
  initialize c s = with_tcp sys adapter c s

  -- What `connect` does before its loop, if no connection is there yet. `none` where it throws.
  unfoldable pub begin_connect : Bool → TcpConnection → Socket A K → Option (Socket A K)
  unfolding connect summarize official
  begin_connect has_tcp config s = if has_tcp then none else (elim (connect config) [
    | none ↦ none
    | some c ↦
        let s' = initialize c s in
        if same_state (state_of s') (official State.syn_sent) then some s' else none
  ])

  abbrev pub is_syn_sent : Socket A K → Bool
  is_syn_sent s = same_state (state_of s) (official State.syn_sent)

  -- The condition of the loop of `listen_and_accept`.
  abbrev pub is_accepting : Socket A K → Bool
  is_accepting s =
      same_state (state_of s) (official State.listen)
      || (same_state (state_of s) (official State.syn_rcvd)
          || same_state (state_of s) (official State.syn_sent))

  abbrev pub after_loop : Returned K Unit → Socket A K → Option (FdWrapper × Socket A K)
  after_loop (done _, f, k) s =
      some (f, with_tcp sys adapter (destroy s.tcp) (record s { kernel = k }))
  after_loop (threw, f, k) s = none
  after_loop (out_of_fuel, f, k) s = none

  -- `_tcp_main`, for the descriptor of the owner's end: the connection is destroyed, and what its destructor queues is
  -- not sent.
  unfoldable pub tcp_main :
      List Round
      → ℕ
      → List (Rule Descriptor (Socket A K))
      → FdWrapper
      → Socket A K
      → Option (FdWrapper × Socket A K)
  unfolding tcp_loop destroy
  tcp_main rounds base_time left owner s = elim (tcp_loop (λ _. true) rounds base_time left s) [
    | none ↦ none
    | some (_, _, _, s') ↦ after_loop (FileDescriptor.shutdown sys shut_rdwr owner s'.kernel) s'
  ]
