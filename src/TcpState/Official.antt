-- ===== src/TcpState/Official.antt =====
-- The states of the code against the official ones.
use cs144_intro2network.TcpReceiver.{ackno, stream_out}
use cs144_intro2network.Prelude.{arith, true, false, ◌≡◌, ◌+◌, ◌<◌, u64_mod, if◌then◌else◌}
use cs144_intro2network.ByteStream.{bytes_written, error}
use cs144_intro2network.TcpConnection.{TcpConnection, active, time_wait_state}
use cs144_intro2network.TcpState.{TcpState, State, official, summarize}

-- `TCPConnection::state`.
abbrev pub connection_state : TcpConnection → TcpState
connection_state c = summarize c.sender c.receiver (active c) c.linger_after_streams_finish

-- An acknowledged connection without errors whose sender has written fewer than 2^64 - 2 bytes,
-- in which `time_wait_state` holds, and which lingers if it is active, is summarized as TIME_WAIT
-- while it is active and as CLOSED once it is not.
pub time_wait_summary :
    (c : TcpConnection)
    → error c.sender.stream ≡ false
    → error (stream_out c.receiver) ≡ false
    → c.receiver.isn_set ≡ true
    → bytes_written c.sender.stream + 2 < u64_mod
    → time_wait_state c ≡ true
    → (active c ≡ true → c.linger_after_streams_finish ≡ true)
    → connection_state c ≡ official (if active c then State.time_wait else State.closed)
unfolding time_wait_state active official summarize ackno
time_wait_summary c a b i small t lingers = ground arith
