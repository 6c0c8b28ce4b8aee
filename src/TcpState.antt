-- ===== src/TcpState.antt =====
-- libsponge/tcp_helpers/tcp_state.hh and tcp_state.cc: the official TCP states against the
-- summaries of a sender and a receiver. A summary string is a constructor.
pub mod Official
use cs144_intro2network.Prelude.{
  ℕ, Bool, true, false, not, Option, none, some, ltb, ◌==◌, if◌then◌else◌, add64, ◌&&◌,
}
use cs144_intro2network.ByteStream.{error, input_ended, eof, bytes_written}
use cs144_intro2network.TcpReceiver
use cs144_intro2network.TcpReceiver.{TcpReceiver, stream_out}
use cs144_intro2network.TcpSender.{TcpSender, bytes_in_flight}

pub data ReceiverSummary : Type 0 where
  error_summary listen syn_recv fin_recv : ReceiverSummary

pub data SenderSummary : Type 0 where
  error_summary closed syn_sent syn_acked fin_sent fin_acked : SenderSummary

pub data State : Type 0 where
  listen syn_rcvd syn_sent established close_wait last_ack fin_wait_1 fin_wait_2 closing : State
  time_wait closed reset : State

pub record TcpState : Type 0 where
  pub sender : SenderSummary
  pub receiver : ReceiverSummary
  pub active : Bool
  pub linger : Bool

abbrev state : SenderSummary → ReceiverSummary → Bool → Bool → TcpState
state s r active linger = record { sender = s; receiver = r; active = active; linger = linger }

-- `TCPState(const TCPState::State)`.
unfoldable pub official : State → TcpState
official State.listen = state SenderSummary.closed ReceiverSummary.listen true true
official State.syn_rcvd = state SenderSummary.syn_sent ReceiverSummary.syn_recv true true
official State.syn_sent = state SenderSummary.syn_sent ReceiverSummary.listen true true
official State.established = state SenderSummary.syn_acked ReceiverSummary.syn_recv true true
official State.close_wait = state SenderSummary.syn_acked ReceiverSummary.fin_recv true false
official State.last_ack = state SenderSummary.fin_sent ReceiverSummary.fin_recv true false
official State.fin_wait_1 = state SenderSummary.fin_sent ReceiverSummary.syn_recv true true
official State.fin_wait_2 = state SenderSummary.fin_acked ReceiverSummary.syn_recv true true
official State.closing = state SenderSummary.fin_sent ReceiverSummary.fin_recv true true
official State.time_wait = state SenderSummary.fin_acked ReceiverSummary.fin_recv true true
official State.closed = state SenderSummary.fin_acked ReceiverSummary.fin_recv false false
official State.reset = state SenderSummary.error_summary ReceiverSummary.error_summary false false

abbrev if_acked : Option ℕ → ReceiverSummary → ReceiverSummary
if_acked none s = ReceiverSummary.listen
if_acked (some a) s = s

unfoldable pub receiver_summary : TcpReceiver → ReceiverSummary
receiver_summary r =
    if error (stream_out r)
    then ReceiverSummary.error_summary
    else if_acked (TcpReceiver.ackno r)
        (if input_ended (stream_out r) then ReceiverSummary.fin_recv else ReceiverSummary.syn_recv)

unfoldable pub sender_summary : TcpSender → SenderSummary
sender_summary s =
    if error s.stream
    then SenderSummary.error_summary
    else if s.next_seqno == 0
    then SenderSummary.closed
    else if s.next_seqno == bytes_in_flight s
    then SenderSummary.syn_sent
    else if not (eof s.stream)
    then SenderSummary.syn_acked
    else if ltb s.next_seqno (add64 (bytes_written s.stream) 2)
    then SenderSummary.syn_acked
    else if bytes_in_flight s == 0
    then SenderSummary.fin_acked
    else SenderSummary.fin_sent

-- `TCPState(const TCPSender &, const TCPReceiver &, bool, bool)`.
unfoldable pub summarize : TcpSender → TcpReceiver → Bool → Bool → TcpState
unfolding sender_summary receiver_summary
summarize s r active linger =
    state (sender_summary s) (receiver_summary r) active (if active then linger else false)

-- Numbers that tell the summary strings apart.
abbrev sender_code : SenderSummary → ℕ
sender_code error_summary = 0
sender_code closed = 1
sender_code syn_sent = 2
sender_code syn_acked = 3
sender_code fin_sent = 4
sender_code fin_acked = 5

abbrev receiver_code : ReceiverSummary → ℕ
receiver_code error_summary = 0
receiver_code listen = 1
receiver_code syn_recv = 2
receiver_code fin_recv = 3

abbrev same_bool : Bool → Bool → Bool
same_bool true b = b
same_bool false b = not b

-- `operator==`.
unfoldable pub same_state : TcpState → TcpState → Bool
same_state s t =
    same_bool s.active t.active
    && (same_bool s.linger t.linger
        && (sender_code s.sender == sender_code t.sender
            && receiver_code s.receiver == receiver_code t.receiver))
