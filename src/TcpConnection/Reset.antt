-- ===== src/TcpConnection/Reset.antt =====
-- A reset ends a `TCPConnection` for good.
use cs144_intro2network.Prelude.{refl, ◌≡◌, true, false, some, ℕ}
use cs144_intro2network.Prelude.{◌≡◌, true, some, false, ℕ}
use cs144_intro2network.TcpState.{State, official, summarize}
use cs144_intro2network.TcpState.Official.{connection_state}
use cs144_intro2network.ByteStream.{set_error}
use cs144_intro2network.TcpConnection.{
  TcpConnection, active, set_errors, segment_received, tick, destroy, TcpSegment,
}

-- A segment with the RST flag kills an active connection that has had the peer's SYN, so that is
-- neither in LISTEN nor in SYN_SENT: nothing is sent, the state is RESET, and from then on no segment
-- and no tick changes it and its destructor sends nothing.
pub reset_is_final :
    (seg : TcpSegment) (c : TcpConnection)
    → active c ≡ true
    → c.receiver.isn_set ≡ true
    → seg.header.rst ≡ true
    → (c' : TcpConnection) × (segment_received seg c ≡ some c')
      × (connection_state c' ≡ official State.reset)
      × (c'.segments_out ≡ c.segments_out)
      × ((later : TcpSegment) → segment_received later c' ≡ some c')
      × ((ms : ℕ) → tick ms c' ≡ c')
      × (destroy c' ≡ c')
reset_is_final seg c on has_syn rst = (
  set_errors c,
  (unfold segment_received in rw (on, rst)),
  reset,
  (unfold set_errors in refl),
  (λ later. unfold segment_received in rw dead),
  (λ ms. unfold tick in rw dead),
  (unfold destroy in rw dead),
)
  where
    dead : active (set_errors c) ≡ false
    dead = unfold active set_errors set_error in refl

    reset : connection_state (set_errors c) ≡ official State.reset
    reset = unfold summarize official set_errors set_error in rw dead refl
