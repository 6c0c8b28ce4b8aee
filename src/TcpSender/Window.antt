-- ===== src/TcpSender/Window.antt =====
-- How `fill_window` of `TCPSender` sends the stream.
use cs144_intro2network.Prelude.{
  zero, suc, ltb→lt, Option, none, some, ◌≡◌, ◌<◌, u16_mod, arith, ◌≤◌, ◌+◌, ℕ, length, Option,
  some, ◌==◌, drop, ◌⊎◌, true, min, inl, ap, ◌∙◌, suc, Bool-cases, length-drop, inr, ltb,
}
use cs144_intro2network.TcpSender.{
  TcpSender, send_data_one, transfer_size, bytes_in_flight, track, start_timer, max_payload_size,
  send_data,
}
use cs144_intro2network.ByteStream.{read}
use cs144_intro2network.ByteStream.Fifo.{pop_output-buffer}

-- A round sends at least a byte and at most `max_payload_size` bytes, within the window.
transfer_size_bounds :
    (s : TcpSender)
    → s.win_size < u16_mod
    → bytes_in_flight s < s.win_size
    → (0 < transfer_size s)
      × (transfer_size s ≤ max_payload_size)
      × (bytes_in_flight s + transfer_size s ≤ s.win_size)
unfolding transfer_size
transfer_size_bounds s w h = ground arith

stream-send_data_one :
    (s : TcpSender) → (send_data_one s).stream ≡ (read s.stream (transfer_size s)).1
unfolding send_data_one track start_timer
stream-send_data_one s = ground arith

win_size-send_data_one : (s : TcpSender) → (send_data_one s).win_size ≡ s.win_size
unfolding send_data_one track start_timer
win_size-send_data_one s = ground arith

-- How the data loop ends: it returns, with no byte left or with the window full.
abbrev pub Settled : Option TcpSender → Type 0
Settled none = ⊥
Settled (some s) = (length s.stream.buffer ≡ 0) ⊎ (s.win_size ≤ bytes_in_flight s)

stream_shrinks :
    (s : TcpSender)
    → s.win_size < u16_mod
    → bytes_in_flight s < s.win_size
    → 0 < length s.stream.buffer
    → length (send_data_one s).stream.buffer < length s.stream.buffer
stream_shrinks s w h some_left =
    let positive = (transfer_size_bounds s w h).0 in
    let popped : (send_data_one s).stream.buffer
        ≡ drop (min (transfer_size s) (length s.stream.buffer)) s.stream.buffer =
      ap (λ b. b.buffer) (stream-send_data_one s)
      ∙ (unfold read in pop_output-buffer s.stream (transfer_size s)) in
    omega (
      arith,
      positive,
      ap length popped,
      length-drop (min (transfer_size s) (length s.stream.buffer)) s.stream.buffer,
    )

send_data-Settled :
    (fuel : ℕ) (s : TcpSender)
    → s.win_size < u16_mod
    → length s.stream.buffer ≤ fuel
    → Settled (send_data fuel s)
unfolding send_data
send_data-Settled zero s w le =
    let e : (length s.stream.buffer == 0) ≡ true = ground arith in rw e (inl (omega arith))
send_data-Settled (suc fuel) s w le = elim (Bool-cases (length s.stream.buffer == 0)) [
  | inl e ↦ rw e (inl (ground (arith, e)))
  | inr left ↦ elim (Bool-cases (ltb (bytes_in_flight s) s.win_size)) [
    | inr full ↦ rw (left, full) (inr (ground (arith, full)))
    | inl room ↦
        let shrinks = stream_shrinks s w (ltb→lt _ _ room) (ground (arith, left)) in
        rw (left, room)
          (send_data-Settled fuel (send_data_one s) (rw win_size-send_data_one w) (omega arith))
  ]
]

-- The data loop of `fill_window` returns within as many rounds as the stream has bytes, for a window
-- that fits 16 bits: then no byte is left to send, or the window is full.
pub send_data_settles :
    (s : TcpSender) → s.win_size < u16_mod → Settled (send_data (length s.stream.buffer) s)
send_data_settles s w = send_data-Settled (length s.stream.buffer) s w (omega arith)
