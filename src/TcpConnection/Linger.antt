-- ===== src/TcpConnection/Linger.antt =====
-- How long a `TCPConnection` lingers in TIME_WAIT.
use cs144_intro2network.Prelude.{
  ℕ, List, [], ◌∷◌, refl, true, false, ◌≡◌, ◌+◌, add64, ltb, arith, ◌<◌, ◌==◌, ◌*◌, ◌%◌, u64_mod,
  u32_mod, subst, if◌then◌else◌, ◌≤◌, Bool, sym, Bool-cases, inl, ◌∙◌, ap, inr,
}
use cs144_intro2network.ByteStream.{eof, error, bytes_written}
use cs144_intro2network.TcpSender
use cs144_intro2network.TcpSender.{TcpSender, bytes_in_flight, consecutive_retransmissions}
use cs144_intro2network.TcpSender.Timer.{sum}
use cs144_intro2network.TcpReceiver.{stream_out}
use cs144_intro2network.TcpConnection.{
  TcpConnection, tick, after_tick, active, time_wait_state, send_all_segs, with_sender, set_errors,
  send_rst_seg, max_retx_attempts,
}
use cs144_intro2network.TcpConnection.Output.{send_all_segs-map}

abbrev pub ticks : List ℕ → TcpConnection → TcpConnection
ticks [] c = c
ticks (ms ∷ later) c = ticks later (tick ms c)

-- Both streams are finished and every number sent is acknowledged: the code's `time_wait_state`, for
-- a connection that lingers, without errors and with no retransmissions outstanding.
pub record Lingers (c : TcpConnection) : Type 0 where
  pub heard : eof (stream_out c.receiver) ≡ true
  pub said : eof c.sender.stream ≡ true
  pub none_left : c.sender.outstanding_segs ≡ []
  pub finned : (add64 (bytes_written c.sender.stream) 2 == c.sender.next_seqno) ≡ true
  pub no_probe : c.sender.zero_win_seg_send ≡ false
  pub no_error : error c.sender.stream ≡ false
  pub lingers : c.linger_after_streams_finish ≡ true
  pub few : ltb max_retx_attempts (c.sender.rx_times % u32_mod) ≡ false

Lingers-wait : (c : TcpConnection) → Lingers c → time_wait_state c ≡ true
unfolding time_wait_state bytes_in_flight
Lingers-wait c h = ground (arith, h.heard, h.said, h.none_left, h.finned, h.no_probe)

Lingers-active :
    (c : TcpConnection) → Lingers c → active c ≡ ltb c.time_since_last_seg_rec (10 * c.rt_timeout)
unfolding active
Lingers-active c h = let wait = Lingers-wait c h in ground (arith, wait, h.no_error, h.lingers)

idle_tick :
    (ms : ℕ) (s : TcpSender)
    → s.outstanding_segs ≡ []
    → s.zero_win_seg_send ≡ false
    → TcpSender.tick ms s ≡ record s { timer_running = false }
unfolding TcpSender.tick TcpSender.tick_oldest
idle_tick ms s none_left no_probe = ground (arith, none_left, no_probe)

-- What a call of `tick` leaves of a lingering connection.
Ticked : ℕ → TcpConnection → TcpConnection → Type 0
Ticked ms c d =
    Lingers d
    × (d.time_since_last_seg_rec ≡ c.time_since_last_seg_rec + ms)
    × (d.rt_timeout ≡ c.rt_timeout)

-- The connection after the sender's part of a tick, with the time added.
abbrev aged : ℕ → TcpConnection → TcpConnection
aged ms c = record (with_sender (record c.sender { timer_running = false }) c) {
  time_since_last_seg_rec = add64 c.time_since_last_seg_rec ms;
}

abbrev flushed : TcpConnection → TcpConnection
flushed c = if active c then send_all_segs c else c

aged-Lingers : (ms : ℕ) (c : TcpConnection) → Lingers c → Lingers (aged ms c)
aged-Lingers ms c h = record {
  heard = h.heard;
  said = h.said;
  none_left = h.none_left;
  finned = h.finned;
  no_probe = h.no_probe;
  no_error = h.no_error;
  lingers = h.lingers;
  few = h.few;
}

-- The rest of `tick`, for the results of its two tests.
abbrev with_limit : Bool → TcpConnection → TcpConnection
with_limit over c = flushed (if over then send_rst_seg (set_errors c) else c)

abbrev with_wait : ℕ → Bool → TcpConnection → TcpConnection
with_wait ms wait c =
    let c1 =
      if wait
      then record c { time_since_last_seg_rec = add64 c.time_since_last_seg_rec ms }
      else c in
    with_limit (ltb max_retx_attempts (consecutive_retransmissions c1.sender)) c1

after_tick_lem : (ms : ℕ) (c : TcpConnection) → after_tick ms c ≡ with_wait ms (time_wait_state c) c
unfolding after_tick
after_tick_lem ms c = refl

tick-aged :
    (ms : ℕ) (c : TcpConnection) → Lingers c → active c ≡ true → tick ms c ≡ flushed (aged ms c)
tick-aged ms c h on =
    let d = with_sender (record c.sender { timer_running = false }) c in
    let wait : time_wait_state d ≡ true =
      unfold time_wait_state in Lingers-wait (aged ms c) (aged-Lingers ms c h) in
    let runs : tick ms c ≡ after_tick ms (with_sender (TcpSender.tick ms c.sender) c) =
      unfold tick in rw on refl in
    runs
    ∙ ap (λ s. after_tick ms (with_sender s c)) (idle_tick ms c.sender h.none_left h.no_probe)
    ∙ after_tick_lem ms d
    ∙ ap (λ b. with_wait ms b d) wait
    ∙ ap (λ b. with_limit b (aged ms c)) h.few

sent_Ticked :
    (ms : ℕ) (b : Bool) (c d : TcpConnection)
    → Lingers d
    → d.time_since_last_seg_rec ≡ c.time_since_last_seg_rec + ms
    → d.rt_timeout ≡ c.rt_timeout
    → Ticked ms c (if b then send_all_segs d else d)
unfolding Ticked
sent_Ticked ms false c d h time timeout = (h, time, timeout)
sent_Ticked ms true c d h time timeout = rw (send_all_segs-map d) (
  record {
    heard = h.heard;
    said = h.said;
    none_left = h.none_left;
    finned = h.finned;
    no_probe = h.no_probe;
    no_error = h.no_error;
    lingers = h.lingers;
    few = h.few;
  },
  time,
  timeout,
)

tick-Ticked :
    (ms : ℕ) (c : TcpConnection)
    → Lingers c
    → active c ≡ true
    → c.time_since_last_seg_rec + ms < u64_mod
    → Ticked ms c (tick ms c)
tick-Ticked ms c h on small =
    subst (Ticked ms c) (sym (tick-aged ms c h on))
      (sent_Ticked ms (active (aged ms c)) c (aged ms c) (aged-Lingers ms c h) (omega arith) refl)

-- However the time passes in calls of `tick`, a lingering connection is active exactly as long as the
-- time since the last segment is below ten times `rt_timeout`, if that time stays below 2^64.
pub ticks_linger :
    (l : List ℕ) (c : TcpConnection)
    → Lingers c
    → c.time_since_last_seg_rec + sum l < u64_mod
    → active (ticks l c) ≡ ltb (c.time_since_last_seg_rec + sum l) (10 * c.rt_timeout)
unfolding Ticked
ticks_linger [] c h small =
    let e : c.time_since_last_seg_rec + 0 ≡ c.time_since_last_seg_rec = omega arith in
    rw e (Lingers-active c h)
ticks_linger (ms ∷ l) c h small =
    let is = Lingers-active c h in
    elim (Bool-cases (active c)) [
      | inl on ↦
          let (h', time, timeout) = tick-Ticked ms c h on (omega arith) in
          let sums : (tick ms c).time_since_last_seg_rec + sum l
              ≡ c.time_since_last_seg_rec + (ms + sum l) =
            omega (arith, time) in
          ticks_linger l (tick ms c) h' (omega (arith, sums))
          ∙ ap (λ k. ltb k (10 * (tick ms c).rt_timeout)) sums
          ∙ ap (λ k. ltb (c.time_since_last_seg_rec + (ms + sum l)) (10 * k)) timeout
      | inr off ↦
          let still : tick ms c ≡ c = unfold tick in rw off refl in
          let late : ltb c.time_since_last_seg_rec (10 * c.rt_timeout) ≡ false = sym is ∙ off in
          ap (λ d. active (ticks l d)) still
          ∙ ticks_linger l c h (omega arith)
          ∙ both_late _ _ _ late (omega arith) (omega arith)
    ]
  where
    both_late :
        (t a b : ℕ)
        → ltb t (10 * c.rt_timeout) ≡ false
        → t ≤ a
        → t ≤ b
        → ltb a (10 * c.rt_timeout) ≡ ltb b (10 * c.rt_timeout)
    both_late t a b late le le' = ground arith
