-- ===== src/TcpSender/Emits.antt =====
-- A property of every segment that `TCPSender` emits or may send again.
use cs144_intro2network.Prelude.{
  ◌≡◌, true, ◌∷◌, Bool, false, ◌++◌, if◌then◌else◌, [], ltb, sub64, add64, leb, not, ◌||◌, ◌&&◌,
  ◌*◌, ◌%◌, u32_mod,
}
use cs144_intro2network.Prelude.{refl, none, some, ltb, leb, sub64, ◌==◌}
use cs144_intro2network.Prelude.Map.{Map}
use cs144_intro2network.Prelude.Map
use cs144_intro2network.Wire.TcpSegment.{TcpSegment, length_in_sequence_space}
use cs144_intro2network.TcpSender.{
  TcpSender, track, start_timer, send_probe, drop_acked, acknowledge, ack_received, ack_absolute,
  tick, tick_zero, tick_oldest, tick_running, before, time_after, restart, back_off,
  bytes_in_flight, ℕ, List, length_in_sequence_space,
}

abbrev pub Every {ℓ} : {A : Type ℓ} → (A → Type 0) → List A → Type 0
Every P [] = Unit
Every P (x ∷ xs) = P x × Every P xs

pub Every-append {ℓ} :
    {A : Type ℓ} (P : A → Type 0) (xs ys : List A) → Every P xs → Every P ys → Every P (xs ++ ys)
Every-append P [] ys hx hy = hy
Every-append P (x ∷ xs) ys hx hy = (hx.0, Every-append P xs ys hx.1 hy)

-- The segments queued, those outstanding, and the zero-window segment while it is out.
pub record Emits (P : TcpSegment → Type 0) (s : TcpSender) : Type 0 where
  pub queued : Every P s.segments_out
  pub kept : Map.All (λ _. P) s.outstanding_segs
  pub probe : s.zero_win_seg_send ≡ true → P s.zero_win_seg
  pub probe_syn : s.zero_win_seg.header.syn ≡ false

module _ (P : TcpSegment → Type 0) where
  pub queue-Emits :
      (segs : List TcpSegment) (seg : TcpSegment)
      → P seg
      → Every P segs
      → Every P (segs ++ seg ∷ [])
  queue-Emits segs seg p h = Every-append P segs (seg ∷ []) h (p, tt)

  if-Emits :
      (b : Bool) (s t : TcpSender)
      → (b ≡ true → Emits P s)
      → Emits P t
      → Emits P (if b then s else t)
  if-Emits true s t hs ht = hs refl
  if-Emits false s t hs ht = ht

  start_timer-Emits : (s : TcpSender) → Emits P s → Emits P (start_timer s)
  unfolding start_timer
  start_timer-Emits s e =
      if-Emits s.timer_running s
        (record s { timer_running = true; rx_time_left = s.initial_retransmission_timeout })
        (λ _. e)
        (record { queued = e.queued; kept = e.kept; probe = e.probe; probe_syn = e.probe_syn })

  pub track-Emits : (seg : TcpSegment) (s : TcpSender) → P seg → Emits P s → Emits P (track seg s)
  unfolding track
  track-Emits seg s p e =
      start_timer-Emits
        (record s {
          segments_out = s.segments_out ++ seg ∷ [];
          outstanding_segs = Map.insert before s.next_seqno seg s.outstanding_segs;
          next_seqno = add64 s.next_seqno (length_in_sequence_space seg);
        })
        (record {
          queued = queue-Emits s.segments_out seg p e.queued;
          kept = Map.All-insert (λ _. P) before s.next_seqno seg s.outstanding_segs p e.kept;
          probe = e.probe;
          probe_syn = e.probe_syn;
        })

  pub send_probe-Emits :
      (seg : TcpSegment) (s : TcpSender)
      → seg.header.syn ≡ false
      → P seg
      → Emits P s
      → Emits P (send_probe seg s)
  unfolding send_probe
  send_probe-Emits seg s syn p e =
      start_timer-Emits
        (record s {
          zero_win_seg_send = true;
          zero_win_seg = seg;
          zero_win_seg_seq = s.next_seqno;
          next_seqno = add64 s.next_seqno (length_in_sequence_space seg);
          segments_out = s.segments_out ++ seg ∷ [];
        })
        (record {
          queued = queue-Emits s.segments_out seg p e.queued;
          kept = e.kept;
          probe = λ _. p;
          probe_syn = syn;
        })

  All-drop_acked :
      (ack : ℕ) (segs : Map TcpSegment)
      → Map.All (λ _. P) segs
      → Map.All (λ _. P) (drop_acked ack segs)
  unfolding drop_acked
  All-drop_acked ack [] h = tt
  All-drop_acked ack ((key, seg) ∷ segs) h =
      pick (ltb (sub64 (add64 (length_in_sequence_space seg) key) 1) ack) (leb ack key)
        (All-drop_acked ack segs h.1)
    where
      pick :
          (old new : Bool)
          → Map.All (λ _. P) (drop_acked ack segs)
          → Map.All
              (λ _. P)
              (if old
                then drop_acked ack segs
                else if new
                then (key, seg) ∷ segs
                else (key, seg) ∷ drop_acked ack segs)
      pick true new rest = rest
      pick false true rest = h
      pick false false rest = (h.0, rest)

  acknowledge-Emits :
      (a ackno window_size : ℕ) (s : TcpSender)
      → Emits P s
      → Emits P (acknowledge a ackno window_size s)
  unfolding acknowledge
  acknowledge-Emits a ackno window_size s e = record {
    queued = e.queued;
    kept = All-drop_acked a s.outstanding_segs e.kept;
    probe = still (ltb s.zero_win_seg_seq a);
    probe_syn = e.probe_syn;
  }
    where
      still : (b : Bool) → (if b then false else s.zero_win_seg_send) ≡ true → P s.zero_win_seg
      still true h = cc
      still false h = e.probe h

  pub ack_received-Emits :
      (ackno window_size : ℕ) (s : TcpSender)
      → Emits P s
      → Emits P (ack_received ackno window_size s)
  unfolding ack_received
  ack_received-Emits ackno window_size s e =
      elim (ack_absolute ackno s)
        as (λ o. Emits P (elim o [ none ↦ s | some a ↦ acknowledge a ackno window_size s ])) [
          | none ↦ e
          | some a ↦ acknowledge-Emits a ackno window_size s e
        ]

  tick_zero-Emits :
      (ms : ℕ) (s : TcpSender) → P s.zero_win_seg → Emits P s → Emits P (tick_zero ms s)
  unfolding tick_zero
  tick_zero-Emits ms s p e =
      if-Emits (time_after ms s == 0)
        (restart (record s { segments_out = s.segments_out ++ s.zero_win_seg ∷ [] }))
        (record s { rx_time_left = time_after ms s })
        (λ _. record {
          queued = queue-Emits s.segments_out s.zero_win_seg p e.queued;
          kept = e.kept;
          probe = e.probe;
          probe_syn = e.probe_syn;
        })
        (record { queued = e.queued; kept = e.kept; probe = e.probe; probe_syn = e.probe_syn })

  back_off-Emits : (s : TcpSender) → Emits P s → Emits P (back_off s)
  back_off-Emits s e =
      if-Emits (not (s.win_size == 0) || (ltb 0 s.next_seqno && s.next_seqno == bytes_in_flight s))
        (record s {
          rx_times = add64 s.rx_times 1;
          initial_retransmission_timeout = s.initial_retransmission_timeout * 2 % u32_mod;
        })
        s
        (λ _. record { queued = e.queued; kept = e.kept; probe = e.probe; probe_syn = e.probe_syn })
        e

  again-Emits :
      (seg : TcpSegment) (s : TcpSender)
      → P seg
      → Emits P s
      → Emits P (restart (record s { segments_out = s.segments_out ++ seg ∷ [] }))
  again-Emits seg s p e = record {
    queued = queue-Emits s.segments_out seg p e.queued;
    kept = e.kept;
    probe = e.probe;
    probe_syn = e.probe_syn;
  }

  tick_running-Emits :
      (ms : ℕ) (seg : TcpSegment) (s : TcpSender)
      → P seg
      → Emits P s
      → Emits P (tick_running ms seg s)
  unfolding tick_running
  tick_running-Emits ms seg s p e =
      if-Emits (time_after ms s == 0)
        (restart (record (back_off s) { segments_out = (back_off s).segments_out ++ seg ∷ [] }))
        (record s { rx_time_left = time_after ms s })
        (λ _. again-Emits seg (back_off s) p (back_off-Emits s e))
        (record { queued = e.queued; kept = e.kept; probe = e.probe; probe_syn = e.probe_syn })

  stop_timer-Emits : (s : TcpSender) → Emits P s → Emits P (record s { timer_running = false })
  stop_timer-Emits s e = record {
    queued = e.queued;
    kept = e.kept;
    probe = e.probe;
    probe_syn = e.probe_syn;
  }

  tick_oldest-Emits :
      (ms : ℕ) (segs : Map TcpSegment) (s : TcpSender)
      → Map.All (λ _. P) segs
      → Emits P s
      → Emits P (tick_oldest ms segs s)
  unfolding tick_oldest
  tick_oldest-Emits ms [] s h e = stop_timer-Emits s e
  tick_oldest-Emits ms ((key, seg) ∷ segs) s h e =
      if-Emits s.timer_running (tick_running ms seg s) (record s { timer_running = false })
        (λ _. tick_running-Emits ms seg s h.0 e) (stop_timer-Emits s e)

  pub tick-Emits : (ms : ℕ) (s : TcpSender) → Emits P s → Emits P (tick ms s)
  unfolding tick
  tick-Emits ms s e =
      if-Emits s.zero_win_seg_send (tick_zero ms s) (tick_oldest ms s.outstanding_segs s)
        (λ out. tick_zero-Emits ms s (e.probe out) e)
        (tick_oldest-Emits ms s.outstanding_segs s e.kept e)
