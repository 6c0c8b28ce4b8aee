-- ===== src/TcpSender/Queued.antt =====
-- The bytes of the stream on their way into the segments of `TCPSender`.
use cs144_intro2network.Prelude.{
  ℕ, zero, suc, true, Bool-cases, inl, inr, ◌≡◌, ◌∙◌, sym, ap, refl, List, [], ◌∷◌, ◌++◌, arith,
  subst, append-nil, append_assoc, ◌&&◌, not, ◌==◌, ltb, length, Option, some, none, add64,
}
use cs144_intro2network.ByteStream.{read, eof, buffer_empty, bytes_written}
use cs144_intro2network.ByteStream.Fifo.{read-buffer}
use cs144_intro2network.Wire.TcpSegment.{TcpSegment}
use cs144_intro2network.TcpSender.{
  TcpSender, track, start_timer, send_probe, send_data_one, send_data, data_segment, transfer_size,
  send_fin, fin_segment, syn_segment, fill_open, probe_data, probe_fin, fill_zero, fill_window,
  bytes_in_flight, or_same, next_seqno_relative,
}

-- The bytes that the segments carry.
unfoldable pub payloads : List TcpSegment → List ℕ
payloads [] = []
payloads (seg ∷ segs) = seg.payload ++ payloads segs

pub payloads-append : (xs ys : List TcpSegment) → payloads (xs ++ ys) ≡ payloads xs ++ payloads ys
unfolding payloads
payloads-append [] ys = refl
payloads-append (x ∷ xs) ys =
    ap (◌++◌ x.payload) (payloads-append xs ys)
    ∙ sym (append_assoc x.payload (payloads xs) (payloads ys))

-- The bytes that the sender has on hand: those in its queue of segments, and then the stream's.
abbrev pub on_hand : TcpSender → List ℕ
on_hand t = payloads t.segments_out ++ t.stream.buffer

payloads-queue :
    (segs : List TcpSegment) (seg : TcpSegment) (rest : List ℕ)
    → payloads (segs ++ seg ∷ []) ++ rest ≡ payloads segs ++ (seg.payload ++ rest)
unfolding payloads
payloads-queue segs seg rest =
    ap (λ x. x ++ rest)
      (payloads-append segs (seg ∷ []) ∙ ap (◌++◌ (payloads segs)) (append-nil seg.payload))
    ∙ append_assoc (payloads segs) seg.payload rest

start_timer-on_hand : (t : TcpSender) → on_hand (start_timer t) ≡ on_hand t
unfolding start_timer
start_timer-on_hand t = elim (Bool-cases t.timer_running) [
  | inl running ↦ rw running refl
  | inr stopped ↦ rw stopped refl
]

track-on_hand :
    (seg : TcpSegment) (t : TcpSender)
    → on_hand (track seg t) ≡ payloads t.segments_out ++ (seg.payload ++ t.stream.buffer)
unfolding track
track-on_hand seg t = start_timer-on_hand _ ∙ payloads-queue t.segments_out seg t.stream.buffer

probe-on_hand :
    (seg : TcpSegment) (t : TcpSender)
    → on_hand (send_probe seg t) ≡ payloads t.segments_out ++ (seg.payload ++ t.stream.buffer)
unfolding send_probe
probe-on_hand seg t = start_timer-on_hand _ ∙ payloads-queue t.segments_out seg t.stream.buffer

data_segment-payload : (bytes : List ℕ) (t : TcpSender) → (data_segment bytes t).payload ≡ bytes
unfolding data_segment
data_segment-payload bytes t = ground arith

send_data_one-on_hand : (t : TcpSender) → on_hand (send_data_one t) ≡ on_hand t
unfolding send_data_one
send_data_one-on_hand t =
    let s' : TcpSender = record t { stream = (read t.stream (transfer_size t)).1 } in
    track-on_hand (data_segment (read t.stream (transfer_size t)).0 s') s'
    ∙ ap (λ x. payloads t.segments_out ++ (x ++ s'.stream.buffer))
        (data_segment-payload (read t.stream (transfer_size t)).0 s')
    ∙ ap (◌++◌ (payloads t.segments_out)) (read-buffer t.stream (transfer_size t))

-- What the data loop gives, if it gives anything, has these bytes on hand.
abbrev Has : List ℕ → Option TcpSender → Type 0
Has bytes none = Unit
Has bytes (some t) = on_hand t ≡ bytes

Has-or_same :
    (t : TcpSender) (bytes : List ℕ) (o : Option TcpSender)
    → on_hand t ≡ bytes
    → Has bytes o
    → on_hand (or_same t o) ≡ bytes
Has-or_same t bytes none e h = e
Has-or_same t bytes (some u) e h = h

send_data-Has : (fuel : ℕ) (t : TcpSender) → Has (on_hand t) (send_data fuel t)
unfolding send_data
send_data-Has zero t =
    elim (Bool-cases (not (buffer_empty t.stream) && ltb (bytes_in_flight t) t.win_size)) [
      | inl more ↦ rw (send_data, more) tt
      | inr over ↦ rw (send_data, over) refl
    ]
send_data-Has (suc fuel) t =
    elim (Bool-cases (not (buffer_empty t.stream) && ltb (bytes_in_flight t) t.win_size)) [
      | inl more ↦
          rw (send_data, more)
            (subst (λ b. Has b (send_data fuel (send_data_one t))) (send_data_one-on_hand t)
              (send_data-Has fuel (send_data_one t)))
      | inr over ↦ rw (send_data, over) refl
    ]

send_fin-on_hand : (t : TcpSender) → on_hand (send_fin t) ≡ on_hand t
unfolding send_fin fin_segment
send_fin-on_hand t =
    elim (Bool-cases (eof t.stream && ltb t.next_seqno (add64 (bytes_written t.stream) 2))) [
      | inl last ↦ rw last (track-on_hand (fin_segment t) t)
      | inr other ↦ rw other refl
    ]

fill_open-on_hand : (t : TcpSender) → on_hand (fill_open t) ≡ on_hand t
unfolding fill_open
fill_open-on_hand t =
    Has-or_same (send_fin t) (on_hand (send_fin t))
      (send_data (length (send_fin t).stream.buffer) (send_fin t)) refl
      (send_data-Has (length (send_fin t).stream.buffer) (send_fin t))
    ∙ send_fin-on_hand t

probe_data-on_hand : (t : TcpSender) → on_hand (probe_data t) ≡ on_hand t
unfolding probe_data
probe_data-on_hand t = elim (Bool-cases (not (buffer_empty t.stream) && not t.zero_win_seg_send)) [
  | inl probes ↦ rw probes (
      probe-on_hand
        (record {
          header = record (t.zero_win_seg.header) { seqno = next_seqno_relative t };
          payload = (read t.stream 1).0;
        })
        (record t { stream = (read t.stream 1).1 })
      ∙ ap (◌++◌ (payloads t.segments_out)) (read-buffer t.stream 1))
  | inr other ↦ rw other refl
]

probe_fin-on_hand : (t : TcpSender) → on_hand (probe_fin t) ≡ on_hand t
unfolding probe_fin
probe_fin-on_hand t = elim (Bool-cases (eof t.stream && not t.zero_win_seg_send)) [
  | inl probes ↦ rw probes (
      probe-on_hand
        (record {
          header = record (t.zero_win_seg.header) { seqno = next_seqno_relative t; fin = true };
          payload = [];
        })
        t)
  | inr other ↦ rw other refl
]

-- Filling the window moves bytes from the stream into segments, and loses and repeats none.
pub fill_window-on_hand : (t : TcpSender) → on_hand (fill_window t) ≡ on_hand t
unfolding fill_window fill_zero syn_segment
fill_window-on_hand t = elim (Bool-cases (t.next_seqno == 0)) [
  | inl fresh ↦ rw fresh (track-on_hand (syn_segment t) t)
  | inr begun ↦
      rw begun (elim (Bool-cases (ltb (bytes_in_flight t) t.win_size && not t.zero_win_seg_send)) [
        | inl is_open ↦ rw is_open (fill_open-on_hand t)
        | inr closed ↦
            rw closed (elim (Bool-cases (t.win_size == 0 && ltb (bytes_in_flight t) t.next_seqno)) [
              | inl is_zero ↦ rw is_zero (probe_fin-on_hand (probe_data t) ∙ probe_data-on_hand t)
              | inr other ↦ rw other refl
            ])
      ])
]
