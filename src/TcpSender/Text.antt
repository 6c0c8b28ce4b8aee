-- ===== src/TcpSender/Text.antt =====
-- The numbers and the payloads of what `TCPSender` sends of a text.
pub mod Open
pub mod Zero
pub mod Calls
pub mod Queue
use cs144_intro2network.Prelude.{
  zero, suc, none, some, true, false, ℕ, List, inl, inr, refl, ◌≡◌, false, add64, ◌+◌, length, ◌⊎◌,
  arith, true, ◌<◌, ◌≤◌, [], u32_mod, ◌∙◌, ◌&&◌, ap, ltb, Bool-cases, not, Option, ◌++◌,
  length-append, if◌then◌else◌, suc, ◌==◌, subst,
}
use cs144_intro2network.ByteStream.{ByteStream, read, eof, bytes_written, buffer_empty}
use cs144_intro2network.ByteStream.Text.{Wrote, Wrote-read, Wrote-fits, Wrote-part}
use cs144_intro2network.Reassembler.Slice.{AgreesAt, AgreesAt-drop, AgreesAt-take}
use cs144_intro2network.Wrapping.{wrap, add}
use cs144_intro2network.Wire.TcpSegment.{TcpSegment, length_in_sequence_space}
use cs144_intro2network.TcpReceiver.{data_seqno}
use cs144_intro2network.TcpSender.{
  TcpSender, track, start_timer, syn_segment, fin_segment, data_segment, send_fin, send_data_one,
  transfer_size, send_data, fill_open, send_probe, probe_data, probe_fin, fill_zero, fill_window,
  or_same, bytes_in_flight,
}
use cs144_intro2network.TcpSender.Emits.{Emits, track-Emits, send_probe-Emits}

-- The segment carries the bytes of `s` from `index` on, or no bytes at a number up to `limit`.
pub record Excerpt (s : List ℕ) (limit isn : ℕ) (seg : TcpSegment) : Type 0 where
  pub index : ℕ
  pub numbered : data_seqno seg ≡ wrap (index + 1) isn
  pub syn_first : seg.header.syn ≡ true → seg.header.seqno ≡ isn
  pub bounded : index ≤ limit
  pub part : (seg.payload ≡ []) ⊎ AgreesAt s index seg.payload

-- The sender has taken the bytes `gone` of `s` out of its stream and has sent `fins` FINs after the
-- last byte. Its next number is past all of these, and past the SYN, if `start` is 1.
pub record Sends (s : List ℕ) (limit isn start : ℕ) (gone : List ℕ) (fins : ℕ) (t : TcpSender)
    : Type 0 where
  pub stream : Wrote s gone t.stream
  pub initial : t.isn ≡ isn
  pub number : t.next_seqno ≡ start + length gone + fins
  pub over : (fins ≡ 0) ⊎ ((t.stream.input_end ≡ true) × (length t.stream.buffer ≡ 0))
  pub probe_fin : t.zero_win_seg.header.fin ≡ true → 0 < fins
  pub emits : Emits (Excerpt s limit isn) t

pub track_fields :
    (seg : TcpSegment) (t : TcpSender)
    → ((track seg t).stream ≡ t.stream)
      × ((track seg t).isn ≡ t.isn)
      × ((track seg t).zero_win_seg ≡ t.zero_win_seg)
      × ((track seg t).next_seqno ≡ add64 t.next_seqno (length_in_sequence_space seg))
unfolding track start_timer
track_fields seg t = ground arith

pub probe_fields :
    (seg : TcpSegment) (t : TcpSender)
    → ((send_probe seg t).stream ≡ t.stream)
      × ((send_probe seg t).isn ≡ t.isn)
      × ((send_probe seg t).zero_win_seg ≡ seg)
      × ((send_probe seg t).next_seqno ≡ add64 t.next_seqno (length_in_sequence_space seg))
unfolding send_probe start_timer
probe_fields seg t = ground arith

-- A segment of data has its payload and number, and a FIN only at the end of the stream.
pub data_segment_fields :
    (bytes : List ℕ) (t : TcpSender)
    → let seg = data_segment bytes t in
      (seg.payload ≡ bytes)
      × (seg.header.syn ≡ false)
      × (seg.header.seqno ≡ wrap t.next_seqno t.isn)
      × (((length_in_sequence_space seg ≡ length bytes))
          ⊎ ((length_in_sequence_space seg ≡ length bytes + 1)
              × (t.stream.input_end ≡ true)
              × (length t.stream.buffer ≡ 0)))
unfolding data_segment length_in_sequence_space
data_segment_fields bytes t = ground arith

module _ (s : List ℕ) (limit isn : ℕ) (small : length s + limit < u32_mod) where
  -- A segment without SYN, with the number `n` and the payload `bytes`.
  pub Excerpt-at :
      (seg : TcpSegment) (n index : ℕ)
      → seg.header.syn ≡ false
      → seg.header.seqno ≡ wrap n isn
      → n ≡ index + 1
      → index ≤ limit
      → (seg.payload ≡ []) ⊎ AgreesAt s index seg.payload
      → Excerpt s limit isn seg
  Excerpt-at seg n index syn number e le part = record {
    index = index;
    numbered = rw syn (number ∙ ap (λ k. wrap k isn) e);
    syn_first = λ h. cc;
    bounded = le;
    part = part;
  }

  pub with_stream-Emits :
      (P : TcpSegment → Type 0) (t : TcpSender) (o : ByteStream)
      → Emits P t
      → Emits P (record t { stream = o })
  with_stream-Emits P t o e = record {
    queued = e.queued;
    kept = e.kept;
    probe = e.probe;
    probe_syn = e.probe_syn;
  }

  -- What an operation leads to: a sender on the same text, with at most `bound` FINs sent.
  abbrev pub Proceeds : ℕ → TcpSender → Type 0
  Proceeds bound t =
      (gone' : List ℕ) × (fins' : ℕ) × (fins' ≤ bound) × Sends s limit isn 1 gone' fins' t

  pub syn-Proceeds :
      (t : TcpSender) → Sends s limit isn 0 [] 0 t → Proceeds 1 (track (syn_segment t) t)
  unfolding syn_segment length_in_sequence_space
  syn-Proceeds t h =
      let f = track_fields (syn_segment t) t in
      (
        [],
        0,
        omega arith,
        record {
          stream = rw f.0 h.stream;
          initial = f.1 ∙ h.initial;
          number = omega (arith, f.3, h.number);
          over = inl refl;
          probe_fin = rw f.2 h.probe_fin;
          emits =
              track-Emits (Excerpt s limit isn) (syn_segment t) t
                (record {
                  index = 0;
                  numbered = (unfold wrap add in ground (arith, h.initial));
                  syn_first = λ _. h.initial;
                  bounded = omega arith;
                  part = inl refl;
                })
                h.emits;
        },
      )

  -- Bytes of the text after `gone` go out at the next number.
  pub data-Excerpt :
      (gone bytes : List ℕ) (t : TcpSender) (o : ByteStream)
      → Wrote s (gone ++ bytes) o
      → t.isn ≡ isn
      → t.next_seqno ≡ 1 + length gone + 0
      → length s ≤ limit
      → (seg : TcpSegment) → seg.payload ≡ bytes
      → seg.header.syn ≡ false
      → seg.header.seqno ≡ wrap t.next_seqno t.isn
      → Excerpt s limit isn seg
  data-Excerpt gone bytes t o w initial number room seg payload syn seqno =
      Excerpt-at seg t.next_seqno (length gone) syn (seqno ∙ ap (wrap t.next_seqno) initial)
        (omega (arith, number))
        (omega (arith, Wrote-fits s (gone ++ bytes) o w, length-append gone bytes))
        (inr (rw payload (Wrote-part s gone bytes o w)))
