-- ===== src/TcpSender/Text/Zero.antt =====
-- A window of zero: the segment that probes it, with a byte of the text or a FIN.
use cs144_intro2network.Prelude.{
  true, false, ℕ, List, inl, inr, refl, ◌≡◌, false, ◌+◌, length, arith, true, ◌<◌, ◌≤◌, [], u32_mod,
  ◌∙◌, ◌&&◌, ap, Bool-cases, not, ◌++◌, length-append, if◌then◌else◌, ◌==◌,
}
use cs144_intro2network.ByteStream.{read, eof}
use cs144_intro2network.ByteStream.Text.{Wrote-read, Wrote-fits}
use cs144_intro2network.Wrapping.{wrap}
use cs144_intro2network.Wire.TcpSegment.{TcpSegment, length_in_sequence_space}
use cs144_intro2network.TcpSender.{TcpSender, send_probe, probe_data, probe_fin, fill_zero}
use cs144_intro2network.TcpSender.Emits.{send_probe-Emits}
use cs144_intro2network.TcpSender.Text.{
  Excerpt, Sends, probe_fields, Excerpt-at, with_stream-Emits, Proceeds, data-Excerpt,
}

module _ (s : List ℕ) (limit isn : ℕ) (small : length s + limit < u32_mod) where
  probe_data-Sends :
      (gone : List ℕ) (fins : ℕ) (t : TcpSender)
      → fins + length s ≤ limit
      → Sends s limit isn 1 gone fins t
      → (gone' : List ℕ) × Sends s limit isn 1 gone' fins (probe_data t)
  unfolding probe_data length_in_sequence_space
  probe_data-Sends gone fins t room h = elim (Bool-cases (length t.stream.buffer == 0)) [
    | inl none_left ↦ rw none_left (gone, h)
    | inr left ↦
        rw left
          (elim t.zero_win_seg_send
            as (λ b.
              (gone' : List ℕ) × Sends s limit isn 1 gone' fins
                (if not b then send_probe seg u else t)) [ true ↦ (gone, h) | false ↦ sent left ])
  ]
    where
      bytes : List ℕ
      bytes = (read t.stream 1).0

      u : TcpSender
      u = record t { stream = (read t.stream 1).1 }

      seg : TcpSegment
      seg = record {
        header = record (t.zero_win_seg.header) { seqno = wrap t.next_seqno t.isn };
        payload = bytes;
      }

      no_fin_yet : fins ≡ 0 → t.zero_win_seg.header.fin ≡ false
      no_fin_yet first = elim (Bool-cases t.zero_win_seg.header.fin) [
        | inl fin ↦ absurd (omega (arith, h.probe_fin fin, first))
        | inr off ↦ off
      ]

      sent :
          (length t.stream.buffer == 0) ≡ false
          → (gone' : List ℕ) × Sends s limit isn 1 gone' fins (send_probe seg u)
      sent left =
          let first : fins ≡ 0 = ground (arith, h.over, left) in
          let f = probe_fields seg u in
          let w = Wrote-read s gone t.stream 1 h.stream in
          let fits = Wrote-fits s (gone ++ bytes) (read t.stream 1).1 w in
          let l = length-append gone bytes in
          let no_fin = no_fin_yet first in
          let len : length_in_sequence_space seg ≡ length bytes =
            ground (arith, no_fin, h.emits.probe_syn) in
          (
            gone ++ bytes,
            record {
              stream = rw f.0 w;
              initial = f.1 ∙ h.initial;
              number = omega (arith, f.3, len, h.number, fits, l, first);
              over = inl first;
              probe_fin = rw f.2 h.probe_fin;
              emits =
                  send_probe-Emits (Excerpt s limit isn) seg u h.emits.probe_syn
                    (data-Excerpt s limit isn small gone bytes t (read t.stream 1).1 w h.initial
                      (omega (arith, h.number, first)) (omega arith) seg refl h.emits.probe_syn
                      refl)
                    (with_stream-Emits s limit isn small (Excerpt s limit isn) t (read t.stream 1).1
                      h.emits);
            },
          )

  probe_fin-Proceeds :
      (gone : List ℕ) (fins : ℕ) (t : TcpSender)
      → fins + length s ≤ limit
      → Sends s limit isn 1 gone fins t
      → Proceeds s limit isn small (fins + 1) (probe_fin t)
  unfolding probe_fin length_in_sequence_space
  probe_fin-Proceeds gone fins t room h =
      elim (Bool-cases (eof t.stream && not t.zero_win_seg_send)) [
        | inr off ↦ rw off (gone, fins, omega arith, h)
        | inl fin ↦ rw fin (sent fin)
      ]
    where
      seg : TcpSegment
      seg = record {
        header = record (t.zero_win_seg.header) { seqno = wrap t.next_seqno t.isn; fin = true };
        payload = [];
      }

      sent :
          (eof t.stream && not t.zero_win_seg_send) ≡ true
          → Proceeds s limit isn small (fins + 1) (send_probe seg t)
      sent fin =
          let f = probe_fields seg t in
          let fits = Wrote-fits s gone t.stream h.stream in
          let len : length_in_sequence_space seg ≡ 1 = ground (arith, h.emits.probe_syn) in
          (
            gone,
            fins + 1,
            omega arith,
            record {
              stream = rw f.0 h.stream;
              initial = f.1 ∙ h.initial;
              number = omega (arith, f.3, len, h.number, fits);
              over = inr (rw f.0 (ground (arith, fin)));
              probe_fin = λ _. omega arith;
              emits =
                  send_probe-Emits (Excerpt s limit isn) seg t h.emits.probe_syn
                    (Excerpt-at s limit isn small seg t.next_seqno (length gone + fins)
                      h.emits.probe_syn (ap (wrap t.next_seqno) h.initial) (omega (arith, h.number))
                      (omega (arith, fits)) (inl refl))
                    h.emits;
            },
          )

  pub fill_zero-Proceeds :
      (gone : List ℕ) (fins : ℕ) (t : TcpSender)
      → fins + length s ≤ limit
      → Sends s limit isn 1 gone fins t
      → Proceeds s limit isn small (fins + 1) (fill_zero t)
  unfolding fill_zero
  fill_zero-Proceeds gone fins t room h =
      let (gone', h') = probe_data-Sends gone fins t room h in
      probe_fin-Proceeds gone' fins (probe_data t) room h'
