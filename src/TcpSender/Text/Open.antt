-- ===== src/TcpSender/Text/Open.antt =====
-- An open window: the FIN, and the data loop of `fill_window`.
use cs144_intro2network.Prelude.{
  zero, suc, none, some, true, false, ℕ, List, inl, inr, refl, ◌≡◌, false, add64, ◌+◌, length,
  arith, true, ◌<◌, ◌≤◌, u32_mod, ◌∙◌, ◌&&◌, ap, ltb, Bool-cases, not, Option, ◌++◌, length-append,
  if◌then◌else◌, suc, ◌==◌, subst,
}
use cs144_intro2network.ByteStream.{read, eof, bytes_written, buffer_empty}
use cs144_intro2network.ByteStream.Text.{Wrote-read, Wrote-fits}
use cs144_intro2network.Wrapping.{wrap}
use cs144_intro2network.Wire.TcpSegment.{length_in_sequence_space}
use cs144_intro2network.TcpSender.{
  TcpSender, track, fin_segment, data_segment, send_fin, send_data_one, transfer_size, send_data,
  fill_open, or_same, bytes_in_flight,
}
use cs144_intro2network.TcpSender.Emits.{track-Emits}
use cs144_intro2network.TcpSender.Text.{
  Excerpt, Sends, track_fields, data_segment_fields, Excerpt-at, with_stream-Emits, Proceeds,
  data-Excerpt,
}

module _ (s : List ℕ) (limit isn : ℕ) (small : length s + limit < u32_mod) where
  send_fin-Proceeds :
      (gone : List ℕ) (fins : ℕ) (t : TcpSender)
      → fins + length s ≤ limit
      → Sends s limit isn 1 gone fins t
      → Proceeds s limit isn small (fins + 1) (send_fin t)
  unfolding send_fin fin_segment length_in_sequence_space
  send_fin-Proceeds gone fins t room h =
      elim (Bool-cases (eof t.stream && ltb t.next_seqno (add64 (bytes_written t.stream) 2))) [
        | inr off ↦ rw off (gone, fins, omega arith, h)
        | inl fin ↦ rw fin (fin_sent fin)
      ]
    where
      fin_sent :
          (eof t.stream && ltb t.next_seqno (add64 (bytes_written t.stream) 2)) ≡ true
          → Proceeds s limit isn small (fins + 1) (track (fin_segment t) t)
      fin_sent fin =
          let f = track_fields (fin_segment t) t in
          let fits = Wrote-fits s gone t.stream h.stream in
          (
            gone,
            fins + 1,
            omega arith,
            record {
              stream = rw f.0 h.stream;
              initial = f.1 ∙ h.initial;
              number = omega (arith, f.3, h.number, fits);
              over = inr (rw f.0 (ground (arith, fin)));
              probe_fin = λ _. omega arith;
              emits =
                  track-Emits (Excerpt s limit isn) (fin_segment t) t
                    (Excerpt-at s limit isn small (fin_segment t) t.next_seqno (length gone + fins)
                      refl (ap (wrap t.next_seqno) h.initial) (omega (arith, h.number))
                      (omega (arith, fits)) (inl refl))
                    h.emits;
            },
          )

  send_data_one-Proceeds :
      (gone : List ℕ) (t : TcpSender)
      → length s ≤ limit
      → Sends s limit isn 1 gone 0 t
      → Proceeds s limit isn small 1 (send_data_one t)
  unfolding send_data_one
  send_data_one-Proceeds gone t room h =
      let n = transfer_size t in
      let bytes = (read t.stream n).0 in
      let o = (read t.stream n).1 in
      let u : TcpSender = record t { stream = o } in
      let w = Wrote-read s gone t.stream n h.stream in
      let seg = data_segment bytes u in
      let d = data_segment_fields bytes u in
      let f = track_fields seg u in
      let fits = Wrote-fits s (gone ++ bytes) o w in
      let l = length-append gone bytes in
      let emits =
        track-Emits (Excerpt s limit isn) seg u
          (data-Excerpt s limit isn small gone bytes t o w h.initial h.number room seg d.0 d.1 d.2)
          (with_stream-Emits s limit isn small (Excerpt s limit isn) t o h.emits) in
      elim (d.3) [
        | inl plain ↦ (
          gone ++ bytes,
          0,
          omega arith,
          record {
            stream = rw f.0 w;
            initial = f.1 ∙ h.initial;
            number = omega (arith, f.3, plain, h.number, fits, l);
            over = inl refl;
            probe_fin = rw f.2 h.probe_fin;
            emits = emits;
          },
        )
        | inr (fin, ended, none_left) ↦ (
          gone ++ bytes,
          1,
          omega arith,
          record {
            stream = rw f.0 w;
            initial = f.1 ∙ h.initial;
            number = omega (arith, f.3, fin, h.number, fits, l);
            over = inr (rw f.0 (ended, none_left));
            probe_fin = λ _. omega arith;
            emits = emits;
          },
        )
      ]

  abbrev ProceedsIf : ℕ → Option TcpSender → Type 0
  ProceedsIf bound none = Unit
  ProceedsIf bound (some t) = Proceeds s limit isn small bound t

  send_data-ProceedsIf :
      (fuel bound : ℕ) (gone : List ℕ) (fins : ℕ) (t : TcpSender)
      → length s ≤ limit
      → fins ≤ bound
      → 0 < bound
      → Sends s limit isn 1 gone fins t
      → ProceedsIf bound (send_data fuel t)
  unfolding send_data
  send_data-ProceedsIf zero bound gone fins t room le pos h =
      elim (not (buffer_empty t.stream) && ltb (bytes_in_flight t) t.win_size)
        as (λ b. ProceedsIf bound (if b then none else some t)) [
          | true ↦ tt
          | false ↦ (gone, fins, le, h)
        ]
  send_data-ProceedsIf (suc fuel) bound gone fins t room le pos h =
      elim (Bool-cases (length t.stream.buffer == 0)) [
        | inl none_left ↦ rw none_left (gone, fins, le, h)
        | inr left ↦
            let first : fins ≡ 0 = ground (arith, h.over, left) in
            let (gone', fins', le', h') =
              send_data_one-Proceeds gone t room
                (subst (λ k. Sends s limit isn 1 gone k t) first h) in
            rw left
              (elim (ltb (bytes_in_flight t) t.win_size)
                as (λ b.
                  ProceedsIf bound (if b then send_data fuel (send_data_one t) else some t)) [
                    | true ↦
                        send_data-ProceedsIf fuel bound gone' fins' (send_data_one t) room
                          (omega arith) pos h'
                    | false ↦ (gone, fins, le, h)
                  ])
      ]

  pub fill_open-Proceeds :
      (gone : List ℕ) (fins : ℕ) (t : TcpSender)
      → fins + length s ≤ limit
      → Sends s limit isn 1 gone fins t
      → Proceeds s limit isn small (fins + 1) (fill_open t)
  unfolding fill_open
  fill_open-Proceeds gone fins t room h =
      let (gone', fins', le, h') = send_fin-Proceeds gone fins t room h in
      let loop =
        send_data-ProceedsIf (length (send_fin t).stream.buffer) (fins + 1) gone' fins' (send_fin t)
          (omega arith) le (omega arith) h' in
      (elim (send_data (length (send_fin t).stream.buffer) (send_fin t))
          as (λ o.
            ProceedsIf (fins + 1) o
            → Proceeds s limit isn small (fins + 1) (or_same (send_fin t) o)) [
              | none ↦ λ _. (gone', fins', le, h')
              | some u ↦ λ p. p
            ])
        loop
