-- ===== src/TcpSender/Timer.antt =====
-- The retransmission timer of `TCPSender` over several calls of `tick`.
use cs144_intro2network.Prelude.{
  ℕ, List, [], ◌∷◌, refl, ◌==◌, ◌≡◌, Bool, ◌+◌, sym, ◌++◌, ◌<◌, false, arith, append-nil, ◌∙◌,
  if◌then◌else◌, ◌-◌, ap, true, append_assoc, length, ◌≤◌, Bool-cases, ltb, inl, ltb→lt, subst, inr,
}
use cs144_intro2network.Prelude.Map.{Map}
use cs144_intro2network.Wire.TcpSegment.{TcpSegment}
use cs144_intro2network.TcpSender.{
  TcpSender, tick, tick_zero, tick_oldest, tick_running, time_after, restart, back_off,
}

abbrev pub ticks : List ℕ → TcpSender → TcpSender
ticks [] s = s
ticks (ms ∷ later) s = ticks later (tick ms s)

abbrev pub sum : List ℕ → ℕ
sum [] = 0
sum (ms ∷ later) = ms + sum later

-- More has been queued behind what was queued.
abbrev pub Grows : List TcpSegment → List TcpSegment → Type 0
Grows old new = (more : List TcpSegment) × (new ≡ old ++ more)

same_Grows : (segs : List TcpSegment) → Grows segs segs
same_Grows segs = ([], sym (append-nil segs))

if_Grows :
    (old : List TcpSegment) (b : Bool) (s t : TcpSender)
    → Grows old s.segments_out
    → Grows old t.segments_out
    → Grows old (if b then s else t).segments_out
if_Grows old true s t hs ht = hs
if_Grows old false s t hs ht = ht

tick_oldest-Grows :
    (ms : ℕ) (segs : Map TcpSegment) (s : TcpSender)
    → Grows s.segments_out (tick_oldest ms segs s).segments_out
unfolding tick_oldest tick_running
tick_oldest-Grows ms [] s = same_Grows s.segments_out
tick_oldest-Grows ms ((key, seg) ∷ segs) s =
    if_Grows s.segments_out s.timer_running _ (record s { timer_running = false })
      (if_Grows s.segments_out (time_after ms s == 0)
        (restart (record (back_off s) { segments_out = (back_off s).segments_out ++ seg ∷ [] }))
        (record s { rx_time_left = time_after ms s }) (seg ∷ [], ap (λ q. q ++ seg ∷ []) same)
        (same_Grows s.segments_out))
      (same_Grows s.segments_out)
  where
    same : (back_off s).segments_out ≡ s.segments_out
    same = ground arith

tick-Grows : (ms : ℕ) (s : TcpSender) → Grows s.segments_out (tick ms s).segments_out
unfolding tick tick_zero
tick-Grows ms s =
    if_Grows s.segments_out s.zero_win_seg_send (tick_zero ms s)
      (tick_oldest ms s.outstanding_segs s)
      (if_Grows s.segments_out (time_after ms s == 0)
        (restart (record s { segments_out = s.segments_out ++ s.zero_win_seg ∷ [] }))
        (record s { rx_time_left = time_after ms s }) (s.zero_win_seg ∷ [], refl)
        (same_Grows s.segments_out))
      (tick_oldest-Grows ms s.outstanding_segs s)

ticks-Grows : (l : List ℕ) (s : TcpSender) → Grows s.segments_out (ticks l s).segments_out
ticks-Grows [] s = same_Grows s.segments_out
ticks-Grows (ms ∷ l) s =
    let (one, e) = tick-Grows ms s in
    let (more, f) = ticks-Grows l (tick ms s) in
    (one ++ more, f ∙ ap (λ q. q ++ more) e ∙ append_assoc s.segments_out one more)

-- The timer runs for an outstanding segment, with no zero-window segment out.
pub record Runs (seg : TcpSegment) (s : TcpSender) : Type 0 where
  pub no_probe : s.zero_win_seg_send ≡ false
  pub running : s.timer_running ≡ true
  pub key : ℕ
  pub others : Map TcpSegment
  pub oldest : s.outstanding_segs ≡ (key, seg) ∷ others

tick_waits :
    (ms : ℕ) (seg : TcpSegment) (s : TcpSender)
    → Runs seg s
    → ms < s.rx_time_left
    → tick ms s ≡ record s { rx_time_left = s.rx_time_left - ms }
unfolding tick tick_oldest tick_running
tick_waits ms seg s r lt = let e = r.oldest in ground (arith, r.no_probe, r.running, e)

tick_expires :
    (ms : ℕ) (seg : TcpSegment) (s : TcpSender)
    → Runs seg s
    → s.rx_time_left ≤ ms
    → (tick ms s).segments_out ≡ s.segments_out ++ seg ∷ []
unfolding tick tick_oldest tick_running
tick_expires ms seg s r le = let e = r.oldest in ground (arith, r.no_probe, r.running, e)

later_Runs :
    (ms : ℕ) (seg : TcpSegment) (s : TcpSender)
    → Runs seg s
    → Runs seg (record s { rx_time_left = s.rx_time_left - ms })
later_Runs ms seg s r = record {
  no_probe = r.no_probe;
  running = r.running;
  key = r.key;
  others = r.others;
  oldest = r.oldest;
}

-- With the timer running and no zero-window probe, as long as the calls of `tick` add up to less than
-- the time left, nothing but the time left changes.
ticks_wait :
    (l : List ℕ) (seg : TcpSegment) (s : TcpSender)
    → Runs seg s
    → sum l < s.rx_time_left
    → ticks l s ≡ record s { rx_time_left = s.rx_time_left - sum l }
ticks_wait [] seg s r lt =
    let e : s.rx_time_left - 0 ≡ s.rx_time_left = omega arith in
    ap (λ (k : ℕ). record s { rx_time_left = k }) (sym e)
ticks_wait (ms ∷ l) seg s r lt =
    let e : s.rx_time_left - ms - sum l ≡ s.rx_time_left - (ms + sum l) = omega arith in
    ap (ticks l) (tick_waits ms seg s r (omega arith))
    ∙ ticks_wait l seg (record s { rx_time_left = s.rx_time_left - ms }) (later_Runs ms seg s r)
        (omega arith)
    ∙ ap (λ (k : ℕ). record s { rx_time_left = k }) e

-- With the timer running and no zero-window probe, once the calls of `tick`, one at least, add up to the time left, the oldest outstanding segment has
-- been queued again, behind what was queued.
pub ticks_retransmit :
    (l : List ℕ) (seg : TcpSegment) (s : TcpSender)
    → Runs seg s
    → 0 < length l
    → s.rx_time_left ≤ sum l
    → Grows (s.segments_out ++ seg ∷ []) (ticks l s).segments_out
ticks_retransmit [] seg s r pos le = absurd (omega arith)
ticks_retransmit (ms ∷ l) seg s r pos le = elim (Bool-cases (ltb ms s.rx_time_left)) [
  | inl early ↦
      let lt : ms < s.rx_time_left = ltb→lt _ _ early in
      subst (λ t. Grows (s.segments_out ++ seg ∷ []) (ticks l t).segments_out)
        (sym (tick_waits ms seg s r lt))
        (ticks_retransmit l seg (record s { rx_time_left = s.rx_time_left - ms })
          (later_Runs ms seg s r) (some_left l (omega arith)) (omega arith))
  | inr now ↦
      subst (λ q. Grows q (ticks l (tick ms s)).segments_out)
        (tick_expires ms seg s r (ground (arith, now))) (ticks-Grows l (tick ms s))
]
  where
    some_left : (l : List ℕ) → 0 < sum l → 0 < length l
    some_left [] h = h
    some_left (x ∷ l) h = omega arith
