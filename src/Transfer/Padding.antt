-- ===== src/Transfer/Padding.antt =====
-- A receiver that hears a text with any padding hears the text.
use cs144_intro2network.Prelude.{
  ℕ, zero, suc, List, [], ◌∷◌, refl, inl, inr, length, ◌≤◌, get_elem?, ◌+◌, ◌≡◌, ◌<◌, ◌++◌, ◌^◌,
  arith, length-append, u32_mod, take, drop, replicate, ap, length-replicate, sym, ◌∙◌,
  take-append_le, subst, some,
}
use cs144_intro2network.Reassembler.Slice.{AgreesAt-longer}
use cs144_intro2network.Wire.TcpSegment.{TcpSegment}
use cs144_intro2network.TcpSender.Emits.{Every}
use cs144_intro2network.TcpSender.Text.{Excerpt}
use cs144_intro2network.TcpReceiver.{TcpReceiver, segment_received}
use cs144_intro2network.TcpReceiver.Delivery.{
  Carries, Receives, ReceivesAfter, segment_received-Receives,
}

Excerpt-Carries :
    (s pad : List ℕ) (limit isn : ℕ) (seg : TcpSegment)
    → limit ≤ length s + length pad
    → (e : Excerpt s limit isn seg) → Carries (s ++ pad) isn e.index seg
Excerpt-Carries s pad limit isn seg le e = record {
  numbered = e.numbered;
  agrees = elim (e.part) [
    | inl none_left ↦
        rw none_left (record { fits = omega (arith, e.bounded, length-append s pad); same = refl })
    | inr agrees ↦ AgreesAt-longer s pad e.index seg.payload agrees
  ];
  syn_first = e.syn_first;
}

-- An excerpt of the text is received, as part of the padded text.
pub Excerpt-Receives :
    (text pad out : List ℕ) (limit isn : ℕ) (seg : TcpSegment) (r : TcpReceiver)
    → length text + limit + 1 < 2 ^ 31
    → length pad ≡ limit
    → isn < u32_mod
    → Excerpt text limit isn seg
    → Receives (text ++ pad) out isn r
    → ReceivesAfter (text ++ pad) out isn (segment_received seg r)
Excerpt-Receives text pad out limit isn seg r small padded raw x h =
    let l = length-append text pad in
    let o = h.consistent.output in
    segment_received-Receives (text ++ pad) out isn x.index seg r raw
      (omega (arith, l, padded, small))
      (Excerpt-Carries text pad limit isn seg (omega (arith, padded)) x)
      (ground (arith, x.bounded, l, padded, small, o.counted, o.held.fits)) h

pub Every-get {ℓ} :
    {A : Type ℓ} (P : A → Type 0) (xs : List A) (i : ℕ) (x : A)
    → Every P xs
    → get_elem? xs i ≡ some x
    → P x
Every-get P [] i x h e = cc
Every-get P (y ∷ ys) zero x h e = let same : y ≡ x = cc in subst P same h.0
Every-get P (y ∷ ys) (suc i) x h e = Every-get P ys i x h.1 e

front : List ℕ → ℕ
front [] = 0
front (x ∷ xs) = x

-- Two texts that part after `s` agree no further than `s`.
parts :
    (s : List ℕ) (k n : ℕ)
    → n ≤ length s + k
    → take n (s ++ replicate k 0) ≡ take n (s ++ replicate k 1)
    → n ≤ length s
unfolding front
parts s k zero le e = omega arith
parts [] zero (suc n) le e = absurd (omega arith)
parts [] (suc k) (suc n) le e = absurd (omega (arith, (ap front e)))
parts (x ∷ s) k (suc n) le e = omega (arith, parts s k n (omega arith) (ap (drop 1) e))

heard_is :
    (text out : List ℕ) (isn : ℕ) (r : TcpReceiver)
    → Receives text out isn r
    → out ++ r.reassembler.output.buffer ≡ take r.reassembler.output.written text
heard_is text out isn r h = rw (h.consistent.output.counted) (sym h.consistent.output.held.same)

-- What has been read and what is buffered for it is the front of the text.
pub hears_prefix :
    (text out : List ℕ) (limit isn : ℕ) (r : TcpReceiver)
    → Receives (text ++ replicate limit 0) out isn r
    → Receives (text ++ replicate limit 1) out isn r
    → (r.reassembler.output.written ≤ length text)
      × (out ++ r.reassembler.output.buffer ≡ take r.reassembler.output.written text)
hears_prefix text out limit isn r h k =
    let n : ℕ = r.reassembler.output.written in
    let zeros = heard_is (text ++ replicate limit 0) out isn r h in
    let ones = heard_is (text ++ replicate limit 1) out isn r k in
    let o = h.consistent.output in
    let pad : List ℕ = replicate limit 0 in
    let padded : length pad ≡ limit = length-replicate limit 0 in
    let within : n ≤ length text + limit =
      omega (arith, o.counted, o.held.fits, length-append text pad, padded) in
    let le = parts text limit n within (sym zeros ∙ ones) in
    (le, zeros ∙ take-append_le n text (replicate limit 0) le)
