-- ===== src/ByteStream/Text.antt =====
-- A byte stream that carries a given text.
use cs144_intro2network.Prelude.{
  length-append, length-drop, length-take, ℕ, List, ◌++◌, ◌<◌, ◌≡◌, ◌≤◌, u64_mod, ap, arith, sym,
  length-take, ◌∙◌, ◌+◌, append_assoc, subst, take-append, refl, drop-append,
}
use cs144_intro2network.ByteStream.{
  ByteStream, write, read, remaining_capacity, pop_output, length, min, drop, take,
}
use cs144_intro2network.ByteStream.Fifo.{read-buffer, pop_output-buffer}
use cs144_intro2network.Reassembler.Slice.{AgreesAt-drop, AgreesAt, AgreesAt-append, AgreesAt-take}

-- The stream has been written the front of `s`: the reader has had `out` of it, and the rest
-- is buffered.
pub record Wrote (s out : List ℕ) (o : ByteStream) : Type 0 where
  pub held : AgreesAt s 0 (out ++ o.buffer)
  pub counted : o.written ≡ length (out ++ o.buffer)
  pub within : length o.buffer ≤ o.capacity
  pub representable : o.capacity < u64_mod

module _ (s out : List ℕ) where
  pub Wrote-write :
      (o : ByteStream) (bytes : List ℕ)
      → length s < u64_mod
      → Wrote s out o
      → AgreesAt s o.written bytes
      → Wrote s out (write o bytes).0
  unfolding write remaining_capacity
  Wrote-write o bytes small w a =
      let n : ℕ = min (remaining_capacity o) (length bytes) in
      let part = AgreesAt-take s o.written bytes a n in
      let l : length (take n bytes) ≡ n = omega (arith, length-take n bytes) in
      let room : n + length o.buffer ≤ o.capacity = omega arith in
      let all = out ++ o.buffer in
      let at : o.written ≡ 0 + length all = omega (arith, w.counted) in
      let e = append_assoc out o.buffer (take n bytes) in
      record {
        held = subst (AgreesAt s 0) e (
            AgreesAt-append s 0 all w.held (take n bytes)
              (subst (λ i. AgreesAt s i (take n bytes)) at part));
        counted =
            omega (
              arith,
              l,
              ap length e,
              length-append all (take n bytes),
              w.counted,
              part.fits,
              small,
            );
        within = omega (arith, l, length-append o.buffer (take n bytes), room);
        representable = w.representable;
      }

  -- What is read is read from the text.
  pub Wrote-read :
      (o : ByteStream) (n : ℕ) → Wrote s out o → Wrote s (out ++ (read o n).0) (read o n).1
  Wrote-read o n w =
      let o' = (read o n).1 in
      let k : ℕ = min n (length o.buffer) in
      let b : o'.buffer ≡ drop k o.buffer = unfold read in pop_output-buffer o n in
      let cap : o'.capacity ≡ o.capacity = unfold read pop_output in refl in
      let same : o'.written ≡ o.written = unfold read pop_output in refl in
      let e : out ++ o.buffer ≡ (out ++ (read o n).0) ++ o'.buffer =
        ap (◌++◌ out) (sym (read-buffer o n)) ∙ sym (append_assoc out (read o n).0 o'.buffer) in
      record {
        held = subst (AgreesAt s 0) e w.held;
        counted = same ∙ w.counted ∙ ap length e;
        within = omega (arith, ap length b, length-drop k o.buffer, cap, w.within);
        representable = rw cap w.representable;
      }

-- A part of what has been read is an excerpt of the text.
pub Wrote-part :
    (s front part : List ℕ) (o : ByteStream)
    → Wrote s (front ++ part) o
    → AgreesAt s (length front) part
Wrote-part s front part o w =
    let all = (front ++ part) ++ o.buffer in
    let l = length-append front part in
    let whole : AgreesAt s 0 (front ++ part) =
      subst (AgreesAt s 0) (take-append (front ++ part) o.buffer)
        (AgreesAt-take s 0 all w.held (length (front ++ part))) in
    let cut = AgreesAt-drop s 0 (front ++ part) whole (length front) (omega (arith, l)) in
    let at : 0 + length front ≡ length front = omega arith in
    subst (λ i. AgreesAt s i part) at
      (subst (AgreesAt s (0 + length front)) (drop-append front part) cut)

-- The bytes read and those buffered fit the text.
pub Wrote-fits :
    (s out : List ℕ) (o : ByteStream) → Wrote s out o → length out + length o.buffer ≤ length s
Wrote-fits s out o w = omega (arith, w.held.fits, length-append out o.buffer)
