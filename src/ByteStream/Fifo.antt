-- ===== src/ByteStream/Fifo.antt =====
-- What the byte stream promises: a bounded first-in first-out queue of bytes.
use cs144_intro2network.Prelude.{
  ℕ, ◌+◌, ◌-◌, ◌%◌, ◌≤◌, ◌<◌, min, ◌≡◌, refl, sym, ap, ◌∙◌, List, [], ◌∷◌, ◌++◌, append-nil,
  append_assoc, arith, length, take, drop, length-append, length-take, length-drop, take_all,
  take-append-drop, u64_mod, take-take,
}
use cs144_intro2network.ByteStream
use cs144_intro2network.ByteStream.{
  ByteStream, remaining_capacity, write, peek_output, pop_output, read, end_input, set_error,
  input_ended, false,
}

-- The buffer is within a capacity that a `size_t` holds, and the counters differ by what it holds.
pub record IsValid (s : ByteStream) : Type 0 where
  pub representable : s.capacity < u64_mod
  pub within : length s.buffer ≤ s.capacity
  pub counted : s.written ≡ (s.popped + length s.buffer) % u64_mod

pub init-IsValid : (capacity : ℕ) → capacity < u64_mod → IsValid (ByteStream.init capacity)
init-IsValid capacity h = record { representable = h; within = omega arith; counted = refl }

-- On a valid stream the `size_t` difference does not wrap.
pub remaining_capacity-add-size :
    {s : ByteStream} → IsValid s → remaining_capacity s + length s.buffer ≡ s.capacity
unfolding remaining_capacity
remaining_capacity-add-size v = omega arith

pub pop_output-buffer :
    (s : ByteStream) (n : ℕ) → (pop_output s n).buffer ≡ drop (min n (length s.buffer)) s.buffer
unfolding pop_output
pop_output-buffer s n = take_all _ _ (omega (arith, length-drop (min n (length s.buffer)) s.buffer))

pub length-peek_output :
    (s : ByteStream) (n : ℕ) → length (peek_output s n) ≡ min n (length s.buffer)
unfolding peek_output
length-peek_output s n = omega (arith, length-take (min n (length s.buffer)) s.buffer)

pub write-IsValid : {s : ByteStream} (bytes : List ℕ) → IsValid s → IsValid (write s bytes).0
unfolding write
write-IsValid {s} bytes v =
    let n = min (remaining_capacity s) (length bytes) in
    let len : length (s.buffer ++ take n bytes) ≡ length s.buffer + n =
      omega (arith, length-append s.buffer (take n bytes), length-take n bytes) in
    record {
      representable = v.representable;
      within = omega (arith, len, remaining_capacity-add-size v);
      counted = omega (arith, len, v.counted);
    }

pub pop_output-IsValid : {s : ByteStream} (n : ℕ) → IsValid s → IsValid (pop_output s n)
pop_output-IsValid {s} n v =
    let len : length (pop_output s n).buffer ≡ length s.buffer - min n (length s.buffer) =
      omega (
        arith,
        ap length (pop_output-buffer s n),
        length-drop (min n (length s.buffer)) s.buffer,
      ) in
    unfold pop_output in
    record {
      representable = v.representable;
      within = omega (arith, len);
      counted = omega (arith, len, v.counted);
    }

-- A client's calls, in order.
pub data Call : Type 0 where
  writes : List ℕ → Call
  reads : ℕ → Call
  ends : Call
  fails : Call

-- What a client has put in and got out, and the stream that is left.
pub record Trace : Type 0 where
  pub accepted : List ℕ
  pub delivered : List ℕ
  pub stream : ByteStream

pub run : ByteStream → List Call → Trace
run s [] = record { accepted = []; delivered = []; stream = s }
run s (writes bytes ∷ calls) =
    let (s', n) = write s bytes in
    let t = run s' calls in record t { accepted = take n bytes ++ t.accepted }
run s (reads n ∷ calls) =
    let (bytes, s') = read s n in
    let t = run s' calls in record t { delivered = bytes ++ t.delivered }
run s (ends ∷ calls) = run (end_input s) calls
run s (fails ∷ calls) = run (set_error s) calls

-- What a read takes from the front, and what it leaves, make up the buffer.
pub read-buffer : (s : ByteStream) (n : ℕ) → (read s n).0 ++ (read s n).1.buffer ≡ s.buffer
unfolding read
read-buffer s n = rw pop_output-buffer (unfold peek_output in take-append-drop _ s.buffer)

write-buffer :
    (s : ByteStream) (bytes : List ℕ)
    → (write s bytes).0.buffer ≡ s.buffer ++ take (write s bytes).1 bytes
unfolding write
write-buffer s bytes = refl

regroup :
    (front old new accepted delivered rest : List ℕ)
    → front ++ new ≡ old
    → new ++ accepted ≡ delivered ++ rest
    → old ++ accepted ≡ (front ++ delivered) ++ rest
regroup front old new accepted delivered rest p q =
    rw (← p) (
      append_assoc front new accepted ∙ ap (◌++◌ front) q ∙ sym (append_assoc front delivered rest))

-- Whatever the calls, the bytes that came out followed by those still buffered are the bytes that
-- were buffered at the start followed by the bytes accepted since, in order.
pub run_fifo :
    (s : ByteStream) (calls : List Call)
    → s.buffer ++ (run s calls).accepted ≡ (run s calls).delivered ++ (run s calls).stream.buffer
unfolding run end_input set_error
run_fifo s [] = append-nil s.buffer
run_fifo s (writes bytes ∷ calls) =
    sym
      (append_assoc s.buffer (take (write s bytes).1 bytes) (run (write s bytes).0 calls).accepted)
    ∙ rw (sym (write-buffer s bytes)) (run_fifo (write s bytes).0 calls)
run_fifo s (reads n ∷ calls) =
    regroup (read s n).0 _ _ _ _ _ (read-buffer s n) (run_fifo (read s n).1 calls)
run_fifo s (ends ∷ calls) = run_fifo (end_input s) calls
run_fifo s (fails ∷ calls) = run_fifo (set_error s) calls

-- From a valid stream every call leaves a valid one: never more bytes than the capacity, and the
-- counters of written and read bytes differ by the buffered bytes.
pub run-IsValid : (s : ByteStream) (calls : List Call) → IsValid s → IsValid (run s calls).stream
unfolding run read pop_output
run-IsValid s [] v = v
run-IsValid s (writes bytes ∷ calls) v = run-IsValid (write s bytes).0 calls (write-IsValid bytes v)
run-IsValid s (reads n ∷ calls) v = run-IsValid (pop_output s n) calls (pop_output-IsValid n v)
run-IsValid s (ends ∷ calls) v = run-IsValid (end_input s) calls (
    unfold end_input in
    record { representable = v.representable; within = v.within; counted = v.counted })
run-IsValid s (fails ∷ calls) v = run-IsValid (set_error s) calls (
    unfold set_error in
    record { representable = v.representable; within = v.within; counted = v.counted })

-- On a valid stream whose input has not ended, `write` accepts as much as fits and no more, appends exactly that prefix, and
-- the room falls by what was accepted.
pub write_lem :
    (s : ByteStream) (bytes : List ℕ)
    → input_ended s ≡ false
    → IsValid s
    → let (s', n) = write s bytes in
      (n ≡ min (s.capacity - length s.buffer) (length bytes))
      × (s'.buffer ≡ s.buffer ++ take n bytes)
      × (remaining_capacity s' + n ≡ remaining_capacity s)
write_lem s bytes is_open v =
    let n : ℕ = (write s bytes).1 in
    let e : n ≡ min (remaining_capacity s) (length bytes) = unfold write in refl in
    let b : (write s bytes).0.buffer ≡ s.buffer ++ take n bytes = unfold write in refl in
    let c : (write s bytes).0.capacity ≡ s.capacity = unfold write in refl in
    let l : length (write s bytes).0.buffer ≡ length s.buffer + n =
      omega (arith, ap length b, length-append s.buffer (take n bytes), length-take n bytes, e) in
    (
      omega (arith, e, remaining_capacity-add-size v),
      b,
      omega (
        arith,
        c,
        l,
        remaining_capacity-add-size v,
        remaining_capacity-add-size (write-IsValid bytes v),
      ),
    )

-- What is peeked and written, and what is left when it is popped.
pub peek_pop :
    (o : ByteStream) (m n : ℕ)
    → n ≤ length (peek_output o m)
    → take n (peek_output o m) ++ (pop_output o n).buffer ≡ o.buffer
unfolding peek_output
peek_pop o m n le =
    let shown = min m (length o.buffer) in
    let l = length-take shown o.buffer in
    let within : min n shown ≡ n = omega (arith, le, l) in
    let all : min n (length o.buffer) ≡ n = omega (arith, le, l) in
    ap (λ x. x ++ (pop_output o n).buffer)
      (take-take n shown o.buffer ∙ ap (λ i. take i o.buffer) within)
    ∙ ap (◌++◌ (take n o.buffer)) (pop_output-buffer o n ∙ ap (λ i. drop i o.buffer) all)
    ∙ take-append-drop n o.buffer
