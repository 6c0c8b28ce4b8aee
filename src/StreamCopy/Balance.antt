-- ===== src/StreamCopy/Balance.antt =====
-- What goes into a stream comes out of it, or waits in it.
use cs144_intro2network.Prelude.{
  ℕ, min, ◌≤◌, ◌≡◌, ◌∙◌, sym, ap, refl, true, false, Bool-cases, Option, none, some, List, [], ◌∷◌,
  ◌++◌, ◌==◌, take, arith, inl, inr, length, subst, append_assoc, append-nil, length-append,
  take_all,
}
use cs144_intro2network.ByteStream.{
  ByteStream, write, end_input, remaining_capacity, pop_output, peek_output, buffer_size,
}
use cs144_intro2network.ByteStream.Fifo.{peek_pop}
use cs144_intro2network.FileDescriptor
use cs144_intro2network.FileDescriptor.{
  Kernel, FdWrapper, Returned, done, threw, out_of_fuel, register_write,
}
use cs144_intro2network.FileDescriptor.Trace.{
  Gave, Took, IsTraced, WroteOnce, ReadOnce, write-WroteOnce, read-ReadOnce,
}
use cs144_intro2network.FileDescriptor.{Sys, returned, failed, shut_wr, after_shutdown, after_close}
use cs144_intro2network.ByteStream.Fifo.{length-peek_output}
use cs144_intro2network.FileDescriptor.{Sys, returned, failed, shut_wr, after_shutdown, after_close}
use cs144_intro2network.StreamCopy.{stream_capacity, max_copy_length, fill, filled, drain, drained}

module _ {K : Type 0} (given taken : ℕ → K → List ℕ) where
  -- What `src` has given, `dst` has taken, but for what waits in the stream.
  pub record Carries (src dst : ℕ) (o : ByteStream) (k : K) : Type 0 where
    pub balance : given src k ≡ taken dst k ++ o.buffer
    pub capacity : o.capacity ≡ stream_capacity
    pub fits : length o.buffer ≤ stream_capacity

  -- A call that moves no bytes of the two files.
  pub elsewhere :
      (src dst : ℕ) (o : ByteStream) (k k' : K)
      → given src k' ≡ given src k
      → taken dst k' ≡ taken dst k
      → Carries src dst o k
      → Carries src dst o k'
  elsewhere src dst o k k' g t h = record {
    balance = g ∙ h.balance ∙ ap (λ x. x ++ o.buffer) (sym t);
    capacity = h.capacity;
    fits = h.fits;
  }

  pub end_input-Carries :
      (src dst : ℕ) (o : ByteStream) (k : K) → Carries src dst o k → Carries src dst (end_input o) k
  unfolding end_input
  end_input-Carries src dst o k h = record {
    balance = h.balance;
    capacity = h.capacity;
    fits = h.fits;
  }

  write-Carries :
      (src dst : ℕ) (o : ByteStream) (bytes : List ℕ) (k k' : K)
      → length bytes ≤ remaining_capacity o
      → Gave given taken src bytes k k'
      → Carries src dst o k
      → Carries src dst (write o bytes).0 k'
  unfolding write remaining_capacity
  write-Carries src dst o bytes k k' le g h =
      let self : (src == src) ≡ true = ground arith in
      let gave : given src k' ≡ given src k ++ bytes = g.gave src ∙ rw self refl in
      let all : take (min (remaining_capacity o) (length bytes)) bytes ≡ bytes =
        take_all (min (remaining_capacity o) (length bytes)) bytes (omega (arith, le)) in
      let l = length-append o.buffer bytes in
      record {
        balance =
            gave
            ∙ ap (λ x. x ++ bytes) h.balance
            ∙ append_assoc (taken dst k) o.buffer bytes
            ∙ ap (λ x. x ++ (o.buffer ++ bytes)) (sym (g.took dst))
            ∙ ap (λ x. taken dst k' ++ (o.buffer ++ x)) (sym all);
        capacity = h.capacity;
        fits = omega (arith, ap (λ x. length (o.buffer ++ x)) all, l, le, h.capacity, h.fits);
      }

  pop-Carries :
      (src dst n : ℕ) (o : ByteStream) (k k' : K)
      → n ≤ length (peek_output o (min max_copy_length (buffer_size o)))
      → Took given taken dst (take n (peek_output o (min max_copy_length (buffer_size o)))) k k'
      → Carries src dst o k
      → Carries src dst (pop_output o n) k'
  unfolding pop_output
  pop-Carries src dst n o k k' le t h =
      let self : (dst == dst) ≡ true = ground arith in
      let front = take n (peek_output o (min max_copy_length (buffer_size o))) in
      let took : taken dst k' ≡ taken dst k ++ front = t.took dst ∙ rw self refl in
      let e = peek_pop o (min max_copy_length (buffer_size o)) n le in
      record {
        balance =
            t.gave src
            ∙ h.balance
            ∙ ap (◌++◌ (taken dst k)) (sym e)
            ∙ sym (append_assoc (taken dst k) front (pop_output o n).buffer)
            ∙ ap (λ x. x ++ (pop_output o n).buffer) (sym took);
        capacity = h.capacity;
        fits =
            omega
              (arith, h.fits, ap (length {A = ℕ}) e, length-append front (pop_output o n).buffer);
      }

  -- What a read into the stream from `src`, or a write from the stream to `dst`, leaves, if it returns.
  abbrev pub Filled : FdWrapper → ℕ → K → Option (FdWrapper × ByteStream × K) → Type 0
  Filled f dst k none = Unit
  Filled f dst k (some (f', o, k')) =
      (f'.fd ≡ f.fd) × Carries f.fd dst o k' × ((bytes : List ℕ) × Gave given taken f.fd bytes k k')

  abbrev pub Drained : FdWrapper → ℕ → K → Option (FdWrapper × ByteStream × K) → Type 0
  Drained f src k none = Unit
  Drained f src k (some (f', o, k')) =
      (f'.fd ≡ f.fd) × Carries src f.fd o k' × ((bytes : List ℕ) × Took given taken f.fd bytes k k')

  module _ (sys : Kernel K) (traced : IsTraced given taken sys) where
    filled-Filled :
        (f : FdWrapper) (dst : ℕ) (o : ByteStream) (k : K) (r : Returned K (List ℕ))
        → ReadOnce given taken sys traced f (remaining_capacity o) k r
        → Carries f.fd dst o k
        → Filled f dst k (filled sys r o)
    unfolding filled
    filled-Filled f dst o k (done bytes, f', k') t h =
        let w = write-Carries f.fd dst o bytes k k' t.1 t.2 h in
        elim (Bool-cases f'.eof) [
          | inl ended ↦
              rw ended (t.0, end_input-Carries f.fd dst (write o bytes).0 k' w, (bytes, t.2))
          | inr more ↦ rw more (t.0, w, (bytes, t.2))
        ]
    filled-Filled f dst o k (threw, f', k') t h = tt
    filled-Filled f dst o k (out_of_fuel, f', k') t h = tt

    pub fill-Filled :
        (f : FdWrapper) (dst : ℕ) (o : ByteStream) (k : K)
        → Carries f.fd dst o k
        → Filled f dst k (fill sys f o k)
    unfolding fill
    fill-Filled f dst o k h =
        filled-Filled f dst o k _ (read-ReadOnce given taken sys traced (remaining_capacity o) f k)
          h

    drained-Drained :
        (f : FdWrapper) (src : ℕ) (o : ByteStream) (k : K) (r : Returned K ℕ)
        → WroteOnce given taken f (peek_output o (min max_copy_length (buffer_size o))) k r
        → Carries src f.fd o k
        → Drained f src k (drained sys r o)
    unfolding drained
    drained-Drained f src o k (done n, f', k') t h =
        (ap (λ x. x.fd) t.0, pop-Carries src f.fd n o k k' t.1 t.2 h, (_, t.2))
    drained-Drained f src o k (threw, f', k') t h = tt
    drained-Drained f src o k (out_of_fuel, f', k') t h = tt

    pub drain-Drained :
        (f : FdWrapper) (src : ℕ) (o : ByteStream) (k : K)
        → Carries src f.fd o k
        → Drained f src k (drain sys f o k)
    unfolding drain
    drain-Drained f src o k h =
        let peeked = peek_output o (min max_copy_length (buffer_size o)) in
        let shown : peeked ++ [] ≡ peeked = append-nil peeked in
        let l = length-peek_output o (min max_copy_length (buffer_size o)) in
        drained-Drained f src o k _
          (subst
            (λ x. WroteOnce given taken f x k (FileDescriptor.write sys false (peeked ∷ []) f k))
            shown
            (write-WroteOnce given taken sys traced (peeked ∷ []) f k
              (omega (arith, ap (length {A = ℕ}) shown, l, h.fits))))
          h
