-- ===== src/SpongeSocket/Pipe.antt =====
-- The pipe between the owner and the TCP thread: rules 2 and 3 of `TCPSpongeSocket`.
use cs144_intro2network.Prelude.{
  ℕ, min, true, false, Bool-cases, ◌&&◌, ◌||◌, some, List, [], ◌∷◌, ◌++◌, length, ltb, ◌==◌, ◌≡◌,
  ◌<◌, ◌≤◌, ◌∙◌, sym, ap, refl, if◌then◌else◌, arith, inl, inr, u64_mod, take_all, ◌⊎◌, append-nil,
  take, append_assoc, subst,
}
use cs144_intro2network.ByteStream
use cs144_intro2network.ByteStream.{
  buffer_size, peek_output, pop_output, remaining_capacity, eof, error,
}
use cs144_intro2network.ByteStream.Fifo.{peek_pop, length-peek_output}
use cs144_intro2network.ByteStream.{ByteStream}
use cs144_intro2network.TcpConnection
use cs144_intro2network.TcpConnection.Queued.{outgoing, write-outgoing, end_input_stream-outgoing}
use cs144_intro2network.TcpConnection.{remaining_outbound_capacity}
use cs144_intro2network.FileDescriptor
use cs144_intro2network.FileDescriptor.{
  Kernel, FdWrapper, Sys, returned, failed, after_read, done, register_write, after_shutdown,
  shut_wr,
}
use cs144_intro2network.FileDescriptor.Write.{viewed, Takes, write_once_lem}
use cs144_intro2network.SpongeSocket.{
  Adapter, Socket, inbound, give_bytes, read_pipe, write_pipe, shut_outbound, amount_to_write,
  take_bytes, with_inbound, pop_written, shut_inbound, mark_inbound,
}

module _ {A K : Type 0} (sys : Kernel K) (adapter : Adapter A K) where
  -- The socket once the connection has been given the bytes that were read.
  abbrev pub gave : List ℕ → FdWrapper → K → Socket A K → Socket A K
  gave bytes f k s = record s {
    tcp = (TcpConnection.write bytes s.tcp).0;
    thread_data = f;
    kernel = k;
  }

  accepts_all :
      (bytes : List ℕ) (s : Socket A K)
      → length bytes ≤ remaining_outbound_capacity s.tcp
      → (TcpConnection.write bytes s.tcp).1 ≡ length bytes
  unfolding TcpConnection.write ByteStream.write
  accepts_all bytes s le = omega (arith, le)

  give_bytes_lem :
      (bytes : List ℕ) (s : Socket A K)
      → length bytes ≤ remaining_outbound_capacity s.tcp
      → give_bytes sys adapter bytes s
        ≡ some (
            let s' = gave bytes s.thread_data s.kernel s in
            if s.thread_data.eof then shut_outbound sys adapter s' else s')
  unfolding give_bytes
  give_bytes_lem bytes s le =
      let n = accepts_all bytes s le in
      let same : ((TcpConnection.write bytes s.tcp).1 == length bytes) ≡ true = ground (arith, n) in
      rw (give_bytes, same)
        (elim (Bool-cases s.thread_data.eof) [
          | inl ended ↦ rw ended refl
          | inr more ↦ rw more refl
        ])

  -- The wrapper once `bytes` have been read within `limit`.
  abbrev pub once_read : ℕ → List ℕ → FdWrapper → FdWrapper
  once_read limit bytes f =
      FileDescriptor.register_read
        (if ltb 0 limit && length bytes == 0 then record f { eof = true } else f)

  read_pipe_lem :
      (bytes : List ℕ) (k' : K) (s : Socket A K)
      → sys.sys_read s.thread_data.fd
          (min FileDescriptor.buffer_size (remaining_outbound_capacity s.tcp))
          s.kernel
        ≡ (returned bytes, k')
      → length bytes ≤ min FileDescriptor.buffer_size (remaining_outbound_capacity s.tcp)
      → let f = once_read (remaining_outbound_capacity s.tcp) bytes s.thread_data in
        let s' = gave bytes f k' s in
        (read_pipe sys adapter s ≡ some (if f.eof then shut_outbound sys adapter s' else s'))
        × ((ByteStream.write s.tcp.sender.stream bytes).0.buffer
            ≡ s.tcp.sender.stream.buffer ++ bytes)
  unfolding read_pipe take_bytes after_read ByteStream.write
  read_pipe_lem bytes k' s e le =
      let cap = remaining_outbound_capacity s.tcp in
      let fits : ltb (min FileDescriptor.buffer_size cap) (length bytes) ≡ false =
        ground (arith, le) in
      let f = once_read cap bytes s.thread_data in
      let read_lem : FileDescriptor.read sys cap s.thread_data s.kernel ≡ (done bytes, f, k') =
        ap (after_read cap s.thread_data) e ∙ rw fits refl in
      (
        ap (λ r. take_bytes sys adapter r s) read_lem
            ∙ give_bytes_lem bytes (record s { thread_data = f; kernel = k' }) (omega (arith, le)),
        ap (◌++◌ s.tcp.sender.stream.buffer)
            (take_all (min cap (length bytes)) bytes (omega (arith, le))),
      )

  -- If the system call returns bytes, at most as many as it was asked for, rule 2 does not throw, and no byte
  -- is lost, repeated or overtaken: the bytes on their way out, which are those in the segments that the connection has
  -- queued, in those of its sender and in its stream, are those of before followed by those that were read. The outbound
  -- side is marked as shut down exactly if the pipe is then at its end, or it was already.
  pub read_pipe_conserves :
      (bytes : List ℕ) (k' : K) (s : Socket A K)
      → sys.sys_read s.thread_data.fd
          (min FileDescriptor.buffer_size (remaining_outbound_capacity s.tcp))
          s.kernel
        ≡ (returned bytes, k')
      → length bytes ≤ min FileDescriptor.buffer_size (remaining_outbound_capacity s.tcp)
      → (s' : Socket A K) × (read_pipe sys adapter s ≡ some s')
        × (outgoing s'.tcp ≡ outgoing s.tcp ++ bytes)
        × (s'.outbound_shutdown ≡ (if s'.thread_data.eof then true else s.outbound_shutdown))
        × (s'.kernel ≡ k')
  read_pipe_conserves bytes k' s e le =
      let f = once_read (remaining_outbound_capacity s.tcp) bytes s.thread_data in
      let s' = gave bytes f k' s in
      let runs = (read_pipe_lem bytes k' s e le).0 in
      let out = write-outgoing bytes s.tcp (omega (arith, le)) in
      elim (Bool-cases f.eof) [
        | inl ended ↦ (
          shut_outbound sys adapter s',
          runs ∙ rw ended refl,
          end_input_stream-outgoing s'.tcp ∙ out,
          rw ended refl,
          refl,
        )
        | inr more ↦ (s', runs ∙ rw more refl, out, rw more refl, refl)
      ]

  -- What rule 3 leaves when it has written `n` bytes.
  abbrev pub popped : ℕ → K → Socket A K → Socket A K
  popped n k s =
      with_inbound sys adapter (pop_output (inbound sys adapter s) n)
        (record s { thread_data = register_write s.thread_data; kernel = k })

  write_pipe_popped :
      (n : ℕ) (k1 : K) (s : Socket A K)
      → let o = inbound sys adapter s in
        length o.buffer < u64_mod
        → n ≤ length (peek_output o (amount_to_write sys adapter o))
        → 0 < n ⊎ length o.buffer ≡ 0
        → sys.sys_writev s.thread_data.fd
            (peek_output o (amount_to_write sys adapter o) ∷ [])
            s.kernel
          ≡ (returned n, k1)
        → write_pipe sys adapter s ≡ (
            let s' = popped n k1 s in
            let o' = inbound sys adapter s' in
            if eof o' || error o' then shut_inbound sys adapter s' else some s')
  unfolding write_pipe pop_written
  write_pipe_popped n k1 s small le moves e =
      let o = inbound sys adapter s in
      let shown : viewed (peek_output o (amount_to_write sys adapter o) ∷ [])
          ≡ peek_output o (amount_to_write sys adapter o) =
        append-nil (peek_output o (amount_to_write sys adapter o)) in
      let l = length-peek_output o (amount_to_write sys adapter o) in
      ap (λ r. pop_written sys adapter r s)
        (write_once_lem sys (peek_output o (amount_to_write sys adapter o) ∷ []) s.thread_data
          s.kernel n k1 (omega (arith, ap length shown, l, small))
          (omega (arith, ap length shown, le))
          (elim moves [
            | inl some_bytes ↦ inl some_bytes
            | inr no_bytes ↦ inr (omega (arith, no_bytes, ap length shown, l))
          ])
          e)

  conserved :
      (taken : ℕ → K → List ℕ) (n : ℕ) (k1 : K) (s : Socket A K)
      → let o = inbound sys adapter s in
        n ≤ length (peek_output o (amount_to_write sys adapter o))
        → taken s.thread_data.fd k1
          ≡ taken s.thread_data.fd s.kernel
            ++ take n (peek_output o (amount_to_write sys adapter o))
        → taken s.thread_data.fd k1 ++ (inbound sys adapter (popped n k1 s)).buffer
          ≡ taken s.thread_data.fd s.kernel ++ o.buffer
  conserved taken n k1 s le t =
      let o = inbound sys adapter s in
      let old = taken s.thread_data.fd s.kernel in
      ap (λ x. x ++ (pop_output o n).buffer) t
      ∙ append_assoc old _ _
      ∙ ap (◌++◌ old) (peek_pop o (amount_to_write sys adapter o) n le)

  -- What a descriptor's file has taken is told by `taken`: `writev` appends to it the front of the bytes that it is
  -- given, as many as it says, and `shutdown` leaves it alone. If `writev` returns, and not 0 when bytes
  -- wait, and `shutdown` returns, and fewer than 2^64 bytes wait, then rule 3 does not throw, and what the pipe
  -- has taken followed by what waits in the inbound stream stays the same: exactly the bytes that were written
  -- have left the stream. The inbound side is marked as shut down exactly if the stream is then at
  -- its end or in error, or it was already.
  pub write_pipe_conserves :
      (taken : ℕ → K → List ℕ) (n m : ℕ) (k1 k2 : K) (s : Socket A K)
      → ((fd : ℕ) (vs : List (List ℕ)) (k : K)
          → Takes taken fd (viewed vs) k (sys.sys_writev fd vs k))
      → ((fd : ℕ) (k : K) → taken fd (sys.sys_shutdown fd shut_wr k).1 ≡ taken fd k)
      → length (inbound sys adapter s).buffer < u64_mod
      → 0 < n ⊎ length (inbound sys adapter s).buffer ≡ 0
      → sys.sys_writev s.thread_data.fd
          (peek_output (inbound sys adapter s) (amount_to_write sys adapter (inbound sys adapter s))
            ∷ [])
          s.kernel
        ≡ (returned n, k1)
      → sys.sys_shutdown s.thread_data.fd shut_wr k1 ≡ (returned m, k2)
      → (s' : Socket A K) × (write_pipe sys adapter s ≡ some s')
        × (taken s.thread_data.fd s'.kernel ++ (inbound sys adapter s').buffer
            ≡ taken s.thread_data.fd s.kernel ++ (inbound sys adapter s).buffer)
        × (s'.inbound_shutdown ≡ (
            if eof (inbound sys adapter s') || error (inbound sys adapter s')
            then true
            else s.inbound_shutdown))
  unfolding Takes shut_inbound after_shutdown
  write_pipe_conserves taken n m k1 k2 s law keeps small moves writes shuts =
      let o = inbound sys adapter s in
      let peeked = peek_output o (amount_to_write sys adapter o) in
      let took =
        subst (Takes taken s.thread_data.fd (viewed (peeked ∷ [])) s.kernel) writes
          (law s.thread_data.fd (peeked ∷ []) s.kernel) in
      let le : n ≤ length peeked = subst (λ x. n ≤ length x) (append-nil peeked) took.0 in
      let t =
        subst (λ x. taken s.thread_data.fd k1 ≡ taken s.thread_data.fd s.kernel ++ take n x)
          (append-nil peeked) took.1 in
      let e = write_pipe_popped n k1 s small le moves writes in
      let same = conserved taken n k1 s le t in
      let p = popped n k1 s in
      let over = eof (inbound sys adapter p) || error (inbound sys adapter p) in
      let marked : Socket A K = record p {
        thread_data = register_write p.thread_data;
        kernel = k2;
        inbound_shutdown = true;
      } in
      let shut : shut_inbound sys adapter p ≡ some marked =
        ap (λ r. mark_inbound sys adapter (after_shutdown shut_wr p.thread_data r) p) shuts in
      let left_alone : taken s.thread_data.fd k2 ≡ taken s.thread_data.fd k1 =
        sym (ap (λ r. taken s.thread_data.fd r.1) shuts) ∙ keeps s.thread_data.fd k1 in
      elim (Bool-cases over) [
        | inl ended ↦ (
          marked,
          e ∙ rw ended shut,
          ap (λ x. x ++ (inbound sys adapter p).buffer) left_alone ∙ same,
          rw ended refl,
        )
        | inr more ↦ (p, e ∙ rw more refl, same, rw more refl)
      ]
