-- ===== src/SpongeSocket/Serviced.antt =====
-- The callbacks of rules 2 to 4 do what `EventLoop` asks of a callback.
use cs144_intro2network.Prelude.{zero, suc, Option-cases}
use cs144_intro2network.TcpConnection
use cs144_intro2network.Prelude.{
  ℕ, Bool, false, not, Bool-cases, ◌&&◌, ◌||◌, Option, none, some, List, [], ◌∷◌, length, ◌==◌, ◌+◌,
  ◌%◌, ◌≡◌, ap, refl, arith, inl, inr, u32_mod, ltb, suc, min, Option-cases,
}
use cs144_intro2network.ByteStream.{eof, error, pop_output, peek_output}
use cs144_intro2network.Buffer.{view_size, view_remove_prefix}
use cs144_intro2network.EventLoop.{Rule, service_count}
use cs144_intro2network.FileDescriptor
use cs144_intro2network.FileDescriptor.{
  Kernel, FdWrapper, Sys, Returned, returned, failed, done, threw, out_of_fuel, write_from,
  after_read, after_shutdown, shut_wr,
}
use cs144_intro2network.Wire.TcpSegment.{TcpSegment}
use cs144_intro2network.SpongeSocket.{
  Adapter, Socket, Descriptor, files, pipe_in, pipe_out, network_out, send_from, write_pipe,
  pop_written, shut_inbound, mark_inbound, with_inbound, inbound, read_pipe, take_bytes, give_bytes,
  write_datagrams, remaining_outbound_capacity, amount_to_write,
}

-- A write, or a read, that returns is counted.
CountsWrite : {K : Type 0} → FdWrapper → Returned K ℕ → Type 0
CountsWrite f (done n, f', k) = f' ≡ FileDescriptor.register_write f
CountsWrite f (threw, f', k) = Unit
CountsWrite f (out_of_fuel, f', k) = Unit

CountsRead : {K A : Type 0} → FdWrapper → Returned K A → Type 0
CountsRead f (done a, f', k) = f'.read_count ≡ (f.read_count + 1) % u32_mod
CountsRead f (threw, f', k) = Unit
CountsRead f (out_of_fuel, f', k) = Unit

write_from-CountsWrite :
    {K : Type 0} (sys : Kernel K) (fuel total : ℕ) (buffer : List (List ℕ)) (f : FdWrapper) (k : K)
    → CountsWrite f (write_from sys false fuel total buffer f k)
unfolding write_from CountsWrite
write_from-CountsWrite sys zero total buffer f k = tt
write_from-CountsWrite sys (suc fuel) total buffer f k = go (sys.sys_writev f.fd buffer k).0 refl
  where
    go :
        (r : Sys ℕ)
        → (sys.sys_writev f.fd buffer k).0 ≡ r
        → CountsWrite f (write_from sys false (suc fuel) total buffer f k)
    go (failed errno) e = rw (write_from, e) tt
    go (returned n) e = elim (Bool-cases (n == 0 && not (view_size buffer == 0))) [
      | inl nothing ↦ rw (write_from, e, nothing) tt
      | inr something ↦ elim (Bool-cases (ltb (view_size buffer) n)) [
        | inl beyond ↦ rw (write_from, e, something, beyond) tt
        | inr fits ↦ elim (Option-cases (view_remove_prefix n buffer)) [
          | inl fails ↦ rw (write_from, e, something, fits, fails) tt
          | inr (left, removed) ↦ rw (write_from, e, something, fits, removed) refl
        ]
      ]
    ]

after_read-CountsRead :
    {K : Type 0} (limit : ℕ) (f : FdWrapper) (r : Sys (List ℕ) × K)
    → CountsRead f (after_read limit f r)
unfolding after_read CountsRead
after_read-CountsRead limit f (failed errno, k) = tt
after_read-CountsRead limit f (returned bytes, k) =
    elim (Bool-cases (ltb (min FileDescriptor.buffer_size limit) (length bytes))) [
      | inl beyond ↦ rw beyond tt
      | inr fits ↦ elim (Bool-cases (ltb 0 limit && length bytes == 0)) [
        | inl ended ↦ rw (fits, ended) refl
        | inr more ↦ rw (fits, more) refl
      ]
    ]

module _ {A K : Type 0} (sys : Kernel K) (adapter : Adapter A K) where
  -- The callback has read or written the descriptor, or the rule has lost its interest, if it returns.
  pub Serviced : Rule Descriptor (Socket A K) → Socket A K → Option (Socket A K) → Type 0
  Serviced r s none = Unit
  Serviced r s (some s') =
      (service_count (files sys adapter) r s == service_count (files sys adapter) r s'
        && r.interest s')
      ≡ false

  send_from-Serviced :
      (queue : List TcpSegment) (s t : Socket A K)
      → Serviced (network_out sys adapter) s (send_from sys adapter queue t)
  unfolding send_from Serviced
  send_from-Serviced [] s t = ground arith
  send_from-Serviced (seg ∷ rest) s t =
      elim (adapter.send seg t.datagram_adapter t.kernel)
        as (λ o. Serviced (network_out sys adapter) s (elim o [
          | none ↦ none
          | some (a, k) ↦ send_from sys adapter rest (record t {
            datagram_adapter = a;
            kernel = k;
            tcp = record t.tcp { segments_out = rest };
          })
        ])) [ none ↦ tt | some (a, k) ↦ send_from-Serviced rest s _ ]

  -- The count differs after one more.
  counted : (n m : ℕ) → m ≡ (n + 1) % u32_mod → (n == m) ≡ false
  counted n m e = ground (arith, e)

  counted_twice : (n m : ℕ) → m ≡ ((n + 1) % u32_mod + 1) % u32_mod → (n == m) ≡ false
  counted_twice n m e = ground (arith, e)

  first_false : (a b : Bool) → a ≡ false → (a && b) ≡ false
  first_false a b e = rw e refl

  give_bytes-Serviced :
      (bytes : List ℕ) (s t : Socket A K)
      → t.thread_data.read_count ≡ (s.thread_data.read_count + 1) % u32_mod
      → Serviced (pipe_in sys adapter) s (give_bytes sys adapter bytes t)
  unfolding give_bytes Serviced
  give_bytes-Serviced bytes s t e =
      let c = counted s.thread_data.read_count t.thread_data.read_count e in
      elim (Bool-cases ((TcpConnection.write bytes t.tcp).1 == length bytes)) [
        | inr short ↦ rw (give_bytes, short) tt
        | inl all ↦ elim (Bool-cases t.thread_data.eof) [
          | inl ended ↦ rw (give_bytes, all, ended) (first_false _ _ c)
          | inr more ↦ rw (give_bytes, all, more) (first_false _ _ c)
        ]
      ]

  take_bytes-Serviced :
      (r : Returned K (List ℕ)) (s : Socket A K)
      → CountsRead s.thread_data r
      → Serviced (pipe_in sys adapter) s (take_bytes sys adapter r s)
  unfolding take_bytes Serviced CountsRead
  take_bytes-Serviced (done bytes, f, k) s e = give_bytes-Serviced bytes s _ e
  take_bytes-Serviced (threw, f, k) s e = tt
  take_bytes-Serviced (out_of_fuel, f, k) s e = tt

  shut_inbound-Serviced :
      (r : Sys ℕ × K) (s t : Socket A K)
      → t.thread_data.write_count ≡ (s.thread_data.write_count + 1) % u32_mod
      → Serviced
          (pipe_out sys adapter)
          s
          (mark_inbound sys adapter (after_shutdown shut_wr t.thread_data r) t)
  unfolding Serviced after_shutdown
  shut_inbound-Serviced (failed errno, k) s t e = tt
  shut_inbound-Serviced (returned m, k) s t e =
      first_false _ _ (counted_twice s.thread_data.write_count _ (ap (λ x. (x + 1) % u32_mod) e))

  pop_written-Serviced :
      (r : Returned K ℕ) (s : Socket A K)
      → CountsWrite s.thread_data r
      → Serviced (pipe_out sys adapter) s (pop_written sys adapter r s)
  unfolding pop_written Serviced CountsWrite shut_inbound
  pop_written-Serviced (done n, f, k) s e =
      let o = pop_output (inbound sys adapter s) n in
      let t = with_inbound sys adapter o (record s { thread_data = f; kernel = k }) in
      let once : t.thread_data.write_count ≡ (s.thread_data.write_count + 1) % u32_mod =
        ap (λ x. x.write_count) e in
      elim (Bool-cases (eof o || error o)) [
        | inl ended ↦
            rw (pop_written, ended)
              (shut_inbound-Serviced (sys.sys_shutdown t.thread_data.fd shut_wr k) s t once)
        | inr more ↦
            rw (pop_written, more)
              (first_false _ _ (counted s.thread_data.write_count t.thread_data.write_count once))
      ]
  pop_written-Serviced (threw, f, k) s e = tt
  pop_written-Serviced (out_of_fuel, f, k) s e = tt

  -- Rules 2 to 4, whatever the kernel and the adapter do: a callback that returns has read or written its
  -- descriptor, as its counter tells, or its rule is no longer interested, so that `wait_next_event` does not take it
  -- for a busy wait.
  pub rules-Serviced :
      (s : Socket A K)
      → Serviced (pipe_in sys adapter) s (read_pipe sys adapter s)
        × Serviced (pipe_out sys adapter) s (write_pipe sys adapter s)
        × Serviced (network_out sys adapter) s (write_datagrams sys adapter s)
  unfolding read_pipe write_pipe
  rules-Serviced s =
      let cap = remaining_outbound_capacity s.tcp in
      let o = inbound sys adapter s in
      let buffer = peek_output o (amount_to_write sys adapter o) ∷ [] in
      (
        take_bytes-Serviced _ s (
            after_read-CountsRead cap s.thread_data
              (sys.sys_read s.thread_data.fd (min FileDescriptor.buffer_size cap) s.kernel)),
        pop_written-Serviced _ s
            (write_from-CountsWrite sys (view_size buffer + 1) 0 buffer s.thread_data s.kernel),
        send_from-Serviced s.tcp.segments_out s s,
      )
