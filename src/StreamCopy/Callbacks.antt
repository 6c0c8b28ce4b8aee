-- ===== src/StreamCopy/Callbacks.antt =====
-- The functions of the rules keep the balance of both directions.
use cs144_intro2network.Prelude.{
  ℕ, ◌≡◌, ◌∙◌, sym, refl, false, Bool-cases, Option, none, some, List, ◌==◌, arith, inl, inr, subst,
}
use cs144_intro2network.ByteStream.{ByteStream, eof}
use cs144_intro2network.EventLoop.Invariant.{After}
use cs144_intro2network.FileDescriptor.{Kernel, FdWrapper}
use cs144_intro2network.FileDescriptor.Trace.{Same, Gave, Took, IsTraced}
use cs144_intro2network.FileDescriptor.{Sys, returned, failed, shut_wr, after_shutdown, after_close}
use cs144_intro2network.StreamCopy.{
  files, read_input, read_socket, write_socket, write_output, sent, shown, shut_socket,
  close_output, end_inbound, end_outbound,
}
use cs144_intro2network.FileDescriptor.{Sys, returned, failed, shut_wr, after_shutdown, after_close}
use cs144_intro2network.StreamCopy.{Copy, fill, drain}
use cs144_intro2network.StreamCopy.Balance.{
  end_input-Carries, Carries, elsewhere, Filled, Drained, fill-Filled, drain-Drained,
}

module _ {K : Type 0} (given taken : ℕ → K → List ℕ) (sys : Kernel K)
    (traced : IsTraced given taken sys) (sock : ℕ) (not_input : (sock == 0) ≡ false)
    (not_output : (sock == 1) ≡ false) where
  pub record Copied (s : Copy K) : Type 0 where
    pub input_fd : s.input.fd ≡ 0
    pub output_fd : s.output.fd ≡ 1
    pub socket_fd : s.socket.fd ≡ sock
    pub out : Carries given taken 0 sock s.outbound s.kernel
    pub back : Carries given taken sock 1 s.inbound s.kernel

  gives_elsewhere :
      (fd other : ℕ) (bytes : List ℕ) (k k' : K)
      → (other == fd) ≡ false
      → Gave given taken fd bytes k k'
      → given other k' ≡ given other k
  gives_elsewhere fd other bytes k k' apart g = g.gave other ∙ rw apart refl

  takes_elsewhere :
      (fd other : ℕ) (bytes : List ℕ) (k k' : K)
      → (other == fd) ≡ false
      → Took given taken fd bytes k k'
      → taken other k' ≡ taken other k
  takes_elsewhere fd other bytes k k' apart t = t.took other ∙ rw apart refl

  pub read_input-Copied : (s : Copy K) → Copied s → After (files sys) Copied (read_input sys s)
  unfolding read_input
  read_input-Copied s h = go (fill sys s.input s.outbound s.kernel) (
      fill-Filled given taken sys traced s.input sock s.outbound s.kernel
        (subst (λ i. Carries given taken i sock s.outbound s.kernel) (sym h.input_fd) h.out))
    where
      go :
          (o : Option (FdWrapper × ByteStream × K))
          → Filled given taken s.input sock s.kernel o
          → After (files sys) Copied (elim o [
            | none ↦ none
            | some (f, b, k) ↦ some (record s { input = f; outbound = b; kernel = k })
          ])
      go none t = tt
      go (some (f, b, k)) (e, c, (bytes, g)) =
          let g0 = subst (λ i. Gave given taken i bytes s.kernel k) h.input_fd g in
          record {
            input_fd = e ∙ h.input_fd;
            output_fd = h.output_fd;
            socket_fd = h.socket_fd;
            out = subst (λ i. Carries given taken i sock b k) h.input_fd c;
            back =
                elsewhere given taken sock 1 s.inbound s.kernel k
                  (gives_elsewhere 0 sock bytes s.kernel k not_input g0) (g0.took 1) h.back;
          }

  pub read_socket-Copied : (s : Copy K) → Copied s → After (files sys) Copied (read_socket sys s)
  unfolding read_socket
  read_socket-Copied s h = go (fill sys s.socket s.inbound s.kernel) (
      fill-Filled given taken sys traced s.socket 1 s.inbound s.kernel
        (subst (λ i. Carries given taken i 1 s.inbound s.kernel) (sym h.socket_fd) h.back))
    where
      go :
          (o : Option (FdWrapper × ByteStream × K))
          → Filled given taken s.socket 1 s.kernel o
          → After (files sys) Copied (elim o [
            | none ↦ none
            | some (f, b, k) ↦ some (record s { socket = f; inbound = b; kernel = k })
          ])
      go none t = tt
      go (some (f, b, k)) (e, c, (bytes, g)) =
          let g0 = subst (λ i. Gave given taken i bytes s.kernel k) h.socket_fd g in
          let apart : (0 == sock) ≡ false = ground (arith, not_input) in
          record {
            input_fd = h.input_fd;
            output_fd = h.output_fd;
            socket_fd = e ∙ h.socket_fd;
            out =
                elsewhere given taken 0 sock s.outbound s.kernel k
                  (gives_elsewhere sock 0 bytes s.kernel k apart g0) (g0.took sock) h.out;
            back = subst (λ i. Carries given taken i 1 b k) h.socket_fd c;
          }

  -- A call that moves no bytes, and a descriptor with the number that it had.
  pub moved-Copied :
      (s s' : Copy K)
      → s'.input.fd ≡ s.input.fd
      → s'.output.fd ≡ s.output.fd
      → s'.socket.fd ≡ s.socket.fd
      → s'.outbound ≡ s.outbound
      → s'.inbound ≡ s.inbound
      → Same given taken s.kernel s'.kernel
      → Copied s
      → Copied s'
  moved-Copied s s' i o f b c same h = record {
    input_fd = i ∙ h.input_fd;
    output_fd = o ∙ h.output_fd;
    socket_fd = f ∙ h.socket_fd;
    out =
        subst (λ x. Carries given taken 0 sock x s'.kernel) (sym b)
          (elsewhere given taken 0 sock s.outbound s.kernel s'.kernel (same.gave 0) (same.took sock)
            h.out);
    back =
        subst (λ x. Carries given taken sock 1 x s'.kernel) (sym c)
          (elsewhere given taken sock 1 s.inbound s.kernel s'.kernel (same.gave sock) (same.took 1)
            h.back);
  }

  sent-Copied :
      (f : FdWrapper) (o : ByteStream) (k : K) (s : Copy K)
      → Copied (record s { socket = f; outbound = o; kernel = k })
      → After (files sys) Copied (sent sys f o k s)
  unfolding sent after_shutdown
  sent-Copied f o k s h =
      let s' : Copy K = record s { socket = f; outbound = o; kernel = k } in
      elim (Bool-cases (eof o)) [
        | inl ended ↦
            rw ended (go s' h (sys.sys_shutdown f.fd shut_wr k) (traced.shuts f.fd shut_wr k))
        | inr more ↦ rw more h
      ]
    where
      go :
          (s' : Copy K)
          → Copied s'
          → (r : Sys ℕ × K) → Same given taken s'.kernel r.1
          → After (files sys) Copied (shut_socket sys (after_shutdown shut_wr s'.socket r) s')
      go s' h' (failed errno, k') same = tt
      go s' h' (returned n, k') same = moved-Copied s' _ refl refl refl refl refl same h'

  pub write_socket-Copied : (s : Copy K) → Copied s → After (files sys) Copied (write_socket sys s)
  unfolding write_socket
  write_socket-Copied s h = go (drain sys s.socket s.outbound s.kernel) (
      drain-Drained given taken sys traced s.socket 0 s.outbound s.kernel
        (subst (λ i. Carries given taken 0 i s.outbound s.kernel) (sym h.socket_fd) h.out))
    where
      go :
          (o : Option (FdWrapper × ByteStream × K))
          → Drained given taken s.socket 0 s.kernel o
          → After (files sys) Copied (elim o [ none ↦ none | some (f, b, k) ↦ sent sys f b k s ])
      go none t = tt
      go (some (f, b, k)) (e, c, (bytes, t)) =
          let t0 = subst (λ i. Took given taken i bytes s.kernel k) h.socket_fd t in
          let apart : (1 == sock) ≡ false = ground (arith, not_output) in
          sent-Copied f b k s (record {
            input_fd = h.input_fd;
            output_fd = h.output_fd;
            socket_fd = e ∙ h.socket_fd;
            out = subst (λ i. Carries given taken 0 i b k) h.socket_fd c;
            back =
                elsewhere given taken sock 1 s.inbound s.kernel k (t0.gave sock)
                  (takes_elsewhere sock 1 bytes s.kernel k apart t0) h.back;
          })

  shown-Copied :
      (f : FdWrapper) (o : ByteStream) (k : K) (s : Copy K)
      → Copied (record s { output = f; inbound = o; kernel = k })
      → After (files sys) Copied (shown sys f o k s)
  unfolding shown after_close
  shown-Copied f o k s h =
      let s' : Copy K = record s { output = f; inbound = o; kernel = k } in
      elim (Bool-cases (eof o)) [
        | inl ended ↦ rw ended (go s' h (sys.sys_close f.fd k) (traced.closes f.fd k))
        | inr more ↦ rw more h
      ]
    where
      go :
          (s' : Copy K)
          → Copied s'
          → (r : Sys ℕ × K) → Same given taken s'.kernel r.1
          → After (files sys) Copied (close_output sys (after_close s'.output r) s')
      go s' h' (failed errno, k') same = tt
      go s' h' (returned n, k') same = moved-Copied s' _ refl refl refl refl refl same h'

  pub write_output-Copied : (s : Copy K) → Copied s → After (files sys) Copied (write_output sys s)
  unfolding write_output
  write_output-Copied s h = go (drain sys s.output s.inbound s.kernel) (
      drain-Drained given taken sys traced s.output sock s.inbound s.kernel
        (subst (λ i. Carries given taken sock i s.inbound s.kernel) (sym h.output_fd) h.back))
    where
      go :
          (o : Option (FdWrapper × ByteStream × K))
          → Drained given taken s.output sock s.kernel o
          → After (files sys) Copied (elim o [ none ↦ none | some (f, b, k) ↦ shown sys f b k s ])
      go none t = tt
      go (some (f, b, k)) (e, c, (bytes, t)) =
          let t0 = subst (λ i. Took given taken i bytes s.kernel k) h.output_fd t in
          shown-Copied f b k s (record {
            input_fd = h.input_fd;
            output_fd = e ∙ h.output_fd;
            socket_fd = h.socket_fd;
            out =
                elsewhere given taken 0 sock s.outbound s.kernel k (t0.gave 0)
                  (takes_elsewhere 1 sock bytes s.kernel k not_output t0) h.out;
            back = subst (λ i. Carries given taken sock i b k) h.output_fd c;
          })

  pub end_outbound-Copied : (s : Copy K) → Copied s → Copied (end_outbound sys s)
  unfolding end_outbound
  end_outbound-Copied s h = record {
    input_fd = h.input_fd;
    output_fd = h.output_fd;
    socket_fd = h.socket_fd;
    out = end_input-Carries given taken 0 sock s.outbound s.kernel h.out;
    back = h.back;
  }

  pub end_inbound-Copied : (s : Copy K) → Copied s → Copied (end_inbound sys s)
  unfolding end_inbound
  end_inbound-Copied s h = record {
    input_fd = h.input_fd;
    output_fd = h.output_fd;
    socket_fd = h.socket_fd;
    out = h.out;
    back = end_input-Carries given taken sock 1 s.inbound s.kernel h.back;
  }
