-- ===== src/StreamCopy/Copied.antt =====
-- Whatever is read at one end is written at the other, or waits in between.
use cs144_intro2network.Prelude.{
  ℕ, ◌≤◌, ◌≡◌, ◌∙◌, sym, ap, refl, Bool, true, false, Bool-cases, Option, none, some, List, [], ◌∷◌,
  ◌++◌, ◌==◌, if◌then◌else◌, arith, inl, inr, length,
}
use cs144_intro2network.EventLoop.{wait_next_event}
use cs144_intro2network.StreamCopy.{Descriptor, KernelPoll, on_kernel, is_exit}
use cs144_intro2network.EventLoop.{Polling, Rule}
use cs144_intro2network.EventLoop.Invariant.{AllKeeping, Waited, wait-Waited}
use cs144_intro2network.FileDescriptor.{Kernel, FdWrapper}
use cs144_intro2network.FileDescriptor.Trace.{Same, IsTraced}
use cs144_intro2network.StreamCopy.{files, copy_loop, rules, start, bidirectional_stream_copy}
use cs144_intro2network.StreamCopy.{Copy, stream_capacity}
use cs144_intro2network.StreamCopy.Callbacks.{
  Copied, moved-Copied, read_input-Copied, read_socket-Copied, write_socket-Copied,
  write_output-Copied, end_outbound-Copied, end_inbound-Copied,
}

module _ {K : Type 0} (given taken : ℕ → K → List ℕ) (sys : Kernel K)
    (traced : IsTraced given taken sys) (sock : ℕ) (not_input : (sock == 0) ≡ false)
    (not_output : (sock == 1) ≡ false) where
  abbrev Kept : Copy K → Type 0
  Kept = Copied given taken sys traced sock not_input not_output

  rules-AllKeeping : AllKeeping (files sys) Kept (rules sys)
  rules-AllKeeping = (
    record {
      callback = read_input-Copied given taken sys traced sock not_input not_output;
      cancel = end_outbound-Copied given taken sys traced sock not_input not_output;
    },
    (
      record {
        callback = write_socket-Copied given taken sys traced sock not_input not_output;
        cancel = end_outbound-Copied given taken sys traced sock not_input not_output;
      },
      (
        record {
          callback = read_socket-Copied given taken sys traced sock not_input not_output;
          cancel = end_inbound-Copied given taken sys traced sock not_input not_output;
        },
        (
          record {
            callback = write_output-Copied given taken sys traced sock not_input not_output;
            cancel = end_inbound-Copied given taken sys traced sock not_input not_output;
          },
          tt,
        ),
      ),
    ),
  )

  -- `poll` moves no bytes.
  abbrev pub AllQuiet : List (KernelPoll sys) → Type 0
  AllQuiet [] = Unit
  AllQuiet (poll ∷ polls) =
      ((ps : List (Polling Descriptor (Copy K))) (k : K) → Same given taken k (poll ps k).1)
      × AllQuiet polls

  -- If nothing was thrown, what one end has given, the other has taken, but for what waits in the stream between
  -- them, at most its
  -- capacity.
  pub Balanced : Option (Bool × Copy K) → Type 0
  Balanced none = Unit
  Balanced (some (_, s)) =
      (given 0 s.kernel ≡ taken sock s.kernel ++ s.outbound.buffer)
      × (given sock s.kernel ≡ taken 1 s.kernel ++ s.inbound.buffer)
      × (length s.outbound.buffer ≤ stream_capacity)
      × (length s.inbound.buffer ≤ stream_capacity)

  copy_loop-Balanced :
      (polls : List (KernelPoll sys)) (left : List (Rule Descriptor (Copy K))) (s : Copy K)
      → AllQuiet polls
      → AllKeeping (files sys) Kept left
      → Kept s
      → Balanced (copy_loop sys polls left s)
  unfolding copy_loop Balanced
  copy_loop-Balanced [] left s quiet keeping h =
      (h.out.balance, h.back.balance, h.out.fits, h.back.fits)
  copy_loop-Balanced (poll ∷ polls) left s quiet keeping h =
      (elim (wait_next_event (files sys) (on_kernel sys poll) left s)
          as (λ o.
            Waited (files sys) Kept o
            → Balanced (elim o [
              | none ↦ none
              | some (result, left', s') ↦
                  if is_exit sys result then some (true, s') else copy_loop sys polls left' s'
            ])) [
              | none ↦ λ _. tt
              | some (result, left', s') ↦ λ w. elim (Bool-cases (is_exit sys result)) [
                | inl ended ↦
                    rw ended (w.1.out.balance, w.1.back.balance, w.1.out.fits, w.1.back.fits)
                | inr more ↦ rw more (copy_loop-Balanced polls left' s' quiet.1 w.0 w.1)
              ]
            ])
        (wait-Waited (files sys) Kept (on_kernel sys poll) left s
          (λ ps v c.
            moved-Copied given taken sys traced sock not_input not_output v _ refl refl refl refl
              refl (quiet.0 ps v.kernel) c)
          keeping h)

  -- Let the kernel tell what each file has given and taken: `read` gives the bytes that it returns,
  -- `writev` takes a front of what it is given, as long as it says, and neither touches another
  -- file; the other calls, and `poll`, move nothing. If the socket's number is neither 0 nor 1, and
  -- nothing has been given or taken before, then after any number of rounds, if none throws, the
  -- socket has taken what the standard input has given but for what waits in the outbound stream,
  -- and the standard output has taken what the socket has given but for what waits in the inbound
  -- stream; either stream holds at most its capacity.
  pub bidirectional_stream_copy-Balanced :
      (polls : List (KernelPoll sys)) (f : FdWrapper) (k : K)
      → AllQuiet polls
      → f.fd ≡ sock
      → given 0 k ≡ []
      → taken sock k ≡ []
      → given sock k ≡ []
      → taken 1 k ≡ []
      → Balanced (bidirectional_stream_copy sys polls f k)
  bidirectional_stream_copy-Balanced polls f k quiet same g0 ts gs t1 =
      copy_loop-Balanced polls (rules sys) (start sys f k) quiet rules-AllKeeping (record {
        input_fd = refl;
        output_fd = refl;
        socket_fd = same;
        out = record {
          balance = g0 ∙ ap (λ x. x ++ []) (sym ts);
          capacity = refl;
          fits = omega arith;
        };
        back = record {
          balance = gs ∙ ap (λ x. x ++ []) (sym t1);
          capacity = refl;
          fits = omega arith;
        };
      })
