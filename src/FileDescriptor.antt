-- ===== src/FileDescriptor.antt =====
-- libsponge/util/file_descriptor.hh and file_descriptor.cc: `FileDescriptor`, and `Socket::shutdown` of
-- libsponge/util/socket.cc. The system calls are parameters over a state of the kernel. The `FDWrapper`
-- that duplicates share is a value that the callers keep.
pub mod Write
pub mod Blocking
pub mod Trace
use cs144_intro2network.Prelude.{
  ℕ, zero, suc, ◌%◌, ◌/◌, ◌-◌, ◌+◌, ◌*◌, min, Bool, true, false, not, ◌&&◌, Option, none, some,
  List, [], ◌∷◌, length, ltb, ◌==◌, if◌then◌else◌, u32_mod, add64,
}
use cs144_intro2network.Buffer.{view_size, view_remove_prefix}

-- What a system call gives: its result, or an errno.
pub data Sys (A : Type 0) : Type 0 where
  returned : A → Sys A
  failed : ℕ → Sys A

-- The `how` of `shutdown`.
pub data How : Type 0 where
  shut_rd : How
  shut_wr : How
  shut_rdwr : How

-- The system calls, for the number of a descriptor. A `read` gives the bytes that it has put into the
-- buffer; a `writev` takes the views that its `iovec`s show.
pub record Kernel (K : Type 0) : Type 0 where
  pub sys_read : ℕ → ℕ → K → Sys (List ℕ) × K
  pub sys_writev : ℕ → List (List ℕ) → K → Sys ℕ × K
  pub sys_close : ℕ → K → Sys ℕ × K
  pub sys_shutdown : ℕ → How → K → Sys ℕ × K
  pub sys_getfl : ℕ → K → Sys ℕ × K
  pub sys_setfl : ℕ → ℕ → K → Sys ℕ × K

-- `FDWrapper`.
pub record FdWrapper : Type 0 where
  pub fd : ℕ
  pub eof : Bool
  pub closed : Bool
  pub read_count : ℕ
  pub write_count : ℕ

-- The constructor, for a number that is not negative.
abbrev pub wrap : ℕ → FdWrapper
wrap fd = record { fd = fd; eof = false; closed = false; read_count = 0; write_count = 0 }

abbrev pub register_read : FdWrapper → FdWrapper
register_read f = record f { read_count = (f.read_count + 1) % u32_mod }

abbrev pub register_write : FdWrapper → FdWrapper
register_write f = record f { write_count = (f.write_count + 1) % u32_mod }

-- How a call ends: the model's loop may also be out of fuel.
pub data Outcome (A : Type 0) : Type 0 where
  done : A → Outcome A
  threw : Outcome A
  out_of_fuel : Outcome A

-- An outcome with the descriptor and the kernel after it.
abbrev pub Returned : Type 0 → Type 0 → Type 0
Returned K A = Outcome A × FdWrapper × K

unfoldable pub after_close : {K : Type 0} → FdWrapper → Sys ℕ × K → Returned K Unit
after_close f (failed errno, k) = (threw, f, k)
after_close f (returned _, k) = (done tt, record f { eof = true; closed = true }, k)

abbrev pub close : {K : Type 0} → Kernel K → FdWrapper → K → Returned K Unit
close kernel f k = after_close f (kernel.sys_close f.fd k)

-- The destructor of `FDWrapper`, after the last of the descriptors that share it; it throws nothing.
unfoldable pub destroy : {K : Type 0} → Kernel K → FdWrapper → K → K
destroy kernel f k = if f.closed then k else (kernel.sys_close f.fd k).1

-- `O_NONBLOCK`.
abbrev pub o_nonblock : ℕ
o_nonblock = 2048

abbrev pub has_nonblock : ℕ → Bool
has_nonblock flags = (flags / o_nonblock) % 2 == 1

-- `set_blocking`'s `flags ^= (flags & O_NONBLOCK)`, or `flags |= O_NONBLOCK`.
unfoldable pub blocking_flags : Bool → ℕ → ℕ
blocking_flags blocking_state flags =
    if has_nonblock flags
    then (if blocking_state then flags - o_nonblock else flags)
    else (if blocking_state then flags else flags + o_nonblock)

abbrev pub after_setfl : {K : Type 0} → FdWrapper → Sys ℕ × K → Returned K Unit
after_setfl f (failed errno, k) = (threw, f, k)
after_setfl f (returned _, k) = (done tt, f, k)

unfoldable pub after_getfl :
    {K : Type 0} → Kernel K → Bool → FdWrapper → Sys ℕ × K → Returned K Unit
unfolding blocking_flags
after_getfl kernel blocking_state f (failed errno, k) = (threw, f, k)
after_getfl kernel blocking_state f (returned flags, k) =
    after_setfl f (kernel.sys_setfl f.fd (blocking_flags blocking_state flags) k)

abbrev pub set_blocking : {K : Type 0} → Kernel K → Bool → FdWrapper → K → Returned K Unit
set_blocking kernel blocking_state f k =
    after_getfl kernel blocking_state f (kernel.sys_getfl f.fd k)

-- `BUFFER_SIZE` of `read`.
abbrev pub buffer_size : ℕ
buffer_size = 1024 * 1024

-- What `read` does with the result of the system call.
unfoldable pub after_read : {K : Type 0} → ℕ → FdWrapper → Sys (List ℕ) × K → Returned K (List ℕ)
after_read limit f (failed errno, k) = (threw, f, k)
after_read limit f (returned bytes, k) =
    let f' = if ltb 0 limit && length bytes == 0 then record f { eof = true } else f in
    if ltb (min buffer_size limit) (length bytes)
    then (threw, f', k)
    else (done bytes, register_read f', k)

abbrev pub read : {K : Type 0} → Kernel K → ℕ → FdWrapper → K → Returned K (List ℕ)
read kernel limit f k = after_read limit f (kernel.sys_read f.fd (min buffer_size limit) k)

-- The loop of `write`, for what it has written, with a round for each unit of fuel.
unfoldable pub write_from :
    {K : Type 0} → Kernel K → Bool → ℕ → ℕ → List (List ℕ) → FdWrapper → K → Returned K ℕ
write_from kernel write_all zero total buffer f k = (out_of_fuel, f, k)
write_from kernel write_all (suc fuel) total buffer f k =
    let (result, k') = kernel.sys_writev f.fd buffer k in
    elim result [
      | failed errno ↦ (threw, f, k')
      | returned n ↦
          if n == 0 && not (view_size buffer == 0)
          then (threw, f, k')
          else if ltb (view_size buffer) n
          then (threw, f, k')
          else (elim (view_remove_prefix n buffer) [
            | none ↦ (threw, register_write f, k')
            | some left ↦
                let rest =
                  write_from kernel write_all fuel (add64 total n) left (register_write f) k' in
                if write_all && not (view_size left == 0)
                then rest
                else (done (add64 total n), register_write f, k')
          ])
    ]

-- Each round but the last writes something, so there are at most as many as there are bytes, and one.
abbrev pub write : {K : Type 0} → Kernel K → Bool → List (List ℕ) → FdWrapper → K → Returned K ℕ
write kernel write_all buffer f k = write_from kernel write_all (view_size buffer + 1) 0 buffer f k

-- The registrations of `Socket::shutdown`.
abbrev pub register_shutdown : How → FdWrapper → FdWrapper
register_shutdown shut_rd f = register_read f
register_shutdown shut_wr f = register_write f
register_shutdown shut_rdwr f = register_write (register_read f)

unfoldable pub after_shutdown : {K : Type 0} → How → FdWrapper → Sys ℕ × K → Returned K Unit
after_shutdown how f (failed errno, k) = (threw, f, k)
after_shutdown how f (returned _, k) = (done tt, register_shutdown how f, k)

-- `Socket::shutdown`, for a valid `how`.
abbrev pub shutdown : {K : Type 0} → Kernel K → How → FdWrapper → K → Returned K Unit
shutdown kernel how f k = after_shutdown how f (kernel.sys_shutdown f.fd how k)
