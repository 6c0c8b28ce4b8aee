-- ===== src/FileDescriptor/Blocking.antt =====
-- The flags that `FileDescriptor::set_blocking` sets.
use cs144_intro2network.Prelude.{
  ℕ, Bool, true, false, not, ◌≡◌, ◌%◌, ◌/◌, arith, Bool-cases, inl, inr,
}
use cs144_intro2network.FileDescriptor.{blocking_flags, has_nonblock, o_nonblock}

-- The bit tells whether the descriptor is non-blocking, and the bits below and above it stay.
blocking_flags_lem :
    (blocking_state : Bool) (flags : ℕ)
    → (has_nonblock (blocking_flags blocking_state flags) ≡ not blocking_state)
      × (blocking_flags blocking_state flags % o_nonblock ≡ flags % o_nonblock)
      × (blocking_flags blocking_state flags / o_nonblock / 2 ≡ flags / o_nonblock / 2)
unfolding blocking_flags
blocking_flags_lem true flags = elim (Bool-cases (has_nonblock flags)) [
  | inl set ↦ rw set (ground (arith, set), ground (arith, set), ground (arith, set))
  | inr clear ↦ rw clear (ground (arith, clear), ground (arith, clear), ground (arith, clear))
]
blocking_flags_lem false flags = elim (Bool-cases (has_nonblock flags)) [
  | inl set ↦ rw set (ground (arith, set), ground (arith, set), ground (arith, set))
  | inr clear ↦ rw clear (ground (arith, clear), ground (arith, clear), ground (arith, clear))
]
