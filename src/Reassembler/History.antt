-- ===== src/Reassembler/History.antt =====
-- The reassembler over a whole history of arrivals and reads.
use cs144_intro2network.Prelude.{
  ℕ, ◌≤◌, ◌<◌, ◌≡◌, refl, sym, Bool, Option, none, some, List, [], ◌∷◌, ◌++◌, arith, length, take,
  u64_mod,
}
use cs144_intro2network.ByteStream.{read}
use cs144_intro2network.Reassembler.{Reassembler, done, threw, out_of_fuel, push_substring, init}
use cs144_intro2network.Reassembler.Slice.{AgreesAt}
use cs144_intro2network.ByteStream.Text.{Wrote-read}
use cs144_intro2network.Reassembler.Deliver.{IsConsistent}
use cs144_intro2network.Reassembler.Prefix.{Returns, push_substring-Returns}

-- A segment arrives, or the reader reads from `stream_out()`.
pub data Event : Type 0 where
  arrives : List ℕ → ℕ → Bool → Event
  reads : ℕ → Event

-- Every arrival is an excerpt of the stream, in any order, overlapping or not.
abbrev pub Excerpts : List ℕ → List Event → Type 0
Excerpts s [] = Unit
Excerpts s (arrives bytes index eof ∷ events) = AgreesAt s index bytes × Excerpts s events
Excerpts s (reads n ∷ events) = Excerpts s events

-- What the reader has been given, and the reassembler at the end; `none` if a call did not return.
pub run : List ℕ → Reassembler → List Event → Option (List ℕ × Reassembler)
run out r [] = some (out, r)
run out r (arrives bytes index eof ∷ events) = elim (push_substring bytes index eof r) [
  | done r' ↦ run out r' events
  | threw ↦ none
  | out_of_fuel ↦ none
]
run out r (reads n ∷ events) =
    run (out ++ (read r.output n).0) (record r { output = (read r.output n).1 }) events

module _ (s : List ℕ) (small : length s < u64_mod) where
  -- What the reader has had and what is buffered make up the bytes of `s` written so far.
  abbrev pub Ends : Option (List ℕ × Reassembler) → Type 0
  Ends none = ⊥
  Ends (some (out, r)) = IsConsistent s out r

  read-IsConsistent :
      (out : List ℕ) (r : Reassembler) (n : ℕ)
      → IsConsistent s out r
      → IsConsistent s (out ++ (read r.output n).0) (record r { output = (read r.output n).1 })
  read-IsConsistent out r n c = record {
    output = Wrote-read s out r.output n c.output;
    waiting = c.waiting;
  }

  run-Ends :
      (out : List ℕ) (r : Reassembler) (events : List Event)
      → Excerpts s events
      → IsConsistent s out r
      → Ends (run out r events)
  unfolding run
  run-Ends out r [] ex c = c
  run-Ends out r (arrives bytes index eof ∷ events) ex c =
      (elim (push_substring bytes index eof r)
          as (λ o.
            Returns s out o
            → Ends (elim o [ done r' ↦ run out r' events | threw ↦ none | out_of_fuel ↦ none ])) [
              | done r' ↦ λ c'. run-Ends out r' events ex.1 c'
              | threw ↦ λ h. h
              | out_of_fuel ↦ λ h. h
            ])
        (push_substring-Returns s out bytes index eof r small ex.0 c)
  run-Ends out r (reads n ∷ events) ex c =
      run-Ends (out ++ (read r.output n).0) (record r { output = (read r.output n).1 }) events ex
        (read-IsConsistent out r n c)

-- A fresh reassembler of any capacity below 2^64, given excerpts of a stream `s` of fewer than 2^64
-- bytes in any order, lost, repeated or overlapping, and read from in between: every call returns, and at the end the bytes that the
-- reader has had followed by those buffered for it are exactly the first `bytes_written()` bytes of
-- `s`, with no more buffered than the capacity.
pub run_prefix :
    (s : List ℕ) (capacity : ℕ) (events : List Event)
    → length s < u64_mod
    → capacity < u64_mod
    → Excerpts s events
    → (out : List ℕ) × (r : Reassembler) × (run [] (init capacity) events ≡ some (out, r))
      × (out ++ r.output.buffer ≡ take r.output.written s)
      × (length r.output.buffer ≤ r.output.capacity)
run_prefix s capacity events small cap ex =
    conclude (run [] (init capacity) events) (run-Ends s small [] (init capacity) events ex start)
  where
    start : IsConsistent s [] (init capacity)
    start = record {
      output = record {
        held = record { fits = omega arith; same = refl };
        counted = refl;
        within = omega arith;
        representable = cap;
      };
      waiting = tt;
    }

    conclude :
        (o : Option (List ℕ × Reassembler))
        → Ends s small o
        → (out : List ℕ) × (r : Reassembler) × (o ≡ some (out, r))
          × (out ++ r.output.buffer ≡ take r.output.written s)
          × (length r.output.buffer ≤ r.output.capacity)
    conclude none e = absurd e
    conclude (some (out, r)) e =
        (out, r, refl, rw e.output.counted (sym e.output.held.same), e.output.within)
