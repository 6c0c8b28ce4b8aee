-- ===== src/Reassembler/Evict.antt =====
-- Making room for a piece keeps the waiting segments excerpts of the stream, and comes to an end.
use cs144_intro2network.Prelude.{
  ℕ, zero, suc, ◌<◌, ◌≡◌, inl, inr, Bool, true, false, List, [], ◌∷◌, arith, length, min,
  length-take, u64_mod, Bool-cases, ltb, add64, sub64, Option, some, none, ltb→lt,
}
use cs144_intro2network.Prelude.Map.{Map, All}
use cs144_intro2network.Reassembler.{
  Segment, Reassembler, empty_size, evict, Room, refused, room_for, room_out_of_fuel, weight, Round,
  stop, again, evict_one, make_room_from, shorten_first, drop_first, from_evicted,
}
use cs144_intro2network.Reassembler.Slice.{AgreesAt, AgreesAt-take}
use cs144_intro2network.Reassembler.Overlap.{Waits}
use cs144_intro2network.ByteStream.Text.{Wrote}
use cs144_intro2network.Reassembler.Deliver.{IsConsistent, Waits-shorten}

module _ (s out : List ℕ) (small : length s < u64_mod) where
  -- What making room gives: a consistent reassembler, and an excerpt at the index asked for.
  abbrev Evicted : ℕ → Option (Reassembler × List ℕ) → Type 0
  Evicted index none = ⊥
  Evicted index (some (r, bytes)) = IsConsistent s out r × AgreesAt s index bytes

  shorten_first-IsConsistent :
      (e : Bool) (wanted : ℕ) (r : Reassembler) (segs : Map Segment) (key : ℕ) (seg : Segment)
      → Wrote s out r.output
      → Waits s key seg
      → All (Waits s) segs
      → IsConsistent s out (shorten_first e wanted r segs key seg)
  shorten_first-IsConsistent e wanted r segs key seg o w ws = record {
    output = o;
    waiting = (Waits-shorten s out small key seg _ _ w, ws);
  }

  -- Cutting a segment back makes it shorter, also in 64-bit arithmetic.
  cut_back :
      (size room wanted : ℕ)
      → size < u64_mod
      → room < wanted
      → wanted < add64 size room
      → min (sub64 (add64 size room) wanted) size < size
  cut_back size room wanted a b c = omega arith

  abbrev Rounded : ℕ → ℕ → Round → Type 0
  Rounded index n (stop bytes) = AgreesAt s index bytes
  Rounded index n (again r) = IsConsistent s out r × (weight r.substrs < n)

  evict_one-Rounded :
      (index : ℕ) (bytes : List ℕ) (r : Reassembler) (segs : Map Segment)
      → ltb (empty_size r) (length bytes) ≡ true
      → Wrote s out r.output
      → All (Waits s) segs
      → AgreesAt s index bytes
      → Rounded index (weight segs) (evict_one index bytes r segs)
  unfolding evict_one weight
  evict_one-Rounded index bytes r [] t o w a = AgreesAt-take s index bytes a (empty_size r)
  evict_one-Rounded index bytes r ((key, seg) ∷ segs) t o w a =
      elim (Bool-cases (ltb seg.index index)) [
        | inl below ↦ rw below (AgreesAt-take s index bytes a (empty_size r))
        | inr above ↦
            rw above
              (elim (Bool-cases (ltb (length bytes) (add64 (length seg.bytes) (empty_size r)))) [
                | inl some_left ↦ rw some_left (
                  shorten_first-IsConsistent false (length bytes) r segs key seg o w.0 w.1,
                  omega (
                    arith,
                    length-take (sub64 (add64 (length seg.bytes) (empty_size r)) (length bytes))
                        seg.bytes,
                    cut_back (length seg.bytes) (empty_size r) (length bytes)
                        (omega (arith, w.0.agrees.fits, small)) (ltb→lt _ _ t)
                        (ltb→lt _ _ some_left),
                  ),
                )
                | inr none_left ↦ rw none_left (record { output = o; waiting = w.1 }, omega arith)
              ])
      ]

  evict-Evicted :
      (fuel index : ℕ) (bytes : List ℕ) (r : Reassembler)
      → weight r.substrs < fuel
      → IsConsistent s out r
      → AgreesAt s index bytes
      → Evicted index (evict fuel index bytes r)
  unfolding evict
  evict-Evicted zero index bytes r f c a = absurd (omega arith)
  evict-Evicted (suc fuel) index bytes r f c a =
      elim (Bool-cases (ltb (empty_size r) (length bytes))) [
        | inr fits ↦ rw fits (c, a)
        | inl tight ↦ rw tight (
            (elim (evict_one index bytes r r.substrs)
                as (λ t.
                  Rounded index (weight r.substrs) t
                  → Evicted index (elim t [
                    | stop rest ↦ some (r, rest)
                    | again r' ↦ evict fuel index bytes r'
                  ])) [
                    | stop rest ↦ λ ok. (c, ok)
                    | again r' ↦
                        λ ok. evict-Evicted fuel index bytes r' (omega (arith, ok.1, f)) ok.0 a
                  ])
              (evict_one-Rounded index bytes r r.substrs tight c.output c.waiting a))
      ]

  abbrev pub HasRoom : ℕ → Room → Type 0
  HasRoom index refused = Unit
  HasRoom index (room_for bytes r) = IsConsistent s out r × AgreesAt s index bytes
  HasRoom index room_out_of_fuel = ⊥

  from_evicted-HasRoom :
      (index : ℕ) (o : Option (Reassembler × List ℕ))
      → Evicted index o
      → HasRoom index (from_evicted o)
  from_evicted-HasRoom index none e = e
  from_evicted-HasRoom index (some (r, bytes)) e = e

  pub make_room_from-HasRoom :
      (index : ℕ) (bytes : List ℕ) (r : Reassembler) (segs : Map Segment)
      → Wrote s out r.output
      → All (Waits s) segs
      → r.substrs ≡ segs
      → AgreesAt s index bytes
      → HasRoom index (make_room_from index bytes r segs)
  unfolding make_room_from
  make_room_from-HasRoom index bytes r [] o w e a =
      (record { output = o; waiting = rw e tt }, AgreesAt-take s index bytes a (empty_size r))
  make_room_from-HasRoom index bytes r ((key, seg) ∷ segs) o w e a =
      elim (Bool-cases (ltb seg.index index)) [
        | inl below ↦ rw below tt
        | inr above ↦
            rw above
              (elim (Bool-cases (ltb (length bytes) (add64 (length seg.bytes) (empty_size r)))) [
                | inl some_left ↦
                    rw some_left
                      (shorten_first-IsConsistent true (length bytes) r segs key seg o w.0 w.1, a)
                | inr none_left ↦ rw none_left (
                    from_evicted-HasRoom index _ (
                      evict-Evicted (suc (weight segs)) index bytes (drop_first r segs seg)
                        (omega arith) (record { output = o; waiting = w.1 }) a))
              ])
      ]
