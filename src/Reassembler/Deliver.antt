-- ===== src/Reassembler/Deliver.antt =====
-- The last loop of `push_substring` writes on from where the output stream stands.
use cs144_intro2network.Prelude.{
  ℕ, zero, suc, ◌+◌, ◌≤◌, ◌<◌, ◌≡◌, ◌⊎◌, inl, inr, Bool, true, false, List, arith, length, take,
  drop, min, length-take, u64_mod, subst, refl, Bool-cases, leb, ◌==◌, add64, if◌then◌else◌, Option,
  some, none, Option-cases, sym, length-append, ==_iff,
}
use cs144_intro2network.Prelude.Map.{
  Map, All, All-insert, All-erase, All-lookup, lookup, insert, erase, length-erase,
}
use cs144_intro2network.ByteStream.Text.{Wrote, Wrote-write}
use cs144_intro2network.ByteStream.{ByteStream, remaining_capacity, write, end_input, bytes_written}
use cs144_intro2network.Reassembler.{Segment, Reassembler, before, deliver_one, deliver}
use cs144_intro2network.Reassembler.Slice.{AgreesAt, AgreesAt-take, AgreesAt-drop}
use cs144_intro2network.Reassembler.Overlap.{Waits}

-- The reassembler is consistent with the stream `s`.
pub record IsConsistent (s out : List ℕ) (r : Reassembler) : Type 0 where
  pub output : Wrote s out r.output
  pub waiting : All (Waits s) r.substrs

module _ (s out : List ℕ) (small : length s < u64_mod) where
  pub Waits-store :
      (seg : Segment) (m : Map Segment)
      → AgreesAt s seg.index seg.bytes
      → All (Waits s) m
      → All (Waits s) (insert before seg.index seg m)
  Waits-store seg m a w =
      All-insert (Waits s) before seg.index seg m (record { keyed = refl; agrees = a }) w

  pub Waits-shorten :
      (key : ℕ) (seg : Segment) (e : Bool) (n : ℕ)
      → Waits s key seg
      → Waits s key (record seg { bytes = take n seg.bytes; eof = e })
  Waits-shorten key seg e n w = record {
    keyed = w.keyed;
    agrees = AgreesAt-take s seg.index seg.bytes w.agrees n;
  }

  Wrote-end :
      (b : Bool) (o : ByteStream) → Wrote s out o → Wrote s out (if b then end_input o else o)
  unfolding end_input
  Wrote-end true o w = record {
    held = w.held;
    counted = w.counted;
    within = w.within;
    representable = w.representable;
  }
  Wrote-end false o w = w

  deliver_one-IsConsistent :
      (seg : Segment) (r : Reassembler)
      → IsConsistent s out r
      → lookup (bytes_written r.output) r.substrs ≡ some seg
      → IsConsistent s out (deliver_one seg r)
  unfolding deliver_one
  deliver_one-IsConsistent seg r c e =
      let found = All-lookup (Waits s) r.output.written seg r.substrs c.waiting e in
      let at : AgreesAt s r.output.written seg.bytes =
        subst (λ i. AgreesAt s i seg.bytes) (sym found.keyed) found.agrees in
      let left = All-erase (Waits s) r.output.written r.substrs c.waiting in
      let room : ℕ = remaining_capacity r.output in
      elim (Bool-cases (leb (length seg.bytes) room)) [
        | inl whole ↦ rw whole (record {
          output = Wrote-end seg.eof _ (Wrote-write s out r.output seg.bytes small c.output at);
          waiting = left;
        })
        | inr part ↦
            let n : room ≤ length seg.bytes = ground arith in
            let i : seg.index + room ≡ add64 seg.index room =
              omega (arith, found.agrees.fits, small, n) in
            rw part (record {
              output =
                  Wrote-write s out r.output (take room seg.bytes) small c.output
                    (AgreesAt-take s r.output.written seg.bytes at room);
              waiting =
                  Waits-store
                    (record seg { index = add64 seg.index room; bytes = drop room seg.bytes })
                    (erase r.output.written r.substrs)
                    (subst (λ j. AgreesAt s j (drop room seg.bytes)) i
                      (AgreesAt-drop s seg.index seg.bytes found.agrees room n))
                    left;
            })
      ]

  -- What the last loop returns; running out of fuel is excluded.
  abbrev pub Gives : Option Reassembler → Type 0
  Gives none = ⊥
  Gives (some r) = IsConsistent s out r

  deliver_full :
      (fuel : ℕ) (r : Reassembler)
      → IsConsistent s out r
      → remaining_capacity r.output ≡ 0
      → Gives (deliver (suc fuel) r)
  unfolding deliver
  deliver_full fuel r c full = elim (Option-cases (lookup (bytes_written r.output) r.substrs)) [
    | inl e ↦ rw (e, deliver) c
    | inr (seg, e) ↦
        let t : (remaining_capacity r.output == 0) ≡ true = (==_iff _ _).1 full in
        rw (e, deliver) (rw t c)
  ]

  -- A round empties one segment, or fills the stream.
  deliver_one-progress :
      (seg : Segment) (r : Reassembler)
      → IsConsistent s out r
      → lookup (bytes_written r.output) r.substrs ≡ some seg
      → (length (deliver_one seg r).substrs + 1 ≡ length r.substrs)
        ⊎ (remaining_capacity (deliver_one seg r).output ≡ 0)
  unfolding deliver_one write remaining_capacity
  deliver_one-progress seg r c e =
      let n : ℕ = remaining_capacity r.output in
      elim (Bool-cases (leb (length seg.bytes) n)) [
        | inl whole ↦ rw whole (inl (length-erase r.output.written seg r.substrs e))
        | inr part ↦
            let le : n ≤ length seg.bytes = ground arith in
            let l : length (take n seg.bytes) ≡ n = omega (arith, length-take n seg.bytes, le) in
            rw part (
              inr (
                omega (
                  arith,
                  l,
                  length-take (min n (length (take n seg.bytes))) (take n seg.bytes),
                  length-append r.output.buffer
                      (take (min n (length (take n seg.bytes))) (take n seg.bytes)),
                  c.output.within,
                  c.output.representable,
                )))
      ]

  pub deliver-Gives :
      (fuel : ℕ) (r : Reassembler)
      → length r.substrs + 1 < fuel
      → IsConsistent s out r
      → Gives (deliver fuel r)
  unfolding deliver
  deliver-Gives zero r f c = absurd (omega arith)
  deliver-Gives (suc zero) r f c = absurd (omega arith)
  deliver-Gives (suc (suc fuel)) r f c =
      elim (Option-cases (lookup (bytes_written r.output) r.substrs)) [
        | inl e ↦ rw (e, deliver) c
        | inr (seg, e) ↦
            let next = deliver_one-IsConsistent seg r c e in
            elim (Bool-cases (remaining_capacity r.output == 0)) [
              | inl full ↦ rw (e, deliver) (rw full c)
              | inr room ↦
                  rw (e, deliver)
                    (rw room (elim (deliver_one-progress seg r c e) [
                      | inl fewer ↦
                          deliver-Gives (suc fuel) (deliver_one seg r) (omega (arith, fewer)) next
                      | inr full ↦ deliver_full fuel (deliver_one seg r) next full
                    ]))
            ]
      ]
