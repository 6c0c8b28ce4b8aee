-- ===== src/Reassembler/InOrder.antt =====
-- A string pushed into a reassembler where nothing waits, at the place where the output stands.
use cs144_intro2network.Prelude.{
  ℕ, suc, ◌+◌, ◌≤◌, ◌<◌, ◌≡◌, refl, ◌∙◌, ap, Bool, true, false, Bool-cases, inl, inr, List, [],
  ◌++◌, length, min, arith, u64_mod, take_all, add64, sub64, ltb, leb, ◌==◌, some, if◌then◌else◌,
  ==_iff, sym,
}
use cs144_intro2network.Prelude.Map.{lookup, insert, erase}
use cs144_intro2network.ByteStream.{ByteStream, bytes_written, remaining_capacity, write, end_input}
use cs144_intro2network.Reassembler.{
  Reassembler, Segment, done, push_substring, push, trim, keep, make_room, store, deliver,
  deliver_one, finish, fuel_deliver, from_delivered, scan, empty_size, last_index, Piece,
}

-- Nothing waits in the reassembler, and what the output may still hold can be counted.
pub record CaughtUp (r : Reassembler) : Type 0 where
  pub nothing_waits : r.substrs ≡ []
  pub no_bytes_wait : r.substrs_size ≡ 0
  pub one_capacity : r.capacity ≡ r.output.capacity
  pub representable : r.output.written + r.output.capacity < u64_mod

-- The output once it has the bytes as well, and its end if `eof`.
abbrev pub extended : List ℕ → Bool → ByteStream → ByteStream
extended bytes eof o =
    let o' : ByteStream = record o {
      buffer = o.buffer ++ bytes;
      written = o.written + length bytes;
    } in
    if eof then record o' { input_end = true } else o'

-- A reassembler where nothing waits.
abbrev pub bare : ℕ → ByteStream → Reassembler
bare capacity o = record { output = o; capacity = capacity; substrs = []; substrs_size = 0 }

deliver_step :
    (fuel : ℕ) (seg : Segment) (r : Reassembler)
    → (remaining_capacity r.output == 0) ≡ false
    → lookup (bytes_written r.output) r.substrs ≡ some seg
    → deliver (suc fuel) r ≡ deliver fuel (deliver_one seg r)
unfolding deliver
deliver_step fuel seg r room found = rw (deliver, found) (rw room refl)

push_step :
    (fuel index : ℕ) (bytes : List ℕ) (eof : Bool) (capacity : ℕ) (o : ByteStream) (p : Piece)
    → trim (bare capacity o) bytes index eof ≡ some p
    → push (suc fuel) bytes index eof (bare capacity o) ≡ keep p (bare capacity o)
unfolding push keep scan
push_step fuel index bytes eof capacity o p e = rw (push, e) refl

module _ (o : ByteStream) (bytes : List ℕ) (eof : Bool) (some_bytes : 0 < length bytes)
    (fits : length bytes + length o.buffer ≤ o.capacity)
    (small : o.written + o.capacity < u64_mod) where
  abbrev r : Reassembler
  r = bare o.capacity o

  abbrev seg : Segment
  seg = record { eof = eof; bytes = bytes; index = o.written }

  room : length bytes ≤ remaining_capacity o
  unfolding remaining_capacity
  room = omega arith

  written : (write o bytes).0 ≡ extended bytes false o
  unfolding write
  written =
      let all : min (remaining_capacity o) (length bytes) ≡ length bytes = omega (arith, room) in
      let t = take_all (min (remaining_capacity o) (length bytes)) bytes (omega (arith, room)) in
      let n : add64 o.written (min (remaining_capacity o) (length bytes))
          ≡ o.written + length bytes =
        omega (arith, all, fits, small) in
      rw (t, n) refl

  delivered : deliver_one seg (store seg r) ≡ bare o.capacity (extended bytes eof o)
  unfolding deliver_one store insert erase end_input
  delivered =
      let whole : leb (length bytes) (remaining_capacity o) ≡ true = ground (arith, room) in
      let same : (o.written == o.written) ≡ true = (==_iff _ _).1 refl in
      let size : sub64 (add64 0 (length bytes)) (length bytes) ≡ 0 = omega (arith, fits, small) in
      rw (whole, same, size, written)
        (elim (Bool-cases eof) [ inl last ↦ rw last refl | inr more ↦ rw more refl ])

  found : lookup o.written (store seg r).substrs ≡ some seg
  unfolding store insert lookup
  found = rw ((==_iff o.written o.written).1 refl) refl

  stored_output : (remaining_capacity (store seg r).output == 0) ≡ false
  unfolding store
  stored_output = ground (arith, room, some_bytes)

  waits_alone : fuel_deliver (store seg r) ≡ 3
  unfolding store insert
  waits_alone = refl

  finished : finish (store seg r) ≡ done (bare o.capacity (extended bytes eof o))
  unfolding deliver lookup store
  finished = ap from_delivered (
      ap (λ n. deliver n (store seg r)) waits_alone
      ∙ deliver_step 2 seg (store seg r) stored_output found
      ∙ ap (deliver 2) delivered)

  enough : ltb (empty_size (bare o.capacity o)) (length bytes) ≡ false
  unfolding empty_size
  enough = ground arith

  abbrev piece : Piece
  piece = record {
    bytes = bytes;
    index_begin = o.written;
    index_end = last_index o.written (length bytes);
    eof = eof;
  }

  kept : keep piece r ≡ done (bare o.capacity (extended bytes eof o))
  unfolding make_room keep
  kept = rw (keep, make_room, enough) finished

  ahead_of : o.written < add64 o.written (remaining_capacity o)
  unfolding remaining_capacity
  ahead_of = omega arith

  trimmed : trim r bytes o.written eof ≡ some piece
  unfolding trim
  trimmed =
      let ahead : leb (add64 o.written (remaining_capacity o)) o.written ≡ false =
        ground (arith, ahead_of) in
      let new : ltb o.written o.written ≡ false = ground arith in rw (trim, ahead, new) refl

  pub push-bare :
      push_substring bytes o.written eof r ≡ done (bare o.capacity (extended bytes eof o))
  unfolding push_substring
  push-bare =
      let fuel : length bytes + 1 ≡ suc (length bytes) = omega arith in
      rw (push_substring, fuel)
        (push_step (length bytes) o.written bytes eof o.capacity o piece trimmed ∙ kept)

-- If nothing waits, and the bytes, not none, fit what the output has room for, then a push at the
-- place where the output stands appends them all to the output, and ends it if they are the last.
pub push_substring-in_order :
    (bytes : List ℕ) (eof : Bool) (r : Reassembler)
    → CaughtUp r
    → 0 < length bytes
    → length bytes + length r.output.buffer ≤ r.output.capacity
    → push_substring bytes r.output.written eof r
      ≡ done (record r { output = extended bytes eof r.output })
push_substring-in_order bytes eof r c some_bytes fits =
    let same : r ≡ bare r.output.capacity r.output = λ i. record {
      output = r.output;
      capacity = c.one_capacity i;
      substrs = c.nothing_waits i;
      substrs_size = c.no_bytes_wait i;
    } in
    ap (push_substring bytes r.output.written eof) same
    ∙ push-bare r.output bytes eof some_bytes fits c.representable
    ∙ ap (λ x. done (record x { output = extended bytes eof r.output })) (sym same)
