-- ===== src/Reassembler.antt =====
-- libsponge/stream_reassembler.hh and stream_reassembler.cc: `StreamReassembler`.
-- `substrs` is the map of waiting segments, the largest index first; each key is its segment's
-- `index`. A `std::string::substr` past the end throws, which is the outcome `threw`.
pub mod Slice
pub mod Overlap
pub mod Deliver
pub mod Evict
pub mod Prefix
pub mod History
pub mod InOrder
use cs144_intro2network.Prelude.{
  ℕ, zero, suc, ◌+◌, ◌-◌, Bool, true, false, not, ◌&&◌, ◌||◌, Option, none, some, List, [], ◌∷◌,
  length, take, drop, add64, sub64, ltb, leb, ◌==◌, if◌then◌else◌,
}
use cs144_intro2network.Prelude.Map.{Map, lookup, insert, erase}
use cs144_intro2network.ByteStream
use cs144_intro2network.ByteStream.{
  ByteStream, bytes_written, remaining_capacity, buffer_size, write, end_input,
}

pub record Segment : Type 0 where
  pub eof : Bool
  pub bytes : List ℕ
  pub index : ℕ

pub record Reassembler : Type 0 where
  pub output : ByteStream
  pub capacity : ℕ
  pub substrs : Map Segment
  pub substrs_size : ℕ

-- `std::greater`.
abbrev pub before : ℕ → ℕ → Bool
before a b = ltb b a

abbrev pub init : ℕ → Reassembler
init capacity = record {
  output = ByteStream.init capacity;
  capacity = capacity;
  substrs = [];
  substrs_size = 0;
}

abbrev pub unassembled_bytes : Reassembler → ℕ
unassembled_bytes r = r.substrs_size

abbrev pub empty : Reassembler → Bool
empty r = length r.substrs == 0

unfoldable pub empty_size : Reassembler → ℕ
empty_size r =
    if leb (add64 r.substrs_size (buffer_size r.output)) r.capacity
    then sub64 (sub64 r.capacity r.substrs_size) (buffer_size r.output)
    else 0

-- What a call may end in.
pub data Outcome : Type 0 where
  done : Reassembler → Outcome
  threw : Outcome
  out_of_fuel : Outcome

-- The part of the pushed data that is still wanted, with its first and its last index.
pub record Piece : Type 0 where
  pub bytes : List ℕ
  pub index_begin : ℕ
  pub index_end : ℕ
  pub eof : Bool

-- How the loop over the waiting segments ends: with an early `return`, with a piece that meets no
-- waiting segment, with a piece that surrounds one (`([])`) and is cut in two, or with a throw.
pub data Scan : Type 0 where
  returned : Scan
  kept : Piece → Scan
  cut : Piece → Segment → Scan
  scan_threw : Scan

-- The last index of a string of the given length: `begin + size - 1` in 64 bits.
abbrev pub last_index : ℕ → ℕ → ℕ
last_index begin size = sub64 (add64 begin size) 1

-- The five cases of the loop's body, with `curr` the waiting segment, and `rest` the loop after it.
abbrev pub scan_one : Bool → Piece → ℕ → ℕ → (Piece → Scan) → Scan
scan_one eof p curr_begin curr_end rest =
    if length p.bytes == 0
    then (if eof then kept p else returned)
    else if ltb p.index_end curr_begin || ltb curr_end p.index_begin
    then rest p
    else if leb curr_begin p.index_begin && leb p.index_end curr_end
    then returned
    else if leb curr_begin p.index_begin && ltb curr_end p.index_end
    then (let pos = add64 (sub64 curr_end p.index_begin) 1 in
        if ltb (length p.bytes) pos
        then scan_threw
        else rest (record p { bytes = drop pos p.bytes; index_begin = add64 curr_end 1 }))
    else if ltb p.index_begin curr_begin && leb p.index_end curr_end
    then (let index_end = sub64 curr_begin 1 in
        rest (record {
          bytes = take (add64 (sub64 index_end p.index_begin) 1) p.bytes;
          index_begin = p.index_begin;
          index_end = index_end;
          eof = false;
        }))
    else (let pos = add64 (sub64 curr_end p.index_begin) 1 in
        if ltb (length p.bytes) pos
        then scan_threw
        else cut
            (record {
              bytes = take (sub64 curr_begin p.index_begin) p.bytes;
              index_begin = p.index_begin;
              index_end = sub64 curr_begin 1;
              eof = false;
            })
            (record { eof = p.eof; bytes = drop pos p.bytes; index = add64 curr_end 1 }))

-- The loop. `eof` is the argument of the call, which the loop tests, and not the piece's.
pub scan : Bool → Piece → Map Segment → Scan
scan eof p [] = kept p
scan eof p ((key, curr) ∷ segs) =
    scan_one eof p curr.index (last_index curr.index (length curr.bytes)) (λ q. scan eof q segs)

-- The guards before the loop: `none` for an early `return`.
pub trim : Reassembler → List ℕ → ℕ → Bool → Option Piece
trim r bytes index eof =
    let written = bytes_written r.output in
    if leb (add64 written (remaining_capacity r.output)) index
    then none
    else if ltb index written
    then (if leb (length bytes) (written - index)
        then none
        else some (record {
          bytes = drop (written - index) bytes;
          index_begin = written;
          index_end = last_index written (length (drop (written - index) bytes));
          eof = eof;
        }))
    else some (record {
      bytes = bytes;
      index_begin = index;
      index_end = last_index index (length bytes);
      eof = eof;
    })

-- `begin()->second.data = ….substr(0, size + empty_size() - wanted)`; `substrs_size` falls by
-- `wanted`, as the source has it. `clears` says whether the `eof` of the segment is cleared too.
abbrev pub shorten_first : Bool → ℕ → Reassembler → Map Segment → ℕ → Segment → Reassembler
shorten_first clears wanted r segs key seg = record r {
  substrs =
      (
        key,
        record seg {
          bytes = take (sub64 (add64 (length seg.bytes) (empty_size r)) wanted) seg.bytes;
          eof = if clears then false else seg.eof;
        },
      )
      ∷ segs;
  substrs_size = sub64 r.substrs_size wanted;
}

abbrev pub drop_first : Reassembler → Map Segment → Segment → Reassembler
drop_first r segs seg = record r {
  substrs = segs;
  substrs_size = sub64 r.substrs_size (length seg.bytes);
}

-- A round of the inner `while`: `break` with what is left of the piece, or go on.
pub data Round : Type 0 where
  stop : List ℕ → Round
  again : Reassembler → Round

pub evict_one : ℕ → List ℕ → Reassembler → Map Segment → Round
evict_one index_begin bytes r [] = stop (take (empty_size r) bytes)
evict_one index_begin bytes r ((key, seg) ∷ segs) =
    if ltb seg.index index_begin
    then stop (take (empty_size r) bytes)
    else again (
        if ltb (length bytes) (add64 (length seg.bytes) (empty_size r))
        then shorten_first false (length bytes) r segs key seg
        else drop_first r segs seg)

-- The inner `while`: evicts waiting segments until the piece fits. `none`: the fuel ran out.
pub evict : ℕ → ℕ → List ℕ → Reassembler → Option (Reassembler × List ℕ)
evict zero index_begin bytes r = none
evict (suc fuel) index_begin bytes r =
    if ltb (empty_size r) (length bytes)
    then (elim (evict_one index_begin bytes r r.substrs) [
      | stop rest ↦ some (r, rest)
      | again r' ↦ evict fuel index_begin bytes r'
    ])
    else some (r, bytes)

-- How making room ends: with an early `return`, or with what is stored.
pub data Room : Type 0 where
  refused : Room
  room_for : List ℕ → Reassembler → Room
  room_out_of_fuel : Room

abbrev pub from_evicted : Option (Reassembler × List ℕ) → Room
from_evicted none = room_out_of_fuel
from_evicted (some (r, bytes)) = room_for bytes r

-- The bytes that wait, and one for each segment.
pub weight : Map Segment → ℕ
weight [] = 0
weight ((key, seg) ∷ segs) = length seg.bytes + 1 + weight segs

-- The case in which the piece does not fit: the segment with the largest index is cut back or
-- evicted first. The fuel is enough for every byte and every segment that waits.
pub make_room_from : ℕ → List ℕ → Reassembler → Map Segment → Room
unfolding weight
make_room_from index_begin bytes r [] = room_for (take (empty_size r) bytes) r
make_room_from index_begin bytes r ((key, seg) ∷ segs) =
    if ltb seg.index index_begin
    then refused
    else if ltb (length bytes) (add64 (length seg.bytes) (empty_size r))
    then room_for bytes (shorten_first true (length bytes) r segs key seg)
    else from_evicted (evict (suc (weight segs)) index_begin bytes (drop_first r segs seg))

pub make_room : ℕ → List ℕ → Reassembler → Room
unfolding make_room_from
make_room index_begin bytes r =
    if ltb (empty_size r) (length bytes)
    then make_room_from index_begin bytes r r.substrs
    else room_for bytes r

-- `_substrs[index_begin] = Segment(…)`.
pub store : Segment → Reassembler → Reassembler
store seg r = record r {
  substrs = insert before seg.index seg r.substrs;
  substrs_size = add64 r.substrs_size (length seg.bytes);
}

-- One round of the last loop, for the segment found at `bytes_written()` with room in the stream.
pub deliver_one : Segment → Reassembler → Reassembler
deliver_one seg r =
    let room = remaining_capacity r.output in
    let written = bytes_written r.output in
    let segs = erase written r.substrs in
    if leb (length seg.bytes) room
    then (let out = (write r.output seg.bytes).0 in
        record r {
          output = if seg.eof then end_input out else out;
          substrs = segs;
          substrs_size = sub64 r.substrs_size (length seg.bytes);
        })
    else (let index = add64 seg.index room in
        record r {
          output = (write r.output (take room seg.bytes)).0;
          substrs =
              insert before index (record seg { index = index; bytes = drop room seg.bytes }) segs;
          substrs_size = sub64 r.substrs_size room;
        })

-- The last loop: writes what has become contiguous. `none`: the fuel ran out.
pub deliver : ℕ → Reassembler → Option Reassembler
deliver zero r = none
deliver (suc fuel) r = elim (lookup (bytes_written r.output) r.substrs) [
  | none ↦ some r
  | some seg ↦ if remaining_capacity r.output == 0 then some r else deliver fuel (deliver_one seg r)
]

abbrev pub from_delivered : Option Reassembler → Outcome
from_delivered none = out_of_fuel
from_delivered (some r) = done r

-- A segment with no waiting bytes costs a round of the loop, and a partial write one more.
abbrev pub fuel_deliver : Reassembler → ℕ
fuel_deliver r = length r.substrs + 2

abbrev pub finish : Reassembler → Outcome
finish r = from_delivered (deliver (fuel_deliver r) r)

-- The end of the call for a piece that meets no waiting segment.
pub keep : Piece → Reassembler → Outcome
keep p r = elim (make_room p.index_begin p.bytes r) [
  | refused ↦ done r
  | room_for bytes r' ↦
      finish (store (record { eof = p.eof; bytes = bytes; index = p.index_begin }) r')
  | room_out_of_fuel ↦ out_of_fuel
]

infixl 5 ◌>>=◌
abbrev pub ◌>>=◌ : Outcome → (Reassembler → Outcome) → Outcome
done r >>= f = f r
threw >>= f = threw
out_of_fuel >>= f = out_of_fuel

-- `push_substring`, with fuel for its calls of itself.
pub push : ℕ → List ℕ → ℕ → Bool → Reassembler → Outcome
push zero bytes index eof r = out_of_fuel
push (suc fuel) bytes index eof r = elim (trim r bytes index eof) [
  | none ↦ done r
  | some piece ↦ elim (scan eof piece r.substrs) [
    | returned ↦ done r
    | kept p ↦ keep p r
    | scan_threw ↦ threw
    | cut p seg ↦
        push fuel p.bytes p.index_begin p.eof r >>= λ r'. push fuel seg.bytes seg.index seg.eof r'
  ]
]

-- Each call of itself has at least one byte less.
pub push_substring : List ℕ → ℕ → Bool → Reassembler → Outcome
push_substring bytes index eof r = push (length bytes + 1) bytes index eof r
