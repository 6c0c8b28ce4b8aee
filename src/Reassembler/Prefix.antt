-- ===== src/Reassembler/Prefix.antt =====
-- The main promise of `StreamReassembler`: what it writes is the stream that was cut up.
use cs144_intro2network.Prelude.{
  ℕ, zero, suc, ◌+◌, ◌-◌, ◌≤◌, ◌<◌, ◌≡◌, ◌⊎◌, inl, inr, Bool, List, arith, length, drop,
  length-drop, u64_mod, subst, refl, Bool-cases, ltb, leb, ◌==◌, add64, Option, some, none, ==_iff,
}
use cs144_intro2network.ByteStream.{remaining_capacity}
use cs144_intro2network.Reassembler.{
  Reassembler, Piece, Outcome, done, threw, out_of_fuel, returned, kept, cut, scan_threw,
  last_index, scan, trim, empty_size, make_room, refused, room_for, room_out_of_fuel, store,
  deliver, keep, push, push_substring, finish, fuel_deliver, from_delivered, ◌>>=◌,
}
use cs144_intro2network.Reassembler.Slice.{AgreesAt, AgreesAt-drop}
use cs144_intro2network.Reassembler.Overlap.{IsPiece, Scanned, scan-Scanned}
use cs144_intro2network.Reassembler.Deliver.{IsConsistent, Gives, deliver-Gives, Waits-store}
use cs144_intro2network.Reassembler.Evict.{HasRoom, make_room_from-HasRoom}

-- The call returns, and leaves a consistent reassembler.
abbrev pub Returns : List ℕ → List ℕ → Outcome → Type 0
Returns s out (done r) = IsConsistent s out r
Returns s out threw = ⊥
Returns s out out_of_fuel = ⊥

module _ (s out : List ℕ) (small : length s < u64_mod) where
  make_room-HasRoom :
      (index : ℕ) (bytes : List ℕ) (r : Reassembler)
      → IsConsistent s out r
      → AgreesAt s index bytes
      → HasRoom s out small index (make_room index bytes r)
  unfolding make_room
  make_room-HasRoom index bytes r c a = elim (Bool-cases (ltb (empty_size r) (length bytes))) [
    | inr fits ↦ rw fits (c, a)
    | inl tight ↦
        rw tight
          (make_room_from-HasRoom s out small index bytes r r.substrs c.output c.waiting refl a)
  ]

  from_delivered-Returns :
      (o : Option Reassembler) → Gives s out small o → Returns s out (from_delivered o)
  from_delivered-Returns none g = g
  from_delivered-Returns (some r) g = g

  finish-Returns : (r : Reassembler) → IsConsistent s out r → Returns s out (finish r)
  finish-Returns r c =
      from_delivered-Returns (deliver (fuel_deliver r) r)
        (deliver-Gives s out small (fuel_deliver r) r (omega arith) c)

  keep-Returns :
      (limit : ℕ) (p : Piece) (r : Reassembler)
      → IsConsistent s out r
      → IsPiece s limit p
      → Returns s out (keep p r)
  unfolding keep store
  keep-Returns limit p r c ok =
      (elim (make_room p.index_begin p.bytes r)
          as (λ m.
            HasRoom s out small p.index_begin m
            → Returns s out (elim m [
              | refused ↦ done r
              | room_for bytes r' ↦
                  finish (store (record { eof = p.eof; bytes = bytes; index = p.index_begin }) r')
              | room_out_of_fuel ↦ out_of_fuel
            ])) [
              | refused ↦ λ h. c
              | room_for bytes r' ↦ λ h. finish-Returns _ (record {
                output = h.0.output;
                waiting =
                    Waits-store s out small
                      (record { eof = p.eof; bytes = bytes; index = p.index_begin }) r'.substrs h.1
                      h.0.waiting;
              })
              | room_out_of_fuel ↦ λ h. h
            ])
        (make_room-HasRoom p.index_begin p.bytes r c ok.agrees)

  abbrev Trimmed : ℕ → Option Piece → Type 0
  Trimmed limit none = Unit
  Trimmed limit (some p) = IsPiece s limit p

  last_index-ends :
      (begin size : ℕ)
      → begin + size ≤ length s
      → (size ≡ 0) ⊎ (last_index begin size + 1 ≡ begin + size)
  last_index-ends begin size h = elim (Bool-cases (size == 0)) [
    | inl nothing ↦ inl ((==_iff _ _).0 nothing)
    | inr some_bytes ↦ inr (ground arith)
  ]

  trim-Trimmed :
      (r : Reassembler) (bytes : List ℕ) (index : ℕ) (eof : Bool)
      → AgreesAt s index bytes
      → Trimmed (length bytes) (trim r bytes index eof)
  unfolding trim
  trim-Trimmed r bytes index eof a =
      let written : ℕ = r.output.written in
      elim (Bool-cases (leb (add64 written (remaining_capacity r.output)) index)) [
        | inl beyond ↦ rw beyond tt
        | inr inside ↦ rw inside (elim (Bool-cases (ltb index written)) [
          | inr ahead ↦ rw ahead (record {
            agrees = a;
            bounded = omega arith;
            ends = last_index-ends index (length bytes) a.fits;
          })
          | inl old ↦ rw old (elim (Bool-cases (leb (length bytes) (written - index))) [
            | inl all_old ↦ rw all_old tt
            | inr some_new ↦
                let n : ℕ = written - index in
                let at : index + n ≡ written = ground arith in
                let rest : AgreesAt s written (drop n bytes) =
                  subst (λ i. AgreesAt s i (drop n bytes)) at
                    (AgreesAt-drop s index bytes a n (ground arith)) in
                rw some_new (record {
                  agrees = rest;
                  bounded = omega (arith, length-drop n bytes);
                  ends = last_index-ends written (length (drop n bytes)) rest.fits;
                })
          ])
        ])
      ]

  Returns-bind :
      (o : Outcome) (f : Reassembler → Outcome)
      → Returns s out o
      → ((r : Reassembler) → IsConsistent s out r → Returns s out (f r))
      → Returns s out (o >>= f)
  Returns-bind (done r) f h k = k r h
  Returns-bind threw f h k = h
  Returns-bind out_of_fuel f h k = h

  push-Returns :
      (fuel : ℕ) (bytes : List ℕ) (index : ℕ) (eof : Bool) (r : Reassembler)
      → length bytes < fuel
      → AgreesAt s index bytes
      → IsConsistent s out r
      → Returns s out (push fuel bytes index eof r)
  unfolding push
  push-Returns zero bytes index eof r f a c = absurd (omega arith)
  push-Returns (suc fuel) bytes index eof r f a c =
      (elim (trim r bytes index eof)
          as (λ t.
            Trimmed (length bytes) t
            → Returns s out (elim t [
              | none ↦ done r
              | some piece ↦ elim (scan eof piece r.substrs) [
                | returned ↦ done r
                | kept p ↦ keep p r
                | cut p seg ↦ push fuel p.bytes p.index_begin p.eof r >>= λ r'.
                    push fuel seg.bytes seg.index seg.eof r'
                | scan_threw ↦ threw
              ]
            ])) [
              | none ↦ λ t. c
              | some piece ↦ λ t.
                  (elim (scan eof piece r.substrs)
                      as (λ n.
                        Scanned s (length bytes) n
                        → Returns s out (elim n [
                          | returned ↦ done r
                          | kept p ↦ keep p r
                          | cut p seg ↦ push fuel p.bytes p.index_begin p.eof r >>= λ r'.
                              push fuel seg.bytes seg.index seg.eof r'
                          | scan_threw ↦ threw
                        ])) [
                          | returned ↦ λ h. c
                          | kept p ↦ λ h. keep-Returns (length bytes) p r c h
                          | cut p seg ↦ λ h.
                              Returns-bind _ _
                                (push-Returns fuel p.bytes p.index_begin p.eof r (omega arith) h.0
                                  c)
                                (λ r' c'.
                                  push-Returns fuel seg.bytes seg.index seg.eof r' (omega arith) h.2
                                    c')
                          | scan_threw ↦ λ h. h
                        ])
                    (scan-Scanned s small (length bytes) eof piece r.substrs c.waiting t)
            ])
        (trim-Trimmed r bytes index eof a)

-- Pushing an excerpt of a stream `s` of fewer than 2^64 bytes into a reassembler that is
-- consistent with `s` returns: no `substr` throws and no loop or recursion runs on. The reassembler
-- it leaves is consistent with `s`: every waiting segment is an excerpt of `s` at its index, and the
-- output holds the bytes of `s` between the count of bytes read and the count of bytes written,
-- within its capacity.
pub push_substring-Returns :
    (s out bytes : List ℕ) (index : ℕ) (eof : Bool) (r : Reassembler)
    → length s < u64_mod
    → AgreesAt s index bytes
    → IsConsistent s out r
    → Returns s out (push_substring bytes index eof r)
unfolding push_substring
push_substring-Returns s out bytes index eof r small a c =
    push-Returns s out small (length bytes + 1) bytes index eof r (omega arith) a c
