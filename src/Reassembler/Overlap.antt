-- ===== src/Reassembler/Overlap.antt =====
-- The loop of `push_substring` over the waiting segments keeps the data an excerpt of the stream
-- at its index, and never calls `substr` past the end.
use cs144_intro2network.Prelude.{
  ℕ, ◌+◌, ◌≤◌, ◌<◌, ◌≡◌, ◌⊎◌, inl, inr, Bool, true, false, List, [], ◌∷◌, arith, length, take, drop,
  length-take, length-drop, u64_mod, subst, if◌then◌else◌, Bool-cases, ltb, leb, ◌==◌, ◌&&◌, ◌||◌,
  add64, sub64,
}
use cs144_intro2network.Prelude.Map.{Map, All}
use cs144_intro2network.Reassembler.{
  Segment, Piece, Scan, returned, kept, cut, scan_threw, last_index, scan_one, scan,
}
use cs144_intro2network.Reassembler.Slice.{AgreesAt, AgreesAt-take, AgreesAt-drop}

-- A waiting segment: its key is its index, and its bytes are the stream's.
pub record Waits (s : List ℕ) (key : ℕ) (seg : Segment) : Type 0 where
  pub keyed : key ≡ seg.index
  pub agrees : AgreesAt s seg.index seg.bytes

pub record IsPiece (s : List ℕ) (limit : ℕ) (p : Piece) : Type 0 where
  pub agrees : AgreesAt s p.index_begin p.bytes
  pub bounded : length p.bytes ≤ limit
  pub ends : (length p.bytes ≡ 0) ⊎ (p.index_end + 1 ≡ p.index_begin + length p.bytes)

-- What the loop may end in: the two halves of a cut are both shorter than the data.
abbrev pub Scanned : List ℕ → ℕ → Scan → Type 0
Scanned s limit returned = Unit
Scanned s limit (kept p) = IsPiece s limit p
Scanned s limit (cut p seg) =
    AgreesAt s p.index_begin p.bytes
    × (length p.bytes < limit)
    × AgreesAt s seg.index seg.bytes
    × (length seg.bytes < limit)
Scanned s limit scan_threw = ⊥

module _ (s : List ℕ) (small : length s < u64_mod) (limit : ℕ) (p : Piece) (cb size : ℕ)
    (fits : cb + size ≤ length s) (ok : IsPiece s limit p)
    (some_bytes : (length p.bytes == 0) ≡ false)
    (meets : (ltb p.index_end cb || ltb (last_index cb size) p.index_begin) ≡ false) where
  ends_at : p.index_end + 1 ≡ p.index_begin + length p.bytes
  ends_at = elim ok.ends [ inl e ↦ absurd (ground arith) | inr e ↦ e ]

  -- `[(])`: the front of the data is there already.
  front_kept :
      (leb cb p.index_begin && ltb (last_index cb size) p.index_end) ≡ true
      → let pos = add64 (sub64 (last_index cb size) p.index_begin) 1 in
        (ltb (length p.bytes) pos ≡ false)
        × IsPiece s limit
            (record p { bytes = drop pos p.bytes; index_begin = add64 (last_index cb size) 1 })
  front_kept t =
      let pos : ℕ = add64 (sub64 (last_index cb size) p.index_begin) 1 in
      let a = ok.agrees.fits in
      let e = ends_at in
      let le : pos ≤ length p.bytes = ground arith in
      let at : p.index_begin + pos ≡ add64 (last_index cb size) 1 = ground arith in
      let l = length-drop pos p.bytes in
      (
        ground arith,
        record {
          agrees =
              subst (λ i. AgreesAt s i (drop pos p.bytes)) at
                (AgreesAt-drop s p.index_begin p.bytes ok.agrees pos le);
          bounded = omega (arith, l, ok.bounded);
          ends = inr (omega (arith, l, le, at, e));
        },
      )

  -- `([)]`: the back of the data is there already.
  back_kept :
      (ltb p.index_begin cb && leb p.index_end (last_index cb size)) ≡ true
      → IsPiece s limit (record {
        bytes = take (add64 (sub64 (sub64 cb 1) p.index_begin) 1) p.bytes;
        index_begin = p.index_begin;
        index_end = sub64 cb 1;
        eof = false;
      })
  back_kept t =
      let n : ℕ = add64 (sub64 (sub64 cb 1) p.index_begin) 1 in
      let a = ok.agrees.fits in
      let e = ends_at in
      let le : n ≤ length p.bytes = ground arith in
      let at : sub64 cb 1 + 1 ≡ p.index_begin + n = ground arith in
      let l = length-take n p.bytes in
      record {
        agrees = AgreesAt-take s p.index_begin p.bytes ok.agrees n;
        bounded = omega (arith, l, ok.bounded);
        ends = inr (omega (arith, l, le, at));
      }

  -- `([])`: the data surrounds the segment.
  both_kept :
      (leb cb p.index_begin && leb p.index_end (last_index cb size)) ≡ false
      → (leb cb p.index_begin && ltb (last_index cb size) p.index_end) ≡ false
      → (ltb p.index_begin cb && leb p.index_end (last_index cb size)) ≡ false
      → let pos = add64 (sub64 (last_index cb size) p.index_begin) 1 in
        let n = sub64 cb p.index_begin in
        (ltb (length p.bytes) pos ≡ false)
        × (AgreesAt s p.index_begin (take n p.bytes)
            × (length (take n p.bytes) < limit)
            × AgreesAt s (add64 (last_index cb size) 1) (drop pos p.bytes)
            × (length (drop pos p.bytes) < limit))
  both_kept t u v =
      let pos : ℕ = add64 (sub64 (last_index cb size) p.index_begin) 1 in
      let n : ℕ = sub64 cb p.index_begin in
      let a = ok.agrees.fits in
      let e = ends_at in
      let le : (pos ≤ length p.bytes) × (0 < pos) = (ground arith, ground arith) in
      let lt : n < length p.bytes = ground arith in
      let at : p.index_begin + pos ≡ add64 (last_index cb size) 1 = ground arith in
      (
        ground arith,
        (
          AgreesAt-take s p.index_begin p.bytes ok.agrees n,
          omega (arith, length-take n p.bytes, lt, ok.bounded),
          subst (λ i. AgreesAt s i (drop pos p.bytes)) at
              (AgreesAt-drop s p.index_begin p.bytes ok.agrees pos le.0),
          omega (arith, length-drop pos p.bytes, le, ok.bounded),
        ),
      )

module _ (s : List ℕ) (small : length s < u64_mod) (limit : ℕ) where
  scan_one-Scanned :
      (eof : Bool) (p : Piece) (cb size : ℕ) (rest : Piece → Scan)
      → cb + size ≤ length s
      → IsPiece s limit p
      → ((q : Piece) → IsPiece s limit q → Scanned s limit (rest q))
      → Scanned s limit (scan_one eof p cb (last_index cb size) rest)
  scan_one-Scanned eof p cb size rest fits ok next = elim (Bool-cases (length p.bytes == 0)) [
    | inl nothing ↦ rw nothing (no_bytes eof)
    | inr some_bytes ↦ rw some_bytes (elim (Bool-cases apart) [
      | inl e ↦ rw e (next p ok)
      | inr meets ↦ rw meets (elim (Bool-cases inside) [
        | inl e ↦ rw e tt
        | inr out ↦ rw out (elim (Bool-cases front) [
          | inl e ↦
              let (no_throw, trimmed) =
                front_kept s small limit p cb size fits ok some_bytes meets e in
              rw (e, no_throw) (next _ trimmed)
          | inr not_front ↦ rw not_front (elim (Bool-cases back) [
            | inl e ↦ rw e (next _ (back_kept s small limit p cb size fits ok some_bytes meets e))
            | inr not_back ↦
                let (no_throw, halves) =
                  both_kept s small limit p cb size fits ok some_bytes meets out not_front
                    not_back in
                rw (not_back, no_throw) halves
          ])
        ])
      ])
    ])
  ]
    where
      ce : ℕ
      ce = last_index cb size

      apart : Bool
      apart = ltb p.index_end cb || ltb ce p.index_begin

      inside : Bool
      inside = leb cb p.index_begin && leb p.index_end ce

      front : Bool
      front = leb cb p.index_begin && ltb ce p.index_end

      back : Bool
      back = ltb p.index_begin cb && leb p.index_end ce

      no_bytes : (b : Bool) → Scanned s limit (if b then kept p else returned)
      no_bytes true = ok
      no_bytes false = tt

  -- Every way the loop ends is well formed; it does not throw.
  pub scan-Scanned :
      (eof : Bool) (p : Piece) (segs : Map Segment)
      → All (Waits s) segs
      → IsPiece s limit p
      → Scanned s limit (scan eof p segs)
  unfolding scan
  scan-Scanned eof p [] w ok = ok
  scan-Scanned eof p ((key, curr) ∷ segs) w ok =
      scan_one-Scanned eof p curr.index (length curr.bytes) (λ q. scan eof q segs) w.0.agrees.fits
        ok (λ q. scan-Scanned eof q segs w.1)
