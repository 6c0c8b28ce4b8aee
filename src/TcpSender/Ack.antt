-- ===== src/TcpSender/Ack.antt =====
-- Which number `ack_received` of `TCPSender` takes an acknowledgement for.
use cs144_intro2network.Prelude.{
  [], ◌∷◌, leb, sub64, add64, ℕ, ◌+◌, ◌-◌, ◌*◌, ◌≤◌, ◌<◌, ◌≡◌, refl, Option, none, some, arith,
  u32_mod, u64_mod, ltb, if◌then◌else◌, Bool-cases, inl, inr, true, false,
}
use cs144_intro2network.Prelude.Map.{Map}
use cs144_intro2network.Wire.TcpSegment.{TcpSegment, length_in_sequence_space}
use cs144_intro2network.Wrapping.{wrap, add, unwrap}
use cs144_intro2network.Wrapping.Closest.{IsClosest, unwrap-IsClosest}
use cs144_intro2network.TcpSender.{TcpSender, ack_absolute, drop_acked}

-- The number taken is the latest that was sent and that wraps to the acknowledgement; `none`
-- where no number up to the next one to send does.
abbrev pub Latest : ℕ → TcpSender → Option ℕ → Type 0
Latest ackno s none = (m : ℕ) → wrap m s.isn ≡ ackno → s.next_seqno < m
Latest ackno s (some a) =
    (a ≤ s.next_seqno)
    × (wrap a s.isn ≡ ackno)
    × ((m : ℕ) → wrap m s.isn ≡ ackno → m ≤ s.next_seqno → m ≤ a)

-- Numbers with the same wrapped form are the same, or 2^32 or more apart.
apart : (m a isn n : ℕ) → isn < u32_mod → wrap m isn ≡ n → wrap a isn ≡ n → m < a → m + u32_mod ≤ a
unfolding wrap add
apart m a isn n hi p q lt = omega arith

wrap-period : (a isn n : ℕ) → u32_mod ≤ a → wrap a isn ≡ n → wrap (a - u32_mod) isn ≡ n
unfolding wrap add
wrap-period a isn n le p = omega arith

nearest-Latest :
    (ackno a : ℕ) (s : TcpSender)
    → s.isn < u32_mod
    → IsClosest ackno s.isn s.next_seqno a
    → Latest ackno s (
        if ltb s.next_seqno a then (if ltb a u32_mod then none else some (a - u32_mod)) else some a)
nearest-Latest ackno a s hi c = elim (Bool-cases (ltb s.next_seqno a)) [
  | inr sent ↦
      rw sent
        (ground (arith, sent), c.hit, (λ m p le. let n = c.near m p in ground (arith, n, sent)))
  | inl ahead ↦ elim (Bool-cases (ltb a u32_mod)) [
    | inl small ↦
        rw (ahead, small)
          (λ m p. let back = apart m a s.isn ackno hi p c.hit in ground (arith, back, ahead, small))
    | inr large ↦
        let le : u32_mod ≤ a = ground (arith, large) in
        let p = wrap-period a s.isn ackno le c.hit in
        let n = c.near (a - u32_mod) p in
        rw (ahead, large)
          (
            ground (arith, n, ahead, le),
            p,
            (λ m q sent.
                let back = apart m a s.isn ackno hi q c.hit in ground (arith, back, ahead)),
          )
  ]
]

-- For raw numbers, and a next number at least 2^34 below 2^64, an acknowledgement is taken for the
-- latest number up to the next one to send that wraps to it, and refused exactly if there is none.
pub ack_absolute-Latest :
    (ackno : ℕ) (s : TcpSender)
    → ackno < u32_mod
    → s.isn < u32_mod
    → s.next_seqno + 4 * u32_mod ≤ u64_mod
    → Latest ackno s (ack_absolute ackno s)
unfolding ack_absolute
ack_absolute-Latest ackno s ha hi small =
    nearest-Latest ackno (unwrap ackno s.isn s.next_seqno) s hi
      (unwrap-IsClosest ackno s.isn s.next_seqno ha hi small).1

-- The outstanding segments follow each other in sequence space, from a number on, and each takes up
-- a number at least.
abbrev pub Chained : ℕ → Map TcpSegment → Type 0
Chained from [] = Unit
Chained from ((key, seg) ∷ segs) =
    (from ≤ key)
    × (0 < length_in_sequence_space seg)
    × (key + length_in_sequence_space seg < u64_mod)
    × Chained (key + length_in_sequence_space seg) segs

-- The segments with a number that is not acknowledged.
abbrev pub unacked : ℕ → Map TcpSegment → Map TcpSegment
unacked ack [] = []
unacked ack ((key, seg) ∷ segs) =
    if leb (key + length_in_sequence_space seg) ack
    then unacked ack segs
    else (key, seg) ∷ unacked ack segs

unacked_all :
    (ack from : ℕ) (segs : Map TcpSegment)
    → ack ≤ from
    → Chained from segs
    → unacked ack segs ≡ segs
unacked_all ack from [] le c = refl
unacked_all ack from ((key, seg) ∷ segs) le (order, some_length, fits, rest) =
    let ih = unacked_all ack (key + length_in_sequence_space seg) segs (omega arith) rest in
    let kept : leb (key + length_in_sequence_space seg) ack ≡ false = ground arith in
    rw (kept, ih) refl

-- For outstanding segments that follow each other below 2^64, each with a number at least, the loop of `ack_received`, which stops early,
-- drops exactly those of which every number is acknowledged.
pub drop_acked-unacked :
    (ack from : ℕ) (segs : Map TcpSegment)
    → Chained from segs
    → drop_acked ack segs ≡ unacked ack segs
unfolding drop_acked
drop_acked-unacked ack from [] c = refl
drop_acked-unacked ack from ((key, seg) ∷ segs) (order, some_length, fits, rest) =
    let ih = drop_acked-unacked ack (key + length_in_sequence_space seg) segs rest in
    let last : sub64 (add64 (length_in_sequence_space seg) key) 1
        ≡ key + length_in_sequence_space seg - 1 =
      omega arith in
    elim (Bool-cases (leb (key + length_in_sequence_space seg) ack)) [
      | inl all ↦
          let old : ltb (key + length_in_sequence_space seg - 1) ack ≡ true = ground (arith, all) in
          rw (last, old, all) ih
      | inr part ↦
          let new : ltb (key + length_in_sequence_space seg - 1) ack ≡ false =
            ground (arith, part) in
          elim (Bool-cases (leb ack key)) [
            | inl before_key ↦
                let same =
                  unacked_all ack (key + length_in_sequence_space seg) segs
                    (ground (arith, before_key)) rest in
                rw (last, new, part, before_key, same) refl
            | inr past_key ↦ rw (last, new, part, past_key, ih) refl
          ]
    ]
