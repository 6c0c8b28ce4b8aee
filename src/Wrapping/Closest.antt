-- ===== src/Wrapping/Closest.antt =====
-- `unwrap` of wrapping_integers.cc finds the number nearest to the checkpoint.
use cs144_intro2network.Prelude.{
  ℕ, zero, suc, ◌+◌, ◌-◌, ◌*◌, ◌/◌, ◌%◌, ◌≤◌, ◌<◌, ◌≡◌, refl, some, none, subst, arith, ap, ◌^◌,
  ltb, u32_mod, u64_mod, sub64, Option, ◌∙◌, Bool-cases, inl, inr, true, false, ltb→lt,
}
use cs144_intro2network.Wrapping.{wrap, found, dist, curr_val, init_k, unwrap_from, unwrap?, unwrap}

-- The numbers that wrap to `n` are `candidate n isn k` for each `k`.
abbrev offset : ℕ → ℕ → ℕ
offset n isn = (n + u32_mod - isn) % u32_mod

abbrev candidate : ℕ → ℕ → ℕ → ℕ
candidate n isn k = k * u32_mod + offset n isn

curr_val-candidate :
    (n isn k : ℕ)
    → n < u32_mod
    → isn < u32_mod
    → (k + 2) * u32_mod ≤ u64_mod
    → curr_val n isn k ≡ candidate n isn k
curr_val-candidate n isn k hn hi hk = ground arith

wrap-candidate : (n isn k : ℕ) → n < u32_mod → isn < u32_mod → wrap (candidate n isn k) isn ≡ n
unfolding wrap
wrap-candidate n isn k hn hi = omega arith

candidate-of-wrap :
    (n isn m : ℕ) → isn < u32_mod → wrap m isn ≡ n → m ≡ candidate n isn (m / u32_mod)
unfolding wrap
candidate-of-wrap n isn m hi h = omega arith

-- `r` wraps to `n`, and no other number that does is nearer to the checkpoint.
pub record IsClosest (n isn checkpoint r : ℕ) : Type 0 where
  pub hit : wrap r isn ≡ n
  pub near : (m : ℕ) → wrap m isn ≡ n → dist r checkpoint ≤ dist m checkpoint

module _ (n isn c : ℕ) (hn : n < u32_mod) (hi : isn < u32_mod)
    (hc : c + 4 * u32_mod ≤ u64_mod) where
  step_stop :
      (fuel k md : ℕ)
      → k ≤ c / u32_mod + 2
      → ltb (dist (candidate n isn k) c) md ≡ false
      → unwrap_from (suc fuel) n isn c k md ≡ some (sub64 (candidate n isn k) u32_mod)
  unfolding unwrap_from
  step_stop fuel k md hk e =
      let lt : ltb k (u64_mod - 1) ≡ true = ground arith in
      let v : curr_val n isn k ≡ candidate n isn k =
        curr_val-candidate n isn k hn hi (omega arith) in
      rw (lt, v, e)

  step_on :
      (fuel k md : ℕ)
      → k ≤ c / u32_mod + 2
      → ltb (dist (candidate n isn k) c) md ≡ true
      → unwrap_from (suc fuel) n isn c k md
        ≡ unwrap_from fuel n isn c (suc k) (dist (candidate n isn k) c)
  unfolding unwrap_from
  step_on fuel k md hk e =
      let lt : ltb k (u64_mod - 1) ≡ true = ground arith in
      let v : curr_val n isn k ≡ candidate n isn k =
        curr_val-candidate n isn k hn hi (omega arith) in
      let s : (k + 1) % u64_mod ≡ suc k = omega arith in rw (lt, v, e, s)

  -- Once the distance stops falling it never falls again.
  stop_near :
      (k j : ℕ)
      → ltb (dist (candidate n isn (suc k)) c) (dist (candidate n isn k) c) ≡ false
      → k < j
      → dist (candidate n isn k) c ≤ dist (candidate n isn j) c
  stop_near k j stop h = ground arith

  on_best :
      (k : ℕ)
      → ltb (dist (candidate n isn (suc k)) c) (dist (candidate n isn k) c) ≡ true
      → ((j : ℕ) → j ≤ k → dist (candidate n isn k) c ≤ dist (candidate n isn j) c)
      → (j : ℕ) → j ≤ suc k
      → dist (candidate n isn (suc k)) c ≤ dist (candidate n isn j) c
  on_best k on best j h = elim (Bool-cases (ltb j (suc k))) [
    | inl lt ↦ let a = ltb→lt _ _ on in let b = best j (ground arith) in omega (arith, a, b)
    | inr ge ↦ let e : j ≡ suc k = ground arith in rw e (omega arith)
  ]

  on_bound :
      (k : ℕ)
      → ltb (dist (candidate n isn (suc k)) c) (dist (candidate n isn k) c) ≡ true
      → k ≤ c / u32_mod
  on_bound k on = ground arith

  stop-IsClosest :
      (k : ℕ)
      → ltb (dist (candidate n isn (suc k)) c) (dist (candidate n isn k) c) ≡ false
      → ((j : ℕ) → j ≤ k → dist (candidate n isn k) c ≤ dist (candidate n isn j) c)
      → IsClosest n isn c (candidate n isn k)
  stop-IsClosest k stop best = record {
    hit = wrap-candidate n isn k hn hi;
    near = λ m h. rw (candidate-of-wrap n isn m hi h) (elim (Bool-cases (ltb k (m / u32_mod))) [
      | inl gt ↦ stop_near k (m / u32_mod) stop (ltb→lt _ _ gt)
      | inr le ↦ best (m / u32_mod) (ground arith)
    ]);
  }

  -- Past the first round: the candidate of the last round is the best so far.
  loop :
      (fuel k : ℕ)
      → c / u32_mod + 2 ≤ k + fuel
      → k ≤ c / u32_mod + 1
      → ((j : ℕ) → j ≤ k → dist (candidate n isn k) c ≤ dist (candidate n isn j) c)
      → (r : ℕ) × (unwrap_from (suc fuel) n isn c (suc k) (dist (candidate n isn k) c) ≡ some r)
        × IsClosest n isn c r
  loop zero k hf hk best = absurd (omega arith)
  loop (suc fuel) k hf hk best =
      elim (Bool-cases (ltb (dist (candidate n isn (suc k)) c) (dist (candidate n isn k) c))) [
        | inl on ↦
            rw (step_on (suc fuel) (suc k) (dist (candidate n isn k) c) (omega arith) on)
              (loop fuel (suc k) (omega arith) (omega (arith, on_bound k on)) (on_best k on best))
        | inr stop ↦ (
          candidate n isn k,
          step_stop (suc fuel) (suc k) (dist (candidate n isn k) c) (omega arith) stop
              ∙ ap some (omega arith),
          stop-IsClosest k stop best,
        )
      ]

  first_on : (k : ℕ) → k ≤ c / u32_mod → ltb (dist (candidate n isn k) c) (u64_mod - 1) ≡ true
  first_on k h = ground arith

  init_best :
      (j : ℕ) → j ≤ init_k c → dist (candidate n isn (init_k c)) c ≤ dist (candidate n isn j) c
  init_best j h = ground arith

  init_range : (init_k c ≤ c / u32_mod) × (c / u32_mod ≤ init_k c + 1)
  init_range = ground arith

  unwrap?_total : (r : ℕ) × (unwrap? n isn c ≡ some r) × IsClosest n isn c r
  unfolding unwrap?
  unwrap?_total =
      rw
        (step_on 4 (init_k c) (u64_mod - 1) (omega (arith, init_range))
          (first_on (init_k c) init_range.0))
        (loop 3 (init_k c) (omega (arith, init_range)) (omega (arith, init_range)) init_best)

  unwrap_lem : (unwrap? n isn c ≡ some (unwrap n isn c)) × IsClosest n isn c (unwrap n isn c)
  unfolding unwrap
  unwrap_lem = let (r, e, h) = unwrap?_total in pick (unwrap? n isn c) r e h
    where
      pick :
          (o : Option ℕ) (r : ℕ)
          → o ≡ some r
          → IsClosest n isn c r
          → (o ≡ some (found o)) × IsClosest n isn c (found o)
      pick none r e h = cc
      pick (some x) r e h = let p : r ≡ x = cc in (refl, subst (IsClosest n isn c) p h)

-- For raw values and a checkpoint at least 2^34 below 2^64 the loop ends within its fuel, and
-- its result wraps to `n` and is at least as near to the checkpoint as any number that does.
pub unwrap-IsClosest :
    (n isn checkpoint : ℕ)
    → n < u32_mod
    → isn < u32_mod
    → checkpoint + 4 * u32_mod ≤ u64_mod
    → (unwrap? n isn checkpoint ≡ some (unwrap n isn checkpoint))
      × IsClosest n isn checkpoint (unwrap n isn checkpoint)
unwrap-IsClosest n isn checkpoint hn hi hc = unwrap_lem n isn checkpoint hn hi hc

-- A number less than 2^31 away from the checkpoint survives `wrap` followed by `unwrap`, for an
-- initial number below 2^32 and a checkpoint at least 2^34 below 2^64.
pub unwrap-wrap :
    (m isn checkpoint : ℕ)
    → isn < u32_mod
    → checkpoint + 4 * u32_mod ≤ u64_mod
    → dist m checkpoint < 2 ^ 31
    → unwrap (wrap m isn) isn checkpoint ≡ m
unwrap-wrap m isn c hi hc near =
    let lt : wrap m isn < u32_mod = unfold wrap in omega arith in
    let closest = unwrap_lem (wrap m isn) isn c lt hi hc in
    let d = closest.1.near m refl in
    let a = candidate-of-wrap (wrap m isn) isn m hi refl in
    let b = candidate-of-wrap (wrap m isn) isn (unwrap (wrap m isn) isn c) hi closest.1.hit in
    ground (arith, d, a, b)
