-- ===== src/Router/Match.antt =====
-- `match` of the router compares the leading bits.
use native.Mathlib.Nat.{div-div-eq-div-mul, two-pow-succ, one-le-pow}
use cs144_intro2network.Prelude.{
  ℕ, zero, suc, inl, inr, refl, Bool-cases, ◌<◌, ◌≡◌, ◌^◌, ◌/◌, ◌+◌, ◌*◌, u32_mod, ◌==◌, ◌⊎◌, ◌≤◌,
  arith, true, ◌∙◌, ◌↔◌, sym, ap, ◌%◌, ◌-◌, ==_iff, false, subst,
}
use cs144_intro2network.Router.{and_bit, match_from, matches}

-- The next bit below those that agree.
halves : (x m h : ℕ) → h ≡ 2 * m → x / h ≡ x / m / 2
halves x m h e = let d : h ≡ m * 2 = omega (arith, e) in rw d (sym (div-div-eq-div-mul x m 2))

pow_up : (n j : ℕ) → 2 ^ (suc n + j) ≡ 2 * 2 ^ (n + j)
pow_up n j =
    let e : suc n + j ≡ suc (n + j) = omega arith in rw e (omega (arith, two-pow-succ (n + j)))

same_digit : (a b m : ℕ) → a < 2 → b < 2 → 0 < m → a * m ≡ b * m → a ≡ b
same_digit zero zero m ha hb pos e = refl
same_digit zero (suc b) m ha hb pos e =
    let z : b ≡ 0 = omega arith in absurd (omega (arith, ap (λ (k : ℕ). suc k * m) z, e))
same_digit (suc a) zero m ha hb pos e =
    let z : a ≡ 0 = omega arith in absurd (omega (arith, ap (λ (k : ℕ). suc k * m) z, e))
same_digit (suc a) (suc b) m ha hb pos e = omega arith

same_bit : (x y m : ℕ) → 0 < m → (and_bit x m == and_bit y m) ≡ true → x / m % 2 ≡ y / m % 2
same_bit x y m pos e =
    same_digit (x / m % 2) (y / m % 2) m (omega arith) (omega arith) pos
      ((==_iff (and_bit x m) (and_bit y m)).0 e)

-- Numbers with equal leading bits have equal bits above these too.
fewer : (n j x y : ℕ) → x / 2 ^ j ≡ y / 2 ^ j → x / 2 ^ (n + j) ≡ y / 2 ^ (n + j)
fewer zero j x y e = let z : zero + j ≡ j = omega arith in rw z e
fewer (suc n) j x y e =
    halves x (2 ^ (n + j)) _ (pow_up n j)
    ∙ ap (λ k. k / 2) (fewer n j x y e)
    ∙ sym (halves y (2 ^ (n + j)) _ (pow_up n j))

-- With the bits above the mask equal, the rounds left compare the bits from the mask on.
match_from_iff :
    (n j m x y : ℕ)
    → (n ≡ 0) ⊎ (2 * m ≡ 2 ^ (n + j))
    → x / 2 ^ (n + j) ≡ y / 2 ^ (n + j)
    → (match_from n x y m ≡ true) ↔ (x / 2 ^ j ≡ y / 2 ^ j)
unfolding match_from
match_from_iff zero j m x y mask above =
    let z : zero + j ≡ j = omega arith in ((λ _. rw z at above), (λ _. refl))
match_from_iff (suc n) j m x y (inl none_left) above = absurd (omega arith)
match_from_iff (suc n) j m x y (inr mask) above =
    let at : m ≡ 2 ^ (n + j) = omega (arith, pow_up n j, mask) in
    let pos : 0 < m = omega (arith, one-le-pow (n + j) 2) in
    elim (Bool-cases (and_bit x m == and_bit y m)) [
      | inl same ↦
          let bit = same_bit x y m pos same in
          let hx = halves x m (2 ^ (suc n + j)) (sym mask) in
          let hy = halves y m (2 ^ (suc n + j)) (sym mask) in
          let next : x / m ≡ y / m = omega (arith, bit, hx, hy, above) in
          rw same (match_from_iff n j (m / 2) x y (half n at) (subst (λ k. x / k ≡ y / k) at next))
      | inr differ ↦ rw differ (
        (λ h. cc),
        (λ e. absurd (apart differ (subst (λ k. x / k ≡ y / k) (sym at) (fewer n j x y e)))),
      )
    ]
  where
    half : (n : ℕ) → m ≡ 2 ^ (n + j) → (n ≡ 0) ⊎ (2 * (m / 2) ≡ 2 ^ (n + j))
    half zero at = inl refl
    half (suc n) at = inr (omega (arith, at, pow_up n j))

    apart : (and_bit x m == and_bit y m) ≡ false → x / m ≡ y / m → ⊥
    apart differ e =
        let bits : and_bit x m ≡ and_bit y m = ap (λ k. k % 2 * m) e in
        cc (differ, (==_iff (and_bit x m) (and_bit y m)).1 bits)

-- For 32-bit addresses and a prefix of at most 32 bits, a destination matches an entry exactly if
-- their leading `pre_len` bits are the same number.
pub matches_iff :
    (dst entry_dst pre_len : ℕ)
    → dst < u32_mod
    → entry_dst < u32_mod
    → pre_len ≤ 32
    → (matches dst entry_dst pre_len ≡ true)
      ↔ (dst / 2 ^ (32 - pre_len) ≡ entry_dst / 2 ^ (32 - pre_len))
unfolding matches
matches_iff dst entry_dst pre_len hd he le =
    let all : pre_len + (32 - pre_len) ≡ 32 = omega arith in
    match_from_iff pre_len (32 - pre_len) (2 ^ 31) dst entry_dst (inr (rw all refl))
      (rw all (omega arith))
