-- ===== src/Wire/Checksum/Verify.antt =====
-- The Internet checksum verifies: data summed with its own checksum gives the value zero.
use cs144_intro2network.Prelude.{
  ℕ, ◌+◌, ◌/◌, ◌%◌, ◌≤◌, ◌<◌, ◌≡◌, refl, inl, inr, some, none, Option, arith, Bool-cases, ltb,
  u16_mod, u32_mod, add32, false,
}
use cs144_intro2network.Wire.Checksum.{InternetChecksum, fold, value, complement}

-- What the loop of `value` computes: the sum modulo 2^16 - 1, where a positive sum never gives 0.
abbrev Folded : ℕ → Option ℕ → Type 0
Folded sum none = ⊥
Folded sum (some r) = (r < u16_mod) × (r % 0xffff ≡ sum % 0xffff) × (0 < sum → 0 < r) × (r ≤ sum)

fold-Folded : (sum : ℕ) → sum < u32_mod → Folded sum (fold 3 sum)
unfolding fold
fold-Folded sum h = elim (Bool-cases (ltb 0xffff sum)) [
  | inr small ↦ rw small (ground arith, refl, λ p. p, omega arith)
  | inl big ↦
      let s1 : ℕ = add32 (sum / u16_mod) (sum % u16_mod) in
      rw big (elim (Bool-cases (ltb 0xffff s1)) [
        | inr small1 ↦ rw small1 (ground arith, ground arith, (λ p. ground arith), ground arith)
        | inl big1 ↦
            let s2 : ℕ = add32 (s1 / u16_mod) (s1 % u16_mod) in
            let small2 : ltb 0xffff s2 ≡ false = ground arith in
            rw (big1, small2) (ground arith, ground arith, (λ p. ground arith), ground arith)
      ])
]

verifies :
    (sum : ℕ) (a b : Option ℕ) → Folded sum a → Folded (sum + complement a) b → complement b ≡ 0
verifies sum none b x y = absurd x
verifies sum (some r) none x y = absurd y
verifies sum (some r) (some q) (x0, x1, x2, x3) (y0, y1, y2, y3) =
    let pos : 0 < q = y2 (omega arith) in omega arith

-- The loop of `value` ends within its fuel, and adding a checksum to the sum it was computed from
-- gives a sum whose value is zero, as long as the sum and 0xffff together stay
-- below 2^32.
pub value_verifies :
    (c : InternetChecksum)
    → c.sum + 0xffff < u32_mod
    → ((r : ℕ) × (fold 3 c.sum ≡ some r)) × (value (record c { sum = c.sum + value c }) ≡ 0)
unfolding value
value_verifies c h = (
  total (fold 3 c.sum) (fold-Folded c.sum (omega arith)),
  verifies c.sum (fold 3 c.sum) (fold 3 (c.sum + complement (fold 3 c.sum)))
      (fold-Folded c.sum (omega arith))
      (fold-Folded (c.sum + complement (fold 3 c.sum)) (bound (fold 3 c.sum))),
)
  where
    total : (o : Option ℕ) → Folded c.sum o → (r : ℕ) × (o ≡ some r)
    total none f = absurd f
    total (some r) f = (r, refl)

    bound : (o : Option ℕ) → c.sum + complement o < u32_mod
    bound none = omega arith
    bound (some r) = omega arith
