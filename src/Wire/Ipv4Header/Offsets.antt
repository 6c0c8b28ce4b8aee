-- ===== src/Wire/Ipv4Header/Offsets.antt =====
-- The packed bytes of an IPv4 header: version and header length, and flags and offset.
use Prim.Native.Nat.{bit_or, digits, bit_or-bitwise}
use cs144_intro2network.Prelude.{
  ℕ, zero, suc, ◌≡◌, refl, ◌≤◌, ◌<◌, ◌*◌, ◌+◌, ◌/◌, ◌%◌, ◌^◌, max, arith, Bool, true, false, subst,
}
use cs144_intro2network.Wire.TcpHeader.{has_bit, bit}

-- `bit_or` one binary digit at a time.
abbrev or_digits : ℕ → ℕ → ℕ → ℕ
or_digits n a b = digits (λ b. b) max n a b

or_digits_fuel : (n m a b : ℕ) → a ≤ n → a ≤ m → or_digits n a b ≡ or_digits m a b
or_digits_fuel zero zero a b p q = refl
or_digits_fuel zero (suc m) zero b p q = refl
or_digits_fuel zero (suc m) (suc a) b p q = absurd (omega arith)
or_digits_fuel (suc n) zero zero b p q = refl
or_digits_fuel (suc n) zero (suc a) b p q = absurd (omega arith)
or_digits_fuel (suc n) (suc m) zero b p q = refl
or_digits_fuel (suc n) (suc m) (suc a) b p q =
    omega (arith, or_digits_fuel n m (suc a / 2) (b / 2) (omega arith) (omega arith))

zero-bit_or : (b : ℕ) → bit_or 0 b ≡ b
zero-bit_or b = bit_or-bitwise 0 b

bit_or_step : (a b : ℕ) → bit_or a b ≡ bit_or (a / 2) (b / 2) * 2 + max (a % 2) (b % 2)
bit_or_step zero b = omega (arith, zero-bit_or b, zero-bit_or (b / 2))
bit_or_step (suc a) b = omega (
  arith,
  bit_or-bitwise (suc a) b,
  bit_or-bitwise (suc a / 2) (b / 2),
  or_digits_fuel a (suc a / 2) (suc a / 2) (b / 2) (omega arith) (omega arith),
)

bit_or-zero_fuel : (n a : ℕ) → a ≤ n → bit_or a 0 ≡ a
bit_or-zero_fuel n zero h = refl
bit_or-zero_fuel zero (suc a) h = absurd (omega arith)
bit_or-zero_fuel (suc n) (suc a) h =
    omega (arith, bit_or_step (suc a) 0, bit_or-zero_fuel n (suc a / 2) (omega arith))

abbrev double : ℕ → ℕ → ℕ
double zero t = t
double (suc n) t = double n t * 2

halved-double : (n t : ℕ) → double (suc n) t / 2 ≡ double n t
halved-double n t = omega arith

-- Below the lowest digit of one of them, `bit_or` adds.
pub bit_or_add : (n k x : ℕ) → x < double n 1 → bit_or (double n k) x ≡ double n k + x
bit_or_add zero k x h =
    let e : x ≡ 0 = omega (arith, h) in rw e (omega (arith, bit_or-zero_fuel k k (omega arith)))
bit_or_add (suc n) k x h =
    let step : bit_or (double n k * 2) x
        ≡ bit_or (double n k) (x / 2) * 2 + max (double n k * 2 % 2) (x % 2) =
      subst
        (λ t. bit_or (double n k * 2) x ≡ bit_or t (x / 2) * 2 + max (double n k * 2 % 2) (x % 2))
        (halved-double n k) (bit_or_step (double n k * 2) x) in
    omega (arith, step, bit_or_add n k (x / 2) (omega (arith, h)))

-- The first byte, for version 4.
pub first_byte :
    (hlen : ℕ)
    → hlen < 16
    → (bit_or (4 * 16) (hlen % 16) < 256)
      × (bit_or (4 * 16) (hlen % 16) / 16 ≡ 4)
      × (bit_or (4 * 16) (hlen % 16) % 16 ≡ hlen)
first_byte hlen h =
    let e : bit_or 64 (hlen % 16) ≡ 64 + hlen % 16 = bit_or_add 4 4 (hlen % 16) (omega arith) in
    (omega (arith, e), omega (arith, e), omega (arith, e))

-- The flags and the offset, read back.
abbrev pub Read : Bool → Bool → ℕ → ℕ → Type 0
Read df mf offset v =
    (v < 2 ^ 16) × (has_bit v 0x4000 ≡ df) × (has_bit v 0x2000 ≡ mf) × (v % 0x2000 ≡ offset)

fo_val_add :
    (k offset : ℕ) → offset < 2 ^ 13 → bit_or (double 13 k) (offset % 0x2000) ≡ double 13 k + offset
fo_val_add k offset h = omega (arith, bit_or_add 13 k (offset % 0x2000) (omega arith))

pub fo_val-Read :
    (df mf : Bool) (offset : ℕ)
    → offset < 2 ^ 13
    → Read df mf offset (bit_or (bit_or (bit df 0x4000) (bit mf 0x2000)) (offset % 0x2000))
fo_val-Read true true offset h =
    let e = fo_val_add 3 offset h in
    (omega (arith, e), ground (arith, e), ground (arith, e), omega (arith, e))
fo_val-Read true false offset h =
    let e = fo_val_add 2 offset h in
    (omega (arith, e), ground (arith, e), ground (arith, e), omega (arith, e))
fo_val-Read false true offset h =
    let e = fo_val_add 1 offset h in
    (omega (arith, e), ground (arith, e), ground (arith, e), omega (arith, e))
fo_val-Read false false offset h =
    let e = fo_val_add 0 offset h in
    (omega (arith, e), ground (arith, e), ground (arith, e), omega (arith, e))
