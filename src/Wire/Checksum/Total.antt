-- ===== src/Wire/Checksum/Total.antt =====
-- The sum of `InternetChecksum` without the wrap-around.
use cs144_intro2network.Prelude.{
  ℕ, List, [], ◌∷◌, refl, Bool, true, false, ◌≡◌, ◌<◌, ◌+◌, if◌then◌else◌, ◌++◌, ◌≤◌, replicate,
  add32, none, some, Option, zero, ◌*◌, u32_mod, not, suc, arith, length, Option, ap, some,
}
use cs144_intro2network.Wire.Checksum.{InternetChecksum, add, value, complement, fold, fuel_fold}

abbrev pub worth : Bool → ℕ → ℕ
worth parity byte = if parity then byte else byte * 256

abbrev pub total : Bool → List ℕ → ℕ
total parity [] = 0
total parity (byte ∷ rest) = worth parity byte + total (not parity) rest

abbrev pub AreBytes : List ℕ → Type 0
AreBytes [] = Unit
AreBytes (byte ∷ rest) = (byte < 256) × AreBytes rest

pub total-le :
    (parity : Bool) (bytes : List ℕ) → AreBytes bytes → total parity bytes ≤ 65280 * length bytes
total-le parity [] h = omega arith
total-le true (byte ∷ rest) h = omega (arith, total-le false rest h.1)
total-le false (byte ∷ rest) h = omega (arith, total-le true rest h.1)

-- A sum that stays below 2^32 is the total.
pub sum-add :
    (sum : ℕ) (parity : Bool) (bytes : List ℕ)
    → sum + total parity bytes < u32_mod
    → (add (record { sum = sum; parity = parity }) bytes).sum ≡ sum + total parity bytes
unfolding add
sum-add sum parity [] h = omega arith
sum-add sum parity (byte ∷ rest) h =
    let e : add32 sum (worth parity byte) ≡ sum + worth parity byte = omega (arith, h) in
    rw (add, e)
      (omega (arith, sum-add (sum + worth parity byte) (not parity) rest (omega (arith, h))))

pub add-append : (c : InternetChecksum) (xs ys : List ℕ) → add (add c xs) ys ≡ add c (xs ++ ys)
unfolding add
add-append c [] ys = refl
add-append c (x ∷ xs) ys =
    add-append
      (record { sum = add32 c.sum (if c.parity then x else x * 256); parity = not c.parity }) xs ys

pub AreBytes-append : (xs ys : List ℕ) → AreBytes xs → AreBytes ys → AreBytes (xs ++ ys)
AreBytes-append [] ys hx hy = hy
AreBytes-append (x ∷ xs) ys hx hy = (hx.0, AreBytes-append xs ys hx.1 hy)

pub AreBytes-replicate : (n : ℕ) → AreBytes (replicate n 0)
AreBytes-replicate zero = tt
AreBytes-replicate (suc n) = (omega arith, AreBytes-replicate n)

abbrev pub after : Bool → List ℕ → Bool
after parity [] = parity
after parity (byte ∷ rest) = after (not parity) rest

pub total-append :
    (parity : Bool) (xs ys : List ℕ)
    → total parity (xs ++ ys) ≡ total parity xs + total (after parity xs) ys
total-append parity [] ys = omega arith
total-append parity (x ∷ xs) ys = omega (arith, total-append (not parity) xs ys)

pub value_lt : (c : InternetChecksum) → value c < 65536
unfolding value
value_lt c = complement_lt (fold fuel_fold c.sum)
  where
    complement_lt : (o : Option ℕ) → complement o < 65536
    complement_lt none = omega arith
    complement_lt (some r) = omega arith

-- Only the sum counts for the value.
pub value-sum : (c e : InternetChecksum) → c.sum ≡ e.sum → value c ≡ value e
unfolding value
value-sum c e h = ap (λ s. complement (fold fuel_fold s)) h
