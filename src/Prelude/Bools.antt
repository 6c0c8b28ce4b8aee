-- ===== src/Prelude/Bools.antt =====
-- Booleans that a test over all their values decides.
use mathlib.Core.Bool.{Bool, true, false, not, ◌&&◌}
use mathlib.Core.Path.{◌≡◌, refl, sym}

pub &&-split : (a b : Bool) → (a && b) ≡ true → (a ≡ true) × (b ≡ true)
&&-split true b h = (refl, h)
&&-split false true h = (h, refl)
&&-split false false h = (h, h)

unfoldable pub both : (Bool → Bool) → Bool
both p = p true && p false

pub both_sound : (p : Bool → Bool) → both p ≡ true → (b : Bool) → p b ≡ true
unfolding both
both_sound p h true = (&&-split (p true) (p false) h).0
both_sound p h false = (&&-split (p true) (p false) h).1

unfoldable pub same : Bool → Bool → Bool
same true b = b
same false b = not b

pub same_sound : (a b : Bool) → same a b ≡ true → a ≡ b
unfolding same
same_sound true b h = sym h
same_sound false true h = h
same_sound false false h = refl
