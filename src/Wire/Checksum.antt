-- ===== src/Wire/Checksum.antt =====
-- `InternetChecksum` of libsponge/util/util.hh and util.cc.
pub mod Verify
pub mod Total
pub mod Fields
use cs144_intro2network.Prelude.{
  ℕ, zero, suc, ◌+◌, ◌-◌, ◌*◌, ◌/◌, ◌%◌, ◌^◌, Bool, true, false, not, Option, none, some, List, [],
  ◌∷◌, ltb, if◌then◌else◌, u16_mod, u32_mod, add32,
}

pub record InternetChecksum : Type 0 where
  pub sum : ℕ
  pub parity : Bool

abbrev pub init : ℕ → InternetChecksum
init initial_sum = record { sum = initial_sum; parity = false }

unfoldable pub add : InternetChecksum → List ℕ → InternetChecksum
add c [] = c
add c (byte ∷ rest) =
    add
      (record { sum = add32 c.sum (if c.parity then byte else byte * 256); parity = not c.parity })
      rest

-- The loop of `value`. `none`: the fuel ran out.
unfoldable pub fold : ℕ → ℕ → Option ℕ
fold zero ret = none
fold (suc fuel) ret =
    let rest = fold fuel (add32 (ret / u16_mod) (ret % u16_mod)) in
    if ltb 0xffff ret then rest else some ret

-- `~ret` cut to 16 bits.
abbrev pub complement : Option ℕ → ℕ
complement none = 0
complement (some ret) = (u32_mod - 1 - ret) % u16_mod

abbrev pub fuel_fold : ℕ
fuel_fold = 3

unfoldable pub value : InternetChecksum → ℕ
unfolding fold
value c = complement (fold fuel_fold c.sum)
