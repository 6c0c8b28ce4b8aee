-- ===== src/Wrapping.antt =====
-- libsponge/wrapping_integers.hh and wrapping_integers.cc. A `WrappingInt32` is its raw value.
pub mod Closest
use cs144_intro2network.Prelude.{
  ℕ, zero, suc, ◌+◌, ◌-◌, ◌*◌, ◌/◌, ◌%◌, Bool, Option, none, some, ltb, leb, ◌==◌, if◌then◌else◌,
  u32_mod, u64_mod, add32, sub32, add64, sub64,
}

-- `operator+(WrappingInt32, uint32_t)` and `operator-(WrappingInt32, uint32_t)`.
unfoldable pub add : ℕ → ℕ → ℕ
add a b = add32 a b

unfoldable pub sub : ℕ → ℕ → ℕ
unfolding add
sub a b = add a (sub32 0 b)

-- `wrap`: the 64-bit number is cut to 32 bits on its way into `operator+`.
unfoldable pub wrap : ℕ → ℕ → ℕ
unfolding add
wrap n isn = add isn (n % u32_mod)

abbrev pub dist : ℕ → ℕ → ℕ
dist a b = if ltb b a then a - b else b - a

-- `curr_val` of the two cases of `unwrap`, each in 64 bits.
abbrev curr_val : ℕ → ℕ → ℕ → ℕ
curr_val n isn k =
    if leb isn n
    then sub64 (add64 (k * u32_mod % u64_mod) n) isn
    else sub64 (add64 (add64 (k * u32_mod % u64_mod) u32_mod) n) isn

-- The `for` loop, the same in both cases. `none`: the fuel ran out.
unwrap_from : ℕ → ℕ → ℕ → ℕ → ℕ → ℕ → Option ℕ
unwrap_from zero n isn checkpoint k min_diff = none
unwrap_from (suc fuel) n isn checkpoint k min_diff =
    let curr = curr_val n isn k in
    let diff = dist curr checkpoint in
    let rest = unwrap_from fuel n isn checkpoint (add64 k 1) diff in
    if ltb k (u64_mod - 1)
    then if ltb diff min_diff then rest else some (sub64 curr u32_mod)
    else some 0

abbrev pub fuel_unwrap : ℕ
fuel_unwrap = 5

abbrev init_k : ℕ → ℕ
init_k checkpoint = if ltb 0 (checkpoint / u32_mod) then checkpoint / u32_mod - 1 else 0

pub unwrap? : ℕ → ℕ → ℕ → Option ℕ
unfolding unwrap_from
unwrap? n isn checkpoint =
    unwrap_from fuel_unwrap n isn checkpoint (init_k checkpoint) (u64_mod - 1)

abbrev pub found : Option ℕ → ℕ
found none = 0
found (some r) = r

-- The function of the source. `Closest` proves that the fuel does not run out.
unfoldable pub unwrap : ℕ → ℕ → ℕ → ℕ
unfolding unwrap?
unwrap n isn checkpoint = found (unwrap? n isn checkpoint)
