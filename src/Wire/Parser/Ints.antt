-- ===== src/Wire/Parser/Ints.antt =====
-- Integers survive `NetUnparser` and `NetParser`, whatever follows them.
use cs144_intro2network.Prelude.{
  ℕ, ◌+◌, ◌≡◌, ◌<◌, ◌^◌, arith, List, ◌++◌, false, ltb, length, zero, suc, replicate, drop,
  length-append, length-replicate, refl, ap, ◌∙◌,
}
use cs144_intro2network.Wire.Parser.{
  start, parse_int, u8, u16, u32, put_u8, put_u16, put_u32, remove_prefix,
}

pub u8-put_u8 :
    (v : ℕ) (rest : List ℕ) → v < 2 ^ 8 → u8 (start (put_u8 v ++ rest)) ≡ (v, start rest)
unfolding parse_int
u8-put_u8 v rest h = let t : ltb (1 + length rest) 1 ≡ false = ground arith in ground arith

pub u16-put_u16 :
    (v : ℕ) (rest : List ℕ) → v < 2 ^ 16 → u16 (start (put_u16 v ++ rest)) ≡ (v, start rest)
unfolding parse_int
u16-put_u16 v rest h = ground arith

pub u32-put_u32 :
    (v : ℕ) (rest : List ℕ) → v < 2 ^ 32 → u32 (start (put_u32 v ++ rest)) ≡ (v, start rest)
unfolding parse_int
u32-put_u32 v rest h = ground arith

drop-replicate : (n : ℕ) (rest : List ℕ) → drop n (replicate n 0 ++ rest) ≡ rest
drop-replicate zero rest = refl
drop-replicate (suc n) rest = drop-replicate n rest

-- The padding that fills a header up is skipped.
pub remove_prefix_padding :
    (n : ℕ) (rest : List ℕ) → remove_prefix n (start (replicate n 0 ++ rest)) ≡ start rest
unfolding remove_prefix
remove_prefix_padding n rest =
    let l : length (replicate n 0 ++ rest) ≡ n + length rest =
      length-append (replicate n 0) rest ∙ ap (λ k. k + length rest) (length-replicate n 0) in
    let fits : ltb (length (replicate n 0 ++ rest)) n ≡ false = ground (arith, l) in
    rw (fits, drop-replicate n rest) refl
