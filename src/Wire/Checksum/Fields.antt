-- ===== src/Wire/Checksum/Fields.antt =====
-- Integers that `NetUnparser` writes, for the checksum: bytes, and what a 16-bit field adds.
use cs144_intro2network.Prelude.{ℕ, List, false, arith, ◌++◌, ◌≡◌, ◌<◌, ◌+◌}
use cs144_intro2network.Wire.Parser.{put_u8, put_u16, put_u32}
use cs144_intro2network.Wire.Checksum.Total.{total, AreBytes}

pub total-put_u16 :
    (v : ℕ) (rest : List ℕ) → v < 65536 → total false (put_u16 v ++ rest) ≡ v + total false rest
total-put_u16 v rest h = omega arith

pub AreBytes-put_u16 : (v : ℕ) (rest : List ℕ) → AreBytes rest → AreBytes (put_u16 v ++ rest)
AreBytes-put_u16 v rest h = (omega arith, (omega arith, h))

pub AreBytes-put_u32 : (v : ℕ) (rest : List ℕ) → AreBytes rest → AreBytes (put_u32 v ++ rest)
AreBytes-put_u32 v rest h = (omega arith, (omega arith, (omega arith, (omega arith, h))))

pub AreBytes-put_u8 : (v : ℕ) (rest : List ℕ) → AreBytes rest → AreBytes (put_u8 v ++ rest)
AreBytes-put_u8 v rest h = (omega arith, h)
