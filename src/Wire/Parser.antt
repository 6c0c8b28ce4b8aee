-- ===== src/Wire/Parser.antt =====
-- libsponge/util/parser.hh and parser.cc. A `Buffer` is the list of its bytes.
pub mod Ints
use cs144_intro2network.Prelude.{
  ℕ, zero, suc, ◌+◌, ◌*◌, ◌/◌, ◌%◌, ◌^◌, Bool, true, false, not, List, [], ◌∷◌, ◌++◌, length, take,
  drop, ltb, if◌then◌else◌,
}

pub data ParseResult : Type 0 where
  no_error bad_checksum packet_too_short wrong_ip_version header_too_short : ParseResult
  truncated_packet unsupported : ParseResult

pub record NetParser : Type 0 where
  pub buffer : List ℕ
  pub get_error : ParseResult

abbrev pub start : List ℕ → NetParser
start buffer = record { buffer = buffer; get_error = no_error }

abbrev pub is_error : ParseResult → Bool
is_error no_error = false
is_error _ = true

abbrev pub error : NetParser → Bool
error p = is_error p.get_error

abbrev pub set_error : ParseResult → NetParser → NetParser
set_error r p = record p { get_error = r }

unfoldable pub check_size : ℕ → NetParser → NetParser
check_size size p = if ltb (length p.buffer) size then set_error packet_too_short p else p

-- A parser action: its value, and the parser after it.
abbrev pub Parse {ℓ} : Type ℓ → Type ℓ
Parse A = NetParser → A × NetParser

infixl 5 ◌>>=◌
abbrev pub ◌>>=◌ {ℓ κ} : {A : Type ℓ} {B : Type κ} → Parse A → (A → Parse B) → Parse B
◌>>=◌ m f p = let (a, q) = m p in f a q

-- `ret <<= 8; ret += byte` in an integer of `len` bytes.
unfoldable pub big_endian : ℕ → ℕ → List ℕ → ℕ
big_endian len ret [] = ret
big_endian len ret (byte ∷ rest) = big_endian len ((ret * 256 + byte) % 2 ^ (8 * len)) rest

unfoldable pub parse_int : ℕ → Parse ℕ
unfolding check_size big_endian
parse_int len p =
    let q = check_size len p in
    if error q
    then (0, q)
    else (big_endian len 0 (take len q.buffer), record q { buffer = drop len q.buffer })

abbrev pub u8 : Parse ℕ
u8 = parse_int 1

abbrev pub u16 : Parse ℕ
u16 = parse_int 2

abbrev pub u32 : Parse ℕ
u32 = parse_int 4

unfoldable pub remove_prefix : ℕ → NetParser → NetParser
unfolding check_size
remove_prefix n p =
    let q = check_size n p in if error q then q else record q { buffer = drop n q.buffer }

-- The bytes that `_unparse_int` appends, the most significant first.
abbrev pub unparse_int : ℕ → ℕ → List ℕ
unparse_int zero val = []
unparse_int (suc k) val = (val / 2 ^ (k * 8)) % 256 ∷ unparse_int k val

-- The argument of `NetUnparser::u8` and `u16` is cut to the width on the way in.
abbrev pub put_u8 : ℕ → List ℕ
put_u8 val = unparse_int 1 (val % 2 ^ 8)

abbrev pub put_u16 : ℕ → List ℕ
put_u16 val = unparse_int 2 (val % 2 ^ 16)

abbrev pub put_u32 : ℕ → List ℕ
put_u32 val = unparse_int 4 (val % 2 ^ 32)
