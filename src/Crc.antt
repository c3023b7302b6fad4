-- ===== src/Crc.antt =====
-- webui/js/utils.js, `makeCRCTable` and `makeCRC`: the table-driven CRC-32 of a text.
-- A 32-bit word is its pattern, a number below 2 ^ 32: JavaScript's `^` and `>>>` act on that
-- pattern, and the sign that it shows between them is dropped by the last `>>> 0`.
pub mod Xor
pub mod Table
pub mod Serial
mod Tests
use Prim.Native.Nat.{bit_and, bit_xor}
use alike.Base.{
  ℕ, zero, suc, ◌+◌, ◌/◌, List, [], ◌∷◌, ◌++◌, Option, none, some, ◌==◌, if◌then◌else◌, get_elem?,
}

abbrev pub polynomial : ℕ
polynomial = 0xEDB88320

-- the pattern of -1
abbrev pub all_ones : ℕ
all_ones = 0xFFFFFFFF

-- `(c&1) ? (0xEDB88320 ^ (c >>> 1)) : (c >>> 1)`
pub shift_bit : ℕ → ℕ
shift_bit c = if bit_and c 1 == 0 then c / 2 else bit_xor polynomial (c / 2)

-- the inner loop of `makeCRCTable`, `k` rounds
pub shift_bits : ℕ → ℕ → ℕ
shift_bits zero c = c
shift_bits (suc k) c = shift_bits k (shift_bit c)

-- the outer loop, `todo` rounds from `n` on
fill : ℕ → ℕ → List ℕ → List ℕ
fill zero n table = table
fill (suc todo) n table = fill todo (n + 1) (table ++ shift_bits 8 n ∷ [])

pub make_crc_table : List ℕ
unfolding fill
make_crc_table = fill 256 0 []

-- `crcTable[i]` as an operand of `^`, where `undefined` counts as 0
pub entry : List ℕ → ℕ → ℕ
entry table i = elim (get_elem? table i) [ none ↦ 0 | some c ↦ c ]

-- the loop of `makeCRC` over the text's char codes
pub crc_loop : List ℕ → ℕ → List ℕ → ℕ
crc_loop table crc [] = crc
crc_loop table crc (c ∷ cs) =
    crc_loop table (bit_xor (crc / 256) (entry table (bit_and (bit_xor crc c) 0xFF))) cs

pub make_crc : List ℕ → ℕ
make_crc str = bit_xor (crc_loop make_crc_table (bit_xor 0 all_ones) str) all_ones
