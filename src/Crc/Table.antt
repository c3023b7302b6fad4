-- ===== src/Crc/Table.antt =====
-- The table: 256 words, each at its index the remainder of that index after eight rounds.
use alike.Base.{
  ℕ, zero, suc, ◌+◌, ◌/◌, ◌^◌, ◌≤◌, ◌<◌, ◌≡◌, refl, List, [], ◌∷◌, ◌++◌, arith, length,
  length-append, ◌==◌, ltb, if◌then◌else◌,
}
use alike.Crc.{polynomial, shift_bit, shift_bits, fill, make_crc_table, entry}
use alike.Crc.Xor.{bit_xor-lt-pow}

pub shift_bit-lt : (c : ℕ) → c < 2 ^ 32 → shift_bit c < 2 ^ 32
unfolding shift_bit
shift_bit-lt c h = ground (arith, bit_xor-lt-pow 32 polynomial (c / 2))

pub shift_bits-lt : (k c : ℕ) → c < 2 ^ 32 → shift_bits k c < 2 ^ 32
unfolding shift_bits
shift_bits-lt zero c h = h
shift_bits-lt (suc k) c h = shift_bits-lt k (shift_bit c) (shift_bit-lt c h)

length-fill : (todo n : ℕ) (t : List ℕ) → length (fill todo n t) ≡ length t + todo
unfolding fill
length-fill zero n t = omega arith
length-fill (suc todo) n t = omega (
  arith,
  length-fill todo (n + 1) (t ++ shift_bits 8 n ∷ []),
  length-append t (shift_bits 8 n ∷ []),
)

entry-append :
    (t : List ℕ) (x i : ℕ)
    → entry (t ++ x ∷ []) i
      ≡ (if ltb i (length t) then entry t i else if i == length t then x else 0)
unfolding entry
entry-append [] x zero = refl
entry-append [] x (suc i) = ground arith
entry-append (y ∷ t) x zero = ground arith
entry-append (y ∷ t) x (suc i) = ground (arith, entry-append t x i)

entry_past_end : (t : List ℕ) (i : ℕ) → length t ≤ i → entry t i ≡ 0
unfolding entry
entry_past_end [] i h = refl
entry_past_end (x ∷ t) zero h = absurd (omega arith)
entry_past_end (x ∷ t) (suc i) h = entry_past_end t i (omega arith)

-- What the loop has still to write, and what it has written.
entry-fill :
    (todo n i : ℕ) (t : List ℕ)
    → length t ≡ n
    → entry (fill todo n t) i
      ≡ (if ltb i n then entry t i else if ltb i (n + todo) then shift_bits 8 i else 0)
unfolding fill
entry-fill zero n i t h = ground (arith, entry_past_end t i)
entry-fill (suc todo) n i t h = ground (
  arith,
  entry-fill todo (n + 1) i (t ++ shift_bits 8 n ∷ []),
  length-append t (shift_bits 8 n ∷ []),
  entry-append t (shift_bits 8 n) i,
)

table_entry : (i : ℕ) → entry make_crc_table i ≡ (if ltb i 256 then shift_bits 8 i else 0)
unfolding make_crc_table
table_entry i = ground (arith, entry-fill 256 0 i [] refl)

-- The table has 256 entries. The entry at an index below 256 is that index after eight rounds of
-- the shift register, and is a 32-bit word; past the end there is none.
pub make_crc_table_lem :
    (i : ℕ)
    → (length make_crc_table ≡ 256)
      × (entry make_crc_table i ≡ (if ltb i 256 then shift_bits 8 i else 0))
      × (entry make_crc_table i < 2 ^ 32)
unfolding make_crc_table
make_crc_table_lem i =
    (length-fill 256 0 [], table_entry i, ground (arith, table_entry i, shift_bits-lt 8 i))
