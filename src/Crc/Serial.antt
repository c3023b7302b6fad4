-- ===== src/Crc/Serial.antt =====
-- The table-driven loop against the shift register that takes one bit at a time.
use Prim.Native.Nat.{bit_and, bit_xor}
use alike.Base.{
  ℕ, zero, suc, ◌+◌, ◌*◌, ◌/◌, ◌%◌, ◌^◌, ◌<◌, ◌≡◌, refl, sym, ap, ◌∙◌, List, [], ◌∷◌, arith,
}
use alike.Crc.{
  polynomial, all_ones, shift_bit, shift_bits, make_crc_table, entry, crc_loop, make_crc,
}
use alike.Crc.Xor.{
  bit_xor_step, bit_and-one, bit_and-byte, bit_xor_comm, bit_xor_left_comm, bit_xor-zero,
  bit_xor-lt-pow, bit_xor_fields, bit_xor_cong, double-pow,
}
use alike.Crc.Table.{shift_bits-lt, make_crc_table_lem}

-- CRC-32 as the standard states it: each byte is combined into the low end of the register, which
-- is then shifted by eight single bits. A char code counts modulo 256.
abbrev pub serial : ℕ → List ℕ → ℕ
serial crc [] = crc
serial crc (c ∷ cs) = serial (shift_bits 8 (bit_xor crc (c % 256))) cs

-- A round moves what stands above the lowest bit down by one.
shift_bit-bit_xor : (h l : ℕ) → shift_bit (bit_xor (2 * h) l) ≡ bit_xor h (shift_bit l)
unfolding shift_bit
shift_bit-bit_xor h l = ground (
  arith,
  bit_and-one (bit_xor (2 * h) l),
  bit_and-one l,
  bit_xor_step (2 * h) l,
  bit_xor_cong (2 * h / 2) h (l / 2) (l / 2) (omega arith) refl,
  bit_xor_left_comm polynomial h (l / 2),
  ap (bit_xor polynomial) (half h l),
)
  where
    half : (h l : ℕ) → bit_xor (2 * h) l / 2 ≡ bit_xor h (l / 2)
    half h l = omega (
      arith,
      bit_xor_step (2 * h) l,
      bit_xor_cong (2 * h / 2) h (l / 2) (l / 2) (omega arith) refl,
    )

shift_bits-bit_xor : (k h l : ℕ) → shift_bits k (bit_xor (h * 2 ^ k) l) ≡ bit_xor h (shift_bits k l)
unfolding shift_bits
shift_bits-bit_xor zero h l = bit_xor_cong (h * 1) h l l (omega arith) refl
shift_bits-bit_xor (suc k) h l =
    ap (λ t. shift_bits k (shift_bit t))
      (bit_xor_cong (h * 2 ^ suc k) (2 * (h * 2 ^ k)) l l (double-pow h k) refl)
    ∙ ap (shift_bits k) (shift_bit-bit_xor (h * 2 ^ k) l)
    ∙ shift_bits-bit_xor k h (shift_bit l)

-- A word and a byte differ in the low eight digits only.
bit_xor-byte : (w b : ℕ) → b < 256 → bit_xor w b ≡ w / 256 * 256 + bit_xor (w % 256) b
bit_xor-byte w b h = omega (
  arith,
  bit_xor_cong (w / 256 * 2 ^ 8 + w % 256) w (0 * 2 ^ 8 + b) b (omega arith) (omega arith),
  bit_xor_fields 8 (w / 256) 0 (w % 256) b (omega arith) (omega arith),
  bit_xor-zero (w / 256),
)

low_byte : (w c : ℕ) → bit_and (bit_xor w c) 0xFF ≡ bit_xor (w % 256) (c % 256)
low_byte w c = omega (
  arith,
  bit_and-byte (bit_xor w c),
  bit_xor_cong (w / 256 * 2 ^ 8 + w % 256) w (c / 256 * 2 ^ 8 + c % 256) c (omega arith)
      (omega arith),
  bit_xor_fields 8 (w / 256) (c / 256) (w % 256) (c % 256) (omega arith) (omega arith),
  bit_xor-lt-pow 8 (w % 256) (c % 256) (omega arith) (omega arith),
)

entry_lt : (i : ℕ) → i < 256 → entry make_crc_table i ≡ shift_bits 8 i
entry_lt i h = ground (arith, make_crc_table_lem i)

high_and_low : (q m : ℕ) → m < 256 → bit_xor (q * 2 ^ 8) m ≡ q * 256 + m
high_and_low q m h = omega (
  arith,
  bit_xor_cong (q * 2 ^ 8) (q * 2 ^ 8 + 0) m (0 * 2 ^ 8 + m) (omega arith) (omega arith),
  bit_xor_fields 8 q 0 0 m (omega arith) (omega arith),
  bit_xor-zero q,
  bit_xor_comm 0 m,
  bit_xor-zero m,
)

-- A step of the table-driven loop is eight rounds of the shift register.
table_step :
    (crc c : ℕ)
    → bit_xor (crc / 256) (entry make_crc_table (bit_and (bit_xor crc c) 0xFF))
      ≡ shift_bits 8 (bit_xor crc (c % 256))
table_step crc c =
    let m = bit_xor (crc % 256) (c % 256) in
    let small : m < 256 = bit_xor-lt-pow 8 (crc % 256) (c % 256) (omega arith) (omega arith) in
    ap (bit_xor (crc / 256)) (ap (entry make_crc_table) (low_byte crc c) ∙ entry_lt m small)
    ∙ sym (shift_bits-bit_xor 8 (crc / 256) m)
    ∙ ap (shift_bits 8)
        (high_and_low (crc / 256) m small ∙ sym (bit_xor-byte crc (c % 256) (omega arith)))

crc_loop-serial : (crc : ℕ) (cs : List ℕ) → crc_loop make_crc_table crc cs ≡ serial crc cs
unfolding crc_loop
crc_loop-serial crc [] = refl
crc_loop-serial crc (c ∷ cs) =
    rw (table_step crc c) (crc_loop-serial (shift_bits 8 (bit_xor crc (c % 256))) cs)

-- `makeCRC` is CRC-32 of the char codes, each taken modulo 256: the register starts as all ones,
-- takes one bit at a time, and is inverted at the end.
pub make_crc-serial : (str : List ℕ) → make_crc str ≡ bit_xor (serial all_ones str) all_ones
unfolding make_crc
make_crc-serial str = rw (crc_loop-serial (bit_xor 0 all_ones) str)

serial-lt : (crc : ℕ) (cs : List ℕ) → crc < 2 ^ 32 → serial crc cs < 2 ^ 32
serial-lt crc [] h = h
serial-lt crc (c ∷ cs) h =
    serial-lt (shift_bits 8 (bit_xor crc (c % 256))) cs
      (shift_bits-lt 8 _ (bit_xor-lt-pow 32 crc (c % 256) h (omega arith)))

-- The checksum is a 32-bit word.
pub make_crc-lt : (str : List ℕ) → make_crc str < 2 ^ 32
make_crc-lt str =
    rw make_crc-serial
      (bit_xor-lt-pow 32 _ all_ones (serial-lt all_ones str (omega arith)) (omega arith))
