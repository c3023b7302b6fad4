-- ===== src/Crc/Tests.antt =====
-- The checksum's check value, and the theorems at it.
use Prim.Native.Nat.{bit_xor}
use alike.Base.{◌≡◌, refl, codes}
use alike.Crc.{all_ones, shift_bit, shift_bits, make_crc_table, entry, crc_loop, make_crc}
use alike.Crc.Serial.{serial, make_crc-serial}

check_value : make_crc (codes "123456789") ≡ 0xCBF43926
unfolding make_crc make_crc_table shift_bits entry crc_loop shift_bit
check_value = refl

make_crc-serial_example :
    make_crc (codes "alike") ≡ bit_xor (serial all_ones (codes "alike")) all_ones
make_crc-serial_example = make_crc-serial (codes "alike")
