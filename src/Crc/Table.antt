-- ===== src/Crc/Table.antt =====
-- The table's entries, and the text that CRC-32 is tried on.
use luavela.Base.{
  ℕ, zero, suc, ◌/◌, ◌%◌, ◌<◌, ◌≡◌, refl, true, bit_xor, get_or, ◌==◌, eqb→eq, if◌then◌else◌,
}
use luavela.Base.Bits.{all_below, all_below_sound}
use luavela.Crc.{crc_table}

-- Division by the polynomial of CRC-32, one bit at a time, lowest bit first.
abbrev pub divide_bit : ℕ → ℕ
divide_bit remainder =
    let half = remainder / 2 in if remainder % 2 == 1 then bit_xor half 0xedb88320 else half

abbrev pub divide_bits : ℕ → ℕ → ℕ
divide_bits zero remainder = remainder
divide_bits (suc bits) remainder = divide_bits bits (divide_bit remainder)

generated_table : all_below (λ i. get_or crc_table i 0 == divide_bits 8 i) 256 ≡ true
unfolding all_below
generated_table = refl

-- Each entry of the table is the remainder of its index after eight steps of division.
pub crc_table_generated : (i : ℕ) → i < 256 → get_or crc_table i 0 ≡ divide_bits 8 i
crc_table_generated i h = eqb→eq _ _ (all_below_sound _ 256 i generated_table h)
