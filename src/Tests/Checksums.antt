-- ===== src/Tests/Checksums.antt =====
-- The checksum of the nine digits, which the definition of CRC-32 gives as its test.
use luavela.Base.{ℕ, ◌-◌, ◌^◌, bit_xor, ◌≡◌, refl, some, List, [], ◌∷◌, arith}
use luavela.Crc.{uj_crc32, crc_loop}
use luavela.Crc.Division.{remainder_of, uj_crc32-remainder_of}

nine_digits :
    uj_crc32 (b'1' ∷ b'2' ∷ b'3' ∷ b'4' ∷ b'5' ∷ b'6' ∷ b'7' ∷ b'8' ∷ b'9' ∷ []) ≡ some 0xcbf43926
unfolding uj_crc32 crc_loop
nine_digits = refl

abbrev two_digits : List ℕ
two_digits = b'4' ∷ b'2' ∷ []

uj_crc32-remainder_of_example :
    uj_crc32 two_digits ≡ some (bit_xor (remainder_of (2 ^ 32 - 1) two_digits) (2 ^ 32 - 1))
uj_crc32-remainder_of_example = uj_crc32-remainder_of two_digits (omega arith) (omega arith)
