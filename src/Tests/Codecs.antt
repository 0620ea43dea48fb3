-- ===== src/Tests/Codecs.antt =====
-- LEB128 at concrete numbers.
use luavela.Base.{ℕ, ◌-◌, ◌^◌, ◌≤◌, ◌≡◌, refl, inr, [], ◌∷◌, ◌++◌, arith, length, All, ◌<◌}
use luavela.Leb128.{write_uleb128, write_leb128, read_uleb128, read_uleb128_n, read_leb128}
use luavela.Leb128.{ok, refused, undefined}
use luavela.Leb128.Unsigned.{write_uleb128_shape, read_uleb128-write_uleb128}
use luavela.Leb128.Unsigned.{read_uleb128_n-write_uleb128}
use luavela.Leb128.Signed.{read_leb128-write_leb128, read_leb128_undefined}

write_300 : write_uleb128 300 ≡ 0xac ∷ 0x02 ∷ []
unfolding write_uleb128
write_300 = refl

-- -300 as an int64_t
abbrev minus_300 : ℕ
minus_300 = 2 ^ 64 - 300

write_minus_300 : write_leb128 minus_300 ≡ 0xd4 ∷ 0x7d ∷ []
unfolding write_leb128
write_minus_300 = refl

read_uleb128-write_uleb128_example : read_uleb128 (write_uleb128 300 ++ 9 ∷ []) ≡ ok 300 2
unfolding write_uleb128
read_uleb128-write_uleb128_example = read_uleb128-write_uleb128 300 (9 ∷ []) (omega arith)

read_uleb128_n-write_uleb128_example : read_uleb128_n (write_uleb128 300 ++ 9 ∷ []) 1 ≡ refused
unfolding write_uleb128
read_uleb128_n-write_uleb128_example = read_uleb128_n-write_uleb128 300 1 (9 ∷ []) (omega arith)

write_uleb128_shape_example :
    All (λ b. b < 256) (write_uleb128 300)
    × (1 ≤ length (write_uleb128 300))
    × (length (write_uleb128 300) ≤ 10)
write_uleb128_shape_example = write_uleb128_shape 300 (omega arith)

read_leb128-write_leb128_example : read_leb128 (write_leb128 minus_300 ++ 9 ∷ []) ≡ ok minus_300 2
unfolding write_leb128
read_leb128-write_leb128_example =
    read_leb128-write_leb128 minus_300 (9 ∷ []) (omega arith) (inr (omega arith))

read_leb128_undefined_example : read_leb128 (write_leb128 (2 ^ 64 - 2 ^ 40) ++ []) ≡ undefined
read_leb128_undefined_example =
    read_leb128_undefined (2 ^ 64 - 2 ^ 40) [] (omega arith) (omega arith)
