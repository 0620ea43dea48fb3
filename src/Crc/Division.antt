-- ===== src/Crc/Division.antt =====
-- The checksum by the table is the division by the polynomial, one bit at a time.
use luavela.Base.{
  ℕ, zero, suc, ◌*◌, ◌/◌, ◌%◌, ◌^◌, ◌-◌, ◌+◌, ◌≤◌, ◌<◌, ◌≡◌, refl, sym, ap, ◌∙◌, arith, inl, inr,
  bit_xor, List, [], ◌∷◌, All, get_or, length, drop, Option, some, Bool-cases, ltb, ltb→lt, ltb→le,
  ◌==◌, false,
}
use luavela.Base.Xor.{
  bit_cases, xor_half, xor_parity, xor_right, xor_assoc, xor_cancel, xor_split, high_xor,
}
use luavela.Base.Bits.{twice_shift}
use luavela.Crc.{crc_table, crc_loop, uj_crc32}
use luavela.Crc.Table.{divide_bit, divide_bits, crc_table_generated}

divide_bit-xor : (a b : ℕ) → divide_bit (bit_xor a b) ≡ bit_xor (divide_bit a) (divide_bit b)
divide_bit-xor a b =
    let half = xor_half a b in
    let parity = xor_parity a b in
    elim (bit_cases a) [
      | inl p ↦ elim (bit_cases b) [
        | inl q ↦ let even : bit_xor a b % 2 ≡ 0 = omega arith in rw (even, p, q, half) refl
        | inr q ↦
            let odd : bit_xor a b % 2 ≡ 1 = omega arith in
            rw (odd, p, q, half) (sym (xor_assoc (a / 2) (b / 2) 0xedb88320))
      ]
      | inr p ↦ elim (bit_cases b) [
        | inl q ↦
            let odd : bit_xor a b % 2 ≡ 1 = omega arith in
            rw (odd, p, q, half) (sym (xor_right (a / 2) (b / 2) 0xedb88320))
        | inr q ↦
            let even : bit_xor a b % 2 ≡ 0 = omega arith in
            rw (even, p, q, half) (sym (xor_cancel (a / 2) (b / 2) 0xedb88320))
      ]
    ]

divide_bits-xor :
    (n a b : ℕ) → divide_bits n (bit_xor a b) ≡ bit_xor (divide_bits n a) (divide_bits n b)
divide_bits-xor zero a b = refl
divide_bits-xor (suc n) a b =
    ap (divide_bits n) (divide_bit-xor a b) ∙ divide_bits-xor n (divide_bit a) (divide_bit b)

divide_even : (a q : ℕ) → a ≡ 2 * q → divide_bit a ≡ q
divide_even a q e = let even : a % 2 ≡ 0 = omega arith in rw even (omega arith)

-- Without low bits, division is a shift.
divide_bits_shift : (k q : ℕ) → divide_bits k (q * 2 ^ k) ≡ q
divide_bits_shift zero q = omega arith
divide_bits_shift (suc k) q =
    ap (divide_bits k) (divide_even (q * 2 ^ suc k) (q * 2 ^ k) (twice_shift q k))
    ∙ divide_bits_shift k q

divide_octet : (x : ℕ) → divide_bits 8 x ≡ bit_xor (divide_bits 8 (x % 2 ^ 8)) (x / 2 ^ 8)
divide_octet x =
    let split : x ≡ bit_xor (x % 2 ^ 8) (x / 2 ^ 8 * 2 ^ 8) =
      omega (arith, xor_split 8 (x / 2 ^ 8) (x % 2 ^ 8) (omega arith)) in
    ap (divide_bits 8) split
    ∙ divide_bits-xor 8 (x % 2 ^ 8) (x / 2 ^ 8 * 2 ^ 8)
    ∙ ap (bit_xor (divide_bits 8 (x % 2 ^ 8))) (divide_bits_shift 8 (x / 2 ^ 8))

-- The remainder of a text, one bit at a time.
abbrev pub remainder_of : ℕ → List ℕ → ℕ
remainder_of crc [] = crc
remainder_of crc (c ∷ msg) = remainder_of (divide_bits 8 (bit_xor crc c)) msg

one_octet :
    (crc c : ℕ)
    → c < 256
    → bit_xor (get_or crc_table (bit_xor crc c % 2 ^ 8) 0) (crc / 2 ^ 8)
      ≡ divide_bits 8 (bit_xor crc c)
one_octet crc c h =
    let (low, e, fits) =
      high_xor 8 crc c (crc / 2 ^ 8) (crc % 2 ^ 8) (omega arith) (omega arith) h in
    let high : bit_xor crc c / 2 ^ 8 ≡ crc / 2 ^ 8 = omega arith in
    rw (crc_table_generated (bit_xor crc c % 2 ^ 8) (omega arith)) (
      ap (bit_xor (divide_bits 8 (bit_xor crc c % 2 ^ 8))) (sym high)
      ∙ sym (divide_octet (bit_xor crc c)))

-- A character of a text: a byte that is not the final 0.
abbrev pub IsChar : ℕ → Type 0
IsChar c = (0 < c) × (c < 256)

head_drop : (msg : List ℕ) (i : ℕ) → i < length msg → drop i msg ≡ get_or msg i 0 ∷ drop (i + 1) msg
head_drop [] i lt = absurd (omega arith)
head_drop (c ∷ msg) zero lt = refl
head_drop (c ∷ msg) (suc i) lt =
    let next : suc i + 1 ≡ suc (i + 1) = omega arith in rw next (head_drop msg i (omega arith))

get_or-IsChar : (msg : List ℕ) (i : ℕ) → All IsChar msg → i < length msg → IsChar (get_or msg i 0)
get_or-IsChar [] i o lt = absurd (omega arith)
get_or-IsChar (c ∷ msg) zero o lt = o.0
get_or-IsChar (c ∷ msg) (suc i) o lt = get_or-IsChar msg i o.1 (omega arith)

behind : (msg : List ℕ) (i : ℕ) → length msg ≤ i → (get_or msg i 0 ≡ 0) × (drop i msg ≡ [])
behind [] zero le = (refl, refl)
behind [] (suc i) le = (refl, refl)
behind (c ∷ msg) zero le = absurd (omega arith)
behind (c ∷ msg) (suc i) le = behind msg i (omega arith)

-- The loop ends at the end of a text below 2 ^ 32.
crc_loop-remainder_of :
    (fuel crc : ℕ) (msg : List ℕ) (i : ℕ)
    → All IsChar msg
    → length msg < 2 ^ 32
    → i ≤ length msg
    → length msg < i + fuel
    → crc_loop fuel crc msg i ≡ some (remainder_of crc (drop i msg))
unfolding crc_loop
crc_loop-remainder_of zero crc msg i o small le enough = absurd (omega arith)
crc_loop-remainder_of (suc fuel) crc msg i o small le enough =
    elim (Bool-cases (ltb i (length msg))) [
      | inr end ↦
          let (null, nothing) = behind msg i (ltb→le i (length msg) end) in rw (null, nothing) refl
      | inl inside ↦
          let lt = ltb→lt i (length msg) inside in
          let (pos, byte) = get_or-IsChar msg i o lt in
          let not_null : get_or msg i 0 == 0 ≡ false = ground arith in
          let index : (i + 1) % 2 ^ 32 ≡ i + 1 = omega arith in
          rw (not_null, index, head_drop msg i lt)
            (crc_loop-remainder_of fuel _ msg (i + 1) o small (omega arith) (omega arith)
              ∙ ap (λ r. let m : Option ℕ = some (remainder_of r (drop (i + 1) msg)) in m)
                  (one_octet crc (get_or msg i 0) byte))
    ]

-- For every text, of bytes that are not 0 and shorter than 2 ^ 32, `uj_crc32` ends with the
-- remainder of the division by the polynomial of CRC-32, one bit at a time, with all bits
-- inverted before and after.
pub uj_crc32-remainder_of :
    (msg : List ℕ)
    → All IsChar msg
    → length msg < 2 ^ 32
    → uj_crc32 msg ≡ some (bit_xor (remainder_of (2 ^ 32 - 1) msg) (2 ^ 32 - 1))
unfolding uj_crc32
uj_crc32-remainder_of msg o small =
    let loop =
      crc_loop-remainder_of (length msg + 1) (2 ^ 32 - 1) msg 0 o small (omega arith)
        (omega arith) in
    rw (uj_crc32, loop) refl
