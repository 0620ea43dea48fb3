-- ===== src/Base/Bits.antt =====
-- Masks on a byte as arithmetic, each from a table that is checked by evaluation, and the
-- digit recursion that makes `|` of disjoint fields a sum and `&` with a low mask a remainder.
use Prim.Native.Nat.{ℕ, zero, suc, ◌+◌, ◌-◌, ◌*◌, ◌/◌, ◌%◌, ◌^◌, ◌≤◌, ◌<◌, min, max}
use Prim.Native.Nat.{bit_and, bit_or, digits, bit_and-bitwise, bit_or-bitwise}
use mathlib.Core.Path.{◌≡◌, refl, ap}
use mathlib.Core.Bool.{Bool, true, ◌&&◌}
use native.Mathlib.Nat.{pow-suc, one-le-pow}
use native.Mathlib.Omega.{arith}
use luavela.Base.Booleans.{◌==◌, eqb→eq}

-- The test passes at every number below the bound.
unfoldable pub all_below : (ℕ → Bool) → ℕ → Bool
all_below test zero = true
all_below test (suc bound) = all_below test bound && test bound

pub all_below_sound :
    (test : ℕ → Bool) (bound i : ℕ) → all_below test bound ≡ true → i < bound → test i ≡ true
unfolding all_below
all_below_sound test zero i passes below = absurd (omega arith)
all_below_sound test (suc bound) i passes below = ground (arith, all_below_sound test bound i)

low_table : all_below (λ b. bit_and b 0x7f == b % 128) 256 ≡ true
unfolding all_below
low_table = refl

top_table : all_below (λ b. bit_and b 0x80 == b / 128 * 128) 256 ≡ true
unfolding all_below
top_table = refl

set_top_table : all_below (λ b. bit_or b 0x80 == b + 128) 128 ≡ true
unfolding all_below
set_top_table = refl

sign_table : all_below (λ b. bit_and b 0x40 == b / 64 % 2 * 64) 256 ≡ true
unfolding all_below
sign_table = refl

pub low_bits : (b : ℕ) → b < 256 → bit_and b 0x7f ≡ b % 128
low_bits b h = eqb→eq _ _ (all_below_sound _ 256 b low_table h)

pub top_bit : (b : ℕ) → b < 256 → bit_and b 0x80 ≡ b / 128 * 128
top_bit b h = eqb→eq _ _ (all_below_sound _ 256 b top_table h)

pub set_top_bit : (b : ℕ) → b < 128 → bit_or b 0x80 ≡ b + 128
set_top_bit b h = eqb→eq _ _ (all_below_sound _ 128 b set_top_table h)

pub sign_bit : (b : ℕ) → b < 256 → bit_and b 0x40 ≡ b / 64 % 2 * 64
sign_bit b h = eqb→eq _ _ (all_below_sound _ 256 b sign_table h)

-- The fuel of the digit recursion does not matter once it covers the first number.
module _ (last : ℕ → ℕ) (f : ℕ → ℕ → ℕ) where
  pub digits_enough : (n m a b : ℕ) → a ≤ n → a ≤ m → digits last f n a b ≡ digits last f m a b
  digits_enough zero zero a b p q = refl
  digits_enough zero (suc m) zero b p q = refl
  digits_enough zero (suc m) (suc a) b p q = absurd (omega arith)
  digits_enough (suc n) zero zero b p q = refl
  digits_enough (suc n) zero (suc a) b p q = absurd (omega arith)
  digits_enough (suc n) (suc m) zero b p q = refl
  digits_enough (suc n) (suc m) (suc a) b p q =
      rw (digits_enough n m (suc a / 2) (b / 2) (omega arith) (omega arith))

-- One equation for the lowest digit of each operation.
pub bit_or_digit : (a b : ℕ) → bit_or a b ≡ bit_or (a / 2) (b / 2) * 2 + max (a % 2) (b % 2)
bit_or_digit zero b = simp bit_or-bitwise (omega arith)
bit_or_digit (suc a) b = simp bit_or-bitwise (
    omega (
      arith,
      digits_enough (λ y. y) max a (suc a / 2) (suc a / 2) (b / 2) (omega arith) (omega arith),
    ))

pub bit_and_digit : (a b : ℕ) → bit_and a b ≡ bit_and (a / 2) (b / 2) * 2 + min (a % 2) (b % 2)
bit_and_digit zero b = simp bit_and-bitwise (omega arith)
bit_and_digit (suc a) b = simp bit_and-bitwise (
    omega (
      arith,
      digits_enough (λ y. 0) min a (suc a / 2) (suc a / 2) (b / 2) (omega arith) (omega arith),
    ))

pub zero-bit_or : (b : ℕ) → bit_or 0 b ≡ b
zero-bit_or b = bit_or-bitwise 0 b

zero-bit_and : (b : ℕ) → bit_and 0 b ≡ 0
zero-bit_and b = bit_and-bitwise 0 b

bit_and-zero_below : (n a : ℕ) → a ≤ n → bit_and a 0 ≡ 0
bit_and-zero_below n zero h = zero-bit_and 0
bit_and-zero_below zero (suc a) h = absurd (omega arith)
bit_and-zero_below (suc n) (suc a) h =
    omega (arith, bit_and_digit (suc a) 0, bit_and-zero_below n (suc a / 2) (omega arith))

pub bit_and-zero : (a : ℕ) → bit_and a 0 ≡ 0
bit_and-zero a = bit_and-zero_below a a (omega arith)

pub twice_shift : (q k : ℕ) → q * 2 ^ suc k ≡ 2 * (q * 2 ^ k)
twice_shift q k = omega (arith, ap (λ (t : ℕ). q * t) (pow-suc 2 k))

-- `r | (q << k)` is a sum when `r` fits `k` bits.
pub bit_or_low : (k q r : ℕ) → r < 2 ^ k → bit_or r (q * 2 ^ k) ≡ r + q * 2 ^ k
bit_or_low zero q r fits =
    let none_left : r ≡ 0 = omega arith in rw none_left (rw zero-bit_or (omega arith))
bit_or_low (suc k) q r fits =
    ground
      (arith, bit_or_digit r (q * 2 ^ suc k), twice_shift q k, pow-suc 2 k, bit_or_low k q (r / 2))

bit_and_low : (k q r : ℕ) → r < 2 ^ k → bit_and (r + q * 2 ^ k) (2 ^ k - 1) ≡ r
bit_and_low zero q r fits = rw bit_and-zero (omega arith)
bit_and_low (suc k) q r fits = ground (
  arith,
  bit_and_digit (r + q * 2 ^ suc k) (2 ^ suc k - 1),
  twice_shift q k,
  pow-suc 2 k,
  one-le-pow k 2,
  bit_and_low k q (r / 2),
)

-- A mask of `k` ones is the remainder by `2 ^ k`.
pub bit_and_mask : (k a : ℕ) → bit_and a (2 ^ k - 1) ≡ a % 2 ^ k
bit_and_mask k a = ground (arith, one-le-pow k 2, bit_and_low k (a / 2 ^ k) (a % 2 ^ k))
