-- ===== src/Base/Xor.antt =====
-- Exclusive or on numbers, by their binary digits.
use luavela.Base.{
  ℕ, zero, suc, ◌+◌, ◌*◌, ◌/◌, ◌%◌, ◌^◌, ◌≤◌, ◌<◌, ◌≡◌, refl, ◌∙◌, arith, ◌⊎◌, inl, inr,
}
use luavela.Base.Bits.{digits_enough, twice_shift}
use native.Mathlib.Nat.{pow-suc}
use Prim.Native.Nat.{bit_xor, differ, bit_xor-bitwise}

pub bit_cases : (n : ℕ) → (n % 2 ≡ 0) ⊎ (n % 2 ≡ 1)
bit_cases n = ground arith

differ-mod : (a b : ℕ) → differ (a % 2) (b % 2) ≡ (a % 2 + b % 2) % 2
differ-mod a b = elim (bit_cases a) [
  | inl p ↦ elim (bit_cases b) [ inl q ↦ rw (p, q) refl | inr q ↦ rw (p, q) refl ]
  | inr p ↦ elim (bit_cases b) [ inl q ↦ rw (p, q) refl | inr q ↦ rw (p, q) refl ]
]

xor-differ : (a b : ℕ) → bit_xor a b ≡ bit_xor (a / 2) (b / 2) * 2 + differ (a % 2) (b % 2)
xor-differ zero b = simp bit_xor-bitwise (omega arith)
xor-differ (suc a) b = simp bit_xor-bitwise (
    omega (
      arith,
      digits_enough (λ y. y) differ a (suc a / 2) (suc a / 2) (b / 2) (omega arith) (omega arith),
    ))

pub xor_digit : (a b : ℕ) → bit_xor a b ≡ bit_xor (a / 2) (b / 2) * 2 + (a % 2 + b % 2) % 2
xor_digit a b = omega (arith, xor-differ a b, differ-mod a b)

pub xor_half : (a b : ℕ) → bit_xor a b / 2 ≡ bit_xor (a / 2) (b / 2)
xor_half a b = omega (arith, xor_digit a b)

pub xor_parity : (a b : ℕ) → bit_xor a b % 2 ≡ (a % 2 + b % 2) % 2
xor_parity a b = omega (arith, xor_digit a b)

by_digits : (x y : ℕ) → x / 2 ≡ y / 2 → x % 2 ≡ y % 2 → x ≡ y
by_digits x y h p = omega arith

xor_right_below :
    (n a b c : ℕ) → a ≤ n → b ≤ n → c ≤ n → bit_xor (bit_xor a c) b ≡ bit_xor (bit_xor a b) c
xor_right_below zero a b c ha hb hc =
    let za : a ≡ 0 = omega arith in
    let zb : b ≡ 0 = omega arith in let zc : c ≡ 0 = omega arith in rw (za, zb, zc) refl
xor_right_below (suc n) a b c ha hb hc =
    by_digits _ _
      (rw (xor_half (bit_xor a c) b, xor_half a c, xor_half (bit_xor a b) c, xor_half a b)
        (xor_right_below n (a / 2) (b / 2) (c / 2) (omega arith) (omega arith) (omega arith)))
      (omega (
        arith,
        xor_parity (bit_xor a c) b,
        xor_parity a c,
        xor_parity (bit_xor a b) c,
        xor_parity a b,
      ))

xor_assoc_below :
    (n a b c : ℕ) → a ≤ n → b ≤ n → c ≤ n → bit_xor a (bit_xor b c) ≡ bit_xor (bit_xor a b) c
xor_assoc_below zero a b c ha hb hc =
    let za : a ≡ 0 = omega arith in
    let zb : b ≡ 0 = omega arith in let zc : c ≡ 0 = omega arith in rw (za, zb, zc) refl
xor_assoc_below (suc n) a b c ha hb hc =
    by_digits _ _
      (rw (xor_half a (bit_xor b c), xor_half b c, xor_half (bit_xor a b) c, xor_half a b)
        (xor_assoc_below n (a / 2) (b / 2) (c / 2) (omega arith) (omega arith) (omega arith)))
      (omega (
        arith,
        xor_parity a (bit_xor b c),
        xor_parity b c,
        xor_parity (bit_xor a b) c,
        xor_parity a b,
      ))

xor_cancel_below :
    (n a b c : ℕ) → a ≤ n → b ≤ n → c ≤ n → bit_xor (bit_xor a c) (bit_xor b c) ≡ bit_xor a b
xor_cancel_below zero a b c ha hb hc =
    let za : a ≡ 0 = omega arith in
    let zb : b ≡ 0 = omega arith in let zc : c ≡ 0 = omega arith in rw (za, zb, zc) refl
xor_cancel_below (suc n) a b c ha hb hc =
    by_digits _ _
      (rw (xor_half (bit_xor a c) (bit_xor b c), xor_half a c, xor_half b c, xor_half a b)
        (xor_cancel_below n (a / 2) (b / 2) (c / 2) (omega arith) (omega arith) (omega arith)))
      (omega (
        arith,
        xor_parity (bit_xor a c) (bit_xor b c),
        xor_parity a c,
        xor_parity b c,
        xor_parity a b,
      ))

pub xor_right : (a b c : ℕ) → bit_xor (bit_xor a c) b ≡ bit_xor (bit_xor a b) c
xor_right a b c = xor_right_below (a + b + c) a b c (omega arith) (omega arith) (omega arith)

pub xor_assoc : (a b c : ℕ) → bit_xor a (bit_xor b c) ≡ bit_xor (bit_xor a b) c
xor_assoc a b c = xor_assoc_below (a + b + c) a b c (omega arith) (omega arith) (omega arith)

pub xor_cancel : (a b c : ℕ) → bit_xor (bit_xor a c) (bit_xor b c) ≡ bit_xor a b
xor_cancel a b c = xor_cancel_below (a + b + c) a b c (omega arith) (omega arith) (omega arith)

pub zero-xor : (b : ℕ) → bit_xor 0 b ≡ b
zero-xor b = bit_xor-bitwise 0 b

-- A number is its low digits and its high ones.
pub xor_split : (k q r : ℕ) → r < 2 ^ k → bit_xor r (q * 2 ^ k) ≡ r + q * 2 ^ k
xor_split zero q r fits =
    let none_left : r ≡ 0 = omega arith in rw none_left (rw zero-xor (omega arith))
xor_split (suc k) q r fits =
    ground (arith, xor_digit r (q * 2 ^ suc k), twice_shift q k, pow-suc 2 k, xor_split k q (r / 2))

xor-zero_below : (n a : ℕ) → a ≤ n → bit_xor a 0 ≡ a
xor-zero_below n zero h = zero-xor 0
xor-zero_below zero (suc a) h = absurd (omega arith)
xor-zero_below (suc n) (suc a) h =
    omega (arith, xor_digit (suc a) 0, xor-zero_below n (suc a / 2) (omega arith))

pub xor-zero : (a : ℕ) → bit_xor a 0 ≡ a
xor-zero a = xor-zero_below a a (omega arith)

-- A number below `2 ^ k` does not touch the digits from `k` on.
pub high_xor :
    (k a b q r : ℕ)
    → a ≡ r + q * 2 ^ k
    → r < 2 ^ k
    → b < 2 ^ k
    → (low : ℕ) × (bit_xor a b ≡ low + q * 2 ^ k) × (low < 2 ^ k)
high_xor zero a b q r e fits below =
    let zb : b ≡ 0 = omega arith in (0, rw zb (xor-zero a ∙ omega (arith, e)), omega arith)
high_xor (suc k) a b q r e fits below =
    let (low, e', fits') =
      high_xor k (a / 2) (b / 2) q (r / 2) (omega (arith, twice_shift q k, pow-suc 2 k))
        (omega (arith, pow-suc 2 k)) (omega (arith, pow-suc 2 k)) in
    (
      low * 2 + (a % 2 + b % 2) % 2,
      omega (arith, xor_digit a b, e', twice_shift q k),
      omega (arith, pow-suc 2 k),
    )
