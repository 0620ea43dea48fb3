-- ===== src/Strhash/Totals.antt =====
-- How many strings of a table pass a test: what a table holds, whatever the order.
use luavela.Base.{ℕ, zero, suc, ◌+◌, ◌/◌, ◌≤◌, ◌<◌, ◌≡◌, refl, arith, bit_and}
use luavela.Base.{Bool, true, false, List, [], ◌∷◌}
use luavela.Base.{length, get_or, set, replicate, take}
use luavela.Base.Bits.{bit_and_digit, bit_and-zero}
use luavela.Strhash.{GcStr, push}

abbrev pub one_if : Bool → ℕ
one_if true = 1
one_if false = 0

unfoldable pub passing : (GcStr → Bool) → List GcStr → ℕ
passing p [] = 0
passing p (s ∷ c) = one_if (p s) + passing p c

unfoldable pub total : (GcStr → Bool) → List (List GcStr) → ℕ
total p [] = 0
total p (c ∷ cs) = passing p c + total p cs

pub total-set :
    (p : GcStr → Bool) (hash : List (List GcStr)) (i : ℕ) (c : List GcStr)
    → i < length hash
    → total p (set hash i c) + passing p (get_or hash i []) ≡ total p hash + passing p c
unfolding total
total-set p [] i c h = absurd (omega arith)
total-set p (d ∷ hash) zero c h = omega arith
total-set p (d ∷ hash) (suc i) c h = omega (arith, total-set p hash i c (omega arith))

pub total-push :
    (p : GcStr → Bool) (s : GcStr) (i : ℕ) (hash : List (List GcStr))
    → i < length hash
    → total p (push s i hash) ≡ total p hash + one_if (p s)
total-push p s i hash h =
    let here : passing p (s ∷ get_or hash i []) ≡ one_if (p s) + passing p (get_or hash i []) =
      unfold passing in refl in
    omega (arith, total-set p hash i (s ∷ get_or hash i []) h, here)

pub total-replicate : (p : GcStr → Bool) (n : ℕ) → total p (replicate n []) ≡ 0
unfolding total passing
total-replicate p zero = refl
total-replicate p (suc n) = omega (arith, total-replicate p n)

pub total-take-suc :
    (p : GcStr → Bool) (i : ℕ) (hash : List (List GcStr))
    → total p (take (suc i) hash) ≡ total p (take i hash) + passing p (get_or hash i [])
unfolding total passing
total-take-suc p zero [] = refl
total-take-suc p (suc i) [] = refl
total-take-suc p zero (c ∷ hash) = omega arith
total-take-suc p (suc i) (c ∷ hash) = omega (arith, total-take-suc p i hash)

-- A number and a mask give at most the mask, so an index is within the table.
and-le_below : (n a b : ℕ) → b ≤ n → bit_and a b ≤ b
and-le_below zero a b h =
    let none_left : b ≡ 0 = omega arith in rw none_left (omega (arith, bit_and-zero a))
and-le_below (suc n) a zero h = omega (arith, bit_and-zero a)
and-le_below (suc n) a (suc b) h =
    omega (arith, bit_and_digit a (suc b), and-le_below n (a / 2) (suc b / 2) (omega arith))

pub and-le : (a b : ℕ) → bit_and a b ≤ b
and-le a b = and-le_below b a b (omega arith)
