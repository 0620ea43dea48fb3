-- ===== src/Cstr/Decimal.antt =====
-- The printed integer is its decimal numeral.
use luavela.Base.{ℕ, ◌+◌, ◌-◌, ◌*◌, ◌/◌, ◌%◌, ◌^◌, ◌≤◌, ◌<◌, ◌≡◌, ◌≢◌, refl, ◌∙◌, arith}
use luavela.Base.{true, false, List, [], ◌∷◌, ◌++◌, ltb, if◌then◌else◌, length, All}
use luavela.Base.{length-append, All-append, get_or}
use luavela.Base.{Bool-cases, inl, inr, ltb→le, ltb→lt, subst}
use luavela.Cstr.{cstr_print_four_digits, cstr_print_two_digits}
use luavela.Cstr.{negated, print_unsigned, uj_cstr_fromint}

-- The value of a numeral, read after the digits that make `acc`.
abbrev pub numeral : ℕ → List ℕ → ℕ
numeral acc [] = acc
numeral acc (d ∷ ds) = numeral (acc * 10 + (d - b'0')) ds

abbrev pub IsDigit : ℕ → Type 0
IsDigit d = (b'0' ≤ d) × (d ≤ b'9')

-- The decimal numeral of `u`: its digits, no more than ten, and no 0 in front of others.
pub record IsDecimal (u : ℕ) (ds : List ℕ) : Type 0 where
  pub value : numeral 0 ds ≡ u
  pub digits : All IsDigit ds
  pub some_digit : 1 ≤ length ds
  pub ten_digits : length ds ≤ 10
  pub canonical : 2 ≤ length ds → get_or ds 0 b'0' ≢ b'0'

numeral-append : (acc : ℕ) (xs ys : List ℕ) → numeral acc (xs ++ ys) ≡ numeral (numeral acc xs) ys
numeral-append acc [] ys = refl
numeral-append acc (x ∷ xs) ys = numeral-append (acc * 10 + (x - b'0')) xs ys

get_or-append : (xs ys : List ℕ) (d : ℕ) → 1 ≤ length xs → get_or (xs ++ ys) 0 d ≡ get_or xs 0 d
get_or-append [] ys d h = absurd (omega arith)
get_or-append (x ∷ xs) ys d h = refl

-- Four digits with zeros in front.
padded_lem :
    (acc u : ℕ)
    → u < 10000
    → (numeral acc (cstr_print_four_digits u true) ≡ acc * 10000 + u)
      × All IsDigit (cstr_print_four_digits u true)
      × (length (cstr_print_four_digits u true) ≡ 4)
unfolding cstr_print_four_digits
padded_lem acc u h = omega arith

-- One to four digits with no zeros in front.
unpadded_lem :
    (u : ℕ)
    → u < 10000
    → IsDecimal u (cstr_print_four_digits u false)
      × (length (cstr_print_four_digits u false) ≤ 4)
      × (0 < u → get_or (cstr_print_four_digits u false) 0 b'0' ≢ b'0')
unfolding cstr_print_four_digits
unpadded_lem u h = ground arith

two_lem :
    (u : ℕ)
    → 0 < u
    → u < 100
    → IsDecimal u (cstr_print_two_digits u)
      × (length (cstr_print_two_digits u) ≤ 2)
      × (get_or (cstr_print_two_digits u) 0 b'0' ≢ b'0')
unfolding cstr_print_two_digits
two_lem u lo h = ground arith

sum_lem :
    (u v m : ℕ) (ds es : List ℕ)
    → IsDecimal u ds
    → get_or ds 0 b'0' ≢ b'0'
    → ((acc : ℕ) → numeral acc es ≡ acc * m + v)
    → All IsDigit es
    → length ds + length es ≤ 10
    → IsDecimal (u * m + v) (ds ++ es)
sum_lem u v m ds es d lead value digits short = record {
  value = numeral-append 0 ds es ∙ rw d.value (value u);
  digits = All-append IsDigit ds es d.digits digits;
  some_digit = rw length-append (omega (arith, d.some_digit));
  ten_digits = rw length-append short;
  canonical = λ _. rw (get_or-append ds es b'0' d.some_digit) lead;
}

eight_lem :
    (u v : ℕ)
    → u < 10000
    → v < 10000
    → let es = cstr_print_four_digits u true ++ cstr_print_four_digits v true in
      ((acc : ℕ) → numeral acc es ≡ acc * 100000000 + (u * 10000 + v))
      × All IsDigit es
      × (length es ≡ 8)
eight_lem u v hu hv =
    let (_, digits, wide) = padded_lem 0 u hu in
    let (_, digits', wide') = padded_lem 0 v hv in
    (
      λ acc.
          numeral-append acc (cstr_print_four_digits u true) _
          ∙ rw (padded_lem acc u hu).0 ((padded_lem (acc * 10000 + u) v hv).0 ∙ omega arith),
      All-append IsDigit _ _ digits digits',
      rw length-append (omega arith),
    )

print_unsigned-IsDecimal : (u : ℕ) → u < 2 ^ 32 → IsDecimal u (print_unsigned u)
unfolding print_unsigned
print_unsigned-IsDecimal u h =
    let lo = u % 10000 in
    let med = u / 10000 in
    let (value, digits, wide) = padded_lem 0 lo (omega arith) in
    elim (Bool-cases (ltb u 10000)) [
      | inl short ↦ rw short (unpadded_lem u (ltb→lt _ _ short)).0
      | inr long ↦ elim (Bool-cases (ltb med 10000)) [
        | inl two_groups ↦
            let (head, few, lead) = unpadded_lem med (ltb→lt _ _ two_groups) in
            let whole : med * 10000 + lo ≡ u = omega arith in
            let positive : 0 < med = omega (arith, ltb→le u 10000 long) in
            rw (long, two_groups)
              (subst
                (λ n.
                  IsDecimal n (cstr_print_four_digits med false ++ cstr_print_four_digits lo true))
                whole
                (sum_lem med lo 10000 _ _ head (lead positive)
                  (λ acc. (padded_lem acc lo (omega arith)).0) digits (omega arith)))
        | inr three_groups ↦
            let big = ltb→le med 10000 three_groups in
            let (head, few, lead) = two_lem (med / 10000) (omega arith) (omega arith) in
            let (value', digits', wide') = eight_lem (med % 10000) lo (omega arith) (omega arith) in
            let whole : med / 10000 * 100000000 + (med % 10000 * 10000 + lo) ≡ u = omega arith in
            rw (long, three_groups)
              (subst
                (λ n. IsDecimal n (
                  cstr_print_two_digits (med / 10000)
                  ++ (cstr_print_four_digits (med % 10000) true ++ cstr_print_four_digits lo true)))
                whole
                (sum_lem (med / 10000) (med % 10000 * 10000 + lo) 100000000 _ _ head lead value'
                  digits' (omega arith)))
      ]
    ]

-- `uj_cstr_fromint` prints the decimal numeral of the number, behind a minus sign if it is
-- negative, and so at most 11 characters: the digits have the absolute value as their value, and
-- no 0 stands before other digits.
pub uj_cstr_fromint-IsDecimal :
    (k : ℕ)
    → k < 2 ^ 32
    → (ds : List ℕ) × (uj_cstr_fromint k ≡ (if ltb k (2 ^ 31) then ds else b'-' ∷ ds))
      × IsDecimal (if ltb k (2 ^ 31) then k else 2 ^ 32 - k) ds
unfolding uj_cstr_fromint
uj_cstr_fromint-IsDecimal k h = elim (Bool-cases (ltb k (2 ^ 31))) [
  | inl pos ↦ (print_unsigned k, rw pos, rw pos (print_unsigned-IsDecimal k h))
  | inr neg ↦
      let e : negated k ≡ 2 ^ 32 - k = omega (arith, ltb→le k (2 ^ 31) neg) in
      (
        print_unsigned (2 ^ 32 - k),
        rw (neg, e),
        rw neg (print_unsigned-IsDecimal (2 ^ 32 - k) (omega (arith, ltb→le k (2 ^ 31) neg))),
      )
]
