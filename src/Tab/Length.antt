-- ===== src/Tab/Length.antt =====
-- lj_tab_len of src/lj_tab.c: the search for a boundary.
use luavela.Base.{
  ℕ, zero, suc, ◌+◌, ◌-◌, ◌*◌, ◌/◌, ◌%◌, ◌^◌, ◌≤◌, ◌<◌, ◌≡◌, ◌≢◌, refl, sym, ◌∙◌, subst, arith,
}
use luavela.Base.{Bool, true, false, not, ◌&&◌, Bool-cases, inl, inr, ◌⊎◌, Option, none, some}
use luavela.Base.{ltb, ltb→lt, ltb→le, ◌==◌, eqb→eq, if-cases, if◌then◌else◌}
use native.Mathlib.Nat.{pow-suc, one-le-pow}
use luavela.Tab.{Values, TValue, GcTab, tvisnil}
use luavela.Tab.Access.{lj_tab_getint}
use luavela.Tab.Create.{not_zero}

abbrev pub not_nil : Option TValue → Bool
not_nil none = false
not_nil (some v) = not (tvisnil v)

-- `(tv = lj_tab_getint(t, (int32_t)j)) && !tvisnil(tv)`
unfoldable pub present : Values → GcTab → ℕ → Bool
present values t j = not_nil (lj_tab_getint values t (j % 2 ^ 32))

-- The binary search between `i` and `j`: the test holds at `i` and not at `j`.
unfoldable pub halve : (ℕ → Bool) → ℕ → ℕ → ℕ → ℕ
halve test zero i j = i
halve test (suc fuel) i j =
    let m = (i + j) / 2 in
    let i' = if test m then m else i in
    let j' = if test m then j else m in
    let rest = halve test fuel i' j' in if ltb 1 (j - i) then rest else i

-- The loop that doubles `j`: where it stops, or its overflow; `endless` is a lack of fuel.
pub data Doubling : Type 0 where
  between : ℕ → ℕ → Doubling
  overflow endless : Doubling

unfoldable pub double : (ℕ → Bool) → ℕ → ℕ → ℕ → Doubling
double test zero i j = endless
double test (suc fuel) i j =
    let rest = double test fuel j (j * 2) in
    if test j then (if ltb (2 ^ 31 - 3) (j * 2) then overflow else rest) else between i j

-- The linear search.
unfoldable pub linear : (ℕ → Bool) → ℕ → ℕ → Option ℕ
linear test zero i = none
linear test (suc fuel) i =
    let rest = linear test fuel (i + 1) in if test i then rest else some (i - 1)

-- What follows the loop that doubles.
unfoldable pub search_from : Values → GcTab → Doubling → Option ℕ
search_from values t (between i j) = some (halve (present values t) (j - i) i j)
search_from values t overflow = linear (present values t) (t.asize + t.hmask + 3) 1
search_from values t endless = none

unfoldable pub unbound_search : Values → GcTab → ℕ → Option ℕ
unbound_search values t j = search_from values t (double (present values t) 32 j (j + 1))

unfoldable pub lj_tab_len : Values → GcTab → Option ℕ
lj_tab_len values t =
    let j = t.asize in
    if ltb 1 j && tvisnil (t.array (j - 1))
    then some (halve (λ m. not (tvisnil (t.array (m - 1)))) (j - 1) 1 j - 1)
    else let j = j - 1 in if not_zero t.hmask then unbound_search values t j else some j

-- A present index, or 0, before one that is not present.
unfoldable pub IsBoundary : (ℕ → Bool) → ℕ → Type 0
IsBoundary test n = ((n ≡ 0) ⊎ (test n ≡ true)) × (test (n + 1) ≡ false)

-- Where the binary search starts from `lowest`, it ends in a boundary.
pub halve_lem :
    (test : ℕ → Bool) (lowest fuel i j : ℕ)
    → j ≤ i + fuel
    → i < j
    → (i ≡ lowest) ⊎ (test i ≡ true)
    → test j ≡ false
    → lowest ≤ i
    → (let n = halve test fuel i j in
        ((n ≡ lowest) ⊎ (test n ≡ true)) × (test (n + 1) ≡ false) × (lowest ≤ n) × (n < j))
unfolding halve
halve_lem test lowest zero i j enough lt low high le = absurd (omega arith)
halve_lem test lowest (suc fuel) i j enough lt low high le = elim (Bool-cases (ltb 1 (j - i))) [
  | inr near ↦
      let next : j ≡ i + 1 = ground arith in
      rw near (low, subst (λ k. test k ≡ false) next high, le, lt)
  | inl far ↦
      let gap : 1 < j - i = ltb→lt 1 (j - i) far in
      elim (Bool-cases (test ((i + j) / 2))) [
        | inl yes_m ↦
            let rest =
              halve_lem test lowest fuel ((i + j) / 2) j (omega arith) (omega arith) (inr yes_m)
                high (omega arith) in
            rw (far, yes_m) rest
        | inr no_m ↦
            let rest =
              halve_lem test lowest fuel i ((i + j) / 2) (omega arith) (omega arith) low no_m le in
            rw (far, no_m) (rest.0, rest.1, rest.2, omega (arith, rest.3))
      ]
]

-- What the loop that doubles ends in, with enough fuel.
pub data Stopped (test : ℕ → Bool) : Doubling → Type 0 where
  stopped :
      (i j : ℕ)
      → i < j
      → (i ≡ 0) ⊎ (test i ≡ true)
      → test j ≡ false
      → j ≤ 2 ^ 31
      → Stopped test (between i j)
  overflowed : Stopped test overflow

pub double-Stopped :
    (test : ℕ → Bool) (fuel s i j : ℕ)
    → s + fuel ≡ 31
    → 2 ^ s ≤ j
    → j < 2 ^ 31
    → i < j
    → (i ≡ 0) ⊎ (test i ≡ true)
    → Stopped test (double test (suc fuel) i j)
unfolding double
double-Stopped test zero s i j e pow small lt low =
    let all : s ≡ 31 = omega arith in
    let large : 2 ^ 31 ≤ j = subst (λ n. 2 ^ n ≤ j) all pow in absurd (omega arith)
double-Stopped test (suc fuel) s i j e pow small lt low =
    if-cases (Stopped test) (test j) _ _
      (λ yes_j.
        if-cases (Stopped test) (ltb (2 ^ 31 - 3) (j * 2)) _ _ (λ over. overflowed)
          (λ fits.
            let le = ltb→le (2 ^ 31 - 3) (j * 2) fits in
            double-Stopped test fuel (suc s) j (j * 2) (omega arith) (omega (arith, pow-suc 2 s))
              (omega arith) (omega (arith, one-le-pow 2 s)) (inr yes_j)))
      (λ no_j. stopped i j lt low no_j (omega arith))

-- An injective function from more than `n` numbers leaves the numbers below `n`.
pub pigeons :
    (n : ℕ) (f : ℕ → ℕ)
    → ((i : ℕ) → i ≤ n → f i < n)
    → ((i j : ℕ) → i ≤ n → j ≤ n → f i ≡ f j → i ≡ j)
    → true ≡ false
pigeons zero f below injective = let none_below = below 0 (omega arith) in absurd (omega arith)
pigeons (suc n) f below injective =
    let last = f (suc n) in
    let g : ℕ → ℕ = λ i. if f i == n then last else f i in
    pigeons n g
      (λ i le.
        if-cases (λ x. x < n) (f i == n) _ _
          (λ at.
            let under = below (suc n) (omega arith) in
            let apart : last ≢ n = λ e.
              let same =
                injective i (suc n) (omega arith) (omega arith) (eqb→eq (f i) n at ∙ sym e) in
              absurd (omega arith) in
            omega (arith, apart))
          (λ off. let under = below i (omega arith) in ground (arith, under, off)))
      (λ i j le le' e. elim (Bool-cases (f i == n)) [
        | inl at ↦ elim (Bool-cases (f j == n)) [
          | inl at' ↦
              injective i j (omega arith) (omega arith)
                (eqb→eq (f i) n at ∙ sym (eqb→eq (f j) n at'))
          | inr off ↦
              let same : f (suc n) ≡ f j = rw (at, off) at e in
              let end = injective (suc n) j (omega arith) (omega arith) same in absurd (omega arith)
        ]
        | inr off ↦ elim (Bool-cases (f j == n)) [
          | inl at ↦
              let same : f i ≡ f (suc n) = rw (at, off) at e in
              let end = injective i (suc n) (omega arith) (omega arith) same in absurd (omega arith)
          | inr off' ↦ injective i j (omega arith) (omega arith) (rw (off, off') at e)
        ]
      ])

-- The linear search ends within its fuel at a boundary, or finds as many present indices.
pub linear_lem :
    (test : ℕ → Bool) (fuel i : ℕ)
    → 1 ≤ i
    → (i ≡ 1) ⊎ (test (i - 1) ≡ true)
    → ((n : ℕ) × (linear test fuel i ≡ some n)
        × ((n ≡ 0) ⊎ (test n ≡ true))
        × (test (n + 1) ≡ false))
      ⊎ ((k : ℕ) → i ≤ k → k < i + fuel → test k ≡ true)
unfolding linear
linear_lem test zero i pos low = inr (λ k le lt. absurd (omega arith))
linear_lem test (suc fuel) i pos low = elim (Bool-cases (test i)) [
  | inr no_i ↦
      let next : i - 1 + 1 ≡ i = omega arith in
      let start : (i - 1 ≡ 0) ⊎ (test (i - 1) ≡ true) = elim low [
        | inl one ↦ inl (omega arith)
        | inr yes_i ↦ inr yes_i
      ] in
      inl (i - 1, rw no_i refl, start, rw next no_i)
  | inl yes_i ↦
      let back : i + 1 - 1 ≡ i = omega arith in
      elim (linear_lem test fuel (i + 1) (omega arith) (inr (rw back yes_i))) [
        | inl found ↦ inl (rw yes_i found)
        | inr all ↦ inr (λ k le lt. elim (Bool-cases (k == i)) [
          | inl at ↦ rw (eqb→eq k i at) yes_i
          | inr off ↦ all k (ground arith) (omega arith)
        ])
      ]
]
