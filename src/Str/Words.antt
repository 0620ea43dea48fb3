-- ===== src/Str/Words.antt =====
-- What one word of four bytes says of the order of two texts.
use luavela.Base.{ℕ, ◌+◌, ◌-◌, ◌*◌, ◌/◌, ◌%◌, ◌^◌, ◌≤◌, ◌<◌, ◌≡◌, refl, ◌∙◌, arith}
use luavela.Base.{false, ◌||◌, Bool-cases, inl, inr}
use luavela.Base.{◌==◌, ltb, leb, if◌then◌else◌, eqb→eq}
use luavela.Str.Compare.{lj_bswap, words_differ, order, or_then, sign}

bswap_word :
    (x y z w : ℕ)
    → x < 256
    → y < 256
    → z < 256
    → w < 256
    → lj_bswap (x + y * 2 ^ 8 + z * 2 ^ 16 + w * 2 ^ 24) ≡ x * 2 ^ 24 + y * 2 ^ 16 + z * 2 ^ 8 + w
unfolding lj_bswap
bswap_word x y z w hx hy hz hw = omega arith

-- The shift for one, two and three bytes that are left, and for more.
differ_one :
    (i n va vb d : ℕ)
    → n ≡ i + 1
    → n < 2 ^ 31
    → words_differ i n va vb d ≡ (
        let wa = lj_bswap va / 2 ^ 24 in
        let wb = lj_bswap vb / 2 ^ 24 in
        if wa == wb then d else if ltb wa wb then 2 ^ 32 - 1 else 1)
unfolding words_differ
differ_one i n va vb d e small =
    let left : (i + 2 ^ 64 - n) % 2 ^ 64 ≡ 2 ^ 64 - 1 = omega arith in rw left refl

differ_two :
    (i n va vb d : ℕ)
    → n ≡ i + 2
    → n < 2 ^ 31
    → words_differ i n va vb d ≡ (
        let wa = lj_bswap va / 2 ^ 16 in
        let wb = lj_bswap vb / 2 ^ 16 in
        if wa == wb then d else if ltb wa wb then 2 ^ 32 - 1 else 1)
unfolding words_differ
differ_two i n va vb d e small =
    let left : (i + 2 ^ 64 - n) % 2 ^ 64 ≡ 2 ^ 64 - 2 = omega arith in rw left refl

differ_three :
    (i n va vb d : ℕ)
    → n ≡ i + 3
    → n < 2 ^ 31
    → words_differ i n va vb d ≡ (
        let wa = lj_bswap va / 2 ^ 8 in
        let wb = lj_bswap vb / 2 ^ 8 in if wa == wb then d else if ltb wa wb then 2 ^ 32 - 1 else 1)
unfolding words_differ
differ_three i n va vb d e small =
    let left : (i + 2 ^ 64 - n) % 2 ^ 64 ≡ 2 ^ 64 - 3 = omega arith in rw left refl

differ_more :
    (i n va vb d : ℕ)
    → i + 4 ≤ n
    → n < 2 ^ 31
    → words_differ i n va vb d ≡ (
        let wa = lj_bswap va in
        let wb = lj_bswap vb in if wa == wb then d else if ltb wa wb then 2 ^ 32 - 1 else 1)
unfolding words_differ
differ_more i n va vb d h small =
    let far : (leb (2 ^ 32 - 3) ((i + 2 ^ 64 - n) % 2 ^ 64 % 2 ^ 32)
          || ltb ((i + 2 ^ 64 - n) % 2 ^ 64 % 2 ^ 32) (2 ^ 31))
        ≡ false =
      ground arith in
    rw far refl

abbrev pub Octets : ℕ → ℕ → ℕ → ℕ → Type 0
Octets x y z w = (x < 256) × (y < 256) × (z < 256) × (w < 256)

-- The word of four bytes, the first one the lowest.
abbrev pub le : ℕ → ℕ → ℕ → ℕ → ℕ
le x y z w = x + y * 2 ^ 8 + z * 2 ^ 16 + w * 2 ^ 24

abbrev choose : ℕ → ℕ → ℕ → ℕ
choose a b d = if a == b then d else if ltb a b then 2 ^ 32 - 1 else 1

sign-choose : (a b d : ℕ) → sign (choose a b d) ≡ or_then (order a b) (sign d)
sign-choose a b d = ground arith

pub one_left :
    (x x₁ x₂ x₃ y y₁ y₂ y₃ i n d : ℕ)
    → Octets x x₁ x₂ x₃
    → Octets y y₁ y₂ y₃
    → n ≡ i + 1
    → n < 2 ^ 31
    → sign (
        if le x x₁ x₂ x₃ == le y y₁ y₂ y₃
        then d
        else words_differ i n (le x x₁ x₂ x₃) (le y y₁ y₂ y₃) d)
      ≡ or_then (order x y) (sign d)
one_left x x₁ x₂ x₃ y y₁ y₂ y₃ i n d hx hy e small =
    let tx : lj_bswap (le x x₁ x₂ x₃) / 2 ^ 24 ≡ x =
      rw (bswap_word x x₁ x₂ x₃ hx.0 hx.1 hx.2 hx.3) (omega arith) in
    let ty : lj_bswap (le y y₁ y₂ y₃) / 2 ^ 24 ≡ y =
      rw (bswap_word y y₁ y₂ y₃ hy.0 hy.1 hy.2 hy.3) (omega arith) in
    elim (Bool-cases (le x x₁ x₂ x₃ == le y y₁ y₂ y₃)) [
      | inl words ↦
          let eq : x ≡ y = omega (arith, eqb→eq _ _ words) in rw words (rw eq (ground arith))
      | inr words ↦
          rw (words, differ_one i n (le x x₁ x₂ x₃) (le y y₁ y₂ y₃) d e small, tx, ty)
            (sign-choose x y d)
    ]

pub two_left :
    (x x₁ x₂ x₃ y y₁ y₂ y₃ i n d : ℕ)
    → Octets x x₁ x₂ x₃
    → Octets y y₁ y₂ y₃
    → n ≡ i + 2
    → n < 2 ^ 31
    → sign (
        if le x x₁ x₂ x₃ == le y y₁ y₂ y₃
        then d
        else words_differ i n (le x x₁ x₂ x₃) (le y y₁ y₂ y₃) d)
      ≡ or_then (order x y) (or_then (order x₁ y₁) (sign d))
two_left x x₁ x₂ x₃ y y₁ y₂ y₃ i n d hx hy e small =
    let tx : lj_bswap (le x x₁ x₂ x₃) / 2 ^ 16 ≡ x * 2 ^ 8 + x₁ =
      rw (bswap_word x x₁ x₂ x₃ hx.0 hx.1 hx.2 hx.3) (omega arith) in
    let ty : lj_bswap (le y y₁ y₂ y₃) / 2 ^ 16 ≡ y * 2 ^ 8 + y₁ =
      rw (bswap_word y y₁ y₂ y₃ hy.0 hy.1 hy.2 hy.3) (omega arith) in
    elim (Bool-cases (le x x₁ x₂ x₃ == le y y₁ y₂ y₃)) [
      | inl words ↦
          let eq = eqb→eq _ _ words in
          let eq' : (x ≡ y) × (x₁ ≡ y₁) = omega arith in rw words (rw (eq'.0, eq'.1) (ground arith))
      | inr words ↦
          rw (words, differ_two i n (le x x₁ x₂ x₃) (le y y₁ y₂ y₃) d e small, tx, ty)
            (sign-choose (x * 2 ^ 8 + x₁) (y * 2 ^ 8 + y₁) d ∙ ground arith)
    ]

pub three_left :
    (x x₁ x₂ x₃ y y₁ y₂ y₃ i n d : ℕ)
    → Octets x x₁ x₂ x₃
    → Octets y y₁ y₂ y₃
    → n ≡ i + 3
    → n < 2 ^ 31
    → sign (
        if le x x₁ x₂ x₃ == le y y₁ y₂ y₃
        then d
        else words_differ i n (le x x₁ x₂ x₃) (le y y₁ y₂ y₃) d)
      ≡ or_then (order x y) (or_then (order x₁ y₁) (or_then (order x₂ y₂) (sign d)))
three_left x x₁ x₂ x₃ y y₁ y₂ y₃ i n d hx hy e small =
    let tx : lj_bswap (le x x₁ x₂ x₃) / 2 ^ 8 ≡ x * 2 ^ 16 + x₁ * 2 ^ 8 + x₂ =
      rw (bswap_word x x₁ x₂ x₃ hx.0 hx.1 hx.2 hx.3) (omega arith) in
    let ty : lj_bswap (le y y₁ y₂ y₃) / 2 ^ 8 ≡ y * 2 ^ 16 + y₁ * 2 ^ 8 + y₂ =
      rw (bswap_word y y₁ y₂ y₃ hy.0 hy.1 hy.2 hy.3) (omega arith) in
    elim (Bool-cases (le x x₁ x₂ x₃ == le y y₁ y₂ y₃)) [
      | inl words ↦
          let eq = eqb→eq _ _ words in
          let eq' : (x ≡ y) × (x₁ ≡ y₁) × (x₂ ≡ y₂) = omega arith in
          rw words (rw (eq'.0, eq'.1, eq'.2) (ground arith))
      | inr words ↦
          rw (words, differ_three i n (le x x₁ x₂ x₃) (le y y₁ y₂ y₃) d e small, tx, ty)
            (sign-choose (x * 2 ^ 16 + x₁ * 2 ^ 8 + x₂) (y * 2 ^ 16 + y₁ * 2 ^ 8 + y₂) d
              ∙ ground arith)
    ]

pub more_left :
    (x x₁ x₂ x₃ y y₁ y₂ y₃ i n d more : ℕ)
    → Octets x x₁ x₂ x₃
    → Octets y y₁ y₂ y₃
    → i + 4 ≤ n
    → n < 2 ^ 31
    → sign (
        if le x x₁ x₂ x₃ == le y y₁ y₂ y₃
        then more
        else words_differ i n (le x x₁ x₂ x₃) (le y y₁ y₂ y₃) d)
      ≡ or_then
          (order x y)
          (or_then (order x₁ y₁) (or_then (order x₂ y₂) (or_then (order x₃ y₃) (sign more))))
more_left x x₁ x₂ x₃ y y₁ y₂ y₃ i n d more hx hy e small =
    let tx = bswap_word x x₁ x₂ x₃ hx.0 hx.1 hx.2 hx.3 in
    let ty = bswap_word y y₁ y₂ y₃ hy.0 hy.1 hy.2 hy.3 in
    elim (Bool-cases (le x x₁ x₂ x₃ == le y y₁ y₂ y₃)) [
      | inl words ↦
          let eq = eqb→eq _ _ words in
          let eq' : (x ≡ y) × (x₁ ≡ y₁) × (x₂ ≡ y₂) × (x₃ ≡ y₃) = omega arith in
          rw words (rw (eq'.0, eq'.1, eq'.2, eq'.3) (ground arith))
      | inr words ↦
          rw (words, differ_more i n (le x x₁ x₂ x₃) (le y y₁ y₂ y₃) d e small, tx, ty)
            (ground arith)
    ]
