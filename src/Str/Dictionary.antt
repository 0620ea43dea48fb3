-- ===== src/Str/Dictionary.antt =====
-- The order of strings is that of a dictionary.
use luavela.Base.{ℕ, zero, suc, ◌+◌, ◌-◌, ◌%◌, ◌^◌, ◌≤◌, ◌<◌, ◌≡◌, refl, ap, ◌∙◌, arith}
use luavela.Base.{true, false, min}
use luavela.Base.{List, [], ◌∷◌, ltb, if◌then◌else◌, length, drop, All}
use luavela.Str.Compare.{
  byte_at, read_word, cmp_words, uj_str_cmp, order, or_then, sign, dictionary,
}
use luavela.Str.Words.{Octets, one_left, two_left, three_left, more_left}

cmp_ended :
    (turns i n : ℕ) (a : List ℕ) (beyond_a : ℕ → ℕ) (b : List ℕ) (beyond_b : ℕ → ℕ) (d : ℕ)
    → n ≤ i
    → cmp_words turns i n a beyond_a b beyond_b d ≡ d
unfolding cmp_words
cmp_ended zero i n a beyond_a b beyond_b d h = refl
cmp_ended (suc turns) i n a beyond_a b beyond_b d h =
    let ended : ltb i n ≡ false = ground arith in rw ended refl

-- The difference of the lengths decides where one text ends.
abbrev difference : List ℕ → List ℕ → ℕ
difference a b = (length a + 2 ^ 64 - length b) % 2 ^ 64 % 2 ^ 32

sign-difference_left : (b : List ℕ) → length b < 2 ^ 31 → sign (difference [] b) ≡ dictionary [] b
unfolding dictionary
sign-difference_left [] h = refl
sign-difference_left (y ∷ b) h = ground arith

sign-difference_right : (a : List ℕ) → length a < 2 ^ 31 → sign (difference a []) ≡ dictionary a []
unfolding dictionary
sign-difference_right [] h = refl
sign-difference_right (x ∷ a) h = ground arith

module _ (beyond_a beyond_b : ℕ → ℕ) (octets_a : (i : ℕ) → beyond_a i < 256)
    (octets_b : (i : ℕ) → beyond_b i < 256) where
  octets_at :
      (s : List ℕ) (beyond : ℕ → ℕ)
      → All (λ c. c < 256) s
      → ((i : ℕ) → beyond i < 256)
      → (i : ℕ) → byte_at s beyond i < 256
  unfolding byte_at
  octets_at [] beyond o h zero = omega arith
  octets_at [] beyond o h (suc i) = h i
  octets_at (c ∷ s) beyond o h zero = o.0
  octets_at (c ∷ s) beyond o h (suc i) = octets_at s beyond o.1 h i

  -- The byte that a text or the memory behind it has at `i`.
  abbrev at_a : List ℕ → ℕ → ℕ
  at_a a i = byte_at a beyond_a i

  abbrev at_b : List ℕ → ℕ → ℕ
  at_b b i = byte_at b beyond_b i

  four_bytes :
      (s : List ℕ) (beyond : ℕ → ℕ)
      → All (λ c. c < 256) s
      → ((i : ℕ) → beyond i < 256)
      → Octets (byte_at s beyond 0) (byte_at s beyond 1) (byte_at s beyond 2) (byte_at s beyond 3)
  four_bytes s beyond o h = (
    octets_at s beyond o h 0,
    octets_at s beyond o h 1,
    octets_at s beyond o h 2,
    octets_at s beyond o h 3,
  )

  module _ (turns i n : ℕ) (a b : List ℕ) (d : ℕ) (small : n < 2 ^ 31) (oa : All (λ c. c < 256) a)
      (ob : All (λ c. c < 256) b) where
    step_one :
        n ≡ i + 1
        → sign (cmp_words (suc turns) i n a beyond_a b beyond_b d)
          ≡ or_then (order (at_a a 0) (at_b b 0)) (sign d)
    unfolding cmp_words read_word
    step_one e =
        let runs : ltb i n ≡ true = ground arith in
        rw (runs, cmp_ended turns (i + 4) n (drop 4 a) beyond_a (drop 4 b) beyond_b d (omega arith))
          (one_left _ _ _ _ _ _ _ _ i n d (four_bytes a beyond_a oa octets_a)
            (four_bytes b beyond_b ob octets_b) e small)

    step_two :
        n ≡ i + 2
        → sign (cmp_words (suc turns) i n a beyond_a b beyond_b d)
          ≡ or_then (order (at_a a 0) (at_b b 0)) (or_then (order (at_a a 1) (at_b b 1)) (sign d))
    unfolding cmp_words read_word
    step_two e =
        let runs : ltb i n ≡ true = ground arith in
        rw (runs, cmp_ended turns (i + 4) n (drop 4 a) beyond_a (drop 4 b) beyond_b d (omega arith))
          (two_left _ _ _ _ _ _ _ _ i n d (four_bytes a beyond_a oa octets_a)
            (four_bytes b beyond_b ob octets_b) e small)

    step_three :
        n ≡ i + 3
        → sign (cmp_words (suc turns) i n a beyond_a b beyond_b d)
          ≡ or_then (order (at_a a 0) (at_b b 0)) (
              or_then
                (order (at_a a 1) (at_b b 1))
                (or_then (order (at_a a 2) (at_b b 2)) (sign d)))
    unfolding cmp_words read_word
    step_three e =
        let runs : ltb i n ≡ true = ground arith in
        rw (runs, cmp_ended turns (i + 4) n (drop 4 a) beyond_a (drop 4 b) beyond_b d (omega arith))
          (three_left _ _ _ _ _ _ _ _ i n d (four_bytes a beyond_a oa octets_a)
            (four_bytes b beyond_b ob octets_b) e small)

    step_more :
        i + 4 ≤ n
        → sign (cmp_words (suc turns) i n a beyond_a b beyond_b d)
          ≡ or_then (order (at_a a 0) (at_b b 0)) (
              or_then (order (at_a a 1) (at_b b 1)) (
                or_then (order (at_a a 2) (at_b b 2)) (
                  or_then
                    (order (at_a a 3) (at_b b 3))
                    (sign (cmp_words turns (i + 4) n (drop 4 a) beyond_a (drop 4 b) beyond_b d)))))
    unfolding cmp_words read_word
    step_more h =
        let runs : ltb i n ≡ true = ground arith in
        rw runs (
          more_left _ _ _ _ _ _ _ _ i n d _ (four_bytes a beyond_a oa octets_a)
            (four_bytes b beyond_b ob octets_b) h small)

  cmp_words-dictionary :
      (turns i n : ℕ) (a b : List ℕ)
      → min (length a) (length b) ≤ turns
      → n ≡ i + min (length a) (length b)
      → i + length a < 2 ^ 31
      → i + length b < 2 ^ 31
      → All (λ c. c < 256) a
      → All (λ c. c < 256) b
      → sign (cmp_words turns i n a beyond_a b beyond_b (difference a b)) ≡ dictionary a b
  unfolding dictionary byte_at
  cmp_words-dictionary turns i n [] b enough e sa sb oa ob =
      rw (cmp_ended turns i n [] beyond_a b beyond_b (difference [] b) (omega arith))
        (sign-difference_left b (omega arith))
  cmp_words-dictionary turns i n (x ∷ a) [] enough e sa sb oa ob =
      rw (cmp_ended turns i n (x ∷ a) beyond_a [] beyond_b (difference (x ∷ a) []) (omega arith))
        (sign-difference_right (x ∷ a) (omega arith))
  cmp_words-dictionary zero i n (x ∷ a) (y ∷ b) enough e sa sb oa ob = absurd (omega arith)
  cmp_words-dictionary (suc turns) i n (x ∷ []) (y ∷ b) enough e sa sb oa ob =
      let same_ends : difference (x ∷ []) (y ∷ b) ≡ difference ([]) (b) = omega arith in
      step_one turns i n (x ∷ []) (y ∷ b) (difference (x ∷ []) (y ∷ b)) (omega arith) oa ob
        (omega arith)
      ∙ ap (λ o. or_then (order x y) (o))
          (ap sign same_ends ∙ sign-difference_left (b) (omega arith))
  cmp_words-dictionary (suc turns) i n (x ∷ x₁ ∷ a) (y ∷ []) enough e sa sb oa ob =
      let same_ends : difference (x ∷ x₁ ∷ a) (y ∷ []) ≡ difference (x₁ ∷ a) ([]) = omega arith in
      step_one turns i n (x ∷ x₁ ∷ a) (y ∷ []) (difference (x ∷ x₁ ∷ a) (y ∷ [])) (omega arith) oa
        ob (omega arith)
      ∙ ap (λ o. or_then (order x y) (o))
          (ap sign same_ends ∙ sign-difference_right (x₁ ∷ a) (omega arith))
  cmp_words-dictionary (suc turns) i n (x ∷ x₁ ∷ []) (y ∷ y₁ ∷ b) enough e sa sb oa ob =
      let same_ends : difference (x ∷ x₁ ∷ []) (y ∷ y₁ ∷ b) ≡ difference ([]) (b) = omega arith in
      step_two turns i n (x ∷ x₁ ∷ []) (y ∷ y₁ ∷ b) (difference (x ∷ x₁ ∷ []) (y ∷ y₁ ∷ b))
        (omega arith) oa ob (omega arith)
      ∙ ap (λ o. or_then (order x y) (or_then (order x₁ y₁) (o)))
          (ap sign same_ends ∙ sign-difference_left (b) (omega arith))
  cmp_words-dictionary (suc turns) i n (x ∷ x₁ ∷ x₂ ∷ a) (y ∷ y₁ ∷ []) enough e sa sb oa ob =
      let same_ends : difference (x ∷ x₁ ∷ x₂ ∷ a) (y ∷ y₁ ∷ []) ≡ difference (x₂ ∷ a) ([]) =
        omega arith in
      step_two turns i n (x ∷ x₁ ∷ x₂ ∷ a) (y ∷ y₁ ∷ [])
        (difference (x ∷ x₁ ∷ x₂ ∷ a) (y ∷ y₁ ∷ [])) (omega arith) oa ob (omega arith)
      ∙ ap (λ o. or_then (order x y) (or_then (order x₁ y₁) (o)))
          (ap sign same_ends ∙ sign-difference_right (x₂ ∷ a) (omega arith))
  cmp_words-dictionary (suc turns) i n (x ∷ x₁ ∷ x₂ ∷ []) (y ∷ y₁ ∷ y₂ ∷ b) enough e sa sb oa ob =
      let same_ends : difference (x ∷ x₁ ∷ x₂ ∷ []) (y ∷ y₁ ∷ y₂ ∷ b) ≡ difference ([]) (b) =
        omega arith in
      step_three turns i n (x ∷ x₁ ∷ x₂ ∷ []) (y ∷ y₁ ∷ y₂ ∷ b)
        (difference (x ∷ x₁ ∷ x₂ ∷ []) (y ∷ y₁ ∷ y₂ ∷ b)) (omega arith) oa ob (omega arith)
      ∙ ap (λ o. or_then (order x y) (or_then (order x₁ y₁) (or_then (order x₂ y₂) (o))))
          (ap sign same_ends ∙ sign-difference_left (b) (omega arith))
  cmp_words-dictionary (suc turns) i n (x ∷ x₁ ∷ x₂ ∷ x₃ ∷ a) (y ∷ y₁ ∷ y₂ ∷ []) enough e sa sb oa
        ob =
      let same_ends : difference (x ∷ x₁ ∷ x₂ ∷ x₃ ∷ a) (y ∷ y₁ ∷ y₂ ∷ [])
          ≡ difference (x₃ ∷ a) ([]) =
        omega arith in
      step_three turns i n (x ∷ x₁ ∷ x₂ ∷ x₃ ∷ a) (y ∷ y₁ ∷ y₂ ∷ [])
        (difference (x ∷ x₁ ∷ x₂ ∷ x₃ ∷ a) (y ∷ y₁ ∷ y₂ ∷ [])) (omega arith) oa ob (omega arith)
      ∙ ap (λ o. or_then (order x y) (or_then (order x₁ y₁) (or_then (order x₂ y₂) (o))))
          (ap sign same_ends ∙ sign-difference_right (x₃ ∷ a) (omega arith))
  cmp_words-dictionary (suc turns) i n (x ∷ x₁ ∷ x₂ ∷ x₃ ∷ a) (y ∷ y₁ ∷ y₂ ∷ y₃ ∷ b) enough e sa sb
        oa ob =
      let same_ends : difference (x ∷ x₁ ∷ x₂ ∷ x₃ ∷ a) (y ∷ y₁ ∷ y₂ ∷ y₃ ∷ b) ≡ difference a b =
        omega arith in
      step_more turns i n (x ∷ x₁ ∷ x₂ ∷ x₃ ∷ a) (y ∷ y₁ ∷ y₂ ∷ y₃ ∷ b)
        (difference (x ∷ x₁ ∷ x₂ ∷ x₃ ∷ a) (y ∷ y₁ ∷ y₂ ∷ y₃ ∷ b)) (omega arith) oa ob (omega arith)
      ∙ ap
          (λ o.
            or_then (order x y)
              (or_then (order x₁ y₁) (or_then (order x₂ y₂) (or_then (order x₃ y₃) o))))
          (ap (λ d. sign (cmp_words turns (i + 4) n a beyond_a b beyond_b d)) same_ends
            ∙ cmp_words-dictionary turns (i + 4) n a b (omega arith) (omega arith) (omega arith)
                (omega arith) oa.1.1.1.1 ob.1.1.1.1)

  -- For texts below 2 ^ 31, `uj_str_cmp` is negative, 0 or positive as the first text stands
  -- before, at or behind the second one in a dictionary ordered by bytes, whatever the memory
  -- behind the texts holds.
  pub uj_str_cmp-dictionary :
      (a b : List ℕ)
      → length a < 2 ^ 31
      → length b < 2 ^ 31
      → All (λ c. c < 256) a
      → All (λ c. c < 256) b
      → sign (uj_str_cmp a beyond_a b beyond_b) ≡ dictionary a b
  unfolding uj_str_cmp
  uj_str_cmp-dictionary a b sa sb oa ob =
      let n = if ltb (length b) (length a) then length b else length a in
      let shorter : n ≡ min (length a) (length b) = ground arith in
      cmp_words-dictionary n 0 n a b (omega arith) (omega arith) (omega arith) (omega arith) oa ob
