-- ===== src/Cstr/Find.antt =====
-- `uj_cstr_find` finds the first occurrence.
use luavela.Base.{ℕ, zero, suc, ◌+◌, ◌-◌, ◌≤◌, ◌<◌, ◌≡◌, refl, ap, arith}
use luavela.Base.{true, false, Option, none, some, Bool-cases, inl, inr}
use luavela.Base.{List, [], ◌∷◌, ltb, ◌==◌, length, drop}
use luavela.Base.{length-drop, subst, ltb→lt, ltb→le}
use luavela.Cstr.{starts_with, find_fitting, uj_cstr_find}
use luavela.Cstr.Turns.{shift, first_match, find_loop_lem}

-- What an answer about the first `n` offsets means.
abbrev pub Found : List ℕ → List ℕ → ℕ → Option ℕ → Type 0
Found needle text n none = (j : ℕ) → j < n → starts_with needle (drop j text) ≡ false
Found needle text n (some i) =
    (i < n)
    × (starts_with needle (drop i text) ≡ true)
    × ((j : ℕ) → j < i → starts_with needle (drop j text) ≡ false)

starts_with_nothing : (needle : List ℕ) → 1 ≤ length needle → starts_with needle [] ≡ false
unfolding starts_with
starts_with_nothing [] h = absurd (omega arith)
starts_with_nothing (c ∷ needle) h = refl

starts_with-length :
    (needle text : List ℕ) → length text < length needle → starts_with needle text ≡ false
unfolding starts_with
starts_with-length [] text h = absurd (omega arith)
starts_with-length (c ∷ needle) [] h = refl
starts_with-length (c ∷ needle) (x ∷ text) h = elim (Bool-cases (c == x)) [
  | inl e ↦ rw e (starts_with-length needle text (omega arith))
  | inr e ↦ rw e refl
]

drop_nothing : (j : ℕ) → drop {A = ℕ} j [] ≡ []
drop_nothing zero = refl
drop_nothing (suc j) = refl

below_suc :
    (needle : List ℕ) (x : ℕ) (text : List ℕ) (n : ℕ)
    → starts_with needle (x ∷ text) ≡ false
    → ((j : ℕ) → j < n → starts_with needle (drop j text) ≡ false)
    → (j : ℕ) → j < suc n
    → starts_with needle (drop j (x ∷ text)) ≡ false
below_suc needle x text n miss h zero lt = miss
below_suc needle x text n miss h (suc j) lt = h j (omega arith)

shift_zero : (o : Option ℕ) → shift 0 o ≡ o
shift_zero none = refl
shift_zero (some i) = ap (λ k. some k) (omega arith)

shift-Found :
    (needle : List ℕ) (x : ℕ) (text : List ℕ) (n : ℕ) (o : Option ℕ)
    → starts_with needle (x ∷ text) ≡ false
    → Found needle text n o
    → Found needle (x ∷ text) (suc n) (shift 1 o)
shift-Found needle x text n none miss h = below_suc needle x text n miss (λ j lt. h j lt)
shift-Found needle x text n (some i) miss h =
    let next : suc i ≡ 1 + i = omega arith in
    (
      omega (arith, h.0),
      subst (λ j. starts_with needle (drop j (x ∷ text)) ≡ true) next h.1,
      subst (λ m. (j : ℕ) → j < m → starts_with needle (drop j (x ∷ text)) ≡ false) next
          (below_suc needle x text i miss h.2),
    )

first_match-Found :
    (needle text : List ℕ) (n : ℕ)
    → 1 ≤ length needle
    → Found needle text n (first_match needle text n)
unfolding first_match
first_match-Found needle text zero h = λ j lt. absurd (omega arith)
first_match-Found needle [] (suc n) h = λ j lt. rw (drop_nothing j) (starts_with_nothing needle h)
first_match-Found needle (x ∷ text) (suc n) h = elim (Bool-cases (starts_with needle (x ∷ text))) [
  | inl e ↦ rw e (omega arith, e, λ j lt. absurd (omega arith))
  | inr e ↦ rw e (shift-Found needle x text n _ e (first_match-Found needle text n h))
]

-- What `uj_cstr_find` promises: the first offset of the text at which the needle stands.
abbrev pub IsFirst : List ℕ → List ℕ → Option ℕ → Type 0
IsFirst haystack needle none = (j : ℕ) → starts_with needle (drop j haystack) ≡ false
IsFirst haystack needle (some i) =
    (starts_with needle (drop i haystack) ≡ true)
    × (i + length needle ≤ length haystack)
    × ((j : ℕ) → j < i → starts_with needle (drop j haystack) ≡ false)

Found-IsFirst :
    (needle haystack : List ℕ) (n : ℕ) (o : Option ℕ)
    → 1 ≤ length needle
    → n + length needle ≡ length haystack + 1
    → Found needle haystack n o
    → IsFirst haystack needle o
Found-IsFirst needle haystack n none h e f = λ j. elim (Bool-cases (ltb j n)) [
  | inl lt ↦ f j (ltb→lt j n lt)
  | inr le ↦
      let past = ltb→le j n le in
      starts_with-length needle (drop j haystack) (rw (length-drop j haystack) (omega arith))
]
Found-IsFirst needle haystack n (some i) h e f = (f.1, omega (arith, f.0), f.2)

starts_with_empty : (text : List ℕ) → starts_with [] text ≡ true
unfolding starts_with
starts_with_empty text = refl

ltb_zero : (n : ℕ) → ltb n 0 ≡ false
ltb_zero n = ground arith

-- `uj_cstr_find` returns the first position of the haystack at which the needle stands, and no
-- position only if it stands nowhere: the loop has turns enough, and reads no character past
-- the end.
pub uj_cstr_find-IsFirst :
    (haystack needle : List ℕ) → IsFirst haystack needle (uj_cstr_find haystack needle)
unfolding uj_cstr_find find_fitting
uj_cstr_find-IsFirst haystack [] =
    rw (ltb_zero (length haystack))
      (starts_with_empty haystack, omega arith, λ j lt. absurd (omega arith))
uj_cstr_find-IsFirst haystack (c ∷ rest) =
    let tries = length haystack - length rest in
    elim (Bool-cases (ltb (length haystack) (suc (length rest)))) [
      | inl long ↦
          let short = ltb→lt _ _ long in
          rw long (λ j.
            starts_with-length (c ∷ rest) (drop j haystack)
              (rw (length-drop j haystack) (omega arith)))
      | inr fits ↦
          let enough = ltb→le _ _ fits in
          rw (fits, find_loop_lem tries c rest 0 haystack tries (omega arith), shift_zero)
            (Found-IsFirst (c ∷ rest) haystack tries _ (omega arith) (omega arith)
              (first_match-Found (c ∷ rest) haystack tries (omega arith)))
    ]
