-- ===== src/Cstr/Turns.antt =====
-- The loop of `uj_cstr_find` tries each offset in turn.
use luavela.Base.{ℕ, zero, suc, ◌+◌, ◌-◌, ◌≤◌, ◌≡◌, refl, ap, sym, ◌∙◌, arith}
use luavela.Base.{Bool, true, false, Option, none, some, Bool-cases, Option-cases, inl, inr}
use luavela.Base.{List, [], ◌∷◌, ◌==◌, if◌then◌else◌, drop}
use luavela.Base.{subst}
use luavela.Cstr.{memchr, starts_with, find_loop}

abbrev pub shift : ℕ → Option ℕ → Option ℕ
shift p none = none
shift p (some i) = some (p + i)

-- The first offset below `n` at which the needle stands, by trying each in turn.
unfoldable pub first_match : List ℕ → List ℕ → ℕ → Option ℕ
first_match needle text zero = none
first_match needle [] (suc n) = none
first_match needle (x ∷ text) (suc n) =
    if starts_with needle (x ∷ text) then some 0 else shift 1 (first_match needle text n)

shift-shift : (p q : ℕ) (o : Option ℕ) → shift p (shift q o) ≡ shift (p + q) o
shift-shift p q none = refl
shift-shift p q (some i) = ap (λ n. some n) (omega arith)

eqb_comm : (a b : ℕ) → a == b ≡ b == a
eqb_comm a b = ground arith

memchr_hit :
    (c x : ℕ) (text : List ℕ) (n : ℕ) → x == c ≡ true → memchr c (x ∷ text) (suc n) ≡ some 0
unfolding memchr
memchr_hit c x text n e = rw e refl

memchr_miss :
    (c x : ℕ) (text : List ℕ) (n : ℕ)
    → x == c ≡ false
    → memchr c (x ∷ text) (suc n) ≡ shift 1 (memchr c text n)
unfolding memchr
memchr_miss c x text n e = elim (Option-cases (memchr c text n)) [
  | inl m ↦ rw (e, m) refl
  | inr (i, m) ↦ rw (e, m) refl
]

match_miss :
    (c x : ℕ) (needle text : List ℕ) (n : ℕ)
    → x == c ≡ false
    → first_match (c ∷ needle) (x ∷ text) (suc n) ≡ shift 1 (first_match (c ∷ needle) text n)
unfolding first_match starts_with
match_miss c x needle text n e = rw (eqb_comm c x, e) refl

match_hit :
    (c x : ℕ) (needle text : List ℕ) (n : ℕ)
    → x == c ≡ true
    → first_match (c ∷ needle) (x ∷ text) (suc n)
      ≡ (if starts_with needle text then some 0 else shift 1 (first_match (c ∷ needle) text n))
unfolding first_match starts_with
match_hit c x needle text n e = rw (eqb_comm c x, e) refl

memchr-none :
    (c : ℕ) (needle text : List ℕ) (n : ℕ)
    → memchr c text n ≡ none
    → first_match (c ∷ needle) text n ≡ none
unfolding memchr first_match
memchr-none c needle text zero h = refl
memchr-none c needle [] (suc n) h = refl
memchr-none c needle (x ∷ text) (suc n) h = elim (Bool-cases (x == c)) [
  | inl e ↦ let hit = memchr_hit c x text n e in cc
  | inr e ↦ elim (Option-cases (memchr c text n)) [
    | inl m ↦ match_miss c x needle text n e ∙ rw (memchr-none c needle text n m) refl
    | inr (i, m) ↦
        let miss : memchr c (x ∷ text) (suc n) ≡ some (1 + i) =
          memchr_miss c x text n e ∙ ap (shift 1) m in
        cc
  ]
]

-- The first match, where the first character of the needle first stands at `p`.
abbrev Answer : ℕ → List ℕ → List ℕ → ℕ → ℕ → Type 0
Answer c needle text n p = first_match (c ∷ needle) text n ≡ (
    if starts_with needle (drop (suc p) text)
    then some p
    else shift (suc p) (first_match (c ∷ needle) (drop (suc p) text) (n - suc p)))

if-shift :
    (b : Bool) (i j : ℕ) (f : ℕ → Option ℕ) (m m' : ℕ)
    → 1 + i ≡ j
    → m ≡ m'
    → shift 1 (if b then some i else shift (suc i) (f m))
      ≡ (if b then some j else shift (suc j) (f m'))
if-shift true i j f m m' ij mm = ap (λ k. some k) ij
if-shift false i j f m m' ij mm =
    shift-shift 1 (suc i) (f m)
    ∙ (ap (λ k. shift k (f m)) (omega (arith, ij)) ∙ ap (λ l. shift (suc j) (f l)) mm)

memchr-some :
    (c : ℕ) (needle text : List ℕ) (n p : ℕ) → memchr c text n ≡ some p → Answer c needle text n p
unfolding memchr first_match
memchr-some c needle text zero p h = cc
memchr-some c needle [] (suc n) p h = cc
memchr-some c needle (x ∷ text) (suc n) p h = elim (Bool-cases (x == c)) [
  | inl e ↦
      let hit = memchr_hit c x text n e in
      let at : 0 ≡ p = cc in
      let less : n ≡ suc n - 1 = omega arith in
      subst (Answer c needle (x ∷ text) (suc n)) at (
        match_hit c x needle text n e
        ∙ ap
            (λ m.
              if starts_with needle text then some 0 else shift 1 (first_match (c ∷ needle) text m))
            less)
  | inr e ↦ elim (Option-cases (memchr c text n)) [
    | inl m ↦
        let miss : memchr c (x ∷ text) (suc n) ≡ none = memchr_miss c x text n e ∙ ap (shift 1) m in
        cc
    | inr (i, m) ↦
        let miss : memchr c (x ∷ text) (suc n) ≡ some (1 + i) =
          memchr_miss c x text n e ∙ ap (shift 1) m in
        let at : 1 + i ≡ p = cc in
        let at' : suc i ≡ p = omega (arith, at) in
        subst (Answer c needle (x ∷ text) (suc n)) at' (
          match_miss c x needle text n e
          ∙ (ap (shift 1) (memchr-some c needle text n i m)
              ∙ if-shift (starts_with needle (drop (suc i) text)) i (suc i)
                  (first_match (c ∷ needle) (drop (suc i) text)) (n - suc i) (suc n - suc (suc i))
                  (omega arith) (omega arith)))
  ]
]

-- The loop finds the first match, where it has turns enough.
pub find_loop_lem :
    (turns c : ℕ) (needle : List ℕ) (off : ℕ) (text : List ℕ) (n : ℕ)
    → n ≤ turns
    → find_loop turns c needle off text n ≡ shift off (first_match (c ∷ needle) text n)
unfolding find_loop first_match
find_loop_lem zero c needle off text n h =
    let empty : 0 ≡ n = omega arith in ap (λ k. shift off (first_match (c ∷ needle) text k)) empty
find_loop_lem (suc turns) c needle off text n h = elim (Option-cases (memchr c text n)) [
  | inl m ↦ rw (m, find_loop) (rw (memchr-none c needle text n m) refl)
  | inr (p, m) ↦
      let ih = find_loop_lem turns c needle (off + suc p) (drop (suc p) text) (n - suc p) in
      elim (Bool-cases (starts_with needle (drop (suc p) text))) [
        | inl here ↦ rw (m, find_loop) (rw (memchr-some c needle text n p m, here) refl)
        | inr not_here ↦
            rw (m, find_loop)
              (rw (memchr-some c needle text n p m, not_here)
                (ih (omega arith) ∙ sym (shift-shift off (suc p) _)))
      ]
]
