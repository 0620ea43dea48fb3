-- ===== src/Str/Pointers.antt =====
-- A text is known by the pointer to its object.
use luavela.Base.{ℕ, ◌+◌, ◌≤◌, ◌≡◌, refl, sym, ap, ◌∙◌, subst, arith, true≢false}
use mathlib.Core.Option.{some-injective, some-ne-none}
use luavela.Base.{Bool, true, false, not, ◌&&◌, Bool-cases, inl, inr, none, some}
use luavela.Base.{List, [], ◌∷◌, ◌==◌, leb, length}
use luavela.Strhash.{GcStr, bytes_eq, has_payload}
use luavela.Strhash.Totals.{one_if, total, passing}
use luavela.Strhash.Lookup.{bytes_eq→eq, bytes_eq_self, has_payload→eq, has_payload_of_eq}
use luavela.Str.{GlobalState, uj_str_new, lj_max_str}
use luavela.Str.Intern.{population, with_id, IsInterned, IsMember, Interns, uj_str_new-Interns}

abbrev both : (GcStr → Bool) → (GcStr → Bool) → GcStr → Bool
both p q s = p s && q s

abbrev only : (GcStr → Bool) → (GcStr → Bool) → GcStr → Bool
only p q s = p s && not (q s)

one_if_split : (a b : Bool) → one_if (a && b) + one_if (a && not b) ≡ one_if a
one_if_split true true = refl
one_if_split true false = refl
one_if_split false b = refl

passing_split :
    (p q : GcStr → Bool) (c : List GcStr)
    → passing (both p q) c + passing (only p q) c ≡ passing p c
unfolding passing
passing_split p q [] = refl
passing_split p q (s ∷ c) = omega (arith, one_if_split (p s) (q s), passing_split p q c)

total_split :
    (p q : GcStr → Bool) (hash : List (List GcStr))
    → total (both p q) hash + total (only p q) hash ≡ total p hash
unfolding total
total_split p q [] = refl
total_split p q (c ∷ hash) = omega (arith, passing_split p q c, total_split p q hash)

population_split :
    (g : GlobalState) (p q : GcStr → Bool)
    → population g (both p q) + population g (only p q) ≡ population g p
population_split g p q = omega (
  arith,
  one_if_split (p g.strempty) (q g.strempty),
  total_split p q g.strhash.hash,
  total_split p q g.strhash_sealed.hash,
)

-- Two strings that pass the test `p`, which one string passes at most, agree on every test.
agree :
    (g : GlobalState) (p q : GcStr → Bool) (s t : GcStr)
    → population g p ≤ 1
    → IsMember g s
    → IsMember g t
    → p s ≡ true
    → p t ≡ true
    → q s ≡ true
    → q t ≡ true
agree g p q s t once ms mt ps pt qs = elim (Bool-cases (q t)) [
  | inl e ↦ e
  | inr e ↦
      let here = ms (both p q) (rw (ps, qs) refl) in
      let there = mt (only p q) (rw (pt, e) refl) in
      absurd (omega (arith, here, there, population_split g p q, once))
]

pub eqb_self : (n : ℕ) → n == n ≡ true
eqb_self n = ground arith

same_pointer :
    (hashf : List ℕ → ℕ) (g : GlobalState) (a b : List ℕ) (s t : GcStr)
    → IsInterned hashf g
    → IsMember g s
    → IsMember g t
    → s.payload ≡ a
    → t.payload ≡ b
    → s.id == t.id ≡ bytes_eq a b
same_pointer hashf g a b s t v ms mt ea eb = elim (Bool-cases (bytes_eq a b)) [
  | inl same ↦ rw same (
      agree g (has_payload a) (λ x. x.id == t.id) t s (v.payloads a) mt ms
        (has_payload_of_eq a t (eb ∙ sym (bytes_eq→eq a b same))) (has_payload_of_eq a s ea)
        (eqb_self t.id))
  | inr differ ↦ elim (Bool-cases (s.id == t.id)) [
    | inr apart ↦ rw (differ, apart) refl
    | inl id ↦
        let has =
          agree g (with_id t.id) (has_payload a) s t (v.ids t.id) ms mt id (eqb_self t.id)
            (has_payload_of_eq a s ea) in
        let eq : a ≡ b = sym (has_payload→eq a t has) ∙ eb in
        absurd (true≢false (sym (bytes_eq_self a) ∙ ap (bytes_eq a) eq ∙ differ))
  ]
]

module _ (hashf : List ℕ → ℕ) where
  pub too_long :
      (str : List ℕ) (g : GlobalState)
      → leb lj_max_str (length str) ≡ true
      → uj_str_new hashf g str ≡ none
  unfolding uj_str_new
  too_long str g long = rw long refl

  interned :
      (g : GlobalState) (str : List ℕ) (s : GcStr) (g' : GlobalState)
      → IsInterned hashf g
      → uj_str_new hashf g str ≡ some (s, g')
      → Interns hashf g str (s, g')
  interned g str s g' v e = elim (Bool-cases (leb lj_max_str (length str))) [
    | inr short ↦
        let (r, e', i) = uj_str_new-Interns hashf g str v (ground arith) in
        subst (λ x. Interns hashf g str x) (some-injective r (s, g') (sym e' ∙ e)) i
    | inl long ↦ absurd (some-ne-none (s, g') (sym e ∙ too_long str g long))
  ]

  -- Of two strings made one after the other, the pointers are equal exactly if the texts are.
  pub uj_str_new-bytes_eq :
      (g g₁ g₂ : GlobalState) (a b : List ℕ) (s t : GcStr)
      → IsInterned hashf g
      → uj_str_new hashf g a ≡ some (s, g₁)
      → uj_str_new hashf g₁ b ≡ some (t, g₂)
      → s.id == t.id ≡ bytes_eq a b
  uj_str_new-bytes_eq g g₁ g₂ a b s t v e e' =
      let first = interned g a s g₁ v e in
      let second = interned g₁ b t g₂ first.valid e' in
      same_pointer hashf g₂ a b s t second.valid
        (λ p h. omega (arith, first.member p h, second.kept p)) second.member first.payload
        second.payload
