-- ===== src/Match/Fixed.antt =====
-- A pattern with no character that is special to the matcher is found as a fixed string is: the search for a fixed
-- string, which string.find prefers, is an optimisation of the matcher.
use luavela.Base.{
  true≢false, ℕ, ◌≢◌, Bool, not, ◌&&◌, zero, suc, ◌+◌, ◌-◌, ◌^◌, ◌%◌, ◌≤◌, ◌<◌, ◌≡◌, refl, sym, ap,
  ◌∙◌, subst, true, false, Bool-cases, inl, inr,
}
use luavela.Base.{
  Option, none, some, List, [], ◌∷◌, length, length-drop, drop, if◌then◌else◌, arith, ◌==◌, All,
}
use luavela.Cstr.{starts_with}
use luavela.Cstr.Find.{IsFirst, uj_cstr_find-IsFirst}
use luavela.Match.{Outcome, ok, peek}
use luavela.Str.{uj_str_has_pattern_specials, strchr, specials}
use luavela.Chars.{lj_char_isa, lj_char_punct}
use luavela.Match.Find.{
  Pushed, nil, int, push_captures, push_from, found, search, after_try, plain_answer, find_plain,
  find_pattern,
}
use luavela.Match.Literal.{IsLiteral, fresh, literal_match, drop_past}

drop-drop : (j s : ℕ) (xs : List ℕ) → drop j (drop (s + 1) xs) ≡ drop (suc j) (drop s xs)
drop-drop j s [] =
    rw
      (
        drop_past (s + 1) [] (omega arith),
        drop_past s [] (omega arith),
        drop_past j [] (omega arith),
      )
      refl
drop-drop j zero (x ∷ xs) = refl
drop-drop j (suc s) (x ∷ xs) =
    let e : suc s + 1 ≡ suc (s + 1) = omega arith in rw e (drop-drop j s xs)

-- The results of string.find, for the place of the text relative to `s`.
abbrev answer : ℕ → List ℕ → Option ℕ → List Pushed
answer s p none = nil ∷ []
answer s p (some i) = int (s + i + 1) ∷ int (s + i + length p) ∷ []

absent_later :
    (src : List ℕ) (s : ℕ) (p : List ℕ) (i : ℕ)
    → IsFirst (drop s src) p (some (suc i))
    → IsFirst (drop (s + 1) src) p (some i)
absent_later src s p i h = (
  rw (drop-drop i s src) (h.0),
  let e = length-drop (s + 1) src in let e' = length-drop s src in omega (arith, h.1),
  λ j lt. rw (drop-drop j s src) (h.2 (suc j) (omega arith)),
)

found_here :
    (src : List ℕ) (s : ℕ) (p : List ℕ) (o : Option ℕ)
    → IsFirst (drop s src) p o
    → starts_with p (drop s src) ≡ true
    → found true s (s + length p) (fresh src) ≡ ok (answer s p o)
unfolding push_captures push_from
found_here src s p none h e = absurd (true≢false (sym e ∙ h 0))
found_here src s p (some zero) h e = let z : s + 0 ≡ s = omega arith in rw z refl
found_here src s p (some (suc i)) h e = absurd (true≢false (sym e ∙ h.2 0 (omega arith)))

absent_at_end :
    (src : List ℕ) (s : ℕ) (p : List ℕ) (o : Option ℕ)
    → s ≡ length src
    → IsFirst (drop s src) p o
    → starts_with p (drop s src) ≡ false
    → ok (nil ∷ []) ≡ ok (answer s p o)
absent_at_end src s p none e h ne = refl
absent_at_end src s p (some zero) e h ne = absurd (true≢false (sym h.0 ∙ ne))
absent_at_end src s p (some (suc i)) e h ne =
    let l = length-drop s src in absurd (omega (arith, h.1))

-- One try of the loop, where `retry` is right if the text does not start at `s`.
literal_try :
    (src : List ℕ) (s : ℕ) (p : List ℕ) (o : Option ℕ) (retry : Outcome (List Pushed))
    → IsFirst (drop s src) p o
    → (starts_with p (drop s src) ≡ false → retry ≡ ok (answer s p o))
    → after_try true s retry
        (if starts_with p (drop s src) then some (s + length p) else none, fresh src)
      ≡ ok (answer s p o)
literal_try src s p o retry h later = elim (Bool-cases (starts_with p (drop s src))) [
  | inr e ↦ rw e (later e)
  | inl e ↦ rw e (found_here src s p o h e)
]

search_literal :
    (src : List ℕ) (left s : ℕ) (p : List ℕ) (o : Option ℕ)
    → s + left ≡ length src
    → All IsLiteral p
    → IsFirst (drop s src) p o
    → search true false src left s p ≡ ok (answer s p o)
unfolding search
search_literal src zero s p o e hs h =
    rw (literal_match src s p hs)
      (literal_try src s p o _ h (λ ne. absent_at_end src s p o (omega arith) h ne))
search_literal src (suc left) s p none e hs h = rw (literal_match src s p hs) (
    literal_try src s p none _ h (λ ne.
      search_literal src left (s + 1) p none (omega arith) hs
        (λ j. rw (drop-drop j s src) (h (suc j)))))
search_literal src (suc left) s p (some zero) e hs h =
    rw (literal_match src s p hs)
      (literal_try src s p (some zero) _ h (λ ne. absurd (true≢false (sym h.0 ∙ ne))))
search_literal src (suc left) s p (some (suc i)) e hs h =
    let shift : s + 1 + i ≡ s + suc i = omega arith in
    rw (literal_match src s p hs) (
      literal_try src s p (some (suc i)) _ h (λ ne.
        subst
          (λ n. search true false src left (s + 1) p ≡ ok (int (n + 1) ∷ int (n + length p) ∷ []))
          shift
          (search_literal src left (s + 1) p (some i) (omega arith) hs (absent_later src s p i h))))

literal_answer :
    (s : List ℕ) (start : ℕ) (p : List ℕ) (o : Option ℕ)
    → length s < 2 ^ 31
    → start ≤ length s
    → IsFirst (drop start s) p o
    → plain_answer start (length p) o ≡ answer start p o
literal_answer s start p none small le h = refl
literal_answer s start p (some i) small le h =
    let l = length-drop start s in
    let b : start + i + length p ≤ length s = omega (arith, h.1) in
    let first : (start + i + 1) % 2 ^ 32 ≡ start + i + 1 = omega arith in
    let last : (start + i + length p) % 2 ^ 32 ≡ start + i + length p = omega arith in
    rw (first, last) refl

not_anchor : (p : List ℕ) → All IsLiteral p → peek p == b'^' ≡ false
not_anchor [] hs = refl
not_anchor (c ∷ p) hs = ground arith

literal_find_plain :
    (s : List ℕ) (p : List ℕ) (start : ℕ)
    → length s < 2 ^ 31
    → start ≤ length s
    → All IsLiteral p
    → find_pattern true s p start ≡ ok (find_plain s p start)
unfolding find_pattern find_plain
literal_find_plain s p start small le hs =
    let first = uj_cstr_find-IsFirst (drop start s) p in
    rw (not_anchor p hs) (
      search_literal s (length s - start) start p _ (omega arith) hs first
      ∙ ap (λ l. let r : Outcome (List Pushed) = ok l in r)
          (sym (literal_answer s start p _ small le first)))

-- A character that means the same to the matcher, though uj_str_has_pattern_specials does not
-- look for the others: the matcher takes 0 for the end of the pattern, and `)` for the end of a
-- capture.
abbrev pub IsPlain : ℕ → Type 0
IsPlain c = (c ≢ 0) × (c ≢ b')')

unfoldable is_special : ℕ → Bool
is_special c = not (lj_char_isa c lj_char_punct == 0) && strchr specials c

not_special-IsLiteral : (c : ℕ) → is_special c ≡ false → IsPlain c → IsLiteral c
unfolding is_special lj_char_isa strchr
not_special-IsLiteral c h (not_null, not_close) =
    let differs : (d : ℕ) → is_special d ≡ true → c ≢ d =
      λ d special e. true≢false (sym special ∙ subst (λ n. is_special n ≡ false) e h) in
    (
      not_null,
      differs b'^' refl,
      differs b'$' refl,
      differs b'*' refl,
      differs b'+' refl,
      differs b'?' refl,
      differs b'.' refl,
      differs b'(' refl,
      not_close,
      differs b'[' refl,
      differs b'%' refl,
      differs b'-' refl,
    )

no_specials-IsLiteral :
    (p : List ℕ) → uj_str_has_pattern_specials p ≡ false → All IsPlain p → All IsLiteral p
unfolding uj_str_has_pattern_specials is_special
no_specials-IsLiteral [] h plain = tt
no_specials-IsLiteral (c ∷ p) h plain = elim (Bool-cases (is_special c)) [
  | inl special ↦ let found : true ≡ false = rw special at h in absurd (true≢false found)
  | inr unspecial ↦ (
    not_special-IsLiteral c unspecial plain.0,
    no_specials-IsLiteral p (rw unspecial at h) plain.1,
  )
]

-- Where uj_str_has_pattern_specials finds nothing in the pattern, so that string.find prefers the
-- search for a fixed string, and the pattern has no `)` and no 0 either, the pattern matcher
-- pushes the same results, in a subject below 2 ^ 31 and from a start inside of it.
pub find_pattern-find_plain :
    (s : List ℕ) (p : List ℕ) (start : ℕ)
    → length s < 2 ^ 31
    → start ≤ length s
    → uj_str_has_pattern_specials p ≡ false
    → All IsPlain p
    → find_pattern true s p start ≡ ok (find_plain s p start)
find_pattern-find_plain s p start small le unspecial plain =
    literal_find_plain s p start small le (no_specials-IsLiteral p unspecial plain)
