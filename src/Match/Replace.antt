-- ===== src/Match/Replace.antt =====
-- string.gsub ends, and replacing each match by itself changes nothing.
use luavela.Base.{
  ℕ, zero, suc, ◌+◌, ◌-◌, ◌^◌, ◌≤◌, ◌<◌, ◌≡◌, refl, ap, ◌∙◌, arith, Bool-cases, inl, inr,
}
use luavela.Base.{
  some, List, [], ◌∷◌, ◌++◌, ltb, ◌==◌, if◌then◌else◌, length, take, drop, get_or, take-append-drop,
}
use luavela.Chars.{lj_char_isa}
use luavela.Match.{Outcome, ok, ◌>>=◌, MatchState}
use luavela.Base.{append-nil}
use luavela.Chars.{lj_char_digit}
use luavela.Match.Single.{l_esc}
use luavela.Match.Bounds.{Ends, Ends-bind, Ends-weaken, Good}
use luavela.Match.Gsub.{
  Given, keep, refuse, give, Replacement, by_string, by_function, by_table, add_s, add_given,
  add_value, string_gsub,
}
use luavela.Match.Search.{Always, push_onecapture-Ends, push_captures-Ends}
use luavela.Match.Turns.{fresh, string_gsub-Finished}

add_given-Ends : (ms : MatchState) (s e : ℕ) (v : Given) → Ends Always (add_given ms s e v)
add_given-Ends ms s e keep = tt
add_given-Ends ms s e refuse = tt
add_given-Ends ms s e (give t) = tt

more_text :
    (m : Outcome (List ℕ)) (f : List ℕ → List ℕ) → Ends Always m → Ends Always (m >>= λ t. ok (f t))
more_text m f h = Ends-bind Always Always m _ h (λ t _. tt)

add_s-Ends : (ms : MatchState) (s e : ℕ) (news : List ℕ) → Ends Always (add_s ms s e news)
unfolding add_s
add_s-Ends ms s e [] = tt
add_s-Ends ms s e (c ∷ []) = ground arith
add_s-Ends ms s e (c ∷ d ∷ news) =
    let plain = add_s-Ends ms s e (d ∷ news) in
    let behind = add_s-Ends ms s e news in
    elim (Bool-cases (c == l_esc)) [
      | inr other ↦ rw other (more_text _ _ plain)
      | inl esc ↦ elim (Bool-cases (lj_char_isa d lj_char_digit == 0)) [
        | inl char ↦ rw (esc, char) (more_text _ _ behind)
        | inr digit ↦ elim (Bool-cases (d == b'0')) [
          | inl whole ↦ rw (esc, digit, whole) (more_text _ _ behind)
          | inr capture_ ↦
              rw (esc, digit, capture_)
                (Ends-bind Always Always _ _ (push_onecapture-Ends ms (d - b'1') (s, e))
                  (λ v _. more_text _ _ behind))
        ]
      ]
    ]

add_value-Ends :
    (repl : Replacement) (n : ℕ) (ms : MatchState) (s e : ℕ) → Ends Always (add_value repl n ms s e)
unfolding add_value
add_value-Ends (by_string news) n ms s e = add_s-Ends ms s e news
add_value-Ends (by_function f) n ms s e =
    Ends-bind Always Always _ _ (push_captures-Ends ms (some (s, e)))
      (λ args _. add_given-Ends ms s e (f n args))
add_value-Ends (by_table t) n ms s e =
    Ends-bind Always Always _ _ (push_onecapture-Ends ms 0 (s, e))
      (λ key _. add_given-Ends ms s e (t n key))

-- What a result of string.gsub says: at most `max_s` matches, none for a negative one, and at
-- most one for each character of the subject and one behind it.
abbrev pub Counted : List ℕ → ℕ → List ℕ × ℕ → Type 0
Counted src max_s r = (r.1 ≤ (if ltb max_s (2 ^ 31) then max_s else 0)) × (r.1 ≤ length src + 1)

-- string.gsub ends for every pattern, subject and replacement, functions and tables included,
-- with an error of the source or with at most `max_s` replacements and at most one for each
-- place of the subject.
pub string_gsub-Counted :
    (repl : Replacement) (src p : List ℕ) (max_s : ℕ)
    → Ends (Counted src max_s) (string_gsub repl src p max_s)
string_gsub-Counted repl src p max_s =
    Ends-weaken _ (Counted src max_s) _ (λ r h. (h.1, h.2))
      (string_gsub-Finished src repl (λ _ _. Unit) (λ _. Unit)
        (λ n ms s e b g k. add_value-Ends repl n ms s e) (λ s b h k. tt) (λ s b h k. tt) p max_s tt)

take_more : (s k : ℕ) (xs : List ℕ) → take s xs ++ (take k (drop s xs) ++ []) ≡ take (s + k) xs
take_more zero k xs = let e : 0 + k ≡ k = omega arith in rw e (append-nil (take k xs))
take_more (suc s) zero [] = let e : suc s + 0 ≡ suc s = omega arith in rw e refl
take_more (suc s) (suc k) [] = let e : suc s + suc k ≡ suc (s + suc k) = omega arith in rw e refl
take_more (suc s) k (x ∷ xs) =
    let e : suc s + k ≡ suc (s + k) = omega arith in rw e (ap (λ t. x ∷ t) (take_more s k xs))

take_next :
    (s : ℕ) (xs : List ℕ) → s < length xs → take s xs ++ get_or xs s 0 ∷ [] ≡ take (s + 1) xs
take_next s [] h = absurd (omega arith)
take_next zero (x ∷ xs) h = refl
take_next (suc s) (x ∷ xs) h =
    let e : suc s + 1 ≡ suc (s + 1) = omega arith in
    rw e (ap (λ t. x ∷ t) (take_next s xs (omega arith)))

-- "%0"
abbrev pub whole_match : List ℕ
whole_match = b'%' ∷ b'0' ∷ []

whole_added :
    (n : ℕ) (ms : MatchState) (s e : ℕ)
    → add_value (by_string whole_match) n ms s e ≡ ok (take (e - s) (drop s ms.src) ++ [])
unfolding add_value add_s lj_char_isa
whole_added n ms s e = refl

match_added :
    (src : List ℕ) (ms : MatchState) (s e : ℕ) (b : List ℕ)
    → Good (fresh src) s (some e, ms)
    → b ≡ take s src
    → b ++ (take (e - s) (drop s ms.src) ++ []) ≡ take e src
match_added src ms s e b g k =
    let there : s + (e - s) ≡ e = omega (arith, g.0) in
    rw (k, g.2) (take_more s (e - s) src ∙ ap (λ n. take n src) there)

-- Replacing each match by "%0", the match itself, gives the subject back, for every pattern.
pub string_gsub_whole :
    (src p : List ℕ) (max_s : ℕ)
    → Ends
        (λ r. (r.0 ≡ src) × Counted src max_s r)
        (string_gsub (by_string whole_match) src p max_s)
string_gsub_whole src p max_s =
    Ends-weaken _ (λ r. (r.0 ≡ src) × Counted src max_s r) _ (λ r h. (h.0, (h.1, h.2)))
      (string_gsub-Finished src (by_string whole_match) (λ s b. b ≡ take s src) (λ b. b ≡ src)
        (λ n ms s e b g k. rw (whole_added n ms s e) (match_added src ms s e b g k))
        (λ s b h k. rw k (take_next s src h)) (λ s b h k. rw k (take-append-drop s src)) p max_s
        refl)
