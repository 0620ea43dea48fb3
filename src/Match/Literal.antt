-- ===== src/Match/Literal.antt =====
-- What the matcher does for a pattern with no special character.
use luavela.Base.{
  ℕ, zero, suc, ◌+◌, ◌≤◌, ◌<◌, ◌≡◌, ◌≢◌, refl, sym, ap, ◌∙◌, false, Bool-cases, inl, inr, ◌&&◌,
}
use luavela.Base.{
  none, some, List, [], ◌∷◌, length, drop, ltb, if◌then◌else◌, arith, ltb→lt, ltb→le, ◌==◌, get_or,
  All,
}
use luavela.Cstr.{starts_with}
use luavela.Match.{ok, ◌>>=◌, peek, MatchState, Result}
use luavela.Match.Single.{singlematch, classend}
use luavela.Match.Engine.{
  Matcher, match_step, match_item, match_quantified, match_init, do_match, with_depth,
}

-- No character by which a pattern is more than a text; `)` is not among those that the fast
-- path looks for.
abbrev pub IsLiteral : ℕ → Type 0
IsLiteral c =
    (c ≢ 0)
    × (c ≢ b'^')
    × (c ≢ b'$')
    × (c ≢ b'*')
    × (c ≢ b'+')
    × (c ≢ b'?')
    × (c ≢ b'.')
    × (c ≢ b'(')
    × (c ≢ b')')
    × (c ≢ b'[')
    × (c ≢ b'%')
    × (c ≢ b'-')

plain_end :
    (p : List ℕ)
    → All IsLiteral p
    → (peek p ≢ b'?') × (peek p ≢ b'*') × (peek p ≢ b'+') × (peek p ≢ b'-')
plain_end [] h = omega arith
plain_end (c ∷ p) h = ground arith

literal_classend : (c : ℕ) (p : List ℕ) → IsLiteral c → classend (c ∷ p) ≡ ok p
unfolding classend
literal_classend c p h = ground arith

literal_single : (x c : ℕ) (p ep : List ℕ) → IsLiteral c → singlematch x (c ∷ p) ep ≡ c == x
unfolding singlematch
literal_single x c p ep h = ground arith

literal_quantified :
    (call init : Matcher) (ms : MatchState) (s c : ℕ) (p : List ℕ)
    → IsLiteral c
    → All IsLiteral p
    → match_quantified call init ms s (c ∷ p) p ≡ (
        if ltb s (length ms.src) && c == get_or ms.src s 0
        then init ms (s + 1) p
        else ok (none, ms))
unfolding match_quantified
literal_quantified call init ms s c p h hs =
    let ends = plain_end p hs in rw (literal_single (get_or ms.src s 0) c p p h) (ground arith)

ne_eqb : (a b : ℕ) → a ≢ b → a == b ≡ false
ne_eqb a b h = ground arith

literal_step :
    (call init : Matcher) (ms : MatchState) (s c : ℕ) (p : List ℕ)
    → IsLiteral c
    → All IsLiteral p
    → match_step call init ms s (c ∷ p) ≡ (
        if ltb s (length ms.src) && c == get_or ms.src s 0
        then init ms (s + 1) p
        else ok (none, ms))
unfolding match_step match_item
literal_step call init ms s c p h hs =
    let item : (classend (c ∷ p) >>= match_quantified call init ms s (c ∷ p)) ≡ (
        if ltb s (length ms.src) && c == get_or ms.src s 0
        then init ms (s + 1) p
        else ok (none, ms)) =
      rw (literal_classend c p h) (literal_quantified call init ms s c p h hs) in
    rw (ne_eqb c b'(' h.7, ne_eqb c b')' h.8, ne_eqb c b'%' h.10, ne_eqb c 0 h.0, ne_eqb c b'$' h.2)
      item

-- What the matcher answers for a literal pattern at `s`.
abbrev pub at_once : MatchState → ℕ → List ℕ → Result
at_once ms s p = ok (if starts_with p (drop s ms.src) then some (s + length p) else none, ms)

drop-step : (s : ℕ) (xs : List ℕ) → s < length xs → drop s xs ≡ get_or xs s 0 ∷ drop (s + 1) xs
drop-step s [] h = absurd (omega arith)
drop-step zero (x ∷ xs) h = refl
drop-step (suc s) (x ∷ xs) h =
    let e : suc s + 1 ≡ suc (s + 1) = omega arith in rw e (drop-step s xs (omega arith))

pub drop_past : (s : ℕ) (xs : List ℕ) → length xs ≤ s → drop s xs ≡ []
drop_past zero [] h = refl
drop_past zero (x ∷ xs) h = absurd (omega arith)
drop_past (suc s) [] h = refl
drop_past (suc s) (x ∷ xs) h = drop_past s xs (omega arith)

empty_step :
    (call init : Matcher) (ms : MatchState) (s : ℕ) → match_step call init ms s [] ≡ ok (some s, ms)
unfolding match_step
empty_step call init ms s = refl

literal_init :
    (fuel : ℕ) (ms : MatchState) (s : ℕ) (p : List ℕ)
    → length p < fuel
    → All IsLiteral p
    → match_init fuel ms s p ≡ at_once ms s p
unfolding match_init starts_with
literal_init zero ms s p h hs = absurd (omega arith)
literal_init (suc fuel) ms s [] h hs =
    let e : s + 0 ≡ s = omega arith in
    empty_step (with_depth (match_init fuel)) (match_init fuel) ms s
    ∙ ap (λ n. let r : Result = ok (some n, ms) in r) (sym e)
literal_init (suc fuel) ms s (c ∷ p) h hs =
    literal_step (with_depth (match_init fuel)) (match_init fuel) ms s c p hs.0 hs.1
    ∙ elim (Bool-cases (ltb s (length ms.src))) [
      | inr past ↦ rw (past, drop_past s ms.src (ltb→le _ _ past)) refl
      | inl inside ↦ elim (Bool-cases (c == get_or ms.src s 0)) [
        | inl same ↦
            rw (inside, drop-step s ms.src (ltb→lt _ _ inside), same)
              (literal_init fuel ms (s + 1) p (omega arith) hs.1
                ∙ ap
                    (λ n.
                      let r : Result =
                        ok (if starts_with p (drop (s + 1) ms.src) then some n else none, ms) in
                      r)
                    (omega arith))
        | inr other ↦ rw (inside, drop-step s ms.src (ltb→lt _ _ inside), other) refl
      ]
    ]

-- The state that a match starts with.
abbrev pub fresh : List ℕ → MatchState
fresh src = record { src = src; depth = 0; capture = [] }

pub literal_match :
    (src : List ℕ) (s : ℕ) (p : List ℕ)
    → All IsLiteral p
    → do_match (fresh src) s p ≡ at_once (fresh src) s p
unfolding do_match
literal_match src s p hs =
    let deeper : MatchState = record { src = src; depth = 1; capture = [] } in
    rw (literal_init (length p + 1) deeper s p (omega arith) hs) refl
