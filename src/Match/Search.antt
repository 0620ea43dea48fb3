-- ===== src/Match/Search.antt =====
-- string.find and string.match end for every pattern, and string.find answers offsets of the
-- subject.
use luavela.Base.{
  ℕ, zero, suc, ◌+◌, ◌-◌, ◌^◌, ◌≤◌, ◌<◌, ◌≡◌, sym, subst, Bool, true, false, Bool-cases, inl, inr,
  ◌&&◌, ◌||◌, not,
}
use luavela.Base.{
  Option, none, some, Option-cases, List, [], ◌∷◌, length, length-drop, drop, arith, ◌==◌,
}
use luavela.Cstr.{uj_cstr_find}
use luavela.Cstr.Find.{uj_cstr_find-IsFirst}
use luavela.Str.{uj_str_has_pattern_specials}
use luavela.Match.{Outcome, peek, next, MatchState}
use luavela.Match.Engine.{do_match}
use luavela.Match.Find.{
  Pushed, nil, int, push_onecapture, push_from, push_captures, found, search, after_try,
}
use luavela.Match.Find.{start_offset, find_plain, plain_answer, find_pattern, str_find_aux}
use luavela.Match.Bounds.{Ends, Ends-bind, Ends-weaken, Good}
use luavela.Match.Bounds.Steps.{do_match-Good}

-- What string.find pushes, for a subject of `n` characters: nil, or where the match begins and
-- ends, counted from 1, with the captures behind.
abbrev pub Located : ℕ → List Pushed → Type 0
Located n (nil ∷ []) = Unit
Located n (int i ∷ int j ∷ captures) = (1 ≤ i) × (i ≤ j + 1) × (j ≤ n)
Located n _ = ⊥

abbrev pub Answers : Bool → ℕ → List Pushed → Type 0
Answers true n vs = Located n vs
Answers false n vs = Unit

abbrev pub Always {ℓ} : {A : Type ℓ} → A → Type 0
Always a = Unit

pub push_onecapture-Ends :
    (ms : MatchState) (i : ℕ) (whole : ℕ × ℕ) → Ends Always (push_onecapture ms i whole)
unfolding push_onecapture
push_onecapture-Ends ms i (s, e) = ground arith

push_from-Ends :
    (ms : MatchState) (left i : ℕ) (whole : ℕ × ℕ) → Ends Always (push_from ms left i whole)
unfolding push_from
push_from-Ends ms zero i whole = tt
push_from-Ends ms (suc left) i whole =
    Ends-bind Always Always (push_onecapture ms i whole) _ (push_onecapture-Ends ms i whole) (λ v _.
      Ends-bind Always Always (push_from ms left (i + 1) whole) _
        (push_from-Ends ms left (i + 1) whole) (λ vs _. tt))

pub push_captures-Ends : (ms : MatchState) (o : Option (ℕ × ℕ)) → Ends Always (push_captures ms o)
unfolding push_captures
push_captures-Ends ms none = push_from-Ends ms _ 0 (0, 0)
push_captures-Ends ms (some whole) = push_from-Ends ms _ 0 whole

found-Answers :
    (find : Bool) (s q n : ℕ) (ms : MatchState)
    → s ≤ q
    → q ≤ n
    → Ends (Answers find n) (found find s q ms)
found-Answers true s q n ms h k =
    Ends-bind Always (Answers true n) (push_captures ms none) _ (push_captures-Ends ms none)
      (λ vs _. omega arith)
found-Answers false s q n ms h k =
    Ends-weaken Always (Answers false n) _ (λ vs _. tt) (push_captures-Ends ms (some (s, q)))

nil-Answers : (find : Bool) (n : ℕ) → Answers find n (nil ∷ [])
nil-Answers true n = tt
nil-Answers false n = tt

after_try-Answers :
    (find : Bool) (src : List ℕ) (s : ℕ) (retry : Outcome (List Pushed)) (r : Option ℕ × MatchState)
    → Ends (Answers find (length src)) retry
    → Good (record { src = src; depth = 0; capture = [] }) s r
    → Ends (Answers find (length src)) (after_try find s retry r)
after_try-Answers find src s retry (none, ms') h g = h
after_try-Answers find src s retry (some q, ms') h g =
    found-Answers find s q (length src) ms' g.0 (subst (λ l. q ≤ length l) g.2 g.1.inside)

-- A first state of the matcher.
pub fresh-Good :
    (src : List ℕ) (s : ℕ) (p : List ℕ)
    → s ≤ length src
    → let ms : MatchState = record { src = src; depth = 0; capture = [] } in
      Ends (Good ms s) (do_match ms s p)
fresh-Good src s p h = do_match-Good _ s p (record { inside = h; captured = tt; few = omega arith })

search-Answers :
    (find anchor : Bool) (src : List ℕ) (left s : ℕ) (p : List ℕ)
    → s + left ≡ length src
    → Ends (Answers find (length src)) (search find anchor src left s p)
unfolding search
search-Answers find anchor src zero s p e =
    Ends-bind (Good _ s) (Answers find (length src)) _ _ (fresh-Good src s p (omega (arith, e)))
      (λ r g. after_try-Answers find src s _ r (nil-Answers find (length src)) g)
search-Answers find true src (suc left) s p e =
    Ends-bind (Good _ s) (Answers find (length src)) _ _ (fresh-Good src s p (omega (arith, e)))
      (λ r g. after_try-Answers find src s _ r (nil-Answers find (length src)) g)
search-Answers find false src (suc left) s p e =
    Ends-bind (Good _ s) (Answers find (length src)) _ _ (fresh-Good src s p (omega (arith, e)))
      (λ r g.
        after_try-Answers find src s _ r
          (search-Answers find false src left (s + 1) p (omega (arith, e))) g)

start_offset-le : (init len : ℕ) → start_offset init len ≤ len
unfolding start_offset
start_offset-le init len = ground arith

find_plain-Located :
    (s p : List ℕ) (start : ℕ)
    → length s < 2 ^ 31
    → start ≤ length s
    → Located (length s) (find_plain s p start)
unfolding find_plain
find_plain-Located s p start small h = elim (Option-cases (uj_cstr_find (drop start s) p)) [
  | inl e ↦ subst (λ o. Located (length s) (plain_answer start (length p) o)) (sym e) tt
  | inr (q, e) ↦
      let first = rw e at (uj_cstr_find-IsFirst (drop start s) p) in
      subst (λ o. Located (length s) (plain_answer start (length p) o)) (sym e)
        (omega (arith, first.1, length-drop start s))
]

-- string.find and string.match end for every subject, pattern, and start of the search, also for
-- malformed patterns, for which they throw. string.find pushes nil, or the beginning and the
-- end of the match, counted from 1, which lie in the subject.
pub str_find_aux-Answers :
    (find : Bool) (s p : List ℕ) (init : ℕ) (plain : Bool)
    → length s < 2 ^ 31
    → Ends (Answers find (length s)) (str_find_aux find s p init plain)
unfolding str_find_aux find_pattern
str_find_aux-Answers find s p init plain small =
    let start = start_offset init (length s) in
    let reach = start_offset-le init (length s) in
    elim (Bool-cases (find && (plain || not (uj_str_has_pattern_specials p)))) [
      | inl fixed ↦
          let is_find : find ≡ true = ground arith in
          rw fixed (
            subst (λ f. Answers f (length s) (find_plain s p start)) (sym is_find)
              (find_plain-Located s p start small reach))
      | inr pattern_ ↦ rw pattern_ (elim (Bool-cases (peek p == b'^')) [
        | inl anchor ↦
            rw anchor (search-Answers find true s (length s - start) start (next p) (omega arith))
        | inr free ↦ rw free (search-Answers find false s (length s - start) start p (omega arith))
      ])
    ]
