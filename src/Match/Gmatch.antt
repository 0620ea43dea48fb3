-- ===== src/Match/Gmatch.antt =====
-- string.gmatch: one match for each call of the iterator, which keeps where it stands.
use luavela.Base.{
  ℕ, zero, suc, ◌+◌, ◌-◌, ◌%◌, ◌^◌, ◌≤◌, ◌<◌, ◌≡◌, subst, arith, Bool-cases, inl, inr,
}
use luavela.Base.{Option, none, some, List, [], ◌∷◌, length, leb, ◌==◌, if◌then◌else◌}
use luavela.Match.{Outcome, ok, out_of_fuel, ◌>>=◌, MatchState}
use luavela.Match.Bounds.{Ends, Ends-bind, Ends-weaken, Good}
use luavela.Match.Engine.{do_match}
use luavela.Match.Find.{Pushed, push_captures}
use luavela.Match.Search.{Always, fresh-Good, push_captures-Ends}

-- The position after a match from `src` to `e`, which is kept as an uint32_t.
abbrev pub progress : ℕ → ℕ → ℕ
progress src e = if e == src then (e + 1) % 2 ^ 32 else e % 2 ^ 32

-- What follows a try at `src`; `retry` is what the loop does if it failed.
abbrev pub gmatch_hit :
    ℕ
    → Outcome (Option (ℕ × List Pushed))
    → Option ℕ × MatchState
    → Outcome (Option (ℕ × List Pushed))
gmatch_hit src retry (none, ms) = retry
gmatch_hit src retry (some e, ms) =
    push_captures ms (some (src, e)) >>= λ vs. ok (some (progress src e, vs))

module _ (s p : List ℕ) where
  -- The loop, with `left` characters behind `src`.
  unfoldable pub gmatch_loop : ℕ → ℕ → Outcome (Option (ℕ × List Pushed))
  gmatch_loop zero src =
      do_match (record { src = s; depth = 0; capture = [] }) src p >>= gmatch_hit src (ok none)
  gmatch_loop (suc left) src =
      do_match (record { src = s; depth = 0; capture = [] }) src p
      >>= gmatch_hit src (gmatch_loop left (src + 1))

  -- The position that is kept afterwards and what is pushed, or nothing.
  unfoldable pub string_gmatch_aux : ℕ → Outcome (Option (ℕ × List Pushed))
  string_gmatch_aux pos = if leb pos (length s) then gmatch_loop (length s - pos) pos else ok none

  -- A for loop over string.gmatch: all that the iterator pushes, from a position on.
  abbrev pub one_more :
      (ℕ → Outcome (List (List Pushed))) → Option (ℕ × List Pushed) → Outcome (List (List Pushed))
  one_more again none = ok []
  one_more again (some (pos, vs)) = again pos >>= λ rest. ok (vs ∷ rest)

  unfoldable pub iterate : ℕ → ℕ → Outcome (List (List Pushed))
  iterate zero pos = out_of_fuel
  iterate (suc fuel) pos = string_gmatch_aux pos >>= one_more (iterate fuel)

  -- From the position that string.gmatch starts with.
  unfoldable pub all_matches : Outcome (List (List Pushed))
  all_matches = iterate (length s + 2) 0

  -- The iterator moves on, to one character behind the subject at most.
  abbrev Further : ℕ → Option (ℕ × List Pushed) → Type 0
  Further pos none = Unit
  Further pos (some (pos', vs)) = (pos < pos') × (pos' ≤ length s + 1)

  module _ (small : length s < 2 ^ 31) where
    hit-Further :
        (pos src : ℕ) (retry : Outcome (Option (ℕ × List Pushed))) (r : Option ℕ × MatchState)
        → pos ≤ src
        → Ends (Further pos) retry
        → Good (record { src = s; depth = 0; capture = [] }) src r
        → Ends (Further pos) (gmatch_hit src retry r)
    hit-Further pos src retry (none, ms) le h g = h
    hit-Further pos src retry (some e, ms) le h g =
        let within : e ≤ length s = subst (λ l. e ≤ length l) g.2 g.1.inside in
        let moves : (pos < progress src e) × (progress src e ≤ length s + 1) =
          ground (arith, g.0) in
        Ends-bind Always (Further pos) (push_captures ms (some (src, e))) _
          (push_captures-Ends ms (some (src, e))) (λ vs _. moves)

    loop-Further :
        (pos left src : ℕ)
        → pos ≤ src
        → src + left ≡ length s
        → Ends (Further pos) (gmatch_loop left src)
    unfolding gmatch_loop
    loop-Further pos zero src le e =
        Ends-bind (Good _ src) (Further pos) _ _ (fresh-Good s src p (omega (arith, e)))
          (λ r g. hit-Further pos src (ok none) r le tt g)
    loop-Further pos (suc left) src le e =
        Ends-bind (Good _ src) (Further pos) _ _ (fresh-Good s src p (omega (arith, e))) (λ r g.
          hit-Further pos src _ r le (loop-Further pos left (src + 1) (omega arith) (omega arith))
            g)

    aux-Further : (pos : ℕ) → Ends (Further pos) (string_gmatch_aux pos)
    unfolding string_gmatch_aux
    aux-Further pos = elim (Bool-cases (leb pos (length s))) [
      | inl inside ↦
          let within : pos ≤ length s = ground arith in
          rw inside (loop-Further pos (length s - pos) pos (omega arith) (omega arith))
      | inr past ↦ rw past tt
    ]

    -- At most one result for each place from `pos` on.
    abbrev Few : ℕ → List (List Pushed) → Type 0
    Few pos vss = length vss ≤ length s + 1 - pos

    more-Few :
        (again : ℕ → Outcome (List (List Pushed))) (pos : ℕ) (o : Option (ℕ × List Pushed))
        → ((pos' : ℕ) → pos < pos' → pos' ≤ length s + 1 → Ends (Few pos') (again pos'))
        → Further pos o
        → Ends (Few pos) (one_more again o)
    more-Few again pos none k f = omega arith
    more-Few again pos (some (pos', vs)) k f =
        Ends-bind (Few pos') (Few pos) (again pos') _ (k pos' f.0 f.1)
          (λ rest h. omega (arith, h, f))

    iterate-Few :
        (fuel pos : ℕ)
        → length s + 1 < pos + fuel
        → pos ≤ length s + 1
        → Ends (Few pos) (iterate fuel pos)
    unfolding iterate
    iterate-Few zero pos enough le = absurd (omega arith)
    iterate-Few (suc fuel) pos enough le =
        Ends-bind (Further pos) (Few pos) (string_gmatch_aux pos) _ (aux-Further pos) (λ o f.
          more-Few (iterate fuel) pos o (λ pos' lt le'. iterate-Few fuel pos' (omega arith) le') f)

    -- In a subject below 2 ^ 31, a for loop over string.gmatch ends for every pattern: the iterator
    -- throws, or it pushes at most one match for each place of the subject and then stops.
    pub all_matches-Ends : Ends (λ vss. length vss ≤ length s + 1) all_matches
    unfolding all_matches
    all_matches-Ends =
        Ends-weaken (Few 0) (λ vss. length vss ≤ length s + 1) _ (λ vss h. omega (arith, h))
          (iterate-Few (length s + 2) 0 (omega arith) (omega arith))
