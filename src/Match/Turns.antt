-- ===== src/Match/Turns.antt =====
-- The loop of string.gsub, for what is kept of the buffer from turn to turn.
use luavela.Base.{
  ℕ, zero, suc, ◌+◌, ◌-◌, ◌^◌, ◌≤◌, ◌<◌, ◌≡◌, subst, arith, Bool, true, false, Bool-cases, inl, inr,
}
use luavela.Base.{
  Option, none, some, List, [], ◌∷◌, ◌++◌, ltb, ltb→lt, ltb→le, ◌==◌, if◌then◌else◌, length, drop,
  get_or,
}
use luavela.Match.{Outcome, peek, next, MatchState}
use luavela.Match.Bounds.{Ends, Ends-bind, Ends-weaken, Good}
use luavela.Match.Gsub.{Replacement, add_value, replaced, moved, next_try, gsub_loop, string_gsub}
use luavela.Match.Search.{fresh-Good}

abbrev pub fresh : List ℕ → MatchState
fresh src = record { src = src; depth = 0; capture = [] }

-- Where the subject has been read up to, after a try at `s`.
abbrev reached : ℕ → Option ℕ → ℕ
reached s none = s
reached s (some e) = e

-- `Kept s b` holds of the buffer when the subject is read up to `s`, and `Done` of the result.
module _ (src : List ℕ) (repl : Replacement) (Kept : ℕ → List ℕ → Type 0) (Done : List ℕ → Type 0)
    (add_ok : (n : ℕ) (ms : MatchState) (s e : ℕ) (b : List ℕ)
      → Good (fresh src) s (some e, ms)
      → Kept s b
      → Ends (λ t. Kept e (b ++ t)) (add_value repl n ms s e))
    (char_ok : (s : ℕ) (b : List ℕ)
      → s < length src
      → Kept s b
      → Kept (s + 1) (b ++ get_or src s 0 ∷ []))
    (end_ok : (s : ℕ) (b : List ℕ) → s ≤ length src → Kept s b → Done (b ++ drop s src)) where
  abbrev Tried : ℕ → ℕ → Option ℕ → List ℕ × ℕ → Type 0
  Tried s n o q = Kept (reached s o) q.0 × (q.1 ≤ n + 1)

  replaced-Tried :
      (s : ℕ) (b : List ℕ) (n : ℕ) (r : Option ℕ × MatchState)
      → Good (fresh src) s r
      → Kept s b
      → Ends (Tried s n r.0) (replaced repl s b n r)
  unfolding replaced
  replaced-Tried s b n (none, ms) g k = (k, omega arith)
  replaced-Tried s b n (some e, ms) g k =
      Ends-bind (λ t. Kept e (b ++ t)) (Tried s n (some e)) (add_value repl n ms s e) _
        (add_ok n ms s e b g k) (λ t k'. (k', omega arith))

  -- The next try, if there is one, is further behind.
  abbrev Moves : ℕ → List ℕ → Option (ℕ × List ℕ) → Type 0
  Moves s b none = Kept s b
  Moves s b (some (s', b')) = (s < s') × (s' ≤ length src) × Kept s' b'

  char-Moves :
      (s : ℕ) (b : List ℕ)
      → Kept s b
      → Moves s b (if ltb s (length src) then some (s + 1, b ++ get_or src s 0 ∷ []) else none)
  char-Moves s b k = elim (Bool-cases (ltb s (length src))) [
    | inl inside ↦
        rw inside (omega arith, omega (arith, ltb→lt _ _ inside), char_ok s b (ltb→lt _ _ inside) k)
    | inr end ↦ rw end k
  ]

  moved-Moves :
      (s : ℕ) (b : List ℕ) (r : Option ℕ × MatchState)
      → Good (fresh src) s r
      → Kept (reached s r.0) b
      → Moves s b (moved src s r.0 b)
  unfolding moved
  moved-Moves s b (none, ms) g k = char-Moves s b k
  moved-Moves s b (some e, ms) g k = elim (Bool-cases (ltb s e)) [
    | inl further ↦ rw further (ltb→lt _ _ further, subst (λ l. e ≤ length l) g.2 g.1.inside, k)
    | inr here ↦
        let same : e ≡ s = omega (arith, g.0, ltb→le _ _ here) in
        rw here (char-Moves s b (subst (λ i. Kept i b) same k))
  ]

  -- The result, for a loop that starts at `s` with `n` matches.
  abbrev Ended : ℕ → ℕ → ℕ → List ℕ × ℕ → Type 0
  Ended s n max_s r = Done r.0 × (r.1 ≤ max_s) × (r.1 ≤ n + (length src - s) + 1)

  next_try-Ended :
      (anchor : Bool) (s : ℕ) (again : ℕ → List ℕ → Outcome (List ℕ × ℕ)) (b : List ℕ)
      (n m max_s : ℕ) (o : Option (ℕ × List ℕ))
      → s ≤ length src
      → n ≤ m + 1
      → n ≤ max_s
      → Moves s b o
      → ((s' : ℕ) (b' : List ℕ)
          → s < s'
          → s' ≤ length src
          → Kept s' b'
          → Ends (Ended s' n max_s) (again s' b'))
      → Ends (Ended s m max_s) (next_try anchor src s again b n o)
  next_try-Ended anchor s again b n m max_s none le one few k again-Ends =
      (end_ok s b le k, few, omega arith)
  next_try-Ended true s again b n m max_s (some (s', b')) le one few (lt, le', k') again-Ends =
      (end_ok s' b' le' k', few, omega arith)
  next_try-Ended false s again b n m max_s (some (s', b')) le one few (lt, le', k') again-Ends =
      Ends-weaken (Ended s' n max_s) (Ended s m max_s) _ (λ r h. (h.0, h.1, omega (arith, h.2)))
        (again-Ends s' b' lt le' k')

  gsub_loop-Ended :
      (anchor : Bool) (p : List ℕ) (max_s fuel s : ℕ) (b : List ℕ) (n : ℕ)
      → length src < s + fuel
      → s ≤ length src
      → n ≤ max_s
      → Kept s b
      → Ends (Ended s n max_s) (gsub_loop repl anchor src p max_s fuel s b n)
  unfolding gsub_loop
  gsub_loop-Ended anchor p max_s zero s b n enough le few k = absurd (omega arith)
  gsub_loop-Ended anchor p max_s (suc fuel) s b n enough le few k =
      elim (Bool-cases (ltb n max_s)) [
        | inr full ↦ rw full (end_ok s b le k, few, omega arith)
        | inl room ↦
            let fewer = ltb→lt n max_s room in
            rw room (
              Ends-bind (Good (fresh src) s) (Ended s n max_s) _ _ (fresh-Good src s p le) (λ r g.
                Ends-bind (Tried s n r.0) (Ended s n max_s) _ _ (replaced-Tried s b n r g k) (λ q t.
                  next_try-Ended anchor s _ q.0 q.1 n max_s _ le t.1 (omega (arith, t.1))
                    (moved-Moves s q.0 r g t.0)
                    (λ s' b' lt le' k'.
                      gsub_loop-Ended anchor p max_s fuel s' b' q.1 (omega arith) le'
                        (omega (arith, t.1)) k'))))
      ]

  abbrev pub Finished : ℕ → List ℕ × ℕ → Type 0
  Finished limit r = Done r.0 × (r.1 ≤ limit) × (r.1 ≤ length src + 1)

  from_start :
      (anchor : Bool) (p : List ℕ) (limit : ℕ)
      → Kept 0 []
      → Ends (Finished limit) (gsub_loop repl anchor src p limit (length src + 1) 0 [] 0)
  from_start anchor p limit k =
      Ends-weaken (Ended 0 0 limit) (Finished limit) _ (λ r h. (h.0, h.1, omega (arith, h.2)))
        (gsub_loop-Ended anchor p limit (length src + 1) 0 [] 0 (omega arith) (omega arith)
          (omega arith) k)

  pub string_gsub-Finished :
      (p : List ℕ) (max_s : ℕ)
      → Kept 0 []
      → Ends (Finished (if ltb max_s (2 ^ 31) then max_s else 0)) (string_gsub repl src p max_s)
  unfolding string_gsub
  string_gsub-Finished p max_s k = elim (Bool-cases (peek p == b'^')) [
    | inl anchor ↦ rw anchor (from_start true (next p) _ k)
    | inr free ↦ rw free (from_start false p _ k)
  ]
