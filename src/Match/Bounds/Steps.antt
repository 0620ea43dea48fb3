-- ===== src/Match/Bounds/Steps.antt =====
-- One round of the matcher, and the whole of it by induction on the fuel.
use luavela.Base.{
  ℕ, zero, suc, ◌+◌, ◌-◌, ◌≤◌, ◌<◌, ◌≡◌, ◌≢◌, refl, ap, ◌∙◌, Bool, true, false, not, ◌&&◌,
  Bool-cases, inl, inr,
}
use luavela.Base.{
  Option, none, some, List, [], ◌∷◌, length, drop, length-drop, get_or, ltb, ltb→lt, ◌==◌,
  if◌then◌else◌, arith,
}
use luavela.Chars.{lj_char_isa, lj_char_digit}
use luavela.Match.{peek, next, MatchState, unfinished, position}
use luavela.Match.Single.{singlematch, classend, l_esc}
use luavela.Match.Engine.{Matcher}
use luavela.Match.Engine.{
  match_item, match_quantified, at_frontier, frontier, match_step, with_depth, match_init, do_match,
  go_on, lj_max_xlevel,
}
use luavela.Match.Bounds.{
  Ends, Ends-bind, Ends-weaken, IsValid, Good, Contract, later-IsValid, earlier-Good,
}
use luavela.Match.Bounds.Items.{classend-shorter, EndsAt, matchbalance-EndsAt, match_capture-EndsAt}
use luavela.Match.Bounds.Loops.{or_else-Good, max_expand-Good, min_expand-Good}
use luavela.Match.Bounds.Captures.{start_capture-Good, end_capture-Good}

length-next : (p : List ℕ) → length (next p) ≤ length p
length-next [] = omega arith
length-next (c ∷ p) = omega arith

next-shorter : (p : List ℕ) → peek p ≢ 0 → length (next p) < length p
next-shorter [] h = absurd (h refl)
next-shorter (c ∷ p) h = omega arith

ne_zero : (c d : ℕ) → c == d ≡ true → 0 < d → c ≢ 0
ne_zero c d h lt = ground arith

eqb_ne : (a b : ℕ) → a == b ≡ false → a ≢ b
eqb_ne a b h = ground arith

-- `ms->depth--` at the exit makes up for `++ms->depth` at the entry.
shallower :
    (ms : MatchState) (s : ℕ) (r : Option ℕ × MatchState)
    → (let deeper : MatchState = record ms { depth = ms.depth + 1 } in Good deeper s r)
    → Good ms s (r.0, record (r.1) { depth = r.1.depth - 1 })
shallower ms s (none, ms') g =
    let back : ms.depth + 1 - 1 ≡ ms.depth = omega arith in
    ap (λ m. let m' : MatchState = record m { depth = m.depth - 1 } in m') g
    ∙ ap (λ d. let m : MatchState = record ms { depth = d } in m) back
shallower ms s (some e, ms') g = (
  g.0,
  record { inside = g.1.inside; captured = g.1.captured; few = g.1.few },
  g.2,
  omega (arith, g.3),
)

and_first : (a b : Bool) → a && b ≡ true → a ≡ true
and_first a b h = ground arith

stays : (b : Bool) (s n : ℕ) → s ≤ n → EndsAt s n (if b then some s else none)
stays true s n h = omega arith
stays false s n h = tt

module _ (k : ℕ) (call init : Matcher) (contract : Contract k call) (here : Contract k init) where
  -- `match` or the label one character further on.
  onward :
      (m : Matcher) (ms : MatchState) (s : ℕ) (q : List ℕ)
      → Contract k m
      → IsValid ms s
      → s < length ms.src
      → length q < k
      → Ends (Good ms s) (m ms (s + 1) q)
  onward m ms s q c v lt h =
      Ends-weaken (Good ms (s + 1)) (Good ms s) _ (λ r. earlier-Good ms s (s + 1) r (omega arith))
        (c ms (s + 1) q (later-IsValid ms s (s + 1) (omega arith) (omega arith) v) h)

  quantified-Good :
      (ms : MatchState) (s : ℕ) (p ep : List ℕ)
      → IsValid ms s
      → length ep < k
      → Ends (Good ms s) (match_quantified call init ms s p ep)
  unfolding match_quantified
  quantified-Good ms s p ep v h =
      let m = ltb s (length ms.src) && singlematch (get_or ms.src s 0) p ep in
      let h' : length (next ep) < k = omega (arith, length-next ep) in
      let lt : m ≡ true → s < length ms.src = λ e. ltb→lt s (length ms.src) (and_first _ _ e) in
      elim (Bool-cases (peek ep == b'?')) [
        | inl option ↦ elim (Bool-cases m) [
          | inl one ↦
              rw (option, one)
                (Ends-bind (Good ms s) (Good ms s) (call ms (s + 1) (next ep)) _
                  (onward call ms s (next ep) contract v (lt one) h')
                  (λ r good. or_else-Good ms s r _ good (here ms s (next ep) v h')))
          | inr zero_ ↦ rw (option, zero_) (here ms s (next ep) v h')
        ]
        | inr e1 ↦ elim (Bool-cases (peek ep == b'*')) [
          | inl star ↦ rw (e1, star) (max_expand-Good k call contract ms s p ep v h')
          | inr e2 ↦ elim (Bool-cases (peek ep == b'+')) [
            | inl plus ↦ elim (Bool-cases m) [
              | inl one ↦
                  rw (e1, e2, plus, one)
                    (Ends-weaken (Good ms (s + 1)) (Good ms s) _
                      (λ r. earlier-Good ms s (s + 1) r (omega arith))
                      (max_expand-Good k call contract ms (s + 1) p ep
                        (later-IsValid ms s (s + 1) (omega arith) (omega (arith, lt one)) v) h'))
              | inr zero_ ↦ rw (e1, e2, plus, zero_) refl
            ]
            | inr e3 ↦ elim (Bool-cases (peek ep == b'-')) [
              | inl minus ↦ rw (e1, e2, e3, minus) (min_expand-Good k call contract ms s p ep v h')
              | inr e4 ↦ elim (Bool-cases m) [
                | inl one ↦ rw (e1, e2, e3, e4, one) (onward init ms s ep here v (lt one) h)
                | inr zero_ ↦ rw (e1, e2, e3, e4, zero_) refl
              ]
            ]
          ]
        ]
      ]

  go_on-Good :
      (ms : MatchState) (s : ℕ) (q : List ℕ) (o : Option ℕ)
      → IsValid ms s
      → length q < k
      → EndsAt s (length ms.src) o
      → Ends (Good ms s) (go_on init ms q o)
  go_on-Good ms s q none v h e = refl
  go_on-Good ms s q (some t) v h e =
      Ends-weaken (Good ms t) (Good ms s) _ (λ r. earlier-Good ms s t r e.0)
        (here ms t q (later-IsValid ms s t e.0 e.1 v) h)

  frontier-Good :
      (ms : MatchState) (s : ℕ) (p : List ℕ)
      → IsValid ms s
      → length p ≤ k
      → Ends (Good ms s) (frontier init ms s p)
  unfolding frontier
  frontier-Good ms s p v h = elim (Bool-cases (peek p == b'[')) [
    | inr other ↦ rw other tt
    | inl bracket ↦ rw bracket (
        Ends-bind (λ ep. length ep < length p) (Good ms s) (classend p) _
          (classend-shorter p (ne_zero _ b'[' bracket (omega arith)))
          (λ ep shorter.
            go_on-Good ms s ep _ v (omega (arith, shorter))
              (stays (at_frontier ms s p ep) s _ v.inside)))
  ]

  at_end :
      (ms : MatchState) (s : ℕ)
      → IsValid ms s
      → Good ms s (if s == length ms.src then some s else none, ms)
  at_end ms s v = elim (Bool-cases (s == length ms.src)) [
    | inl e ↦ rw e (omega arith, v, refl, refl)
    | inr e ↦ rw e refl
  ]

  item-Good :
      (ms : MatchState) (s : ℕ) (p : List ℕ)
      → IsValid ms s
      → length p ≤ k
      → peek p ≢ 0
      → Ends (Good ms s) (match_item call init ms s p)
  unfolding match_item
  item-Good ms s p v h some_ =
      Ends-bind (λ ep. length ep < length p) (Good ms s) (classend p) _ (classend-shorter p some_)
        (λ ep shorter. quantified-Good ms s p ep v (omega (arith, shorter)))

  -- One round keeps the contract one character further back, if what it calls keeps it.
  pub match_step-Good :
      (ms : MatchState) (s : ℕ) (p : List ℕ)
      → IsValid ms s
      → length p ≤ k
      → Ends (Good ms s) (match_step call init ms s p)
  unfolding match_step
  match_step-Good ms s p v h =
      let d = peek (next p) in
      elim (Bool-cases (peek p == b'(')) [
        | inl e ↦
            let short = next-shorter p (ne_zero _ b'(' e (omega arith)) in
            elim (Bool-cases (d == b')')) [
              | inl f ↦
                  rw (e, f)
                    (start_capture-Good k call contract ms s (next (next p)) position v
                      (omega (arith, short, h, length-next (next p))) (omega arith))
              | inr f ↦
                  rw (e, f)
                    (start_capture-Good k call contract ms s (next p) unfinished v
                      (omega (arith, short, h)) (omega arith))
            ]
        | inr n1 ↦ elim (Bool-cases (peek p == b')')) [
          | inl e ↦
              rw (n1, e)
                (end_capture-Good k call contract ms s (next p) v
                  (omega (arith, next-shorter p (ne_zero _ b')' e (omega arith)), h)))
          | inr n2 ↦ elim (Bool-cases (peek p == l_esc && d == b'b')) [
            | inl e ↦
                let short = next-shorter p (ne_zero _ l_esc (and_first _ _ e) (omega arith)) in
                rw (n1, n2, e)
                  (Ends-bind (EndsAt s (length ms.src)) (Good ms s) _ _
                    (matchbalance-EndsAt ms.src s (next (next p)) v.inside)
                    (λ o at.
                      go_on-Good ms s (drop 4 p) o v (omega (arith, short, h, length-drop 4 p)) at))
            | inr n3 ↦ elim (Bool-cases (peek p == l_esc && d == b'f')) [
              | inl e ↦
                  rw (n1, n2, n3, e)
                    (frontier-Good ms s (next (next p)) v
                      (omega (arith, length-next p, length-next (next p), h)))
              | inr n4 ↦
                  elim (Bool-cases (peek p == l_esc && not (lj_char_isa d lj_char_digit == 0))) [
                    | inl e ↦
                        let short =
                          next-shorter p (ne_zero _ l_esc (and_first _ _ e) (omega arith)) in
                        rw (n1, n2, n3, n4, e)
                          (Ends-bind (EndsAt s (length ms.src)) (Good ms s) _ _
                            (match_capture-EndsAt ms s d v.inside)
                            (λ o at.
                              go_on-Good ms s (next (next p)) o v
                                (omega (arith, short, h, length-next (next p))) at))
                    | inr n5 ↦ elim (Bool-cases (peek p == 0)) [
                      | inl e ↦ rw (n1, n2, n3, n4, n5, e) (omega arith, v, refl, refl)
                      | inr n6 ↦ elim (Bool-cases (peek p == b'$' && d == 0)) [
                        | inl e ↦ rw (n1, n2, n3, n4, n5, n6, e) (at_end ms s v)
                        | inr n7 ↦
                            rw (n1, n2, n3, n4, n5, n6, n7) (item-Good ms s p v h (eqb_ne _ 0 n6))
                      ]
                    ]
                  ]
            ]
          ]
        ]
      ]

-- The contract of the label `init`, and so of `match`, by induction on the fuel.
with_depth-Good : (k : ℕ) (init : Matcher) → Contract k init → Contract k (with_depth init)
with_depth-Good k init here ms s p v h =
    let deeper : MatchState = record ms { depth = ms.depth + 1 } in
    let v' : IsValid deeper s = record { inside = v.inside; captured = v.captured; few = v.few } in
    elim (Bool-cases (ltb lj_max_xlevel (ms.depth + 1))) [
      | inl deep ↦ rw deep tt
      | inr fits ↦ rw fits (
          Ends-bind (Good deeper s) (Good ms s) (init deeper s p) _ (here deeper s p v' h)
            (λ r good. shallower ms s r good))
    ]

pub match_init-Good : (fuel : ℕ) → Contract fuel (match_init fuel)
unfolding match_init
match_init-Good zero ms s p v h = absurd (omega arith)
match_init-Good (suc fuel) ms s p v h =
    match_step-Good fuel (with_depth (match_init fuel)) (match_init fuel)
      (with_depth-Good fuel (match_init fuel) (match_init-Good fuel)) (match_init-Good fuel) ms s p
      v (omega arith)

-- `match` ends for every pattern and every subject, with a result or an error of the source. If
-- it fails, the state is as it was: the captures that it opened and closed are undone. If it
-- matches, it ends between `s` and the end of the subject, and the captures lie in the subject.
pub do_match-Good :
    (ms : MatchState) (s : ℕ) (p : List ℕ) → IsValid ms s → Ends (Good ms s) (do_match ms s p)
unfolding do_match
do_match-Good ms s p v =
    with_depth-Good (length p + 1) (match_init (length p + 1)) (match_init-Good (length p + 1)) ms s
      p v (omega arith)
