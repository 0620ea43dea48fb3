-- ===== src/Match/Bounds/Items.antt =====
-- The parts that read the pattern and the subject, and change no state.
use luavela.Base.{ℕ, suc, ◌+◌, ◌-◌, ◌≤◌, ◌<◌, ◌≡◌, ◌≢◌, refl, ◌||◌}
use luavela.Base.{Option, none, some, List, [], ◌∷◌, ltb, leb, ◌==◌, length, drop, get_or}
use luavela.Base.{Bool-cases, inl, inr, length-drop, arith}
use luavela.Match.{peek, next, Capture}
use luavela.Match.{MatchState}
use luavela.Match.Single.{classend, bracket_end}
use luavela.Match.Engine.{
  balance_loop, matchbalance, count_single, check_capture, match_capture, read_capture, no_capture,
  is_unfinished,
}
use luavela.Match.Bounds.{Ends}

bracket_end-shorter :
    (p : List ℕ) (k : ℕ) → length p < k → Ends (λ ep. length ep < k) (bracket_end p)
unfolding bracket_end
bracket_end-shorter [] k h = tt
bracket_end-shorter (c ∷ []) k h = tt
bracket_end-shorter (c ∷ d ∷ []) k h = ground arith
bracket_end-shorter (c ∷ d ∷ x ∷ p) k h =
    ground (arith, bracket_end-shorter (x ∷ p) k, bracket_end-shorter (d ∷ x ∷ p) k)

pub classend-shorter : (p : List ℕ) → peek p ≢ 0 → Ends (λ ep. length ep < length p) (classend p)
unfolding classend
classend-shorter [] h = absurd (h refl)
classend-shorter (c ∷ []) h = ground (arith, bracket_end-shorter [] 1)
classend-shorter (c ∷ d ∷ p) h = ground (
  arith,
  bracket_end-shorter p (suc (suc (length p))),
  bracket_end-shorter (d ∷ p) (suc (suc (length p))),
)

pub count_single-le-length : (p ep xs : List ℕ) → count_single p ep xs ≤ length xs
unfolding count_single
count_single-le-length p ep [] = omega arith
count_single-le-length p ep (x ∷ xs) = ground (arith, count_single-le-length p ep xs)

-- Where a part of the subject ends.
abbrev pub EndsAt : ℕ → ℕ → Option ℕ → Type 0
EndsAt s n none = Unit
EndsAt s n (some e) = (s ≤ e) × (e ≤ n)

wider-EndsAt : (s t m n : ℕ) (o : Option ℕ) → s ≤ t → m ≤ n → EndsAt t m o → EndsAt s n o
wider-EndsAt s t m n none p q h = tt
wider-EndsAt s t m n (some e) p q h = omega (arith, h)

balance_loop-EndsAt :
    (b e cont i : ℕ) (xs : List ℕ) → EndsAt (i + 1) (i + length xs) (balance_loop b e cont i xs)
unfolding balance_loop
balance_loop-EndsAt b e cont i [] = tt
balance_loop-EndsAt b e cont i (x ∷ xs) =
    let up = λ (o : Option ℕ).
      wider-EndsAt (i + 1) (i + 1 + 1) (i + 1 + length xs) (i + suc (length xs)) o (omega arith)
        (omega arith) in
    elim (Bool-cases (x == e)) [
      | inl close ↦ elim (Bool-cases (cont == 1)) [
        | inl last ↦ rw (close, last) (omega arith)
        | inr inner ↦ rw (close, inner) (up _ (balance_loop-EndsAt b e (cont - 1) (i + 1) xs))
      ]
      | inr plain ↦ elim (Bool-cases (x == b)) [
        | inl open_ ↦ rw (plain, open_) (up _ (balance_loop-EndsAt b e (cont + 1) (i + 1) xs))
        | inr other ↦ rw (plain, other) (up _ (balance_loop-EndsAt b e cont (i + 1) xs))
      ]
    ]

inside-EndsAt :
    (s n : ℕ) (xs : List ℕ) (o : Option ℕ)
    → s ≤ n
    → length xs ≡ n - (s + 1)
    → EndsAt (s + 1 + 1) (s + 1 + length xs) o
    → EndsAt s n o
inside-EndsAt s n xs none h e k = tt
inside-EndsAt s n xs (some r) h e k = omega (arith, e, k)

pub matchbalance-EndsAt :
    (src : List ℕ) (s : ℕ) (p : List ℕ)
    → s ≤ length src
    → Ends (EndsAt s (length src)) (matchbalance src s p)
unfolding matchbalance
matchbalance-EndsAt src s p h = elim (Bool-cases (peek p == 0 || peek (next p) == 0)) [
  | inl bad ↦ rw bad tt
  | inr good ↦ elim (Bool-cases (get_or src s 0 == peek p)) [
    | inr other ↦ rw (good, other) tt
    | inl same ↦
        rw (good, same)
          (inside-EndsAt s (length src) (drop (s + 1) src) _ h (length-drop (s + 1) src)
            (balance_loop-EndsAt (peek p) (peek (next p)) 1 (s + 1) (drop (s + 1) src)))
  ]
]

captured-EndsAt :
    (ms : MatchState) (s : ℕ) (c : Capture)
    → s ≤ length ms.src
    → Ends (EndsAt s (length ms.src)) (read_capture ms s c)
unfolding read_capture
captured-EndsAt ms s c h = ground arith

pub match_capture-EndsAt :
    (ms : MatchState) (s l : ℕ)
    → s ≤ length ms.src
    → Ends (EndsAt s (length ms.src)) (match_capture ms s l)
unfolding match_capture check_capture
match_capture-EndsAt ms s l h =
    elim (Bool-cases (
      ltb l b'1'
      || leb (length ms.capture) (l - b'1')
      || is_unfinished (get_or ms.capture (l - b'1') no_capture))) [
        | inl bad ↦ rw bad tt
        | inr good ↦ rw good (captured-EndsAt ms s _ h)
      ]
