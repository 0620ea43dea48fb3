-- ===== src/Match/Bounds/Loops.antt =====
-- The repetitions of an item.
use luavela.Base.{ℕ, zero, suc, ◌+◌, ◌≤◌, ◌<◌, ◌≡◌, refl, sym, subst, Bool-cases, inl, inr}
use luavela.Base.{Option, none, some, List, [], ◌∷◌, length, drop, length-drop, arith}
use luavela.Match.{next, MatchState, Result}
use luavela.Match.Single.{singlematch}
use luavela.Match.Engine.{
  Matcher, or_else, expand_down, expand_up, max_expand, min_expand, count_single,
}
use luavela.Match.Bounds.{
  Ends, Ends-bind, Ends-weaken, IsValid, Good, Contract, later-IsValid, earlier-Good,
}
use luavela.Match.Bounds.Items.{count_single-le-length}

-- A match that failed left the state as it was, so that another one starts from there.
pub or_else-Good :
    (ms : MatchState) (s : ℕ) (r : Option ℕ × MatchState) (retry : MatchState → Result)
    → Good ms s r
    → Ends (Good ms s) (retry ms)
    → Ends (Good ms s) (or_else r retry)
or_else-Good ms s (some e, ms') retry h k = h
or_else-Good ms s (none, ms') retry h k = subst (λ m. Ends (Good ms s) (retry m)) (sym h) k

module _ (k : ℕ) (call : Matcher) (contract : Contract k call) where
  expand_down-Good :
      (q : List ℕ) (s i : ℕ) (ms : MatchState)
      → length q < k
      → s + i ≤ length ms.src
      → IsValid ms s
      → Ends (Good ms s) (expand_down call q s i ms)
  unfolding expand_down
  expand_down-Good q s zero ms h within v = contract ms s q v h
  expand_down-Good q s (suc i) ms h within v =
      Ends-bind (Good ms (s + suc i)) (Good ms s) (call ms (s + suc i) q) _
        (contract ms (s + suc i) q (later-IsValid ms s (s + suc i) (omega arith) within v) h)
        (λ r good.
          or_else-Good ms s r (expand_down call q s i)
            (earlier-Good ms s (s + suc i) r (omega arith) good)
            (expand_down-Good q s i ms h (omega arith) v))

  pub max_expand-Good :
      (ms : MatchState) (s : ℕ) (p ep : List ℕ)
      → IsValid ms s
      → length (next ep) < k
      → Ends (Good ms s) (max_expand call ms s p ep)
  unfolding max_expand
  max_expand-Good ms s p ep v h =
      expand_down-Good (next ep) s (count_single p ep (drop s ms.src)) ms h
        (omega (arith, count_single-le-length p ep (drop s ms.src), length-drop s ms.src, v.inside))
        v

  expand_up-Good :
      (p ep : List ℕ) (s : ℕ) (xs : List ℕ) (ms : MatchState)
      → length (next ep) < k
      → s + length xs ≡ length ms.src
      → IsValid ms s
      → Ends (Good ms s) (expand_up call p ep s xs ms)
  unfolding expand_up
  expand_up-Good p ep s [] ms h e v = contract ms s (next ep) v h
  expand_up-Good p ep s (x ∷ xs) ms h e v =
      Ends-bind (Good ms s) (Good ms s) (call ms s (next ep)) _ (contract ms s (next ep) v h)
        (λ r good. or_else-Good ms s r _ good (elim (Bool-cases (singlematch x p ep)) [
          | inl again ↦ rw again (
              Ends-weaken (Good ms (s + 1)) (Good ms s) _
                (λ r'. earlier-Good ms s (s + 1) r' (omega arith))
                (expand_up-Good p ep (s + 1) xs ms h (omega (arith, e))
                  (later-IsValid ms s (s + 1) (omega arith) (omega (arith, e)) v)))
          | inr stop ↦ rw stop refl
        ]))

  pub min_expand-Good :
      (ms : MatchState) (s : ℕ) (p ep : List ℕ)
      → IsValid ms s
      → length (next ep) < k
      → Ends (Good ms s) (min_expand call ms s p ep)
  unfolding min_expand
  min_expand-Good ms s p ep v h =
      expand_up-Good p ep s (drop s ms.src) ms h (omega (arith, length-drop s ms.src, v.inside)) v
