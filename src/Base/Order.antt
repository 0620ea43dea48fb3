-- ===== src/Base/Order.antt =====
-- Well-founded recursion along a measure into the native numbers.
use Prim.Native.Nat.{ℕ, zero, suc, ◌<◌}
use mathlib.Core.WellFounded.{Acc}
use native.Mathlib.Omega.{arith}

module _ {A : Type 0} (measure : A → ℕ) where
  -- `a` is smaller than `b`.
  abbrev pub Smaller : A → A → Type 0
  Smaller a b = measure a < measure b

  Acc_below : (k : ℕ) (a : A) → measure a < k → Acc Smaller a
  Acc_below zero a h = absurd (omega arith)
  Acc_below (suc k) a h = Acc.intro a (λ b hb. Acc_below k b (omega arith))

  -- Every value is accessible, so a loop whose measure falls ends.
  unfoldable pub ends : (a : A) → Acc Smaller a
  unfolding Acc_below
  ends a = Acc_below (suc (measure a)) a (omega arith)
