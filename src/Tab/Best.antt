-- ===== src/Tab/Best.antt =====
-- bestasize of src/lj_tab.c: the best size of the array part, from the bins of integer keys.
use luavela.Base.{ℕ, zero, suc, ◌+◌, ◌-◌, ◌*◌, ◌%◌, ◌^◌, ◌≤◌, ◌<◌, ◌≡◌, refl, sym, ap, ◌∙◌, arith}
use luavela.Base.{Bool, false, not, ◌&&◌, Bool-cases, inl, inr}
use luavela.Base.{ltb, ltb→le, le→ltb, ◌==◌, eqb→eq, if◌then◌else◌}
use native.Mathlib.Nat.{pow-suc, pow-le-pow_right}
use luavela.Tab.Count.{keys_below}

-- The loop of `bestasize` from the bin `b` on: `sum` keys so far, `na` of which an array of the
-- size `sz` would hold. Sums and their doubles are uint32_t; there are 28 bins.
unfoldable pub best_from : (ℕ → ℕ) → ℕ → ℕ → ℕ → ℕ → ℕ → ℕ → ℕ × ℕ
best_from bins nn zero b sum na sz = (na, sz)
best_from bins nn (suc fuel) b sum na sz =
    let sum' = (sum + bins b) % 2 ^ 32 in
    let dense = ltb 0 (bins b) && ltb (2 ^ b) (2 * sum' % 2 ^ 32) in
    let na' = if dense then sum' else na in
    let sz' = if dense then 2 * 2 ^ b + 1 else sz in
    let rest = best_from bins nn fuel (b + 1) sum' na' sz' in
    if ltb (2 ^ b) (2 * nn % 2 ^ 32) && not (sum == nn) then rest else (na, sz)

unfoldable pub bestasize : (ℕ → ℕ) → ℕ → ℕ × ℕ
bestasize bins narray = best_from bins narray 28 0 0 0 0

-- The bin `b` has a key, and the keys up to its end are more than a quarter of as many slots.
unfoldable pub is_dense : (ℕ → ℕ) → ℕ → Bool
is_dense bins b = ltb 0 (bins b) && ltb (2 ^ suc b) (4 * keys_below bins (suc b))

-- The last dense bin below `n`: the keys up to its end, and the slots for them and the slot 0.
unfoldable pub last_dense : (ℕ → ℕ) → ℕ → ℕ × ℕ
last_dense bins zero = (0, 0)
last_dense bins (suc b) =
    let before = last_dense bins b in
    if is_dense bins b then (keys_below bins (suc b), 2 ^ suc b + 1) else before

module _ (bins : ℕ → ℕ) where
  keys_next : (b : ℕ) → keys_below bins (suc b) ≡ keys_below bins b + bins b
  unfolding keys_below
  keys_next b = refl

  keys_le : (a d : ℕ) → keys_below bins a ≤ keys_below bins (a + d)
  keys_le a zero = let same : a + 0 ≡ a = omega arith in rw same (omega arith)
  keys_le a (suc d) =
      let next : a + suc d ≡ suc (a + d) = omega arith in
      let rest = keys_le a d in rw next (omega (arith, rest, keys_next (a + d)))

  -- Where no bin from `b` on is dense, the last dense one is below `b`.
  none_later :
      (b d : ℕ)
      → ((b' : ℕ) → b ≤ b' → b' < b + d → is_dense bins b' ≡ false)
      → last_dense bins (b + d) ≡ last_dense bins b
  unfolding last_dense
  none_later b zero sparse = let same : b + 0 ≡ b = omega arith in rw same refl
  none_later b (suc d) sparse =
      let next : b + suc d ≡ suc (b + d) = omega arith in
      rw (next, sparse (b + d) (omega arith) (omega arith))
        (none_later b d (λ b' le lt. sparse b' le (omega arith)))

  module _ (nn : ℕ) (all : nn ≡ keys_below bins 28) (small : nn < 2 ^ 31) where
    below_all : (b : ℕ) → b ≤ 28 → keys_below bins b ≤ nn
    below_all b le =
        let rest = keys_le b (28 - b) in
        let whole : b + (28 - b) ≡ 28 = omega arith in
        let end : keys_below bins (b + (28 - b)) ≡ keys_below bins 28 =
          ap (keys_below bins) whole in
        omega (arith, rest, end)

    -- Where the loop stops, no later bin is dense.
    stop_sparse :
        (b b' : ℕ)
        → (ltb (2 ^ b) (2 * nn % 2 ^ 32) && not (keys_below bins b == nn)) ≡ false
        → b ≤ b'
        → b' < 28
        → is_dense bins b' ≡ false
    unfolding is_dense
    stop_sparse b b' stop le lt =
        let total = below_all (suc b') (omega arith) in
        let before = keys_le b (b' - b) in
        let at : keys_below bins (b + (b' - b)) ≡ keys_below bins b' =
          ap (keys_below bins) (let same : b + (b' - b) ≡ b' = omega arith in same) in
        let next = keys_next b' in
        let power : 2 ^ b ≤ 2 ^ b' = pow-le-pow_right (omega arith) le in
        elim (Bool-cases (ltb (2 ^ b) (2 * nn % 2 ^ 32))) [
          | inr few ↦
              let bound = ltb→le (2 ^ b) (2 * nn % 2 ^ 32) few in
              rw
                (le→ltb (2 ^ suc b') (4 * keys_below bins (suc b'))
                  (omega (arith, total, bound, power, pow-suc 2 b')))
                (ground arith)
          | inl many ↦
              let same : keys_below bins b ≡ nn = eqb→eq (keys_below bins b) nn (ground arith) in
              rw (le→ltb 0 (bins b') (omega (arith, before, at, next, total, same))) refl
        ]

    -- The test of the loop is that of the specification.
    dense_lem :
        (b : ℕ)
        → b < 28
        → ((keys_below bins b + bins b) % 2 ^ 32 ≡ keys_below bins (suc b))
          × ((ltb 0 (bins b) && ltb (2 ^ b) (2 * keys_below bins (suc b) % 2 ^ 32))
              ≡ is_dense bins b)
    unfolding is_dense
    dense_lem b lt =
        let total = below_all (suc b) (omega arith) in
        let next = keys_next b in
        let twice : 2 * keys_below bins (suc b) % 2 ^ 32 ≡ 2 * keys_below bins (suc b) =
          omega arith in
        let power = pow-suc 2 b in
        let same : ltb (2 ^ b) (2 * keys_below bins (suc b))
            ≡ ltb (2 ^ suc b) (4 * keys_below bins (suc b)) =
          ground (arith, power) in
        (omega (arith, total, next), rw (twice, same) refl)

    last_dense-suc :
        (b : ℕ)
        → ((last_dense bins (suc b)).0
            ≡ (if is_dense bins b then keys_below bins (suc b) else (last_dense bins b).0))
          × ((last_dense bins (suc b)).1
              ≡ (if is_dense bins b then 2 * 2 ^ b + 1 else (last_dense bins b).1))
    unfolding last_dense
    last_dense-suc b = elim (Bool-cases (is_dense bins b)) [
      | inl e ↦ rw e (refl, omega (arith, pow-suc 2 b))
      | inr e ↦ rw e (refl, refl)
    ]

    best_from-last_dense :
        (fuel b : ℕ)
        → b + fuel ≡ 28
        → best_from bins nn fuel b (keys_below bins b) (last_dense bins b).0 (last_dense bins b).1
          ≡ last_dense bins 28
    unfolding best_from
    best_from-last_dense zero b e = ap (last_dense bins) (let end : b ≡ 28 = omega arith in end)
    best_from-last_dense (suc fuel) b e =
        let (sum, dense) = dense_lem b (omega arith) in
        let next : b + 1 ≡ suc b = omega arith in
        elim (Bool-cases (ltb (2 ^ b) (2 * nn % 2 ^ 32) && not (keys_below bins b == nn))) [
          | inr stop ↦ rw stop (
              sym (none_later b (suc fuel) (λ b' le lt. stop_sparse b b' stop le (omega arith)))
              ∙ ap (last_dense bins) e)
          | inl on ↦
              let (keys, size) = last_dense-suc b in
              let rest = best_from-last_dense fuel (suc b) (omega arith) in
              rw (on, sum, dense, next, sym keys, sym size) rest
        ]

    -- When bestasize gets the number of all keys in the bins, which is below 2 ^ 31, it chooses
    -- the keys and the size for the last dense bin of all 28, and no array if there is none.
    pub bestasize-last_dense : bestasize bins nn ≡ last_dense bins 28
    unfolding bestasize last_dense keys_below
    bestasize-last_dense = best_from-last_dense 28 0 refl
