-- ===== src/Tab/Pairs.antt =====
-- The loop over a table by lj_tab_next of src/lj_tab.c, which looks each key up again.
use luavela.Base.{ℕ, zero, suc, ◌+◌, ◌-◌, ◌^◌, ◌≤◌, ◌<◌, ◌≡◌, refl, ap, ◌∙◌, arith}
use luavela.Base.{true, false, Bool-cases, inl, inr, Option, none, some, List, [], ◌∷◌}
use luavela.Tab.{Values, TValue, nil, GcTab, tvisnil, uj_obj_equal}
use luavela.Tab.Create.{lj_max_asize}
use luavela.Tab.Wellformed.{IsChained}
use luavela.Tab.Getters.{array_index}
use luavela.Tab.Traverse.{Step, cell, full_cells, first_cell, tab_next_lem}
use luavela.Tab.Next.{lj_tab_next, next_nil, lj_tab_next-cell}

abbrev pub add_pair :
    TValue × TValue → Option (List (TValue × TValue)) → Option (List (TValue × TValue))
add_pair p none = none
add_pair p (some l) = some (p ∷ l)

-- The pairs that a loop over lj_tab_next sees behind a key; none for an error, or a lack of fuel.
unfoldable pub pairs_behind :
    Values → (TValue → Option ℕ) → GcTab → ℕ → TValue → Option (List (TValue × TValue))
pairs_behind values itern t zero key = none
pairs_behind values itern t (suc fuel) key = elim (lj_tab_next values itern t key) [
  | none ↦ none
  | some o ↦ elim o [
    | none ↦ some []
    | some s ↦ add_pair (s.key, s.val) (pairs_behind values itern t fuel s.key)
  ]
]

module _ (values : Values) (itern : TValue → Option ℕ) (t : GcTab) (w : IsChained values t)
    (few : t.asize ≤ lj_max_asize) (small : t.hmask < 2 ^ 26)
    (apart : (j : ℕ) → tvisnil (t.node j).key ≡ false → array_index values t (t.node j).key ≡ none)
    (regular : (j : ℕ)
      → tvisnil (t.node j).key ≡ false
      → uj_obj_equal values (t.node j).key (t.node j).key ≡ true) where
  pairs_behind_last :
      (fuel : ℕ) (key : TValue)
      → lj_tab_next values itern t key ≡ some none
      → pairs_behind values itern t (suc fuel) key ≡ some []
  unfolding pairs_behind
  pairs_behind_last fuel key e = rw (e, pairs_behind) refl

  pairs_behind_step :
      (fuel : ℕ) (key : TValue) (s : Step)
      → lj_tab_next values itern t key ≡ some (some s)
      → pairs_behind values itern t (suc fuel) key
        ≡ add_pair (s.key, s.val) (pairs_behind values itern t fuel s.key)
  unfolding pairs_behind
  pairs_behind_step fuel key s e = rw (e, pairs_behind) refl

  behind-full_cells :
      (n k fuel : ℕ) (key : TValue)
      → n + k ≡ t.asize + t.hmask + 1
      → n < fuel
      → lj_tab_next values itern t key ≡ some (first_cell values t n k)
      → pairs_behind values itern t fuel key ≡ some (full_cells values t n k)
  unfolding first_cell full_cells
  behind-full_cells n k zero key e lt next = absurd (omega arith)
  behind-full_cells zero k (suc fuel) key e lt next = pairs_behind_last fuel key next
  behind-full_cells (suc n) k (suc fuel) key e lt next =
      elim (Bool-cases (tvisnil (cell values t k).1)) [
        | inl empty ↦ rw empty (
            behind-full_cells n (k + 1) (suc fuel) key (omega arith) (omega arith)
              (rw empty at next))
        | inr full ↦
            let steps : t.asize + t.hmask + 1 - (k + 1) ≡ n = omega arith in
            let again =
              lj_tab_next-cell values itern t w few small apart regular k (omega arith) full
              ∙ ap (λ o. let r : Option (Option Step) = some o in r)
                  (tab_next_lem values t (k + 1) (omega arith)
                    ∙ ap (λ m. first_cell values t m (k + 1)) steps) in
            let rest =
              behind-full_cells n (k + 1) fuel (cell values t k).0 (omega arith) (omega arith)
                again in
            rw full (
              pairs_behind_step fuel key _ (rw full at next) ∙ ap (add_pair (cell values t k)) rest)
      ]

  -- From nil on, a loop over lj_tab_next ends within asize + hmask + 2 steps without an error, and
  -- sees each cell of the table whose value is not nil once, in their order: in a well-formed table
  -- within the limits of sizes, of whose nodes no key belongs to the array part or is NaN.
  pub pairs_behind-full_cells :
      (fuel : ℕ)
      → t.asize + t.hmask + 1 < fuel
      → pairs_behind values itern t fuel nil ≡ some (full_cells values t (t.asize + t.hmask + 1) 0)
  pairs_behind-full_cells fuel lt =
      let n = t.asize + t.hmask + 1 in
      let whole : n - 0 ≡ n = omega arith in
      behind-full_cells n 0 fuel nil (omega arith) lt (
        next_nil values itern t
        ∙ ap (λ o. let r : Option (Option Step) = some o in r)
            (tab_next_lem values t 0 (omega arith) ∙ ap (λ m. first_cell values t m 0) whole))
