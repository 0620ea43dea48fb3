-- ===== src/Tab/Traverse.antt =====
-- Traversal and size of a table, in src/lj_tab.c.
use luavela.Base.{ℕ, zero, suc, ◌+◌, ◌-◌, ◌≤◌, ◌<◌, ◌≡◌, refl, sym, ap, ◌∙◌, arith}
use luavela.Base.{true, Bool-cases, inl, inr, Option, none, some, Option-cases}
use luavela.Base.{List, [], ◌∷◌, length, ltb, ltb→lt, ltb→le, le→ltb, lt→ltb, if◌then◌else◌}
use luavela.Tab.{Values, TValue, num, GcTab, tvisnil}
use luavela.Tab.Create.{not_zero, not_zero-false}

-- The next index of the traversal, and the pair that is left on the stack.
pub record Step : Type 0 where
  pub index : ℕ
  pub key : TValue
  pub val : TValue

-- The loops of tab_next over the array part and over the nodes.
unfoldable pub next_array : Values → GcTab → ℕ → ℕ → Option Step
next_array values t zero i = none
next_array values t (suc fuel) i =
    let rest = next_array values t fuel (i + 1) in
    let found : Step = record { index = i + 1; key = num (values.int2num i); val = t.array i } in
    if tvisnil (t.array i) then rest else some found

unfoldable pub next_hash : GcTab → ℕ → ℕ → Option Step
next_hash t zero i = none
next_hash t (suc fuel) i =
    let rest = next_hash t fuel (i + 1) in
    let found : Step = record {
      index = i + 1 + t.asize;
      key = (t.node i).key;
      val = (t.node i).val;
    } in
    if tvisnil (t.node i).val then rest else some found

abbrev pub or_step : Option Step → Option Step → Option Step
or_step none other = other
or_step (some s) other = some s

-- `tab_next`: no step stands for the result 0.
unfoldable pub tab_next : Values → GcTab → ℕ → Option Step
tab_next values t key =
    let from = key - t.asize in
    or_step (next_array values t (t.asize - key) key) (next_hash t (t.hmask + 1 - from) from)

-- The pairs that a loop over `lj_tab_iterate` sees from an index on.
unfoldable pub lj_tab_iterate_all : Values → GcTab → ℕ → ℕ → List (TValue × TValue)
lj_tab_iterate_all values t zero key = []
lj_tab_iterate_all values t (suc fuel) key = elim (tab_next values t key) [
  | none ↦ []
  | some s ↦ (s.key, s.val) ∷ lj_tab_iterate_all values t fuel s.index
]

-- The loops of tab_asize and tab_hsize: how many of the values from `i` on are not nil.
unfoldable pub count_values : (ℕ → TValue) → ℕ → ℕ → ℕ
count_values value zero i = 0
count_values value (suc fuel) i =
    let rest = count_values value fuel (i + 1) in if tvisnil (value i) then rest else rest + 1

unfoldable pub tab_asize : GcTab → ℕ
tab_asize t = count_values t.array t.asize 0

unfoldable pub tab_hsize : GcTab → ℕ
tab_hsize t = if not_zero t.hmask then count_values (λ i. (t.node i).val) (t.hmask + 1) 0 else 0

unfoldable pub lj_tab_size : GcTab → ℕ
lj_tab_size t = tab_asize t + tab_hsize t

-- The cells of a table in the order of their indices, those of the array part first.
unfoldable pub cell : Values → GcTab → ℕ → TValue × TValue
cell values t i =
    let inside : TValue × TValue = (num (values.int2num i), t.array i) in
    let node : TValue × TValue = ((t.node (i - t.asize)).key, (t.node (i - t.asize)).val) in
    if ltb i t.asize then inside else node

-- `n` cells from `i` on, less those whose value is nil.
unfoldable pub full_cells : Values → GcTab → ℕ → ℕ → List (TValue × TValue)
full_cells values t zero i = []
full_cells values t (suc n) i =
    let rest = full_cells values t n (i + 1) in
    if tvisnil (cell values t i).1 then rest else cell values t i ∷ rest

module _ (values : Values) (t : GcTab) where
  pub cell_array : (i : ℕ) → i < t.asize → cell values t i ≡ (num (values.int2num i), t.array i)
  unfolding cell
  cell_array i lt = rw (lt→ltb i t.asize lt) refl

  pub cell_hash :
      (i : ℕ)
      → t.asize ≤ i
      → cell values t i ≡ ((t.node (i - t.asize)).key, (t.node (i - t.asize)).val)
  unfolding cell
  cell_hash i le = rw (le→ltb i t.asize le) refl

  -- The first cell from `i` on whose value is not nil.
  unfoldable pub first_cell : ℕ → ℕ → Option Step
  first_cell zero i = none
  first_cell (suc n) i =
      let rest = first_cell n (i + 1) in
      let found : Step = record {
        index = i + 1;
        key = (cell values t i).0;
        val = (cell values t i).1;
      } in
      if tvisnil (cell values t i).1 then rest else some found

  next_hash_lem : (n i : ℕ) → t.asize ≤ i → next_hash t n (i - t.asize) ≡ first_cell n i
  unfolding next_hash first_cell
  next_hash_lem zero i le = refl
  next_hash_lem (suc n) i le =
      let next : i - t.asize + 1 ≡ i + 1 - t.asize = omega arith in
      let index : i - t.asize + 1 + t.asize ≡ i + 1 = omega arith in
      rw (cell_hash i le, index) (rw next (rw (next_hash_lem n (i + 1) (omega arith)) refl))

  -- The array part, and then the hash part.
  next_array_lem :
      (a n i : ℕ)
      → a + i ≡ t.asize
      → or_step (next_array values t a i) (next_hash t n 0) ≡ first_cell (a + n) i
  unfolding next_array first_cell
  next_array_lem zero n i e =
      let start : 0 ≡ i - t.asize = omega arith in
      let steps : n ≡ 0 + n = omega arith in
      ap (next_hash t n) start ∙ next_hash_lem n i (omega arith) ∙ ap (λ m. first_cell m i) steps
  next_array_lem (suc a) n i e =
      let steps : suc (a + n) ≡ suc a + n = omega arith in
      let here_cell = cell_array i (omega arith) in
      let rest = next_array_lem a n (i + 1) (omega arith) in
      elim (Bool-cases (tvisnil (t.array i))) [
        | inl empty ↦ rw (empty, sym steps) (rw here_cell (rw empty rest))
        | inr full ↦ rw (full, sym steps) (rw here_cell (rw full refl))
      ]

  pub tab_next_lem :
      (k : ℕ)
      → k ≤ t.asize + t.hmask + 1
      → tab_next values t k ≡ first_cell (t.asize + t.hmask + 1 - k) k
  unfolding tab_next next_array
  tab_next_lem k le = elim (Bool-cases (ltb k t.asize)) [
    | inl inside ↦
        let lt = ltb→lt k t.asize inside in
        let from : k - t.asize ≡ 0 = omega arith in
        let steps : t.asize - k + (t.hmask + 1) ≡ t.asize + t.hmask + 1 - k = omega arith in
        let all : t.hmask + 1 - 0 ≡ t.hmask + 1 = omega arith in
        rw (from, all)
          (next_array_lem (t.asize - k) (t.hmask + 1) k (omega arith)
            ∙ ap (λ m. first_cell m k) steps)
    | inr behind ↦
        let ge = ltb→le k t.asize behind in
        let no_steps : t.asize - k ≡ 0 = omega arith in
        let steps : t.hmask + 1 - (k - t.asize) ≡ t.asize + t.hmask + 1 - k = omega arith in
        ap
          (λ m.
            or_step (next_array values t m k)
              (next_hash t (t.hmask + 1 - (k - t.asize)) (k - t.asize)))
          no_steps
        ∙ next_hash_lem (t.hmask + 1 - (k - t.asize)) k ge
        ∙ ap (λ m. first_cell m k) steps
  ]

  -- What a step leads to.
  abbrev visit : ℕ → Option Step → List (TValue × TValue)
  visit fuel none = []
  visit fuel (some s) = (s.key, s.val) ∷ lj_tab_iterate_all values t fuel s.index

  iterate_again :
      (fuel k : ℕ) → lj_tab_iterate_all values t (suc fuel) k ≡ visit fuel (tab_next values t k)
  unfolding lj_tab_iterate_all
  iterate_again fuel k = elim (Option-cases (tab_next values t k)) [
    | inl end ↦ rw (end, lj_tab_iterate_all) refl
    | inr (s, e) ↦ rw (e, lj_tab_iterate_all) refl
  ]

  visit-full_cells :
      (n k fuel : ℕ)
      → n + k ≡ t.asize + t.hmask + 1
      → n ≤ fuel
      → visit fuel (first_cell n k) ≡ full_cells values t n k
  unfolding first_cell full_cells
  visit-full_cells zero k fuel e le = refl
  visit-full_cells (suc n) k zero e le = absurd (omega arith)
  visit-full_cells (suc n) k (suc fuel) e le = elim (Bool-cases (tvisnil (cell values t k).1)) [
    | inl empty ↦ rw empty (visit-full_cells n (k + 1) (suc fuel) (omega arith) (omega arith))
    | inr full ↦
        let steps : t.asize + t.hmask + 1 - (k + 1) ≡ n = omega arith in
        let next : tab_next values t (k + 1) ≡ first_cell n (k + 1) =
          tab_next_lem (k + 1) (omega arith) ∙ ap (λ m. first_cell m (k + 1)) steps in
        rw full (
          ap (λ l. cell values t k ∷ l)
            (iterate_again fuel (k + 1)
              ∙ ap (visit fuel) next
              ∙ visit-full_cells n (k + 1) fuel (omega arith) (omega arith)))
  ]

  -- A loop over a table that does not change ends within asize + hmask + 2 steps, and sees each key with a value that is not nil
  -- once: first those of the array part in their order, then those of the nodes.
  pub iterate_all-full_cells :
      (fuel : ℕ)
      → t.asize + t.hmask + 1 < fuel
      → lj_tab_iterate_all values t fuel 0 ≡ full_cells values t (t.asize + t.hmask + 1) 0
  iterate_all-full_cells zero le = absurd (omega arith)
  iterate_all-full_cells (suc fuel) le =
      let n = t.asize + t.hmask + 1 in
      iterate_again fuel 0
      ∙ ap (visit fuel) (
          tab_next_lem 0 (omega arith)
          ∙ ap (λ m. first_cell m 0) (let same : n - 0 ≡ n = omega arith in same))
      ∙ visit-full_cells n 0 fuel (omega arith) (omega arith)

  hash_count :
      (n i : ℕ)
      → t.asize ≤ i
      → length (full_cells values t n i) ≡ count_values (λ j. (t.node j).val) n (i - t.asize)
  unfolding full_cells count_values
  hash_count zero i le = refl
  hash_count (suc n) i le =
      let next : i + 1 - t.asize ≡ i - t.asize + 1 = omega arith in
      let rest =
        hash_count n (i + 1) (omega arith) ∙ ap (count_values (λ j. (t.node j).val) n) next in
      elim (Bool-cases (tvisnil (t.node (i - t.asize)).val)) [
        | inl empty ↦ rw (cell_hash i le) (rw empty rest)
        | inr full ↦ rw (cell_hash i le) (rw full (omega (arith, rest)))
      ]

  array_count :
      (a n i : ℕ)
      → a + i ≡ t.asize
      → length (full_cells values t (a + n) i)
        ≡ count_values t.array a i + count_values (λ j. (t.node j).val) n 0
  unfolding full_cells count_values
  array_count zero n i e =
      let start : i - t.asize ≡ 0 = omega arith in
      let steps : 0 + n ≡ n = omega arith in
      rw steps (
        hash_count n i (omega arith)
        ∙ ap (count_values (λ j. (t.node j).val) n) start
        ∙ omega arith)
  array_count (suc a) n i e =
      let steps : suc a + n ≡ suc (a + n) = omega arith in
      let rest = array_count a n (i + 1) (omega arith) in
      elim (Bool-cases (tvisnil (t.array i))) [
        | inl empty ↦ rw steps (rw (cell_array i (omega arith)) (rw empty rest))
        | inr full ↦ rw steps (rw (cell_array i (omega arith)) (rw full (omega (arith, rest))))
      ]

  hsize_lem :
      (t.hmask ≡ 0 → tvisnil (t.node 0).val ≡ true)
      → count_values (λ j. (t.node j).val) (t.hmask + 1) 0 ≡ tab_hsize t
  unfolding tab_hsize count_values
  hsize_lem bare = elim (Bool-cases (not_zero t.hmask)) [
    | inl hash ↦ rw hash refl
    | inr none_hash ↦
        let single = not_zero-false t.hmask none_hash in
        let steps : t.hmask + 1 ≡ suc zero = omega (arith, single) in
        rw (none_hash, steps, bare single) refl
  ]

  -- lj_tab_size is the number of keys that such a loop sees, where the shared node has no value.
  pub length-iterate_all :
      (fuel : ℕ)
      → t.asize + t.hmask + 1 < fuel
      → (t.hmask ≡ 0 → tvisnil (t.node 0).val ≡ true)
      → length (lj_tab_iterate_all values t fuel 0) ≡ lj_tab_size t
  unfolding lj_tab_size tab_asize
  length-iterate_all fuel le bare =
      let steps : t.asize + t.hmask + 1 ≡ t.asize + (t.hmask + 1) = omega arith in
      ap length (iterate_all-full_cells fuel le ∙ ap (λ m. full_cells values t m 0) steps)
      ∙ array_count t.asize (t.hmask + 1) 0 (omega arith)
      ∙ ap (λ m. count_values t.array t.asize 0 + m) (hsize_lem bare)
