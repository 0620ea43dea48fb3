-- ===== src/Tab/Next.antt =====
-- lj_tab_next of src/lj_tab.c: the traversal goes on behind a key. The bits of a value are not in
-- the model, so what a value with LJ_ITERN_MARK keeps is read by a function.
use luavela.Base.{ℕ, ◌+◌, ◌-◌, ◌%◌, ◌^◌, ◌≤◌, ◌<◌, ◌≡◌, refl, sym, ap, ◌∙◌, arith}
use luavela.Base.{true, false, ◌&&◌, inl, inr, Option, none, some}
use luavela.Base.{ltb, ltb→lt, ltb→le, lt→ltb, Bool-cases, if◌then◌else◌}
use luavela.Tab.{Values, TValue, nil, bool, num, str, other, GcTab, uj_obj_equal, tvisnil, find_key}
use luavela.Tab.Access.{is_int, inarray}
use luavela.Tab.Create.{lj_max_asize}
use luavela.Tab.Wellformed.{IsChained, find_key_complete}
use luavela.Tab.Free.{valued_key}
use luavela.Tab.Getters.{array_index}
use luavela.Tab.Traverse.{Step, tab_next, cell, cell_array, cell_hash}

-- `keyindex` for a key that is not nil: its node, or a mark; no index stands for UJ_ERR_NEXTIDX.
unfoldable pub hash_index : (TValue → Option ℕ) → GcTab → TValue → Option ℕ → Option ℕ
hash_index itern t key (some i) = some (t.asize + i)
hash_index itern t key none = elim (itern key) [ none ↦ none | some lo ↦ some (lo - 1) ]

-- The index in the array part of an integer key.
unfoldable pub array_key : Values → GcTab → TValue → Option ℕ
array_key values t (num n) =
    if ltb (values.num2int n) t.asize && is_int values n then some (values.num2int n) else none
array_key values t _ = none

unfoldable pub keyindex : Values → (TValue → Option ℕ) → GcTab → TValue → Option ℕ
keyindex values itern t key = elim (array_key values t key) [
  | some k ↦ some k
  | none ↦ if tvisnil key then some (2 ^ 32 - 1) else hash_index itern t key (find_key values t key)
]

-- The step behind the key's index, which is a uint32_t; without an index, the error.
unfoldable pub lj_tab_next : Values → (TValue → Option ℕ) → GcTab → TValue → Option (Option Step)
lj_tab_next values itern t key = elim (keyindex values itern t key) [
  | none ↦ none
  | some i ↦ some (tab_next values t ((i + 1) % 2 ^ 32))
]

module _ (values : Values) (itern : TValue → Option ℕ) (t : GcTab) where
  array_key_lem :
      (key : TValue) → t.asize ≤ lj_max_asize → array_key values t key ≡ array_index values t key
  unfolding array_key array_index inarray
  array_key_lem (num n) few = ground arith
  array_key_lem nil few = refl
  array_key_lem (bool b) few = refl
  array_key_lem (str s) few = refl
  array_key_lem (other tag p) few = refl

  index_below : (key : TValue) (k : ℕ) → array_key values t key ≡ some k → k < t.asize
  unfolding array_key
  index_below (num n) k e = ground arith
  index_below _ k e = cc

  keyindex_array :
      (key : TValue) (k : ℕ)
      → array_key values t key ≡ some k
      → keyindex values itern t key ≡ some k
  unfolding keyindex
  keyindex_array key k at = rw (at, keyindex) refl

  keyindex_hash :
      (key : TValue)
      → array_key values t key ≡ none
      → tvisnil key ≡ false
      → keyindex values itern t key ≡ hash_index itern t key (find_key values t key)
  unfolding keyindex
  keyindex_hash key nowhere some_key = rw (nowhere, keyindex) (rw some_key refl)

  next_from :
      (key : TValue) (i : ℕ)
      → i + 1 < 2 ^ 32
      → keyindex values itern t key ≡ some i
      → lj_tab_next values itern t key ≡ some (tab_next values t (i + 1))
  unfolding lj_tab_next
  next_from key i lt e =
      let index : (i + 1) % 2 ^ 32 ≡ i + 1 = omega arith in rw (e, lj_tab_next) (rw index refl)

  -- nil is before the first index.
  pub next_nil : lj_tab_next values itern t nil ≡ some (tab_next values t 0)
  unfolding lj_tab_next keyindex array_key
  next_nil = refl

  module _ (w : IsChained values t) (few : t.asize ≤ lj_max_asize) (small : t.hmask < 2 ^ 26)
      (apart : (j : ℕ)
        → tvisnil (t.node j).key ≡ false
        → array_index values t (t.node j).key ≡ none)
      (regular : (j : ℕ)
        → tvisnil (t.node j).key ≡ false
        → uj_obj_equal values (t.node j).key (t.node j).key ≡ true) where
    array_key_cell : (i : ℕ) → i < t.asize → array_key values t (num (values.int2num i)) ≡ some i
    unfolding array_key
    array_key_cell i lt =
        let same = values.int2num-num2int i (omega arith) in
        let int : is_int values (values.int2num i) ≡ true =
          rw (is_int, same) (values.num_eq_int i) in
        rw (int, same, lt→ltb i t.asize lt) refl

    index_array : (i : ℕ) → i < t.asize → keyindex values itern t (cell values t i).0 ≡ some i
    index_array i lt =
        ap (λ (c : TValue × TValue). keyindex values itern t c.0) (cell_array values t i lt)
        ∙ keyindex_array (num (values.int2num i)) i (array_key_cell i lt)

    index_hash :
        (i : ℕ)
        → t.asize ≤ i
        → tvisnil (t.node (i - t.asize)).val ≡ false
        → keyindex values itern t (cell values t i).0 ≡ some i
    unfolding hash_index
    index_hash i le some_value =
        let j = i - t.asize in
        let some_key = valued_key values t w j some_value in
        let key = (t.node j).key in
        let found = find_key_complete values t key j w some_key (regular j some_key) in
        let nowhere = array_key_lem key few ∙ apart j some_key in
        let back : t.asize + j ≡ i = omega arith in
        ap (λ (c : TValue × TValue). keyindex values itern t c.0) (cell_hash values t i le)
        ∙ keyindex_hash key nowhere some_key
        ∙ rw found (ap (λ n. let o : Option ℕ = some n in o) back)

    -- Behind the key of a cell that has a value, lj_tab_next takes the step from the next index.
    pub lj_tab_next-cell :
        (i : ℕ)
        → i < t.asize + t.hmask + 1
        → tvisnil (cell values t i).1 ≡ false
        → lj_tab_next values itern t (cell values t i).0 ≡ some (tab_next values t (i + 1))
    lj_tab_next-cell i lt some_value =
        next_from (cell values t i).0 i (omega arith) (elim (Bool-cases (ltb i t.asize)) [
          | inl inside ↦ index_array i (ltb→lt i t.asize inside)
          | inr behind ↦
              let le = ltb→le i t.asize behind in
              index_hash i le (
                sym (ap (λ (c : TValue × TValue). tvisnil c.1) (cell_hash values t i le))
                ∙ some_value)
        ])
