-- ===== src/Tab/Boundary.antt =====
-- lj_tab_len of src/lj_tab.c ends, and gives a boundary.
use luavela.Base.{ℕ, ◌+◌, ◌-◌, ◌%◌, ◌^◌, ◌≤◌, ◌<◌, ◌≡◌, refl, sym, ap, ◌∙◌, subst, arith}
use luavela.Base.{
  Bool, true, false, not, ◌&&◌, Bool-cases, inl, inr, ◌⊎◌, Option, none, some, Option-cases,
  true≢false,
}
use luavela.Base.{ltb, ltb→lt, le→ltb, lt→ltb}
use luavela.Tab.{Values, num, GcTab, tvisnil, uj_obj_equal}
use luavela.Tab.Access.{lj_tab_getint, lj_tab_getinth, inarray, find_int, value_of}
use luavela.Tab.Create.{not_zero, not_zero-false, lj_max_asize}
use luavela.Tab.Wellformed.{IsChained, equal-tvisnil, equal-sym, equal_trans, find_key_sound}
use luavela.Tab.Getters.{find_int_lem}
use luavela.Tab.Length.{
  present, not_nil, halve, halve_lem, double, double-Stopped, Stopped, stopped, overflowed,
  linear_lem, pigeons, search_from, unbound_search, lj_tab_len, IsBoundary, Doubling,
}

abbrev place_of : Option ℕ → ℕ
place_of o = elim o [ none ↦ 0 | some i ↦ i ]

module _ (values : Values) (t : GcTab) (w : IsChained values t) (few : t.asize ≤ lj_max_asize)
    (small : t.hmask < 2 ^ 26) where
  getint_array : (k : ℕ) → k < t.asize → lj_tab_getint values t k ≡ some (t.array k)
  unfolding lj_tab_getint inarray
  getint_array k lt = rw (lt→ltb k (2 ^ 31) (omega arith), lt→ltb k t.asize lt) refl

  getint_hash :
      (k : ℕ)
      → t.asize ≤ k
      → k < 2 ^ 31
      → lj_tab_getint values t k ≡ value_of t (find_int values t k)
  unfolding lj_tab_getint lj_tab_getinth inarray
  getint_hash k le lt = rw (lt→ltb k (2 ^ 31) lt, le→ltb k t.asize le) refl

  present_lem : (k : ℕ) → k < 2 ^ 32 → present values t k ≡ not_nil (lj_tab_getint values t k)
  unfolding present
  present_lem k lt =
      let same : k % 2 ^ 32 ≡ k = omega arith in ap (λ n. not_nil (lj_tab_getint values t n)) same

  -- An index of the array part.
  present_array : (k : ℕ) → k < t.asize → present values t k ≡ not (tvisnil (t.array k))
  present_array k lt = present_lem k (omega arith) ∙ ap not_nil (getint_array k lt)

  -- Another index is that of a key in the hash part.
  present_hash :
      (k : ℕ)
      → t.asize ≤ k
      → k < 2 ^ 31
      → present values t k ≡ true
      → (i : ℕ) × (find_int values t k ≡ some i)
  present_hash k le lt e = elim (Option-cases (find_int values t k)) [
    | inr (i, found) ↦ (i, found)
    | inl nothing ↦
        let absent : present values t k ≡ false =
          present_lem k (omega arith)
          ∙ ap not_nil (getint_hash k le lt ∙ ap (value_of t) nothing) in
        absurd (true≢false (sym e ∙ absent))
  ]

  found_key :
      (k i : ℕ)
      → find_int values t k ≡ some i
      → uj_obj_equal values (t.node i).key (num (values.int2num k)) ≡ true
  found_key k i e =
      find_key_sound values t (num (values.int2num k)) i (sym (find_int_lem values t k) ∙ e)

  found_within : (k i : ℕ) → find_int values t k ≡ some i → i ≤ t.hmask
  found_within k i e = w.within i (equal-tvisnil values _ _ (found_key k i e))

  same_int :
      (a b : ℕ)
      → a < 2 ^ 32
      → b < 2 ^ 32
      → uj_obj_equal values (num (values.int2num a)) (num (values.int2num b)) ≡ true
      → a ≡ b
  unfolding uj_obj_equal
  same_int a b lt lt' e =
      sym (values.int2num-num2int a lt) ∙ values.num2int_same _ _ e ∙ values.int2num-num2int b lt'

  found_one :
      (a b i : ℕ)
      → a < 2 ^ 32
      → b < 2 ^ 32
      → find_int values t a ≡ some i
      → find_int values t b ≡ some i
      → a ≡ b
  found_one a b i lt lt' e e' =
      same_int a b lt lt'
        (equal_trans values _ _ _ (equal-sym values _ _ (found_key a i e)) (found_key b i e'))

  -- There are more indices than places.
  not_all :
      ((k : ℕ) → 1 ≤ k → k < 1 + (t.asize + t.hmask + 3) → present values t k ≡ true) → true ≡ false
  not_all all =
      let found : (i : ℕ)
          → i ≤ t.hmask + 1
          → (j : ℕ) × (find_int values t (t.asize + 1 + i) ≡ some j) =
        λ i le.
          present_hash (t.asize + 1 + i) (omega arith) (omega arith)
            (all (t.asize + 1 + i) (omega arith) (omega arith)) in
      pigeons (t.hmask + 1) (λ i. place_of (find_int values t (t.asize + 1 + i)))
        (λ i le.
          let (j, e) = found i le in
          let within = found_within (t.asize + 1 + i) j e in rw e (omega arith))
        (λ i i' le le' e.
          let (j, at) = found i le in
          let (j', at') = found i' le' in
          let same : j ≡ j' = rw (at, at') at e in
          let one =
            found_one (t.asize + 1 + i) (t.asize + 1 + i') j (omega arith) (omega arith) at
              (rw same at') in
          omega arith)

  search_from-IsBoundary :
      (d : Doubling)
      → Stopped (present values t) d
      → (n : ℕ) × (search_from values t d ≡ some n) × IsBoundary (present values t) n
  unfolding search_from IsBoundary
  search_from-IsBoundary _ (stopped i j lt low high le) =
      let (low', high', le', lt') =
        halve_lem (present values t) 0 (j - i) i j (omega arith) lt low high (omega arith) in
      (halve (present values t) (j - i) i j, refl, (low', high'))
  search_from-IsBoundary _ overflowed =
      elim (linear_lem (present values t) (t.asize + t.hmask + 3) 1 (omega arith) (inl refl)) [
        | inl (n, found, low', high') ↦ (n, found, (low', high'))
        | inr all ↦ absurd (true≢false (not_all all))
      ]

  unbound_search-IsBoundary :
      (j : ℕ)
      → j < 2 ^ 31 - 1
      → (j ≡ 0) ⊎ (present values t j ≡ true)
      → (n : ℕ) × (unbound_search values t j ≡ some n) × IsBoundary (present values t) n
  unfolding unbound_search
  unbound_search-IsBoundary j lt low =
      search_from-IsBoundary (double (present values t) 32 j (j + 1)) (
        double-Stopped (present values t) 31 0 j (j + 1) (omega arith) (omega arith) (omega arith)
          (omega arith) low)

  -- Behind the array part of a table without hash part nothing is present.
  nothing_behind :
      (k : ℕ)
      → t.hmask ≡ 0
      → tvisnil (t.node 0).key ≡ true
      → t.asize ≤ k
      → k < 2 ^ 31
      → present values t k ≡ false
  nothing_behind k bare no_key le lt = elim (Bool-cases (present values t k)) [
    | inr absent ↦ absent
    | inl there ↦
        let (i, found) = present_hash k le lt there in
        let within = found_within k i found in
        let only : i ≡ 0 = omega arith in
        let has_key = equal-tvisnil values _ _ (found_key k i found) in
        absurd (true≢false (sym no_key ∙ subst (λ n. tvisnil (t.node n).key ≡ false) only has_key))
  ]

  last_present :
      (ltb 1 t.asize && tvisnil (t.array (t.asize - 1))) ≡ false
      → (t.asize - 1 ≡ 0) ⊎ (present values t (t.asize - 1) ≡ true)
  last_present e = elim (Bool-cases (ltb 1 t.asize)) [
    | inr short ↦ inl (ground arith)
    | inl long ↦
        let lt = ltb→lt 1 t.asize long in
        let valued : tvisnil (t.array (t.asize - 1)) ≡ false = ground arith in
        inr (present_array (t.asize - 1) (omega arith) ∙ ap not valued)
  ]

  array-IsBoundary :
      (ltb 1 t.asize && tvisnil (t.array (t.asize - 1))) ≡ true
      → IsBoundary
          (present values t)
          (halve (λ m. not (tvisnil (t.array (m - 1)))) (t.asize - 1) 1 t.asize - 1)
  unfolding IsBoundary
  array-IsBoundary e =
      let test : ℕ → Bool = λ m. not (tvisnil (t.array (m - 1))) in
      let long : 1 < t.asize = ltb→lt 1 t.asize (ground arith) in
      let empty : tvisnil (t.array (t.asize - 1)) ≡ true = ground arith in
      let n = halve test (t.asize - 1) 1 t.asize in
      let (low, high, le, lt) =
        halve_lem test 1 (t.asize - 1) 1 t.asize (omega arith) long (inl refl) (ap not empty)
          (omega arith) in
      let next : n - 1 + 1 ≡ n = omega arith in
      let back : n + 1 - 1 ≡ n = omega arith in
      (
        elim low [
          | inl one ↦ inl (omega arith)
          | inr there ↦ inr (present_array (n - 1) (omega arith) ∙ there)
        ],
        rw next (present_array n lt ∙ ap (λ m. not (tvisnil (t.array m))) (sym back) ∙ high),
      )

  -- On a well-formed table within the limits of sizes, whose node has no key if it is the only
  -- one, lj_tab_len ends, and gives a boundary: 0 or an index that is present, before one that is not.
  pub lj_tab_len-IsBoundary :
      (t.hmask ≡ 0 → tvisnil (t.node 0).key ≡ true)
      → (n : ℕ) × (lj_tab_len values t ≡ some n) × IsBoundary (present values t) n
  unfolding lj_tab_len IsBoundary
  lj_tab_len-IsBoundary bare =
      elim (Bool-cases (ltb 1 t.asize && tvisnil (t.array (t.asize - 1)))) [
        | inl inside ↦ (
          halve (λ m. not (tvisnil (t.array (m - 1)))) (t.asize - 1) 1 t.asize - 1,
          rw inside refl,
          array-IsBoundary inside,
        )
        | inr full ↦
            let low = last_present full in
            elim (Bool-cases (not_zero t.hmask)) [
              | inl hash ↦
                  let (n, found, boundary) =
                    unbound_search-IsBoundary (t.asize - 1) (omega arith) low in
                  (n, rw (full, hash) found, boundary)
              | inr none_hash ↦
                  let single = not_zero-false t.hmask none_hash in
                  (t.asize - 1, rw (full, none_hash) refl, end_IsBoundary low single (bare single))
            ]
      ]
    where
      end_IsBoundary :
          (t.asize - 1 ≡ 0) ⊎ (present values t (t.asize - 1) ≡ true)
          → t.hmask ≡ 0
          → tvisnil (t.node 0).key ≡ true
          → IsBoundary (present values t) (t.asize - 1)
      end_IsBoundary low single no_key =
          (low, nothing_behind (t.asize - 1 + 1) single no_key (omega arith) (omega arith))
