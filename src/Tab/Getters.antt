-- ===== src/Tab/Getters.antt =====
-- The getters of src/lj_tab.c: a key of the array part, or one of the hash part.
use luavela.Base.{ℕ, zero, suc, ◌+◌, ◌≡◌, refl, sym, ap, ◌∙◌}
use luavela.Base.{Bool, true, Bool-cases, inl, inr, Option, none, some, Option-cases, true≢false}
use luavela.Base.{if◌then◌else◌}
use luavela.Tab.{
  Values, TValue, nil, bool, num, str, other, Node, GcTab, uj_obj_equal, hashkey, find_key,
  find_node, node_value,
}
use luavela.Tab.Access.{
  inarray, is_num_key, is_str_key, find_int, find_str, value_of, or_niltv, is_int, lj_tab_get,
  lj_tab_getint, lj_tab_getinth, lj_tab_getstr,
}
use luavela.Tab.Wellformed.{
  equal-sym, equal_trans, equal-tvisnil, hashkey-equal, IsChained, find_key_sound,
}
use luavela.Tab.Written.{hash_value}

-- Equal tests find the same node.
find_node_tests :
    (test test' : TValue → Bool) (fuel : ℕ) (node : ℕ → Node) (i : ℕ)
    → ((k : TValue) → test k ≡ test' k)
    → find_node test fuel node i ≡ find_node test' fuel node i
unfolding find_node
find_node_tests test test' zero node i same = refl
find_node_tests test test' (suc fuel) node i same = elim (Option-cases (node i).next) [
  | inl end ↦ rw (end, same (node i).key) refl
  | inr (x, e) ↦ rw (e, same (node i).key, find_node_tests test test' fuel node x same) refl
]

num_key :
    (values : Values) (n : ℕ) (k : TValue) → is_num_key values n k ≡ uj_obj_equal values k (num n)
unfolding uj_obj_equal
num_key values n (num a) = refl
num_key values n _ = refl

str_key : (values : Values) (s : ℕ) (k : TValue) → is_str_key s k ≡ uj_obj_equal values k (str s)
unfolding uj_obj_equal
str_key values s (str a) = refl
str_key values s _ = refl

module _ (values : Values) where
  pub find_int_lem :
      (t : GcTab) (k : ℕ) → find_int values t k ≡ find_key values t (num (values.int2num k))
  unfolding find_int find_key
  find_int_lem t k = find_node_tests _ _ (t.hmask + 2) t.node _ (num_key values (values.int2num k))

  pub find_str_lem : (t : GcTab) (s : ℕ) → find_str values t s ≡ find_key values t (str s)
  unfolding find_str find_key
  find_str_lem t s = find_node_tests _ _ (t.hmask + 2) t.node _ (str_key values s)

  -- Equal keys are found in the same node.
  pub find_key-equal :
      (t : GcTab) (a b : TValue)
      → uj_obj_equal values a b ≡ true
      → find_key values t a ≡ find_key values t b
  unfolding find_key
  find_key-equal t a b e =
      rw (hashkey-equal values t.hmask a b e)
        (find_node_tests _ _ (t.hmask + 2) t.node (hashkey values t.hmask b) (same_test a b e))
    where
      same_test :
          (a b : TValue)
          → uj_obj_equal values a b ≡ true
          → (k : TValue) → uj_obj_equal values k a ≡ uj_obj_equal values k b
      same_test a b e k = elim (Bool-cases (uj_obj_equal values k a)) [
        | inl is_a ↦ is_a ∙ sym (equal_trans values k a b is_a e)
        | inr not_a ↦ elim (Bool-cases (uj_obj_equal values k b)) [
          | inr not_b ↦ not_a ∙ sym not_b
          | inl is_b ↦
              absurd
                (true≢false (sym (equal_trans values k b a is_b (equal-sym values a b e)) ∙ not_a))
        ]
      ]

  pub int_same :
      (n : ℕ)
      → is_int values n ≡ true
      → uj_obj_equal values (num n) (num (values.int2num (values.num2int n))) ≡ true
  unfolding uj_obj_equal
  int_same n int = int

  -- The index of a key in the array part.
  unfoldable pub array_index : GcTab → TValue → Option ℕ
  array_index t (num n) =
      if is_int values n
      then (if inarray t (values.num2int n) then some (values.num2int n) else none)
      else none
  array_index t _ = none

  or_niltv-value_of : (t : GcTab) (o : Option ℕ) → or_niltv (value_of t o) ≡ node_value t o
  or_niltv-value_of t none = refl
  or_niltv-value_of t (some i) = refl

  pub hash_value_nil : (t : GcTab) → IsChained values t → nil ≡ hash_value values t nil
  hash_value_nil t w = elim (Option-cases (find_key values t nil)) [
    | inl nothing ↦ rw nothing refl
    | inr (i, found) ↦
        rw found
          (sym (w.unused i (equal-tvisnil values _ _ (find_key_sound values t nil i found))).0)
  ]

  -- A key has its value in the array part or in the hash part.
  unfoldable pub part_value : GcTab → TValue → Option ℕ → TValue
  part_value t k none = hash_value values t k
  part_value t k (some i) = t.array i

  pub lj_tab_get_lem :
      (t : GcTab) (k : TValue)
      → IsChained values t
      → lj_tab_get values t k ≡ part_value t k (array_index t k)
  unfolding lj_tab_get lj_tab_getstr lj_tab_getint lj_tab_getinth array_index part_value
  lj_tab_get_lem t nil w = hash_value_nil t w
  lj_tab_get_lem t (bool b) w = refl
  lj_tab_get_lem t (other tag p) w = refl
  lj_tab_get_lem t (str s) w =
      or_niltv-value_of t (find_str values t s) ∙ ap (node_value t) (find_str_lem t s)
  lj_tab_get_lem t (num n) w = elim (Bool-cases (is_int values n)) [
    | inr no_int ↦ rw no_int refl
    | inl int ↦ elim (Bool-cases (inarray t (values.num2int n))) [
      | inl in_array ↦ rw (int, in_array) refl
      | inr beyond ↦
          let same =
            find_key-equal t (num n) (num (values.int2num (values.num2int n))) (int_same n int) in
          rw (int, beyond)
            (or_niltv-value_of t (find_int values t (values.num2int n))
              ∙ ap (node_value t) (find_int_lem t (values.num2int n) ∙ sym same))
    ]
  ]

  pub array_index_same :
      (t t' : GcTab) (k : TValue) → t'.asize ≡ t.asize → array_index t' k ≡ array_index t k
  unfolding array_index inarray
  array_index_same t t' (num n) e = rw e refl
  array_index_same t t' nil e = refl
  array_index_same t t' (bool b) e = refl
  array_index_same t t' (str s) e = refl
  array_index_same t t' (other tag p) e = refl

  is_int_equal :
      (a b : ℕ) → values.num_eq a b ≡ true → is_int values a ≡ true → is_int values b ≡ true
  is_int_equal a b e int =
      rw (is_int, sym (values.num2int_same a b e))
        (values.num_eq_trans b a _ (values.num_eq_sym a b e) int)

  pub array_index-equal :
      (t : GcTab) (a b : TValue)
      → uj_obj_equal values a b ≡ true
      → array_index t a ≡ array_index t b
  unfolding uj_obj_equal array_index
  array_index-equal t (num a) (num b) e = elim (Bool-cases (is_int values a)) [
    | inl int ↦ rw (int, is_int_equal a b e int, values.num2int_same a b e) refl
    | inr not_a ↦ elim (Bool-cases (is_int values b)) [
      | inr not_b ↦ rw (not_a, not_b) refl
      | inl int ↦ absurd (true≢false (sym (is_int_equal b a (values.num_eq_sym a b e) int) ∙ not_a))
    ]
  ]
  array_index-equal t nil nil e = refl
  array_index-equal t (bool a) (bool b) e = refl
  array_index-equal t (str a) (str b) e = refl
  array_index-equal t (other u a) (other v b) e = refl
  array_index-equal t _ _ e = cc

  array_number :
      (t : GcTab) (n i : ℕ)
      → array_index t (num n) ≡ some i
      → (is_int values n ≡ true) × (values.num2int n ≡ i)
  unfolding array_index
  array_number t n i e = elim (Bool-cases (is_int values n)) [
    | inr no_int ↦ let nothing : array_index t (num n) ≡ none = rw no_int refl in cc
    | inl int ↦ elim (Bool-cases (inarray t (values.num2int n))) [
      | inr beyond ↦ let nothing : array_index t (num n) ≡ none = rw (int, beyond) refl in cc
      | inl in_array ↦
          let at : array_index t (num n) ≡ some (values.num2int n) = rw (int, in_array) refl in
          (int, cc)
    ]
  ]

  -- Keys with the same place in the array part are equal.
  pub array_index_injective :
      (t : GcTab) (a b : TValue) (i : ℕ)
      → array_index t a ≡ some i
      → array_index t b ≡ some i
      → uj_obj_equal values a b ≡ true
  unfolding uj_obj_equal array_index
  array_index_injective t (num a) (num b) i e f =
      let (int_a, at_a) = array_number t a i e in
      let (int_b, at_b) = array_number t b i f in
      let back : values.num_eq (values.int2num (values.num2int a)) b ≡ true =
        rw (at_a ∙ sym at_b) (values.num_eq_sym b _ int_b) in
      values.num_eq_trans a _ b int_a back
  array_index_injective t _ _ i e f = cc
