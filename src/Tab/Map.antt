-- ===== src/Tab/Map.antt =====
-- src/lj_tab.c: a table is a map from keys to values, which lj_tab_get reads and lj_tab_set changes.
use luavela.Base.{ℕ, ◌≡◌, ◌≢◌, refl, sym, ap, ◌∙◌}
use luavela.Base.{true, false, Bool-cases, inl, inr, Option, none, some, true≢false}
use luavela.Base.{◌==◌, eqb→eq, eqb_self, if◌then◌else◌}
use luavela.Tab.{Values, TValue, nil, GcTab, tvisnil, uj_obj_equal, find_key, store}
use luavela.Tab.{array_slot, node_slot}
use luavela.Tab.Access.{lj_tab_get}
use luavela.Tab.Wellformed.{equal-sym, equal_trans, equal-tvisnil, IsChained, find_key_sound}
use luavela.Tab.Fresh.{IsNew, canonical-tvisnil}
use luavela.Tab.Written.{hash_value, hash_value-store, hash_value-Grown}
use luavela.Tab.Stored.{stored-IsChained}
use luavela.Tab.Place.{tvisnil→nil}
use luavela.Tab.Grown.{Grown, IsLinked, Grown-IsChained}
use luavela.Tab.Getters.{
  array_index, part_value, lj_tab_get_lem, hash_value_nil, array_index_same, array_index-equal,
  array_index_injective,
}

module _ (values : Values) where
  IsChained-array :
      (t : GcTab) (i : ℕ) (v : TValue)
      → IsChained values t
      → IsChained values (store t (array_slot i) v)
  unfolding store
  IsChained-array t i v w = record {
    rank = w.rank;
    top = w.top;
    shared = w.shared;
    low = w.low;
    falls = w.falls;
    one = w.one;
    used = w.used;
    unused = w.unused;
    within = w.within;
    reach = w.reach;
    home = w.home;
    distinct = w.distinct;
  }

  -- The table `u` is `t` with the value `v` for `key`.
  pub record IsWritten (t : GcTab) (key v : TValue) (u : GcTab) : Type 0 where
    pub chained : IsChained values u
    pub reads :
        (k : TValue)
        → lj_tab_get values u k ≡ (if uj_obj_equal values key k then v else lj_tab_get values t k)

  -- Equal keys have the same place, so keys with different places differ.
  places_differ :
      (t : GcTab) (a b : TValue)
      → array_index values t a ≢ array_index values t b
      → uj_obj_equal values a b ≡ false
  places_differ t a b differ = elim (Bool-cases (uj_obj_equal values a b)) [
    | inr differs ↦ differs
    | inl same ↦ absurd (differ (array_index-equal values t a b same))
  ]

  array_reads :
      (t : GcTab) (key v : TValue) (i : ℕ)
      → IsChained values t
      → array_index values t key ≡ some i
      → (k : TValue) (o : Option ℕ) → array_index values t k ≡ o
      → part_value values (store t (array_slot i) v) k o
        ≡ (if uj_obj_equal values key k then v else part_value values t k o)
  unfolding part_value store find_key
  array_reads t key v i w at k none e =
      let differs =
        places_differ t key k (λ same. let both : some i ≡ none = sym at ∙ same ∙ e in cc) in
      rw differs refl
  array_reads t key v i w at k (some j) e = elim (Bool-cases (j == i)) [
    | inl same ↦
        let index : array_index values t k ≡ some i =
          e ∙ ap (λ n. let o : Option ℕ = some n in o) (eqb→eq j i same) in
        rw (same, array_index_injective values t key k i at index) refl
    | inr off ↦
        let differs = places_differ t key k (λ same.
          let both : some i ≡ some j = sym at ∙ same ∙ e in
          let equal : i ≡ j = cc in true≢false (sym (eqb_self j) ∙ rw equal at off)) in
        rw (off, differs) refl
  ]

  -- What is read is in the parts of the table.
  parts-IsWritten :
      (t u : GcTab) (key v : TValue)
      → u.asize ≡ t.asize
      → IsChained values t
      → IsChained values u
      → ((k : TValue) (o : Option ℕ)
          → array_index values t k ≡ o
          → part_value values u k o
            ≡ (if uj_obj_equal values key k then v else part_value values t k o))
      → IsWritten t key v u
  parts-IsWritten t u key v same w w' parts = record {
    chained = w';
    reads = λ k.
        lj_tab_get_lem values u k w'
        ∙ ap (part_value values u k) (array_index_same values t u k same)
        ∙ parts k (array_index values t k) refl
        ∙ ap (λ r. if uj_obj_equal values key k then v else r) (sym (lj_tab_get_lem values t k w));
  }

  pub array-IsWritten :
      (t : GcTab) (key v : TValue) (i : ℕ)
      → IsChained values t
      → array_index values t key ≡ some i
      → IsWritten t key v (store t (array_slot i) v)
  unfolding store
  array-IsWritten t key v i w at =
      parts-IsWritten t (store t (array_slot i) v) key v refl w (IsChained-array t i v w)
        (array_reads t key v i w at)

  nil_differs : (key : TValue) → tvisnil key ≡ false → uj_obj_equal values key nil ≡ false
  unfolding uj_obj_equal
  nil_differs nil e = cc
  nil_differs _ e = refl

  -- A key without a place in the array part has its value in the hash part.
  hash_reads :
      (t u : GcTab) (key v : TValue)
      → u.array ≡ t.array
      → tvisnil key ≡ false
      → array_index values t key ≡ none
      → IsChained values t
      → IsChained values u
      → ((k : TValue)
          → tvisnil k ≡ false
          → hash_value values u k
            ≡ (if uj_obj_equal values key k then v else hash_value values t k))
      → (k : TValue) (o : Option ℕ) → array_index values t k ≡ o
      → part_value values u k o ≡ (if uj_obj_equal values key k then v else part_value values t k o)
  unfolding part_value
  hash_reads t u key v same some_key at w w' values_ k (some j) e =
      let differs =
        places_differ t key k (λ same'. let both : none ≡ some j = sym at ∙ same' ∙ e in cc) in
      rw (differs, same) refl
  hash_reads t u key v same some_key at w w' values_ k none e = elim (Bool-cases (tvisnil k)) [
    | inr some_k ↦ values_ k some_k
    | inl nil_k ↦
        let is_nil : k ≡ nil = tvisnil→nil k nil_k in
        let differs : uj_obj_equal values key nil ≡ false = nil_differs key some_key in
        rw (is_nil, differs) (sym (hash_value_nil values u w') ∙ hash_value_nil values t w)
  ]

  pub hash-IsWritten :
      (t : GcTab) (key v : TValue) (i : ℕ)
      → IsChained values t
      → tvisnil key ≡ false
      → array_index values t key ≡ none
      → find_key values t key ≡ some i
      → IsWritten t key v (store t (node_slot i) v)
  unfolding store
  hash-IsWritten t key v i w some_key at found =
      let has_key = equal-tvisnil values _ _ (find_key_sound values t key i found) ∙ some_key in
      let w' = stored-IsChained values t i v w has_key in
      parts-IsWritten t (store t (node_slot i) v) key v refl w w' (
        hash_reads t (store t (node_slot i) v) key v refl some_key at w w'
          (λ k. hash_value-store values t key k v i w some_key found))

  -- A new key, that is equal to the one that is set.
  pub inserted-IsWritten :
      (t u : GcTab) (key key' v : TValue)
      → u.array ≡ t.array
      → u.asize ≡ t.asize
      → IsChained values t
      → array_index values t key ≡ none
      → uj_obj_equal values key key' ≡ true
      → (new : IsNew values t key') → (g : Grown values t u key') → IsLinked values t u key'
      → IsWritten t key v (store u (node_slot g.slot) v)
  unfolding store
  inserted-IsWritten t u key key' v same_array same_asize w at same new g l =
      let w' = Grown-IsChained values t u key' w new g l in
      let has_key = ap tvisnil g.slot_key ∙ canonical-tvisnil values t key' w new in
      let w'' = stored-IsChained values u g.slot v w' has_key in
      let some_key = equal-tvisnil values key key' same ∙ new.some_key in
      parts-IsWritten t (store u (node_slot g.slot) v) key v same_asize w w'' (
        hash_reads t (store u (node_slot g.slot) v) key v same_array some_key at w w'' (λ k some_k.
          hash_value-Grown values t u key' w new g w' k v some_k
          ∙ ap (λ b. if b then v else hash_value values t k) (equal_left key key' k same)))
    where
      equal_left :
          (a b k : TValue)
          → uj_obj_equal values a b ≡ true
          → uj_obj_equal values b k ≡ uj_obj_equal values a k
      equal_left a b k e = elim (Bool-cases (uj_obj_equal values a k)) [
        | inl is_a ↦ equal_trans values b a k (equal-sym values a b e) is_a ∙ sym is_a
        | inr not_a ↦ elim (Bool-cases (uj_obj_equal values b k)) [
          | inr not_b ↦ not_b ∙ sym not_a
          | inl is_b ↦ absurd (true≢false (sym (equal_trans values a b k e is_b) ∙ not_a))
        ]
      ]
