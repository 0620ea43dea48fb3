-- ===== src/Tab/Written.antt =====
-- Lookups after a value is written for a key, in a node of its own or in a new one.
use luavela.Base.{ℕ, ◌≡◌, ◌≢◌, refl, sym, ap, ◌∙◌, subst}
use luavela.Base.{true, false, Bool-cases, inl, inr, Option, none, some, Option-cases, true≢false}
use luavela.Base.{◌==◌, eqb→eq, eqb_self, ne→eqb, if◌then◌else◌}
use luavela.Tab.{
  Values, TValue, nil, GcTab, tvisnil, uj_obj_equal, find_key, canonical, store, node_slot,
  node_value,
}
use luavela.Tab.Wellformed.{
  equal-sym, equal_trans, equal-tvisnil, IsChained, find_key-none, find_key_complete,
  find_key_sound,
}
use luavela.Tab.Fresh.{IsNew, canonical-equal}
use luavela.Tab.Grown.{Grown}
use luavela.Tab.Stored.{stored_val, find_key-stored}

-- The value of a key in the hash part.
abbrev pub hash_value : Values → GcTab → TValue → TValue
hash_value values t key = node_value t (find_key values t key)

module _ (values : Values) where
  stored_value :
      (t : GcTab) (i : ℕ) (v k : TValue) (o : Option ℕ)
      → find_key values t k ≡ o
      → hash_value values (store t (node_slot i) v) k
        ≡ elim o [ none ↦ nil | some j ↦ if j == i then v else (t.node j).val ]
  stored_value t i v k none e = rw (find_key-stored values t i v k ∙ e) refl
  stored_value t i v k (some j) e =
      rw (find_key-stored values t i v k ∙ e) (stored_val values t i v j)

  -- The key has a node already.
  pub hash_value-store :
      (t : GcTab) (key k v : TValue) (i : ℕ)
      → IsChained values t
      → tvisnil key ≡ false
      → find_key values t key ≡ some i
      → tvisnil k ≡ false
      → hash_value values (store t (node_slot i) v) k
        ≡ (if uj_obj_equal values key k then v else hash_value values t k)
  hash_value-store t key k v i w some_key e some_k = elim (Bool-cases (uj_obj_equal values key k)) [
    | inl same ↦
        let at =
          find_key_complete values t k i w some_k
            (equal_trans values _ _ _ (find_key_sound values t key i e) same) in
        stored_value t i v k (some i) at ∙ rw (eqb_self i, same) refl
    | inr differs ↦ elim (Option-cases (find_key values t k)) [
      | inl nothing ↦ stored_value t i v k none nothing ∙ rw (differs, nothing) refl
      | inr (j, found) ↦ elim (Bool-cases (j == i)) [
        | inl at ↦
            let same : uj_obj_equal values (t.node i).key k ≡ true =
              subst (λ n. uj_obj_equal values (t.node n).key k ≡ true) (eqb→eq j i at)
                (find_key_sound values t k j found) in
            absurd (
              true≢false (
                sym (
                  equal_trans values _ _ _ (equal-sym values _ _ (find_key_sound values t key i e))
                    same)
                ∙ differs))
        | inr off ↦ stored_value t i v k (some j) found ∙ rw (off, differs, found) refl
      ]
    ]
  ]

  module _ (t t' : GcTab) (key : TValue) (w : IsChained values t) (new : IsNew values t key)
      (g : Grown values t t' key) (w' : IsChained values t') where
    -- A key that is neither the new one nor in the old table is not in the new table.
    still_none :
        (k : TValue)
        → uj_obj_equal values key k ≡ false
        → ((i : ℕ) → (g.to i ≢ g.slot) → uj_obj_equal values (t.node i).key k ≡ false)
        → tvisnil k ≡ false
        → find_key values t' k ≡ none
    still_none k differs absent some_k = elim (Option-cases (find_key values t' k)) [
      | inl nothing ↦ nothing
      | inr (j, found) ↦
          let same = find_key_sound values t' k j found in
          elim (g.origin j (equal-tvisnil values _ _ same ∙ some_k)) [
            | inl at ↦
                let key_same : uj_obj_equal values (canonical key) k ≡ true =
                  rw (at, g.slot_key) at same in
                absurd (
                  true≢false (
                    sym (equal_trans values _ _ _ (canonical-equal values t key w new) key_same)
                    ∙ differs))
            | inr (i, c) ↦
                let old : uj_obj_equal values (t.node i).key k ≡ true = rw c.same_key at same in
                absurd (true≢false (sym old ∙ absent i c.apart))
          ]
    ]

    -- Another node than the one that is lost has another key.
    only_one :
        (i j : ℕ) (k : TValue)
        → uj_obj_equal values (t.node i).key k ≡ true
        → g.to i ≡ g.slot
        → g.to j ≢ g.slot
        → tvisnil k ≡ false
        → uj_obj_equal values (t.node j).key k ≡ false
    only_one i j k same taken apart some_k =
        elim (Bool-cases (uj_obj_equal values (t.node j).key k)) [
          | inr differs ↦ differs
          | inl same' ↦
              let one : i ≡ j =
                w.distinct i j (equal-tvisnil values _ _ same ∙ some_k)
                  (equal_trans values _ _ _ same (equal-sym values _ _ same')) in
              absurd (apart (ap g.to (sym one) ∙ taken))
        ]

    -- The key is new.
    pub hash_value-Grown :
        (k v : TValue)
        → tvisnil k ≡ false
        → hash_value values (store t' (node_slot g.slot) v) k
          ≡ (if uj_obj_equal values key k then v else hash_value values t k)
    hash_value-Grown k v some_k = elim (Bool-cases (uj_obj_equal values key k)) [
      | inl same ↦
          let back = equal-sym values _ _ (canonical-equal values t key w new) in
          let at =
            find_key_complete values t' k g.slot w' some_k
              (rw g.slot_key (equal_trans values _ _ _ back same)) in
          stored_value t' g.slot v k (some g.slot) at ∙ rw (eqb_self g.slot, same) refl
      | inr differs ↦ elim (Option-cases (find_key values t k)) [
        | inl nothing ↦
            stored_value t' g.slot v k none
              (still_none k differs (λ i a. find_key-none values t k i w some_k nothing) some_k)
            ∙ rw (differs, nothing) refl
        | inr (i, found) ↦
            let same = find_key_sound values t k i found in
            elim (g.kept i (equal-tvisnil values _ _ same ∙ some_k)) [
              | inl c ↦
                  let at = find_key_complete values t' k (g.to i) w' some_k (rw c.same_key same) in
                  let off : g.to i == g.slot ≡ false = ne→eqb (g.to i) g.slot c.apart in
                  stored_value t' g.slot v k (some (g.to i)) at
                  ∙ rw (off, differs, found) c.same_val
              | inr lost ↦
                  stored_value t' g.slot v k none
                    (still_none k differs (λ j a. only_one i j k same lost.taken a some_k) some_k)
                  ∙ rw (differs, found) (sym lost.empty)
            ]
      ]
    ]
