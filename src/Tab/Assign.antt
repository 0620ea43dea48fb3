-- ===== src/Tab/Assign.antt =====
-- lj_tab_set of src/lj_tab.c, as an assignment to a map.
use luavela.Base.{ℕ, ◌≡◌, refl, sym, ap, ◌∙◌, subst}
use luavela.Base.{true, Bool-cases, inl, inr, Option, none, some}
use luavela.Base.{if◌then◌else◌}
use luavela.Tab.{Values, TValue, GcTab, uj_obj_equal, find_key, node_value, store}
use luavela.Tab.{Slot, node_slot, Setting, place, fails, immut_modif, lj_tab_newkey}
use luavela.Tab.Access.{lj_tab_get, lj_tab_set}
use luavela.Tab.Wellformed.{IsChained}
use luavela.Tab.Fresh.{IsNew}
use luavela.Tab.Newkey.{newkey-cases}
use luavela.Tab.Getters.{array_index, part_value, lj_tab_get_lem, array_index_same}
use luavela.Tab.Setters.{
  SetCase, old_array, old_node, new_node, thrown, invalidated, invalidated-IsChained,
  find_key-invalidated, lj_tab_set-SetCase,
}
use luavela.Tab.Map.{IsWritten, array-IsWritten, hash-IsWritten, inserted-IsWritten}

-- The table that a setter's caller leaves.
abbrev written : Setting → TValue → GcTab → GcTab
written s v t = elim s [ place slot t' ↦ store t' slot v | _ ↦ t ]

module _ (values : Values) where
  node_value-invalidated :
      (t : GcTab) (o : Option ℕ) → node_value (invalidated t) o ≡ node_value t o
  node_value-invalidated t none = refl
  node_value-invalidated t (some i) = refl

  part_value-invalidated :
      (t : GcTab) (k : TValue) (o : Option ℕ)
      → part_value values (invalidated t) k o ≡ part_value values t k o
  unfolding part_value find_key
  part_value-invalidated t k none = node_value-invalidated t (find_key values t k)
  part_value-invalidated t k (some i) = refl

  get-invalidated :
      (t : GcTab) (k : TValue)
      → IsChained values t
      → lj_tab_get values (invalidated t) k ≡ lj_tab_get values t k
  get-invalidated t k w =
      lj_tab_get_lem values (invalidated t) k (invalidated-IsChained values t w)
      ∙ ap (part_value values (invalidated t) k) (array_index_same values t (invalidated t) k refl)
      ∙ part_value-invalidated t k (array_index values t k)
      ∙ sym (lj_tab_get_lem values t k w)

  validated :
      (t u : GcTab) (key v : TValue)
      → IsChained values t
      → IsWritten values (invalidated t) key v u
      → IsWritten values t key v u
  validated t u key v w written_ = record {
    chained = written_.chained;
    reads = λ k.
        written_.reads k
        ∙ ap (λ r. if uj_obj_equal values key k then v else r) (get-invalidated t k w);
  }

  newkey_immutable :
      (t : GcTab) (key : TValue)
      → t.immutable ≡ true
      → lj_tab_newkey values t key ≡ fails immut_modif
  unfolding lj_tab_newkey
  newkey_immutable t key e = rw e refl

  newkey-IsWritten :
      (t : GcTab) (key key' v : TValue) (slot : Slot) (t' : GcTab)
      → IsChained values t
      → array_index values t key ≡ none
      → uj_obj_equal values key key' ≡ true
      → IsNew values t key'
      → lj_tab_newkey values t key' ≡ place slot t'
      → IsWritten values t key v (store t' slot v)
  newkey-IsWritten t key key' v slot t' w at same new e = elim (Bool-cases t.immutable) [
    | inl immutable ↦ let threw = newkey_immutable t key' immutable in cc
    | inr mutable ↦ elim (newkey-cases values t key' w new mutable) [
      | inr (full, nothing) ↦ cc
      | inl c ↦
          let path : store c.table (node_slot c.grown.slot) v ≡ store t' slot v =
            ap (λ s. written s v t) (sym c.placed_at ∙ e) in
          subst (IsWritten values t key v) path (
            inserted-IsWritten values t c.table key key' v c.same_array c.same_asize w at same new
              c.grown c.links)
    ]
  ]

  set-IsWritten :
      (t : GcTab) (key v : TValue) (s : Setting)
      → SetCase values t key s
      → IsChained values t
      → (slot : Slot) (t' : GcTab) → s ≡ place slot t'
      → IsWritten values t key v (store t' slot v)
  set-IsWritten t key v _ (old_array i fine at) w slot t' e =
      let w' = invalidated-IsChained values t w in
      validated t (store t' slot v) key v w (
        subst (IsWritten values (invalidated t) key v) (ap (λ s. written s v t) e) (
          array-IsWritten values (invalidated t) key v i w'
            (array_index_same values t (invalidated t) key refl ∙ at)))
  set-IsWritten t key v _ (old_node i fine some_key at found) w slot t' e =
      let w' = invalidated-IsChained values t w in
      validated t (store t' slot v) key v w (
        subst (IsWritten values (invalidated t) key v) (ap (λ s. written s v t) e) (
          hash-IsWritten values (invalidated t) key v i w' some_key
            (array_index_same values t (invalidated t) key refl ∙ at)
            (find_key-invalidated values t key ∙ found)))
  set-IsWritten t key v _ (new_node key' fine at same new) w slot t' e =
      let w' = invalidated-IsChained values t w in
      validated t (store t' slot v) key v w (
        newkey-IsWritten (invalidated t) key key' v slot t' w'
          (array_index_same values t (invalidated t) key refl ∙ at) same new e)
  set-IsWritten t key v _ (thrown err threw) w slot t' e = cc

  -- After lj_tab_set gave a place in a well-formed table and its caller wrote a value there, lj_tab_get gives this value
  -- for each key that is equal to the one that was set, and what it gave before for each other key.
  pub get-set :
      (t : GcTab) (key k v : TValue) (slot : Slot) (t' : GcTab)
      → IsChained values t
      → lj_tab_set values t key ≡ place slot t'
      → lj_tab_get values (store t' slot v) k
        ≡ (if uj_obj_equal values key k then v else lj_tab_get values t k)
  get-set t key k v slot t' w e =
      (set-IsWritten t key v _ (lj_tab_set-SetCase values t key) w slot t' e).reads k

  -- The chains of the hash part stay well formed when lj_tab_set gives a place and its caller
  -- writes a value there, also where a colliding key moves to another node.
  pub set-IsChained :
      (t : GcTab) (key v : TValue) (slot : Slot) (t' : GcTab)
      → IsChained values t
      → lj_tab_set values t key ≡ place slot t'
      → IsChained values (store t' slot v)
  set-IsChained t key v slot t' w e =
      (set-IsWritten t key v _ (lj_tab_set-SetCase values t key) w slot t' e).chained
