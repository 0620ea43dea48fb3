-- ===== src/Tab/Errors.antt =====
-- lj_tab_set of src/lj_tab.c: what it throws, and what it gives otherwise.
use luavela.Base.{◌≡◌, refl, sym, ap, ◌∙◌, arith}
use luavela.Base.{false, inl, inr, ◌⊎◌, none, some}
use luavela.Tab.{Values, TValue, GcTab, free_node}
use luavela.Tab.{Slot, array_slot, node_slot, Setting, place, fails, rehash, TabError}
use luavela.Tab.Access.{lj_tab_set}
use luavela.Tab.Wellformed.{IsChained}
use luavela.Tab.Newkey.{newkey-cases}
use luavela.Tab.Setters.{
  SetCase, old_array, old_node, new_node, thrown, invalidated, invalidated-IsChained,
  lj_tab_set-SetCase, set_error,
}

module _ (values : Values) where
  -- A place for the value, or no free node is left.
  unfoldable pub Served : GcTab → Setting → Type 0
  Served t s =
      ((slot : Slot) × (t' : GcTab) × (s ≡ place slot t'))
      ⊎ ((s ≡ rehash) × (free_node t.node t.freetop ≡ none))

  is_mutable : (t : GcTab) (key : TValue) → set_error values t key ≡ none → t.immutable ≡ false
  unfolding set_error
  is_mutable t key e = ground arith

  Served-cases :
      (t : GcTab) (key : TValue) (s : Setting)
      → SetCase values t key s
      → IsChained values t
      → ((set_error values t key ≡ none) × Served t s)
        ⊎ ((e : TabError) × (set_error values t key ≡ some e) × (s ≡ fails e))
  unfolding Served
  Served-cases t key _ (old_array i fine at) w = inl (fine, inl (array_slot i, invalidated t, refl))
  Served-cases t key _ (old_node i fine some_key at found) w =
      inl (fine, inl (node_slot i, invalidated t, refl))
  Served-cases t key _ (new_node key' fine at same new) w =
      elim (newkey-cases values (invalidated t) key' (invalidated-IsChained values t w) new
        (is_mutable t key fine)) [
          | inl c ↦ inl (fine, inl (node_slot c.grown.slot, c.table, c.placed_at))
          | inr full ↦ inl (fine, inr full)
        ]
  Served-cases t key _ (thrown e threw) w = inr (e, threw, refl)

  -- lj_tab_set on a well-formed table throws the error that set_error says: for an immutable table
  -- first, then for nil and for NaN.
  pub set_fails :
      (t : GcTab) (key : TValue) (e : TabError)
      → IsChained values t
      → set_error values t key ≡ some e
      → lj_tab_set values t key ≡ fails e
  set_fails t key e w threw = elim (Served-cases t key _ (lj_tab_set-SetCase values t key) w) [
    | inl (fine, served) ↦ let both : none ≡ some e = sym fine ∙ threw in cc
    | inr (e', threw', is) ↦
        let both : some e' ≡ some e = sym threw' ∙ threw in
        is ∙ ap (λ x. fails x) (let same : e' ≡ e = cc in same)
  ]

  -- Where set_error says none, lj_tab_set on a well-formed table gives a place for the value, or wants a rehash when all
  -- nodes below the free pointer have keys; the search for a predecessor always ends.
  pub set-Served :
      (t : GcTab) (key : TValue)
      → IsChained values t
      → set_error values t key ≡ none
      → Served t (lj_tab_set values t key)
  set-Served t key w fine = elim (Served-cases t key _ (lj_tab_set-SetCase values t key) w) [
    | inl (fine', served) ↦ served
    | inr (e, threw, is) ↦ let both : none ≡ some e = sym fine ∙ threw in cc
  ]
