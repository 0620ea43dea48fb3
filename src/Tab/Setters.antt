-- ===== src/Tab/Setters.antt =====
-- The setters of src/lj_tab.c: what is written for a key is what is read for it.
use luavela.Base.{ℕ, ◌≡◌, refl, sym, ◌∙◌, arith}
use luavela.Base.{true, false, not, Option, none, some}
use luavela.Base.{eqb_self, if_false, if-cases, if◌then◌else◌}
use luavela.Tab.{Values, TValue, nil, bool, num, str, other, GcTab, tvisnil, uj_obj_equal, find_key}
use luavela.Tab.{
  array_slot, node_slot, Setting, place, fails, TabError, immut_modif, nanidx, nilidx,
  lj_tab_newkey,
}
use luavela.Tab.Access.{
  inarray, is_int, find_int, find_str, found_or_new, lj_tab_set, set_by_type, lj_tab_setstr,
  lj_tab_setint, lj_tab_setinth,
}
use luavela.Tab.Wellformed.{equal-sym, equal_trans, equal-tvisnil, IsChained}
use luavela.Tab.Fresh.{IsNew}
use luavela.Tab.Getters.{find_int_lem, find_str_lem, find_key-equal, int_same, array_index}

-- The table after lj_tab_set invalidated its cache of metamethods.
abbrev pub invalidated : GcTab → GcTab
invalidated t = record t { nomm = 0 }

-- The error that a setter throws for a key.
unfoldable pub set_error : Values → GcTab → TValue → Option TabError
set_error values t key =
    if t.immutable
    then some immut_modif
    else if tvisnil key
    then some nilidx
    else if uj_obj_equal values key key
    then none
    else some nanidx

set_error_immutable :
    (values : Values) (t : GcTab) (key : TValue)
    → t.immutable ≡ true
    → set_error values t key ≡ some immut_modif
unfolding set_error
set_error_immutable values t key e = rw e refl

set_error-none :
    (values : Values) (t : GcTab) (key : TValue)
    → t.immutable ≡ false
    → tvisnil key ≡ false
    → uj_obj_equal values key key ≡ true
    → set_error values t key ≡ none
unfolding set_error
set_error-none values t key e some_key regular = if_false _ _ _ e ∙ rw (some_key, regular) refl

set_error_nil :
    (values : Values) (t : GcTab) (key : TValue)
    → t.immutable ≡ false
    → tvisnil key ≡ true
    → set_error values t key ≡ some nilidx
unfolding set_error
set_error_nil values t key e no_key = if_false _ _ _ e ∙ rw no_key refl

set_error_nan :
    (values : Values) (t : GcTab) (key : TValue)
    → t.immutable ≡ false
    → tvisnil key ≡ false
    → uj_obj_equal values key key ≡ false
    → set_error values t key ≡ some nanidx
unfolding set_error
set_error_nan values t key e some_key nan = if_false _ _ _ e ∙ rw (some_key, nan) refl

module _ (values : Values) where
  -- What a setter does with a key: it writes to the array part or to a node that the key has, it
  -- inserts an equal key, or it throws.
  pub data SetCase (t : GcTab) (key : TValue) : Setting → Type 0 where
    old_array :
        (i : ℕ)
        → set_error values t key ≡ none
        → array_index values t key ≡ some i
        → SetCase t key (place (array_slot i) (invalidated t))
    old_node :
        (i : ℕ)
        → set_error values t key ≡ none
        → tvisnil key ≡ false
        → array_index values t key ≡ none
        → find_key values t key ≡ some i
        → SetCase t key (place (node_slot i) (invalidated t))
    new_node :
        (key' : TValue)
        → set_error values t key ≡ none
        → array_index values t key ≡ none
        → uj_obj_equal values key key' ≡ true
        → IsNew values (invalidated t) key'
        → SetCase t key (lj_tab_newkey values (invalidated t) key')
    thrown : (e : TabError) → set_error values t key ≡ some e → SetCase t key (fails e)

  pub find_key-invalidated :
      (t : GcTab) (key : TValue) → find_key values (invalidated t) key ≡ find_key values t key
  unfolding find_key
  find_key-invalidated t key = refl

  pub invalidated-IsChained : (t : GcTab) → IsChained values t → IsChained values (invalidated t)
  invalidated-IsChained t w = record {
    rank = w.rank;
    top = w.top;
    shared = w.shared;
    low = w.low;
    falls = w.falls;
    one = w.one;
    used = w.used;
    unused = w.unused;
    within = w.within;
    reach = w.reach;
    home = w.home;
    distinct = w.distinct;
  }

  found_cases :
      (t : GcTab) (key key' : TValue) (o : Option ℕ)
      → set_error values t key ≡ none
      → find_key values t key' ≡ o
      → tvisnil key ≡ false
      → uj_obj_equal values key key' ≡ true
      → array_index values t key ≡ none
      → SetCase t key (found_or_new values (invalidated t) key' o)
  found_cases t key key' none fine e some_key same no_index =
      new_node key' fine no_index same (record {
        some_key = sym (equal-tvisnil values key key' same) ∙ some_key;
        regular = equal_trans values key' key key' (equal-sym values key key' same) same;
        absent = find_key-invalidated t key' ∙ e;
      })
  found_cases t key key' (some i) fine e some_key same no_index =
      old_node i fine some_key no_index (find_key-equal values t key key' same ∙ e)

  setint_cases :
      (t : GcTab) (n : ℕ)
      → t.immutable ≡ false
      → is_int values n ≡ true
      → SetCase t (num n) (lj_tab_setint values (invalidated t) (values.num2int n))
  unfolding lj_tab_setint lj_tab_setinth array_index inarray uj_obj_equal
  setint_cases t n mutable int =
      let regular = values.num_eq_trans n _ n int (values.num_eq_sym n _ int) in
      let fine = set_error-none values t (num n) mutable refl regular in
      if-cases (SetCase t (num n)) t.immutable _ _
        (λ e. thrown immut_modif (set_error_immutable values t _ e))
        (λ e.
          if-cases (SetCase t (num n)) (inarray t (values.num2int n)) _ _
            (λ in_array. old_array (values.num2int n) fine (rw (int, in_array) refl))
            (λ beyond.
              if-cases (SetCase t (num n)) t.immutable _ _
                (λ e'. thrown immut_modif (set_error_immutable values t _ e'))
                (λ e'.
                  found_cases t (num n) (num (values.int2num (values.num2int n)))
                    (find_int values (invalidated t) (values.num2int n)) fine
                    (sym (find_key-invalidated t (num (values.int2num (values.num2int n))))
                      ∙ sym (find_int_lem values (invalidated t) (values.num2int n)))
                    refl (int_same values n int) (rw (int, beyond) refl))))

  set_cases_num :
      (t : GcTab) (n : ℕ)
      → t.immutable ≡ false
      → SetCase t (num n) (set_by_type values (invalidated t) (num n))
  unfolding set_by_type array_index uj_obj_equal
  set_cases_num t n mutable =
      if-cases (SetCase t (num n)) (is_int values n) _ _ (setint_cases t n mutable) (λ no_int.
        if-cases (SetCase t (num n)) (not (values.num_eq n n)) _ _
          (λ nan. thrown nanidx (set_error_nan values t (num n) mutable refl (ground arith)))
          (λ regular.
            found_cases t (num n) (num n) (find_key values (invalidated t) (num n))
              (set_error-none values t (num n) mutable refl (ground arith))
              (sym (find_key-invalidated t (num n))) refl (ground arith) (rw no_int refl)))

  set_cases_mutable :
      (t : GcTab) (key : TValue)
      → t.immutable ≡ false
      → SetCase t key (set_by_type values (invalidated t) key)
  unfolding set_by_type lj_tab_setstr array_index uj_obj_equal
  set_cases_mutable t nil mutable = thrown nilidx (set_error_nil values t nil mutable refl)
  set_cases_mutable t (bool b) mutable =
      found_cases t (bool b) (bool b) (find_key values (invalidated t) (bool b))
        (set_error-none values t (bool b) mutable refl (ground arith))
        (sym (find_key-invalidated t (bool b))) refl (ground arith) refl
  set_cases_mutable t (num n) mutable = set_cases_num t n mutable
  set_cases_mutable t (str s) mutable =
      if-cases (SetCase t (str s)) t.immutable _ _
        (λ e. thrown immut_modif (set_error_immutable values t _ e))
        (λ e.
          found_cases t (str s) (str s) (find_str values (invalidated t) s)
            (set_error-none values t (str s) mutable refl (eqb_self s))
            (sym (find_key-invalidated t (str s)) ∙ sym (find_str_lem values (invalidated t) s))
            refl (eqb_self s) refl)
  set_cases_mutable t (other tag p) mutable =
      found_cases t (other tag p) (other tag p) (find_key values (invalidated t) (other tag p))
        (set_error-none values t (other tag p) mutable refl (ground arith))
        (sym (find_key-invalidated t (other tag p))) refl (ground arith) refl

  pub lj_tab_set-SetCase : (t : GcTab) (key : TValue) → SetCase t key (lj_tab_set values t key)
  unfolding lj_tab_set
  lj_tab_set-SetCase t key =
      if-cases (SetCase t key) t.immutable _ _
        (λ e. thrown immut_modif (set_error_immutable values t _ e)) (set_cases_mutable t key)
