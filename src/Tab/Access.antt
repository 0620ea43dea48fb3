-- ===== src/Tab/Access.antt =====
-- The getters and setters of src/lj_tab.c and src/lj_tab.h, for each kind of key.
use luavela.Base.{ℕ, ◌+◌, ◌-◌, ◌^◌}
use luavela.Base.{Bool, false, not, Option, none, some, ltb, ◌==◌, if◌then◌else◌}
use luavela.Tab.{
  Values, TValue, nil, bool, num, str, other, GcTab, hashkey, find_node, find_key, node_value,
}
use luavela.Tab.{
  array_slot, node_slot, Setting, place, fails, immut_modif, nanidx, nilidx, lj_tab_newkey,
}

-- An int32_t, two's complement in 32 bits, as a size_t.
abbrev pub size_of_int : ℕ → ℕ
size_of_int k = if ltb k (2 ^ 31) then k else k + (2 ^ 64 - 2 ^ 32)

unfoldable pub inarray : GcTab → ℕ → Bool
inarray t k = ltb (size_of_int k) t.asize

-- `tvisnum(nodekey) && numV(nodekey) == numV(&k)`
abbrev pub is_num_key : Values → ℕ → TValue → Bool
is_num_key values n key = elim key [ num a ↦ values.num_eq a n | _ ↦ false ]

-- `tvisstr(&n->key) && strV(&n->key) == key`
abbrev pub is_str_key : ℕ → TValue → Bool
is_str_key s key = elim key [ str a ↦ a == s | _ ↦ false ]

-- The loops of lj_tab_getinth and lj_tab_setinth, and of lj_tab_getstr and lj_tab_setstr.
unfoldable pub find_int : Values → GcTab → ℕ → Option ℕ
find_int values t k =
    let n = values.int2num k in
    find_node (is_num_key values n) (t.hmask + 2) t.node (hashkey values t.hmask (num n))

unfoldable pub find_str : Values → GcTab → ℕ → Option ℕ
find_str values t s = find_node (is_str_key s) (t.hmask + 2) t.node (hashkey values t.hmask (str s))

abbrev pub value_of : GcTab → Option ℕ → Option TValue
value_of t none = none
value_of t (some i) = some (t.node i).val

unfoldable pub lj_tab_getinth : Values → GcTab → ℕ → Option TValue
lj_tab_getinth values t k = value_of t (find_int values t k)

unfoldable pub lj_tab_getstr : Values → GcTab → ℕ → Option TValue
lj_tab_getstr values t s = value_of t (find_str values t s)

unfoldable pub lj_tab_getint : Values → GcTab → ℕ → Option TValue
lj_tab_getint values t k = if inarray t k then some (t.array k) else lj_tab_getinth values t k

-- NULL becomes `niltv`.
abbrev pub or_niltv : Option TValue → TValue
or_niltv none = nil
or_niltv (some v) = v

-- `nk == (lua_Number)k`, for `k = lj_num2int(nk)`.
abbrev pub is_int : Values → ℕ → Bool
is_int values n = values.num_eq n (values.int2num (values.num2int n))

unfoldable pub lj_tab_get : Values → GcTab → TValue → TValue
lj_tab_get values t (str s) = or_niltv (lj_tab_getstr values t s)
lj_tab_get values t (num n) =
    if is_int values n
    then or_niltv (lj_tab_getint values t (values.num2int n))
    else node_value t (find_key values t (num n))
lj_tab_get values t nil = nil
lj_tab_get values t (bool b) = node_value t (find_key values t (bool b))
lj_tab_get values t (other tag ptr) = node_value t (find_key values t (other tag ptr))

-- The end of a setter: the node that was found, or a new key.
abbrev pub found_or_new : Values → GcTab → TValue → Option ℕ → Setting
found_or_new values t key none = lj_tab_newkey values t key
found_or_new values t key (some i) = place (node_slot i) t

unfoldable pub lj_tab_setinth : Values → GcTab → ℕ → Setting
lj_tab_setinth values t k =
    if t.immutable
    then fails immut_modif
    else found_or_new values t (num (values.int2num k)) (find_int values t k)

unfoldable pub lj_tab_setint : Values → GcTab → ℕ → Setting
lj_tab_setint values t k =
    if t.immutable
    then fails immut_modif
    else if inarray t k
    then place (array_slot k) t
    else lj_tab_setinth values t k

unfoldable pub lj_tab_setstr : Values → GcTab → ℕ → Setting
lj_tab_setstr values t s =
    if t.immutable then fails immut_modif else found_or_new values t (str s) (find_str values t s)

-- What lj_tab_set does after it invalidated the cache of metamethods.
unfoldable pub set_by_type : Values → GcTab → TValue → Setting
set_by_type values t (str s) = lj_tab_setstr values t s
set_by_type values t (num n) =
    if is_int values n
    then lj_tab_setint values t (values.num2int n)
    else if not (values.num_eq n n)
    then fails nanidx
    else found_or_new values t (num n) (find_key values t (num n))
set_by_type values t nil = fails nilidx
set_by_type values t (bool b) = found_or_new values t (bool b) (find_key values t (bool b))
set_by_type values t (other tag ptr) =
    found_or_new values t (other tag ptr) (find_key values t (other tag ptr))

unfoldable pub lj_tab_set : Values → GcTab → TValue → Setting
lj_tab_set values t key =
    if t.immutable
    then fails immut_modif
    else let invalidated : GcTab = record t { nomm = 0 } in set_by_type values invalidated key
