-- ===== src/Tests/Tables.antt =====
-- A table with four nodes and an array part of two slots. Numbers stand for small integers, and
-- 2 ^ 63 for -0.
use luavela.Base.{
  ◌∙◌, ap, true, true≢false, Bool-cases, eqb_self, ◌⊎◌, inl, if◌then◌else◌, sym, Option, length, [],
  ℕ, ◌∷◌, ◌+◌, ◌%◌, ◌^◌, ◌≡◌, inr, refl, some, none, false, arith, ◌==◌, eqb→eq,
}
use luavela.Tab.{
  Node, TabError, Values, TValue, nil, num, str, GcTab, tvisnil, hashrot, uj_obj_equal, key_hash,
  hashkey, find_node, find_key, free_node, predecessor, rechain,
}
use luavela.Tab.{node_slot, array_slot, place, store, move_out, use_free, lj_tab_newkey}
use luavela.Tab.{Setting, fails, nilidx}
use luavela.Tab.Access.{
  inarray, find_int, find_str, lj_tab_getinth, lj_tab_getstr, lj_tab_getint, lj_tab_get,
  lj_tab_setinth, lj_tab_setint, lj_tab_setstr, set_by_type, lj_tab_set,
}
use luavela.Tab.Create.{
  cleared, not_zero, clearhpart, clearapart, newhpart, lj_tab_new, lj_tab_sizeof, empty-IsChained,
  lj_tab_new_lem,
}
use luavela.Tab.Wellformed.{IsChained}
use luavela.Tab.Setters.{set_error}
use luavela.Tab.Assign.{get-set, set-IsChained}
use luavela.Tab.Length.{
  present, halve, double, linear, search_from, unbound_search, lj_tab_len, IsBoundary,
}
use luavela.Tab.Boundary.{lj_tab_len-IsBoundary}
use luavela.Tab.Traverse.{
  next_array, next_hash, tab_next, lj_tab_iterate_all, count_values, tab_asize, tab_hsize,
  lj_tab_size, full_cells, iterate_all-full_cells, length-iterate_all,
}
use luavela.Tab.Count.{keys_below, counthash, countint, bin_of, lj_bsr}
use luavela.Tab.Best.{bestasize, best_from, last_dense, bestasize-last_dense}
use luavela.Tab.Getters.{array_index}
use luavela.Tab.Next.{keyindex, hash_index, array_key, lj_tab_next}
use luavela.Tab.Pairs.{pairs_behind, pairs_behind-full_cells}
use luavela.Tab.Errors.{Served, set_fails, set-Served}

-- Numbers that are below 2 ^ 63 are their own value, and others the same with a sign.
abbrev small : Values
small = record {
  num_eq = λ a b. a % 2 ^ 63 == b % 2 ^ 63;
  num2int = λ n. n % 2 ^ 63;
  int2num = λ k. k;
  string_hash = λ s. s;
  num_eq_bits = λ a b e. eqb→eq _ _ e;
  num_eq_sym = λ a b e. ground arith;
  num_eq_trans = λ a b c e f. ground arith;
  num_eq_zero = refl;
  num_eq_int = λ k. ground arith;
  num2int_same = λ a b e. eqb→eq _ _ e;
  int2num-num2int = λ k h. omega arith;
}

-- Two array slots and four nodes.
abbrev fresh_table : GcTab
fresh_table = record {
  array = λ i. nil;
  asize = 2;
  node = λ i. cleared;
  hmask = 3;
  freetop = 4;
  nomm = 255;
  immutable = false;
}

abbrev table_of : Setting → GcTab → GcTab
table_of s t = elim s [ place slot t' ↦ t' | _ ↦ t ]

program : Unit {0}
unfolding hashrot uj_obj_equal key_hash hashkey find_node find_key free_node predecessor rechain
    store move_out use_free lj_tab_newkey inarray find_int find_str lj_tab_getinth lj_tab_getstr
    lj_tab_getint lj_tab_get lj_tab_setinth lj_tab_setint lj_tab_setstr set_by_type lj_tab_set
    newhpart lj_tab_new lj_tab_sizeof set_error present halve double linear search_from
    unbound_search lj_tab_len next_array next_hash tab_next lj_tab_iterate_all count_values
    tab_asize tab_hsize lj_tab_size
program = tt

-- Memory that was used before.
abbrev old_values : ℕ → TValue
old_values i = num 5

abbrev old_nodes : ℕ → Node
old_nodes i = record { val = num 5; key = str 1; next = some 0 }

abbrev new_or_fresh : TabError ⊎ GcTab → GcTab
new_or_fresh (inl e) = fresh_table
new_or_fresh (inr t) = t

new_table :
    let t = new_or_fresh (lj_tab_new old_values old_nodes 2 2) in
    (t.hmask ≡ 3) × (t.freetop ≡ 4) × (t.array 1 ≡ nil) × ((t.node 2).key ≡ nil)
unfolding program clearhpart clearapart
new_table = (refl, refl, refl, refl)

-- The key goes to its main position, the node 0.
unfoldable first_place : GcTab
first_place = table_of (lj_tab_set small fresh_table (str 0)) fresh_table

first_set : lj_tab_set small fresh_table (str 0) ≡ place (node_slot 0) first_place
unfolding program first_place
first_set = refl

unfoldable first : GcTab
first = store first_place (node_slot 0) (num 7)

first-IsChained : IsChained small first
unfolding first
first-IsChained =
    set-IsChained small fresh_table (str 0) (num 7) (node_slot 0) first_place
      (empty-IsChained small fresh_table refl (omega arith) (λ e. absurd (omega arith))) first_set

-- The second key has the same main position, and goes to the last node.
unfoldable second_place : GcTab
second_place = table_of (lj_tab_set small first (str 4)) first

second_set : lj_tab_set small first (str 4) ≡ place (node_slot 3) second_place
unfolding program first_place first second_place
second_set = refl

unfoldable second : GcTab
second = store second_place (node_slot 3) (num 8)

second-IsChained : IsChained small second
unfolding second
second-IsChained =
    set-IsChained small first (str 4) (num 8) (node_slot 3) second_place first-IsChained second_set

-- The third key has its main position in the last node: the second key moves to the node 2.
unfoldable third_place : GcTab
third_place = table_of (lj_tab_set small second (str 3)) second

third_set : lj_tab_set small second (str 3) ≡ place (node_slot 3) third_place
unfolding program first_place first second_place second third_place
third_set = refl

moved_key : (third_place.node 2).key ≡ str 4
unfolding program first_place first second_place second third_place
moved_key = refl

get-set_example :
    lj_tab_get small (store third_place (node_slot 3) (num 9)) (str 4)
    ≡ (if uj_obj_equal small (str 3) (str 4) then num 9 else lj_tab_get small second (str 4))
get-set_example =
    get-set small second (str 3) (str 4) (num 9) (node_slot 3) third_place second-IsChained
      third_set

set-IsChained_example : IsChained small (store third_place (node_slot 3) (num 9))
set-IsChained_example =
    set-IsChained small second (str 3) (num 9) (node_slot 3) third_place second-IsChained third_set

nil_error : set_error small second nil ≡ some nilidx
unfolding program first_place first second_place second
nil_error = refl

set_fails_example : lj_tab_set small second nil ≡ fails nilidx
set_fails_example = set_fails small second nil nilidx second-IsChained nil_error

no_error : set_error small second (num 5) ≡ none
unfolding program first_place first second_place second
no_error = refl

set-Served_example : Served small second (lj_tab_set small second (num 5))
set-Served_example = set-Served small second (num 5) second-IsChained no_error

lj_tab_new_lem_example :
    (t : GcTab) × (lj_tab_new old_values old_nodes 2 2 ≡ inr t)
    × (t.asize ≡ 2)
    × (t.hmask + 1 ≡ 2 ^ 2)
    × (t.freetop ≡ (if not_zero 2 then 2 ^ 2 else 0))
    × IsChained small t
    × ((k : TValue) → lj_tab_get small t k ≡ nil)
lj_tab_new_lem_example = lj_tab_new_lem small old_values old_nodes 2 2 (omega arith) (omega arith)

-- The key 1 has its slot in the array part.
unfoldable fourth_place : GcTab
fourth_place = table_of (lj_tab_set small second (num 1)) second

fourth_set : lj_tab_set small second (num 1) ≡ place (array_slot 1) fourth_place
unfolding program first_place first second_place second fourth_place
fourth_set = refl

unfoldable fourth : GcTab
fourth = store fourth_place (array_slot 1) (str 6)

fourth-IsChained : IsChained small fourth
unfolding fourth
fourth-IsChained =
    set-IsChained small second (num 1) (str 6) (array_slot 1) fourth_place second-IsChained
      fourth_set

fourth_sizes : (fourth.asize ≡ 2) × (fourth.hmask ≡ 3)
unfolding program first_place first second_place second fourth_place fourth
fourth_sizes = (refl, refl)

boundary : lj_tab_len small fourth ≡ some 1
unfolding program first_place first second_place second fourth_place fourth
boundary = refl

lj_tab_len-IsBoundary_example :
    (n : ℕ) × (lj_tab_len small fourth ≡ some n) × IsBoundary (present small fourth) n
lj_tab_len-IsBoundary_example =
    lj_tab_len-IsBoundary small fourth fourth-IsChained (omega (arith, fourth_sizes.0))
      (omega (arith, fourth_sizes.1)) (λ e. absurd (omega (arith, fourth_sizes.1)))

all_pairs :
    lj_tab_iterate_all small fourth 7 0 ≡ (num 1, str 6) ∷ (str 0, num 7) ∷ (str 4, num 8) ∷ []
unfolding program first_place first second_place second fourth_place fourth
all_pairs = refl

iterate_all-full_cells_example :
    lj_tab_iterate_all small fourth 7 0
    ≡ full_cells small fourth (fourth.asize + fourth.hmask + 1) 0
iterate_all-full_cells_example =
    iterate_all-full_cells small fourth 7 (omega (arith, fourth_sizes.0, fourth_sizes.1))

length-iterate_all_example : length (lj_tab_iterate_all small fourth 7 0) ≡ lj_tab_size fourth
length-iterate_all_example =
    length-iterate_all small fourth 7 (omega (arith, fourth_sizes.0, fourth_sizes.1))
      (λ e. absurd (omega (arith, fourth_sizes.1)))

-- Two keys in the first bin, and three in the one of 3 and 4.
abbrev five_keys : ℕ → ℕ
five_keys b = if b == 0 then 2 else (if b == 1 then 3 else 0)

counted : (keys_below five_keys 28 ≡ 5) × (keys_below five_keys 2 ≡ 5)
unfolding keys_below
counted = (refl, refl)

best : bestasize five_keys 5 ≡ (5, 5)
unfolding bestasize best_from
best = refl

bestasize_example : bestasize five_keys 5 ≡ last_dense five_keys 28
bestasize_example = bestasize-last_dense five_keys 5 (sym counted.0) (omega arith)

-- The nodes have the keys 2, 3, 4 and so on.
abbrev small_keys : GcTab
small_keys = record fresh_table {
  node = λ i. record { val = num 1; key = num (i + 2); next = none };
}

three_counted :
    let (total, na, bins) = counthash small small_keys 3 0 five_keys in
    (total ≡ 3) × (na ≡ 3) × (bins 0 ≡ 3) × (bins 1 ≡ 5)
unfolding counthash countint bin_of lj_bsr
three_counted = (refl, refl, refl, refl)

abbrev no_mark : TValue → Option ℕ
no_mark key = none

-- A node has no key, or a string.
fourth_keys : (j : ℕ) → ((fourth.node j).key ≡ nil) ⊎ ((s : ℕ) × ((fourth.node j).key ≡ str s))
unfolding program first_place first second_place second fourth_place fourth
fourth_keys j = elim (Bool-cases (j == 3)) [
  | inl at ↦ inr (4, rw at refl)
  | inr off ↦ elim (Bool-cases (j == 0)) [
    | inl at ↦ inr (0, rw (off, at) refl)
    | inr off' ↦ inl (rw (off, off') refl)
  ]
]

fourth_apart :
    (j : ℕ)
    → tvisnil (fourth.node j).key ≡ false
    → array_index small fourth (fourth.node j).key ≡ none
unfolding array_index
fourth_apart j some_key = elim (fourth_keys j) [
  | inl e ↦ absurd (true≢false (sym (ap tvisnil e) ∙ some_key))
  | inr (s, e) ↦ rw e refl
]

fourth_regular :
    (j : ℕ)
    → tvisnil (fourth.node j).key ≡ false
    → uj_obj_equal small (fourth.node j).key (fourth.node j).key ≡ true
unfolding uj_obj_equal
fourth_regular j some_key = elim (fourth_keys j) [
  | inl e ↦ rw e refl
  | inr (s, e) ↦ rw e (eqb_self s)
]

pairs_example :
    pairs_behind small no_mark fourth 7 nil
    ≡ some (full_cells small fourth (fourth.asize + fourth.hmask + 1) 0)
pairs_example =
    pairs_behind-full_cells small no_mark fourth fourth-IsChained (omega (arith, fourth_sizes.0))
      (omega (arith, fourth_sizes.1)) fourth_apart fourth_regular 7
      (omega (arith, fourth_sizes.0, fourth_sizes.1))

-- A key that is not in the table is no place to go on from.
lost_key : lj_tab_next small no_mark fourth (str 9) ≡ none
unfolding program keyindex hash_index array_key lj_tab_next first_place first second_place second
    fourth_place fourth
lost_key = refl
