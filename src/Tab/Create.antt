-- ===== src/Tab/Create.antt =====
-- Creation of tables in src/lj_tab.c, and their footprint. Colocation of the array is left out:
-- it does not show in what a table holds. Nodes and array slots past the end stand as empty ones.
use luavela.Base.{ℕ, zero, suc, ◌+◌, ◌-◌, ◌*◌, ◌^◌, ◌≤◌, ◌<◌, ◌≡◌, refl, sym, ap, ◌∙◌, arith}
use luavela.Base.{Bool, true, false, inl, inr, ◌⊎◌, Option, none, some, true≢false}
use luavela.Base.{Bool-cases, ◌==◌, eqb→eq, ltb, le→ltb, lt→ltb, if-cases, if_false, if◌then◌else◌}
use mathlib.Core.Path.{fun_ext}
use native.Mathlib.Nat.{pow-suc, one-le-pow}
use luavela.Tab.{
  set_node, Values, TValue, nil, Node, GcTab, TabError, tabov, tvisnil, find_key, node_value,
}
use luavela.Tab.Access.{lj_tab_get}
use luavela.Tab.Wellformed.{IsChained}
use luavela.Tab.Getters.{array_index, part_value, lj_tab_get_lem}

abbrev pub lj_max_asize : ℕ
lj_max_asize = 2 ^ 27 + 1

abbrev pub lj_max_hbits : ℕ
lj_max_hbits = 26

abbrev pub cleared : Node
cleared = record { val = nil; key = nil; next = none }

abbrev pub not_zero : ℕ → Bool
not_zero zero = false
not_zero (suc n) = true

abbrev pub lj_pow2 : ℕ → ℕ
lj_pow2 n = 2 ^ n

-- The loop of `clearhpart` over the nodes below `n`, and that of `clearapart`.
unfoldable pub clearhpart : ℕ → (ℕ → Node) → ℕ → Node
clearhpart zero node = node
clearhpart (suc n) node = set_node (clearhpart n node) n cleared

unfoldable pub clearapart : ℕ → (ℕ → TValue) → ℕ → TValue
clearapart zero array = array
clearapart (suc n) array = let rest = clearapart n array in λ i. if i == n then nil else rest i

-- `uj_mem_alloc` of an array of `size`, with whatever the memory holds; past its end there is
-- nothing, which stands as the element `absent`.
abbrev pub allocated {ℓ} : {A : Type ℓ} → ℕ → (ℕ → A) → A → ℕ → A
allocated size memory absent i = if ltb i size then memory i else absent

-- `newhpart` for a table without hash part, and for one with `2 ^ hbits` nodes in new memory.
unfoldable pub newhpart : (ℕ → Node) → GcTab → ℕ → TabError ⊎ GcTab
newhpart memory t hbits =
    if not_zero hbits
    then (if ltb lj_max_hbits hbits
        then inl tabov
        else let hsize = lj_pow2 hbits in
          let hmask = hsize - 1 in
          let node = clearhpart (hmask + 1) (allocated hsize memory cleared) in
          let made : GcTab = record t { freetop = hsize; node = node; hmask = hmask } in inr made)
    else let reduced : GcTab = record t { node = λ i. cleared; hmask = 0; freetop = 0 } in
      inr reduced

-- `newtab`: no metatable, and no metamethod in the cache. The arguments before the sizes are what
-- the new memory holds.
unfoldable pub lj_tab_new : (ℕ → TValue) → (ℕ → Node) → ℕ → ℕ → TabError ⊎ GcTab
lj_tab_new values_memory memory asize hbits =
    let t : GcTab = record {
      array = clearapart asize (allocated asize values_memory nil);
      asize = asize;
      node = λ i. cleared;
      hmask = 0;
      freetop = 0;
      nomm = 2 ^ 8 - 1;
      immutable = false;
    } in
    if ltb lj_max_asize asize then inl tabov else newhpart memory t hbits

-- `lj_tab_sizeof`, from the sizes of a table, a value and a node.
unfoldable pub lj_tab_sizeof : ℕ → ℕ → ℕ → GcTab → ℕ
lj_tab_sizeof sizeof_tab sizeof_value sizeof_node t =
    let hpart_size = if not_zero t.hmask then sizeof_node * (t.hmask + 1) else 0 in
    sizeof_tab + sizeof_value * t.asize + hpart_size

-- No key, no link: nothing is chained.
pub empty-IsChained :
    (values : Values) (t : GcTab)
    → t.node ≡ (λ i. cleared)
    → t.freetop ≤ t.hmask + 1
    → (t.hmask ≡ 0 → t.freetop ≡ 0)
    → IsChained values t
empty-IsChained values t e top shared =
    let no_key : (i : ℕ) → tvisnil (t.node i).key ≡ true = λ i. rw e refl in
    let no_link : (i : ℕ) → (t.node i).next ≡ none = λ i. rw e refl in
    record {
      rank = λ i. 0;
      top = top;
      shared = shared;
      low = λ i. omega (arith, top);
      falls = λ i x link. let last = no_link i in cc;
      one = λ i j x link link'. let last = no_link i in cc;
      used = λ i x link. let last = no_link i in cc;
      unused = λ i h. (ap (λ f. (f i).val) e, no_link i);
      within = λ i h. absurd (true≢false (sym (no_key i) ∙ h));
      reach = λ i h. absurd (true≢false (sym (no_key i) ∙ h));
      home = λ i h. absurd (true≢false (sym (no_key i) ∙ h));
      distinct = λ i j h same. absurd (true≢false (sym (no_key i) ∙ h));
    }

clearhpart_lem :
    (n : ℕ) (node : ℕ → Node) (i : ℕ) → clearhpart n node i ≡ (if ltb i n then cleared else node i)
unfolding clearhpart
clearhpart_lem zero node i = rw (le→ltb i 0 (omega arith)) refl
clearhpart_lem (suc n) node i = elim (Bool-cases (i == n)) [
  | inl at ↦ rw (at, lt→ltb i (suc n) (let same = eqb→eq i n at in omega arith)) refl
  | inr off ↦
      let same : ltb i (suc n) ≡ ltb i n = ground arith in rw (off, same) (clearhpart_lem n node i)
]

clearapart_lem :
    (n : ℕ) (array : ℕ → TValue) (i : ℕ) → clearapart n array i ≡ (if ltb i n then nil else array i)
unfolding clearapart
clearapart_lem zero array i = rw (le→ltb i 0 (omega arith)) refl
clearapart_lem (suc n) array i = elim (Bool-cases (i == n)) [
  | inl at ↦ rw (at, lt→ltb i (suc n) (let same = eqb→eq i n at in omega arith)) refl
  | inr off ↦
      let same : ltb i (suc n) ≡ ltb i n = ground arith in rw (off, same) (clearapart_lem n array i)
]

-- The loops clear all of the new memory.
clearhpart-allocated :
    (n : ℕ) (memory : ℕ → Node) → clearhpart n (allocated n memory cleared) ≡ (λ i. cleared)
clearhpart-allocated n memory = fun_ext (λ i.
    clearhpart_lem n (allocated n memory cleared) i
    ∙ if-cases (λ v. v ≡ cleared) (ltb i n) _ _ (λ e. refl) (λ e. rw e refl))

clearapart-allocated :
    (n : ℕ) (memory : ℕ → TValue) → clearapart n (allocated n memory nil) ≡ (λ i. nil)
clearapart-allocated n memory = fun_ext (λ i.
    clearapart_lem n (allocated n memory nil) i
    ∙ if-cases (λ v. v ≡ nil) (ltb i n) _ _ (λ e. refl) (λ e. rw e refl))

newhpart_lem :
    (memory : ℕ → Node) (t : GcTab) (hbits : ℕ)
    → hbits ≤ lj_max_hbits
    → (u : GcTab) × (newhpart memory t hbits ≡ inr u)
      × (u.node ≡ (λ i. cleared))
      × (u.array ≡ t.array)
      × (u.asize ≡ t.asize)
      × (u.hmask + 1 ≡ 2 ^ hbits)
      × (u.freetop ≡ (if not_zero hbits then 2 ^ hbits else 0))
unfolding newhpart
newhpart_lem memory t zero h =
    (record t { node = λ i. cleared; hmask = 0; freetop = 0 }, refl, refl, refl, refl, refl, refl)
newhpart_lem memory t (suc n) h =
    let pos = one-le-pow (suc n) 2 (omega arith) in
    let whole : 2 ^ suc n - 1 + 1 ≡ 2 ^ suc n = omega (arith, pos) in
    (
      record t {
        freetop = 2 ^ suc n;
        node = clearhpart (2 ^ suc n - 1 + 1) (allocated (2 ^ suc n) memory cleared);
        hmask = 2 ^ suc n - 1;
      },
      rw (le→ltb lj_max_hbits (suc n) h) refl,
      rw whole (clearhpart-allocated (2 ^ suc n) memory),
      refl,
      refl,
      whole,
      refl,
    )

-- A table without hash part has no free node, and one with a hash part has more than one node.
free_nodes :
    (hbits hmask freetop : ℕ)
    → hmask + 1 ≡ 2 ^ hbits
    → freetop ≡ (if not_zero hbits then 2 ^ hbits else 0)
    → (freetop ≤ hmask + 1) × (hmask ≡ 0 → freetop ≡ 0)
free_nodes zero hmask freetop e e' = (omega (arith, e'), λ z. e')
free_nodes (suc n) hmask freetop e e' = (
  omega (arith, e, e'),
  λ z. absurd (omega (arith, e, z, pow-suc 2 n, one-le-pow n 2 (omega arith))),
)

node_value_empty : (t : GcTab) (o : Option ℕ) → t.node ≡ (λ i. cleared) → node_value t o ≡ nil
node_value_empty t none e = refl
node_value_empty t (some i) e = ap (λ f. (f i).val) e

part_value_empty :
    (values : Values) (t : GcTab) (k : TValue) (o : Option ℕ)
    → t.node ≡ (λ i. cleared)
    → t.array ≡ (λ i. nil)
    → part_value values t k o ≡ nil
unfolding part_value
part_value_empty values t k none e e' = node_value_empty t (find_key values t k) e
part_value_empty values t k (some i) e e' = ap (λ f. f i) e'

-- For sizes within the limits, and whatever the new memory holds, lj_tab_new makes a table with
-- the array part that was asked for and 2 ^ hbits nodes, all of them below the free pointer unless
-- it is the shared one; the table is well formed, and lj_tab_get gives nil for each key.
pub lj_tab_new_lem :
    (values : Values) (values_memory : ℕ → TValue) (memory : ℕ → Node) (asize hbits : ℕ)
    → asize ≤ lj_max_asize
    → hbits ≤ lj_max_hbits
    → (t : GcTab) × (lj_tab_new values_memory memory asize hbits ≡ inr t)
      × (t.asize ≡ asize)
      × (t.hmask + 1 ≡ 2 ^ hbits)
      × (t.freetop ≡ (if not_zero hbits then 2 ^ hbits else 0))
      × IsChained values t
      × ((k : TValue) → lj_tab_get values t k ≡ nil)
unfolding lj_tab_new
lj_tab_new_lem values values_memory memory asize hbits ha hh =
    let bare : GcTab = record {
      array = clearapart asize (allocated asize values_memory nil);
      asize = asize;
      node = λ i. cleared;
      hmask = 0;
      freetop = 0;
      nomm = 2 ^ 8 - 1;
      immutable = false;
    } in
    let (t, made, nodes, array, size, mask, free) = newhpart_lem memory bare hbits hh in
    let (top, shared) = free_nodes hbits t.hmask t.freetop mask free in
    let w = empty-IsChained values t nodes top shared in
    let no_values = array ∙ clearapart-allocated asize values_memory in
    (
      t,
      if_false _ _ _ (le→ltb lj_max_asize asize ha) ∙ made,
      size,
      mask,
      free,
      w,
      λ k.
          lj_tab_get_lem values t k w
          ∙ part_value_empty values t k (array_index values t k) nodes no_values,
    )

not_zero_pos : (n : ℕ) → 1 ≤ n → not_zero n ≡ true
not_zero_pos zero h = absurd (omega arith)
not_zero_pos (suc n) h = refl

pub not_zero-false : (n : ℕ) → not_zero n ≡ false → n ≡ 0
not_zero-false zero e = refl
not_zero-false (suc n) e = cc

-- Past a limit lj_tab_new throws.
pub lj_tab_new_fails :
    (values_memory : ℕ → TValue) (memory : ℕ → Node) (asize hbits : ℕ)
    → (lj_max_asize < asize) ⊎ (lj_max_hbits < hbits)
    → lj_tab_new values_memory memory asize hbits ≡ inl tabov
unfolding lj_tab_new newhpart
lj_tab_new_fails values_memory memory asize hbits (inl big) =
    rw (lt→ltb lj_max_asize asize big) refl
lj_tab_new_fails values_memory memory asize hbits (inr many) =
    let bits : not_zero hbits ≡ true = not_zero_pos hbits (omega arith) in
    if-cases (λ r. r ≡ inl tabov) (ltb lj_max_asize asize) _ _ (λ e. refl)
      (λ e. rw (bits, lt→ltb lj_max_hbits hbits many) refl)
