-- ===== src/Tab/Link.antt =====
-- A new key in a free node that is linked behind the node of its main position.
use luavela.Base.{ℕ, ◌+◌, ◌≤◌, ◌<◌, ◌≡◌, refl, sym, ap, ◌∙◌, arith}
use luavela.Base.{true, false, Bool-cases, inl, inr, ◌⊎◌, none, some, true≢false}
use luavela.Base.{◌==◌, eqb→eq, eqb_self, ne→eqb, leb, if◌then◌else◌}
use luavela.Tab.{
  Values, TValue, nil, Node, GcTab, tvisnil, hashkey, canonical, set_node, link_behind,
}
use luavela.Tab.Chain.{Chain, here, step, Falls}
use luavela.Tab.Wellformed.{IsChained}
use luavela.Tab.Fresh.{IsNew, canonical-tvisnil}
use luavela.Tab.Grown.{Grown, ComesFrom, IsLinked}
use luavela.Tab.Free.{apart_keys, linked_key}

module _ (values : Values) (t : GcTab) (key : TValue) (w : IsChained values t)
    (new : IsNew values t key) (n f : ℕ) (at_home : hashkey values t.hmask key ≡ n)
    (own : hashkey values t.hmask (t.node n).key ≡ n) (some_n : tvisnil (t.node n).key ≡ false)
    (below : f < t.freetop) (no_key : tvisnil (t.node f).key ≡ true) where
  -- The table with the key in the node `f`, behind `n`.
  abbrev pub linked : GcTab
  linked = record t {
    freetop = f;
    node =
        set_node (link_behind t.node n f) f
          (record (link_behind t.node n f f) { key = canonical key });
  }

  n≢f : n == f ≡ false
  n≢f = ne→eqb n f (apart_keys values t w n f some_n no_key)

  f≢n : f == n ≡ false
  f≢n = ground arith

  at_f : linked.node f ≡ (
      let new_node : Node = record (t.node f) { key = canonical key; next = (t.node n).next } in
      new_node)
  at_f = rw (eqb_self f, f≢n) refl

  at_n : linked.node n ≡ (let new_node : Node = record (t.node n) { next = some f } in new_node)
  at_n = rw (n≢f, eqb_self n) refl

  at_other : (i : ℕ) → i == f ≡ false → i == n ≡ false → linked.node i ≡ t.node i
  at_other i e e' = rw (e, e') refl

  key_kept : (i : ℕ) → i == f ≡ false → (linked.node i).key ≡ (t.node i).key
  key_kept i e = elim (Bool-cases (i == n)) [
    | inl at ↦ let same = eqb→eq i n at in rw same (ap (λ v. v.key) at_n)
    | inr off ↦ ap (λ v. v.key) (at_other i e off)
  ]

  val_kept : (i : ℕ) → i == f ≡ false → (linked.node i).val ≡ (t.node i).val
  val_kept i e = elim (Bool-cases (i == n)) [
    | inl at ↦ let same = eqb→eq i n at in rw same (ap (λ v. v.val) at_n)
    | inr off ↦ ap (λ v. v.val) (at_other i e off)
  ]

  key_f : (linked.node f).key ≡ canonical key
  key_f = ap (λ v. v.key) at_f

  some_f : tvisnil (linked.node f).key ≡ false
  some_f = ap tvisnil key_f ∙ canonical-tvisnil values t key w new

  not_f : (i : ℕ) → tvisnil (t.node i).key ≡ false → i == f ≡ false
  not_f i h = ne→eqb i f (apart_keys values t w i f h no_key)

  from_other : (i : ℕ) → i == f ≡ false → ComesFrom values t linked key (λ j. j) f i i
  from_other i off = record {
    moved = refl;
    apart = λ e. true≢false (sym (rw e (eqb_self f)) ∙ off);
    same_key = key_kept i off;
    same_val = val_kept i off;
  }

  kept_links : (i x : ℕ) → (t.node i).next ≡ some x → Chain linked.node x i
  kept_links i x e = elim (Bool-cases (i == n)) [
    | inl at ↦
        let same = eqb→eq i n at in
        let first : (linked.node i).next ≡ some f = rw same (ap (λ v. v.next) at_n) in
        let old : (t.node n).next ≡ some x = sym (ap (λ j. (t.node j).next) same) ∙ e in
        step f first (step x (ap (λ v. v.next) at_f ∙ old) here)
    | inr off ↦
        step x (ap (λ v. v.next) (at_other i (not_f i (linked_key values t w i x e)) off) ∙ e) here
  ]

  pub linked-Grown : Grown values t linked key
  linked-Grown = record {
    to = λ j. j;
    slot = f;
    same_mask = refl;
    slot_key = key_f;
    slot_reach = rw at_home (step f (ap (λ v. v.next) at_n) here);
    slot_home = let same = key_kept n n≢f in rw (at_home, same) (some_n, own);
    origin = λ j h. elim (Bool-cases (j == f)) [
      | inl at ↦ inl (eqb→eq j f at)
      | inr off ↦ inr (j, from_other j off)
    ];
    kept = λ i h. inl (from_other i (not_f i h));
    links = kept_links;
    main_fixed = λ i h. refl;
  }

  -- A link of the new table: the new one from `n`, or an old one, that may start in `f` now.
  back :
      (i x : ℕ)
      → (linked.node i).next ≡ some x
      → ((x ≡ f) × (i ≡ n))
        ⊎ ((i' : ℕ) × ((t.node i').next ≡ some x) × (i ≡ (if i' == n then f else i')))
  back i x e = elim (Bool-cases (i == f)) [
    | inl at ↦
        let link : (t.node n).next ≡ some x =
          sym (ap (λ v. v.next) at_f) ∙ sym (ap (λ j. (linked.node j).next) (eqb→eq i f at)) ∙ e in
        inr (n, link, rw (eqb_self n) (eqb→eq i f at))
    | inr off ↦ elim (Bool-cases (i == n)) [
      | inl at ↦
          let link : some f ≡ some x =
            sym (ap (λ v. v.next) at_n)
            ∙ sym (ap (λ j. (linked.node j).next) (eqb→eq i n at))
            ∙ e in
          inl (cc, eqb→eq i n at)
      | inr off' ↦ inr (i, sym (ap (λ v. v.next) (at_other i off off')) ∙ e, rw off' refl)
    ]
  ]

  -- Behind `n` the chain is longer by one node.
  unfoldable longer : ℕ → ℕ
  longer i =
      if i == f then w.rank n else (if leb (w.rank n) (w.rank i) then w.rank i + 1 else w.rank i)

  longer_f : longer f ≡ w.rank n
  unfolding longer
  longer_f = rw (eqb_self f) refl

  longer_off :
      (i : ℕ)
      → i == f ≡ false
      → longer i ≡ (if leb (w.rank n) (w.rank i) then w.rank i + 1 else w.rank i)
  unfolding longer
  longer_off i e = rw e refl

  longer-Falls : Falls linked.node longer
  longer-Falls i x e = elim (back i x e) [
    | inl (at_x, at_i) ↦
        let lower : longer x ≡ w.rank n = rw at_x longer_f in
        let upper : longer i ≡ longer n = ap longer at_i in
        let at_n' = longer_off n n≢f in ground arith
    | inr (i', link, at_i) ↦
        let old = w.falls i' x link in
        let rank_x = longer_off x (not_f x (w.used i' x link)) in
        elim (Bool-cases (i' == n)) [
          | inl is_n ↦
              let from : i ≡ f = at_i ∙ rw is_n refl in
              let rank_i : longer i ≡ w.rank n = rw from longer_f in
              let same : w.rank i' ≡ w.rank n = ap w.rank (eqb→eq i' n is_n) in ground arith
          | inr off ↦
              let from : i ≡ i' = at_i ∙ rw off refl in
              let rank_i = longer_off i' (not_f i' (linked_key values t w i' x link)) in
              let same : longer i ≡ longer i' = ap longer from in ground arith
        ]
  ]

  longer_low : (i : ℕ) → longer i + f ≤ t.hmask + 1
  longer_low i =
      let low_i = w.low i in
      let low_n = w.low n in
      elim (Bool-cases (i == f)) [
        | inl at ↦ let same : longer i ≡ w.rank n = rw (eqb→eq i f at) longer_f in ground arith
        | inr off ↦ let same = longer_off i off in ground arith
      ]

  linked_one : (i j x : ℕ) → (linked.node i).next ≡ some x → (linked.node j).next ≡ some x → i ≡ j
  linked_one i j x e e' = elim (back i x e) [
    | inl (at_x, at_i) ↦ elim (back j x e') [
      | inl (at_x', at_j) ↦ at_i ∙ sym at_j
      | inr (j', link, at_j) ↦ absurd (apart_keys values t w x f (w.used j' x link) no_key at_x)
    ]
    | inr (i', link, at_i) ↦ elim (back j x e') [
      | inl (at_x, at_j) ↦ absurd (apart_keys values t w x f (w.used i' x link) no_key at_x)
      | inr (j', link', at_j) ↦
          at_i ∙ ap (λ k. if k == n then f else k) (w.one i' j' x link link') ∙ sym at_j
    ]
  ]

  linked_used : (i x : ℕ) → (linked.node i).next ≡ some x → tvisnil (linked.node x).key ≡ false
  linked_used i x e = elim (back i x e) [
    | inl (at_x, at_i) ↦ rw at_x some_f
    | inr (i', link, at_i) ↦
        let old = w.used i' x link in ap tvisnil (key_kept x (not_f x old)) ∙ old
  ]

  linked_unused :
      (i : ℕ)
      → tvisnil (linked.node i).key ≡ true
      → ((linked.node i).val ≡ nil) × ((linked.node i).next ≡ none)
  linked_unused i e = elim (Bool-cases (i == f)) [
    | inl at ↦ absurd (true≢false (sym e ∙ rw (eqb→eq i f at) some_f))
    | inr off ↦
        let nothing = sym (ap tvisnil (key_kept i off)) ∙ e in
        let old = w.unused i nothing in
        let not_n = ne→eqb i n (λ at. true≢false (sym nothing ∙ rw at some_n)) in
        (val_kept i off ∙ old.0, ap (λ v. v.next) (at_other i off not_n) ∙ old.1)
  ]

  pub linked-IsLinked : IsLinked values t linked key
  linked-IsLinked = record {
    rank = longer;
    lowered = omega arith;
    top = omega (arith, w.top);
    low = longer_low;
    falls = longer-Falls;
    one = linked_one;
    used = linked_used;
    unused = linked_unused;
    within = λ i e. elim (Bool-cases (i == f)) [
      | inl at ↦ let same = eqb→eq i f at in omega (arith, w.top)
      | inr off ↦ w.within i (sym (ap tvisnil (key_kept i off)) ∙ e)
    ];
  }

  pub linked_slot : linked-Grown.slot ≡ f
  unfolding linked-Grown
  linked_slot = refl
