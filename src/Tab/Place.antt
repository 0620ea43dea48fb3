-- ===== src/Tab/Place.antt =====
-- A new key in its main position, where that node has no value.
use luavela.Base.{ℕ, ◌≡◌, refl, sym, ap, ◌∙◌, arith}
use luavela.Base.{true, false, Bool-cases, inl, inr, true≢false}
use luavela.Base.{◌==◌, eqb→eq, eqb_self}
use luavela.Tab.{Values, TValue, nil, GcTab, tvisnil, hashkey, canonical, set_node}
use luavela.Tab.Chain.{here, step}
use luavela.Tab.Wellformed.{hashkey-le, IsChained}
use luavela.Tab.Fresh.{IsNew, canonical-tvisnil, canonical-hashkey, set_node_self}
use luavela.Tab.Grown.{Grown, ComesFrom, IsLinked}

pub tvisnil→nil : (v : TValue) → tvisnil v ≡ true → v ≡ nil
tvisnil→nil nil e = refl
tvisnil→nil _ e = cc

module _ (values : Values) (t : GcTab) (key : TValue) (w : IsChained values t)
    (new : IsNew values t key)
    (free : tvisnil (t.node (hashkey values t.hmask key)).val ≡ true) where
  abbrev home : ℕ
  home = hashkey values t.hmask key

  -- The table with the key in its main position.
  abbrev pub placed : GcTab
  placed = record t { node = set_node t.node home (record (t.node home) { key = canonical key }) }

  key_at : (placed.node home).key ≡ canonical key
  key_at =
      ap (λ v. v.key) (set_node_self t.node home (record (t.node home) { key = canonical key }))

  key_off : (i : ℕ) → i == home ≡ false → (placed.node i).key ≡ (t.node i).key
  key_off i e = rw e refl

  next_same : (i : ℕ) → (placed.node i).next ≡ (t.node i).next
  next_same i = elim (Bool-cases (i == home)) [
    | inl e ↦ rw e (ap (λ k. (t.node k).next) (sym (eqb→eq i _ e)))
    | inr e ↦ rw e refl
  ]

  val_same : (i : ℕ) → (placed.node i).val ≡ (t.node i).val
  val_same i = elim (Bool-cases (i == home)) [
    | inl e ↦ rw e (ap (λ k. (t.node k).val) (sym (eqb→eq i _ e)))
    | inr e ↦ rw e refl
  ]

  from_other : (i : ℕ) → i == home ≡ false → ComesFrom values t placed key (λ j. j) home i i
  from_other i off = record {
    moved = refl;
    apart = λ e. true≢false (sym (rw e (eqb_self home)) ∙ off);
    same_key = key_off i off;
    same_val = val_same i;
  }

  pub placed-Grown : Grown values t placed key
  placed-Grown = record {
    to = λ j. j;
    slot = home;
    same_mask = refl;
    slot_key = key_at;
    slot_reach = here;
    slot_home = (
      ap tvisnil key_at ∙ canonical-tvisnil values t key w new,
      ap (hashkey values t.hmask) key_at ∙ canonical-hashkey values t key w new t.hmask,
    );
    origin = λ j h. elim (Bool-cases (j == home)) [
      | inl at ↦ inl (eqb→eq j home at)
      | inr off ↦ inr (j, from_other j off)
    ];
    kept = λ i h. elim (Bool-cases (i == home)) [
      | inl at ↦ inr (record {
        empty = rw (eqb→eq i home at) (tvisnil→nil _ free);
        taken = eqb→eq i home at;
        main = refl;
      })
      | inr off ↦ inl (from_other i off)
    ];
    links = λ i x e. step x (next_same i ∙ e) here;
    main_fixed = λ i h. refl;
  }

  used_key : (i : ℕ) → i == home ≡ true → tvisnil (placed.node i).key ≡ false
  used_key i at = rw (eqb→eq i home at) (ap tvisnil key_at ∙ canonical-tvisnil values t key w new)

  pub placed-IsLinked : IsLinked values t placed key
  placed-IsLinked = record {
    rank = w.rank;
    lowered = omega arith;
    top = w.top;
    low = w.low;
    falls = λ i x e. w.falls i x (sym (next_same i) ∙ e);
    one = λ i j x e f. w.one i j x (sym (next_same i) ∙ e) (sym (next_same j) ∙ f);
    used = λ i x e. elim (Bool-cases (x == home)) [
      | inl at ↦ used_key x at
      | inr off ↦ ap tvisnil (key_off x off) ∙ w.used i x (sym (next_same i) ∙ e)
    ];
    unused = λ i e. elim (Bool-cases (i == home)) [
      | inl at ↦ absurd (true≢false (sym e ∙ used_key i at))
      | inr off ↦
          let old = w.unused i (sym (ap tvisnil (key_off i off)) ∙ e) in
          (val_same i ∙ old.0, next_same i ∙ old.1)
    ];
    within = λ i e. elim (Bool-cases (i == home)) [
      | inl at ↦ rw (eqb→eq i home at) (hashkey-le values t.hmask key)
      | inr off ↦ w.within i (sym (ap tvisnil (key_off i off)) ∙ e)
    ];
  }

  pub placed_slot : placed-Grown.slot ≡ home
  unfolding placed-Grown
  placed_slot = refl
