-- ===== src/Tab/Grown.antt =====
-- A table with one more key: whatever way the nodes moved, the lookups see the new key.
use luavela.Base.{ℕ, ◌+◌, ◌≤◌, ◌≡◌, ◌≢◌, refl, sym, ap, ◌∙◌, subst, arith}
use luavela.Base.{true, false, inl, inr, ◌⊎◌, none, some, true≢false}
use luavela.Tab.{Values, TValue, nil, GcTab, tvisnil, uj_obj_equal, hashkey, canonical}
use luavela.Tab.Chain.{Chain, Falls, map-Chain}
use luavela.Tab.Wellformed.{equal-tvisnil, IsChained}
use luavela.Tab.Fresh.{IsNew, canonical-tvisnil, canonical-hashkey, fresh_key, fresh_key_back}

module _ (values : Values) (t t' : GcTab) (key : TValue) where
  -- The node `j` of the new table is the node `i` of the old one.
  pub record ComesFrom (to : ℕ → ℕ) (slot j i : ℕ) : Type 0 where
    pub moved : j ≡ to i
    pub apart : to i ≢ slot
    pub same_key : (t'.node j).key ≡ (t.node i).key
    pub same_val : (t'.node j).val ≡ (t.node i).val

  -- The node `i` is lost: it had no value, and the new key stands there, in its main position.
  pub record IsLost (to : ℕ → ℕ) (slot i : ℕ) : Type 0 where
    pub empty : (t.node i).val ≡ nil
    pub taken : to i ≡ slot
    pub main : slot ≡ hashkey values t.hmask key

  -- The new key stands in `slot`, and each node with a key moved `to` another place.
  pub record Grown : Type 0 where
    pub to : ℕ → ℕ
    pub slot : ℕ
    pub same_mask : t'.hmask ≡ t.hmask
    pub slot_key : (t'.node slot).key ≡ canonical key
    pub slot_reach : Chain t'.node slot (hashkey values t.hmask key)
    pub slot_home :
        (tvisnil (t'.node (hashkey values t.hmask key)).key ≡ false)
        × (hashkey values t.hmask (t'.node (hashkey values t.hmask key)).key
            ≡ hashkey values t.hmask key)
    pub origin :
        (j : ℕ) → tvisnil (t'.node j).key ≡ false → (j ≡ slot) ⊎ ((i : ℕ) × ComesFrom to slot j i)
    pub kept :
        (i : ℕ) → tvisnil (t.node i).key ≡ false → ComesFrom to slot (to i) i ⊎ IsLost to slot i
    pub links : (i x : ℕ) → (t.node i).next ≡ some x → Chain t'.node (to x) (to i)
    pub main_fixed :
        (i : ℕ)
        → tvisnil (t.node i).key ≡ false
        → to (hashkey values t.hmask (t.node i).key) ≡ hashkey values t.hmask (t.node i).key

  -- The links of the new table.
  pub record IsLinked : Type 0 where
    pub rank : ℕ → ℕ
    pub lowered : t'.freetop ≤ t.freetop
    pub top : t'.freetop ≤ t'.hmask + 1
    pub low : (i : ℕ) → rank i + t'.freetop ≤ t'.hmask + 1
    pub falls : Falls t'.node rank
    pub one : (i j x : ℕ) → (t'.node i).next ≡ some x → (t'.node j).next ≡ some x → i ≡ j
    pub used : (i x : ℕ) → (t'.node i).next ≡ some x → tvisnil (t'.node x).key ≡ false
    pub unused :
        (i : ℕ)
        → tvisnil (t'.node i).key ≡ true
        → ((t'.node i).val ≡ nil) × ((t'.node i).next ≡ none)
    pub within : (i : ℕ) → tvisnil (t'.node i).key ≡ false → i ≤ t'.hmask

  module _ (w : IsChained values t) (new : IsNew values t key) (g : Grown) where
    from_key :
        (j i : ℕ)
        → tvisnil (t'.node j).key ≡ false
        → ComesFrom g.to g.slot j i
        → tvisnil (t.node i).key ≡ false
    from_key j i h c = sym (ap tvisnil c.same_key) ∙ h

    grown-reach :
        (j : ℕ)
        → tvisnil (t'.node j).key ≡ false
        → Chain t'.node j (hashkey values t'.hmask (t'.node j).key)
    grown-reach j h = elim (g.origin j h) [
      | inl at ↦
          let hash : hashkey values t'.hmask (t'.node j).key ≡ hashkey values t.hmask key =
            rw (g.same_mask, at, g.slot_key) (canonical-hashkey values t key w new t.hmask) in
          subst (λ k. Chain t'.node k (hashkey values t'.hmask (t'.node j).key)) (sym at)
            (subst (λ m. Chain t'.node g.slot m) (sym hash) g.slot_reach)
      | inr (i, c) ↦
          let not_nil = from_key j i h c in
          let hash : hashkey values t'.hmask (t'.node j).key
              ≡ hashkey values t.hmask (t.node i).key =
            rw (g.same_mask, c.same_key) refl in
          let chain = map-Chain t.node t'.node g.to g.links i (w.reach i not_nil) in
          subst (λ k. Chain t'.node k (hashkey values t'.hmask (t'.node j).key)) (sym c.moved)
            (subst (λ m. Chain t'.node (g.to i) m) (g.main_fixed i not_nil ∙ sym hash) chain)
    ]

    home_of :
        (i : ℕ)
        → tvisnil (t.node i).key ≡ false
        → (tvisnil (t'.node (hashkey values t.hmask (t.node i).key)).key ≡ false)
          × (hashkey values t.hmask (t'.node (hashkey values t.hmask (t.node i).key)).key
              ≡ hashkey values t.hmask (t.node i).key)
    home_of i h =
        let m = hashkey values t.hmask (t.node i).key in
        let old = w.home i h in
        elim (g.kept m old.0) [
          | inl c ↦
              let same : (t'.node m).key ≡ (t.node m).key =
                subst (λ k. (t'.node k).key ≡ (t.node m).key) (g.main_fixed i h) c.same_key in
              rw same old
          | inr lost ↦
              let at : m ≡ g.slot = sym (g.main_fixed i h) ∙ lost.taken in
              rw (at, g.slot_key)
                (
                  canonical-tvisnil values t key w new,
                  canonical-hashkey values t key w new t.hmask ∙ sym lost.main,
                )
        ]

    grown-home :
        (j : ℕ)
        → tvisnil (t'.node j).key ≡ false
        → (tvisnil (t'.node (hashkey values t'.hmask (t'.node j).key)).key ≡ false)
          × (hashkey values t'.hmask (t'.node (hashkey values t'.hmask (t'.node j).key)).key
              ≡ hashkey values t'.hmask (t'.node j).key)
    grown-home j h = elim (g.origin j h) [
      | inl at ↦
          rw (g.same_mask, at, g.slot_key, canonical-hashkey values t key w new t.hmask) g.slot_home
      | inr (i, c) ↦ rw (g.same_mask, c.same_key) (home_of i (from_key j i h c))
    ]

    grown-distinct :
        (j k : ℕ)
        → tvisnil (t'.node j).key ≡ false
        → uj_obj_equal values (t'.node j).key (t'.node k).key ≡ true
        → j ≡ k
    grown-distinct j k h same =
        let h' = sym (equal-tvisnil values _ _ same) ∙ h in
        elim (g.origin j h) [
          | inl at ↦ elim (g.origin k h') [
            | inl at' ↦ at ∙ sym at'
            | inr (i, c) ↦ absurd (
                true≢false
                  (sym (rw (at, g.slot_key, c.same_key) at same) ∙ fresh_key values t key w new i))
          ]
          | inr (i, c) ↦ elim (g.origin k h') [
            | inl at' ↦ absurd (
                true≢false (
                  sym (rw (at', g.slot_key, c.same_key) at same)
                  ∙ fresh_key_back values t key w new i))
            | inr (i', c') ↦
                let one : i ≡ i' =
                  w.distinct i i' (from_key j i h c) (rw (c.same_key, c'.same_key) at same) in
                c.moved ∙ ap g.to one ∙ sym c'.moved
          ]
        ]

    pub Grown-IsChained : IsLinked → IsChained values t'
    Grown-IsChained l = record {
      rank = l.rank;
      top = l.top;
      shared = λ e. let old = w.shared (sym g.same_mask ∙ e) in omega (arith, l.lowered);
      low = l.low;
      falls = l.falls;
      one = l.one;
      used = l.used;
      unused = l.unused;
      within = l.within;
      reach = grown-reach;
      home = grown-home;
      distinct = grown-distinct;
    }
