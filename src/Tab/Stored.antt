-- ===== src/Tab/Stored.antt =====
-- A value that is written to a node leaves the chains as they are.
use luavela.Base.{ℕ, zero, suc, ◌+◌, ◌≡◌, refl, sym, ap, ◌∙◌, subst, arith}
use luavela.Base.{Bool, true, false, Bool-cases, inl, inr, none, Option-cases}
use luavela.Base.{◌==◌, eqb→eq, if◌then◌else◌}
use luavela.Tab.{
  Values, TValue, nil, Node, GcTab, tvisnil, uj_obj_equal, hashkey, find_key, find_node, store,
  node_slot,
}
use luavela.Tab.Chain.{Chain, here, step, map-Chain}
use luavela.Tab.Wellformed.{IsChained}

-- Nodes with the same keys and links find the same.
pub find_node_same :
    (test : TValue → Bool) (fuel : ℕ) (node node' : ℕ → Node) (i : ℕ)
    → ((j : ℕ) → (node' j).key ≡ (node j).key)
    → ((j : ℕ) → (node' j).next ≡ (node j).next)
    → find_node test fuel node' i ≡ find_node test fuel node i
unfolding find_node
find_node_same test zero node node' i key next = refl
find_node_same test (suc fuel) node node' i key next = elim (Option-cases (node i).next) [
  | inl end ↦ rw (key i, next i ∙ end, end) refl
  | inr (x, e) ↦
      rw (key i, next i ∙ e, e) (rw (find_node_same test fuel node node' x key next) refl)
]

module _ (values : Values) (t : GcTab) (i : ℕ) (v : TValue) where
  abbrev pub stored : GcTab
  stored = store t (node_slot i) v

  pub stored_key : (j : ℕ) → (stored.node j).key ≡ (t.node j).key
  unfolding store
  stored_key j = elim (Bool-cases (j == i)) [
    | inl e ↦ rw e (ap (λ k. (t.node k).key) (sym (eqb→eq j i e)))
    | inr e ↦ rw e refl
  ]

  pub stored_next : (j : ℕ) → (stored.node j).next ≡ (t.node j).next
  unfolding store
  stored_next j = elim (Bool-cases (j == i)) [
    | inl e ↦ rw e (ap (λ k. (t.node k).next) (sym (eqb→eq j i e)))
    | inr e ↦ rw e refl
  ]

  pub stored_val : (j : ℕ) → (stored.node j).val ≡ (if j == i then v else (t.node j).val)
  unfolding store
  stored_val j = ground arith

  pub find_key-stored : (key : TValue) → find_key values stored key ≡ find_key values t key
  unfolding find_key store
  find_key-stored key =
      find_node_same (λ k. uj_obj_equal values k key) (t.hmask + 2) t.node stored.node
        (hashkey values t.hmask key) stored_key stored_next

  stored_unused :
      IsChained values t
      → tvisnil (t.node i).key ≡ false
      → (j : ℕ) → tvisnil (stored.node j).key ≡ true
      → ((stored.node j).val ≡ nil) × ((stored.node j).next ≡ none)
  stored_unused w some_key j e =
      let no_key : tvisnil (t.node j).key ≡ true = sym (ap tvisnil (stored_key j)) ∙ e in
      let old = w.unused j no_key in
      elim (Bool-cases (j == i)) [
        | inl at ↦ let same = ap (λ k. tvisnil (t.node k).key) (eqb→eq j i at) in cc
        | inr off ↦ ((stored_val j ∙ rw off old.0), stored_next j ∙ old.1)
      ]

  pub stored-IsChained :
      IsChained values t → tvisnil (t.node i).key ≡ false → IsChained values stored
  unfolding store
  stored-IsChained w some_key = record {
    rank = w.rank;
    top = w.top;
    shared = w.shared;
    low = w.low;
    falls = λ j x e. w.falls j x (sym (stored_next j) ∙ e);
    one = λ j k x e f. w.one j k x (sym (stored_next j) ∙ e) (sym (stored_next k) ∙ f);
    used = λ j x e. ap tvisnil (stored_key x) ∙ w.used j x (sym (stored_next j) ∙ e);
    unused = λ j e. stored_unused w some_key j e;
    within = λ j e. w.within j (sym (ap tvisnil (stored_key j)) ∙ e);
    reach = λ j e.
        subst (λ k. Chain stored.node j (hashkey values t.hmask k)) (sym (stored_key j))
          (map-Chain t.node stored.node (λ k. k) (λ k x l. step x (stored_next k ∙ l) here) j
            (w.reach j (sym (ap tvisnil (stored_key j)) ∙ e)));
    home =
        λ j e. rw (stored_key j) (rw stored_key (w.home j (sym (ap tvisnil (stored_key j)) ∙ e)));
    distinct = λ j k e f.
        w.distinct j k (sym (ap tvisnil (stored_key j)) ∙ e) (rw (stored_key j, stored_key k) at f);
  }
