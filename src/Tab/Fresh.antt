-- ===== src/Tab/Fresh.antt =====
-- A key that is not in the table yet.
use luavela.Base.{ℕ, ◌≡◌, refl, sym, ◌∙◌}
use luavela.Base.{true, false, Bool-cases, inl, inr, none}
use luavela.Base.{◌==◌, eqb_self}
use luavela.Tab.{
  Values, TValue, Node, GcTab, tvisnil, uj_obj_equal, hashkey, find_key, canonical, set_node,
}
use luavela.Tab.Wellformed.{
  equal-sym, equal_trans, equal-tvisnil, equal-canonical, hashkey-equal, IsChained, find_key-none,
}

pub set_node_self : (node : ℕ → Node) (n : ℕ) (v : Node) → set_node node n v n ≡ v
set_node_self node n v = rw (eqb_self n) refl

pub set_node_other :
    (node : ℕ → Node) (n i : ℕ) (v : Node) → i == n ≡ false → set_node node n v i ≡ node i
set_node_other node n i v e = rw e refl

-- A key that may be inserted: it is not nil, not NaN, and not there yet.
pub record IsNew (values : Values) (t : GcTab) (key : TValue) : Type 0 where
  pub some_key : tvisnil key ≡ false
  pub regular : uj_obj_equal values key key ≡ true
  pub absent : find_key values t key ≡ none

module _ (values : Values) (t : GcTab) (key : TValue) (w : IsChained values t)
    (new : IsNew values t key) where
  pub canonical-equal : uj_obj_equal values key (canonical key) ≡ true
  canonical-equal = equal-canonical values key new.regular

  pub canonical-tvisnil : tvisnil (canonical key) ≡ false
  canonical-tvisnil = sym (equal-tvisnil values _ _ canonical-equal) ∙ new.some_key

  pub canonical-hashkey :
      (hmask : ℕ) → hashkey values hmask (canonical key) ≡ hashkey values hmask key
  canonical-hashkey hmask = sym (hashkey-equal values hmask _ _ canonical-equal)

  -- No key of the table is equal to the new one.
  pub fresh_key : (j : ℕ) → uj_obj_equal values (canonical key) (t.node j).key ≡ false
  fresh_key j = elim (Bool-cases (uj_obj_equal values (canonical key) (t.node j).key)) [
    | inr differs ↦ differs
    | inl same ↦
        let back = equal-sym values _ _ (equal_trans values _ _ _ canonical-equal same) in
        let not = find_key-none values t key j w new.some_key new.absent in cc
  ]

  pub fresh_key_back : (j : ℕ) → uj_obj_equal values (t.node j).key (canonical key) ≡ false
  fresh_key_back j = elim (Bool-cases (uj_obj_equal values (t.node j).key (canonical key))) [
    | inr differs ↦ differs
    | inl same ↦ let not = fresh_key j in let back = equal-sym values _ _ same in cc
  ]
