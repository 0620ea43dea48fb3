-- ===== src/Tab/Free.antt =====
-- The free node that a colliding key takes.
use luavela.Base.{ℕ, zero, suc, ◌<◌, ◌≡◌, ◌≢◌, sym, ap, ◌∙◌, subst, arith}
use luavela.Base.{true, false, Bool-cases, inl, inr, some, true≢false}
use luavela.Tab.{Values, Node, GcTab, tvisnil, free_node}
use luavela.Tab.Wellformed.{IsChained}

-- What is found is below the pointer, and has no key.
pub free_node_sound :
    (node : ℕ → Node) (top f : ℕ)
    → free_node node top ≡ some f
    → (f < top) × (tvisnil (node f).key ≡ true)
unfolding free_node
free_node_sound node zero f e = cc
free_node_sound node (suc top) f e = elim (Bool-cases (tvisnil (node top).key)) [
  | inl no_key ↦
      let same : top ≡ f = ground arith in
      (omega arith, subst (λ i. tvisnil (node i).key ≡ true) same no_key)
  | inr a_key ↦
      let lower : free_node node top ≡ some f = rw a_key at e in
      let (below, no_key) = free_node_sound node top f lower in (omega arith, no_key)
]

module _ (values : Values) (t : GcTab) (w : IsChained values t) where
  -- A node that has a value, or stands in front of another node, has a key.
  pub valued_key : (n : ℕ) → tvisnil (t.node n).val ≡ false → tvisnil (t.node n).key ≡ false
  valued_key n e = elim (Bool-cases (tvisnil (t.node n).key)) [
    | inr a_key ↦ a_key
    | inl no_key ↦ absurd (true≢false (sym (ap tvisnil (w.unused n no_key).0) ∙ e))
  ]

  pub linked_key : (n x : ℕ) → (t.node n).next ≡ some x → tvisnil (t.node n).key ≡ false
  linked_key n x e = elim (Bool-cases (tvisnil (t.node n).key)) [
    | inr a_key ↦ a_key
    | inl no_key ↦ let last = (w.unused n no_key).1 in cc
  ]

  pub apart_keys :
      (i f : ℕ) → tvisnil (t.node i).key ≡ false → tvisnil (t.node f).key ≡ true → i ≢ f
  apart_keys i f a b e = true≢false (sym b ∙ subst (λ j. tvisnil (t.node j).key ≡ false) e a)
