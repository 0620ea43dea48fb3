-- ===== src/Tab/Move.antt =====
-- A new key in its main position, from which a key of another chain moves to a free node.
use luavela.Base.{ℕ, zero, suc, ◌+◌, ◌<◌, ◌≡◌, refl, sym, ap, ◌∙◌, arith}
use luavela.Base.{
  Bool, true, false, not, ◌&&◌, Bool-cases, inl, inr, none, some, Option-cases, true≢false,
}
use luavela.Base.{◌==◌, eqb→eq, eqb_self, eqb_flip, ne→eqb}
use luavela.Tab.{
  Values, TValue, nil, Node, GcTab, tvisnil, is_str, hashkey, canonical, set_node, set_next,
  rechain, move_out,
}
use luavela.Tab.Wellformed.{IsChained}
use luavela.Tab.Fresh.{IsNew}
use luavela.Tab.Free.{apart_keys, linked_key}

-- The nodes `cells` are those of the table, where the node `n`, which `p` points to, went to `f`.
pub record IsMoved (values : Values) (t : GcTab) (key : TValue) (n f p : ℕ) (cells : ℕ → Node)
    : Type 0 where
  pub at_home : hashkey values t.hmask key ≡ n
  pub some_n : tvisnil (t.node n).key ≡ false
  pub below : f < t.freetop
  pub no_key : tvisnil (t.node f).key ≡ true
  pub link_p : (t.node p).next ≡ some n
  pub f≢n : f == n ≡ false
  pub p≢n : p == n ≡ false
  pub no_main :
      (i : ℕ) → tvisnil (t.node i).key ≡ false → hashkey values t.hmask (t.node i).key == n ≡ false
  pub at_n :
      cells n
      ≡ (let new_node : Node = record { val = nil; key = canonical key; next = none } in new_node)
  pub at_f : cells f ≡ t.node n
  pub at_p : cells p ≡ (let new_node : Node = record (t.node p) { next = some f } in new_node)
  pub at_other : (i : ℕ) → i == n ≡ false → i == f ≡ false → i == p ≡ false → cells i ≡ t.node i

-- Where no string with a value has the main position `n`, nothing is rechained.
rechain_same :
    (values : Values) (fuel hmask : ℕ) (node : ℕ → Node) (n f : ℕ)
    → ((j : ℕ)
        → (is_str (node j).key
            && not (tvisnil (node j).val)
            && hashkey values hmask (node j).key == n)
          ≡ false)
    → rechain values fuel hmask node n f ≡ node
unfolding rechain
rechain_same values zero hmask node n f none_home = refl
rechain_same values (suc fuel) hmask node n f none_home = elim (Option-cases (node f).next) [
  | inl end ↦ rw (end, rechain) refl
  | inr (x, e) ↦
      rw (e, rechain) (rw (none_home x) (rechain_same values fuel hmask node n x none_home))
]

nil_not_str : (k : TValue) → tvisnil k ≡ true → is_str k ≡ false
nil_not_str nil e = refl
nil_not_str _ e = cc

module _ (values : Values) (t : GcTab) (key : TValue) (w : IsChained values t)
    (new : IsNew values t key) (n f p : ℕ) (at_home : hashkey values t.hmask key ≡ n)
    (away : hashkey values t.hmask (t.node n).key == n ≡ false)
    (some_n : tvisnil (t.node n).key ≡ false) (below : f < t.freetop)
    (no_key : tvisnil (t.node f).key ≡ true) (link_p : (t.node p).next ≡ some n) where
  -- The nodes before the chain is looked through.
  abbrev apart_nodes : ℕ → Node
  apart_nodes =
      let linked = set_next t.node p (some f) in
      let copied = set_node linked f (linked n) in
      set_node copied n (record (copied n) { next = none; val = nil })

  abbrev pub moved : GcTab
  moved = record t {
    freetop = f;
    node =
        let cleared = move_out values t.hmask t.node n f p in
        set_node cleared n (record (cleared n) { key = canonical key });
  }

  n≢f : n == f ≡ false
  n≢f = ne→eqb n f (apart_keys values t w n f some_n no_key)

  f≢n : f == n ≡ false
  f≢n = eqb_flip n f n≢f

  p≢n : p == n ≡ false
  p≢n =
      ne→eqb p n
        (λ e. let falls = w.falls p n link_p in let same = ap w.rank e in absurd (omega arith))

  n≢p : n == p ≡ false
  n≢p = eqb_flip p n p≢n

  p≢f : p == f ≡ false
  p≢f = ne→eqb p f (apart_keys values t w p f (linked_key values t w p n link_p) no_key)

  f≢p : f == p ≡ false
  f≢p = eqb_flip p f p≢f

  -- No key has the main position `n`, since the key there has another one.
  no_main :
      (i : ℕ) → tvisnil (t.node i).key ≡ false → hashkey values t.hmask (t.node i).key == n ≡ false
  no_main i h = elim (Bool-cases (hashkey values t.hmask (t.node i).key == n)) [
    | inr off ↦ off
    | inl at ↦
        let same = eqb→eq _ n at in
        let own : hashkey values t.hmask (t.node n).key ≡ n = rw same at (w.home i h).1 in
        absurd (true≢false (sym (rw own (eqb_self n)) ∙ away))
  ]

  no_main_string :
      (i : ℕ) (b : Bool)
      → (is_str (t.node i).key && b && hashkey values t.hmask (t.node i).key == n) ≡ false
  no_main_string i b = elim (Bool-cases (tvisnil (t.node i).key)) [
    | inl empty ↦ let not_string = nil_not_str (t.node i).key empty in ground arith
    | inr yes_key ↦ let elsewhere = no_main i yes_key in ground arith
  ]

  apart_key : (j : ℕ) → (i : ℕ) × ((apart_nodes j).key ≡ (t.node i).key)
  apart_key j = elim (Bool-cases (j == n)) [
    | inl at ↦ (n, rw (at, n≢f, n≢p) refl)
    | inr off ↦ elim (Bool-cases (j == f)) [
      | inl at ↦ (n, rw (off, at, n≢p) refl)
      | inr off' ↦ elim (Bool-cases (j == p)) [
        | inl at ↦ (p, rw (off, off', at) refl)
        | inr off'' ↦ (j, rw (off, off', off'') refl)
      ]
    ]
  ]

  move_out_same : move_out values t.hmask t.node n f p ≡ apart_nodes
  unfolding move_out
  move_out_same =
      rechain_same values (t.hmask + 2) t.hmask apart_nodes n f (λ j.
        let (i, e) = apart_key j in rw e (no_main_string i (not (tvisnil (apart_nodes j).val))))

  moved_nodes :
      (i : ℕ)
      → moved.node i ≡ set_node apart_nodes n (record (apart_nodes n) { key = canonical key }) i
  moved_nodes i = rw move_out_same refl

  at_n :
      moved.node n
      ≡ (let new_node : Node = record { val = nil; key = canonical key; next = none } in new_node)
  at_n = moved_nodes n ∙ rw (eqb_self n) refl

  at_f : moved.node f ≡ t.node n
  at_f = moved_nodes f ∙ rw (f≢n, eqb_self f, n≢p) refl

  at_p : moved.node p ≡ (let new_node : Node = record (t.node p) { next = some f } in new_node)
  at_p = moved_nodes p ∙ rw (p≢n, p≢f, eqb_self p) refl

  at_other : (i : ℕ) → i == n ≡ false → i == f ≡ false → i == p ≡ false → moved.node i ≡ t.node i
  at_other i a b c = moved_nodes i ∙ rw (a, b, c) refl

  pub cells-IsMoved : IsMoved values t key n f p moved.node
  cells-IsMoved = record {
    at_home = at_home;
    some_n = some_n;
    below = below;
    no_key = no_key;
    link_p = link_p;
    f≢n = f≢n;
    p≢n = p≢n;
    no_main = no_main;
    at_n = at_n;
    at_f = at_f;
    at_p = at_p;
    at_other = at_other;
  }
