-- ===== src/Tab/Moved.antt =====
-- The table in which a key of another chain moved from the new key's main position to a free node.
use luavela.Base.{ℕ, ◌+◌, ◌≤◌, ◌≡◌, refl, sym, ap, ◌∙◌, subst, arith}
use luavela.Base.{true, false, Bool-cases, inl, inr, ◌⊎◌, Option, none, some, true≢false}
use luavela.Base.{◌==◌, eqb→eq, eqb_self, ne→eqb, if◌then◌else◌}
use luavela.Tab.{Values, TValue, nil, Node, GcTab, tvisnil, hashkey, canonical}
use luavela.Tab.Chain.{here, step, Falls}
use luavela.Tab.Wellformed.{IsChained}
use luavela.Tab.Fresh.{IsNew, canonical-tvisnil, canonical-hashkey}
use luavela.Tab.Grown.{Grown, ComesFrom, IsLinked}
use luavela.Tab.Free.{apart_keys, linked_key}
use luavela.Tab.Move.{IsMoved}

module _ (values : Values) (t : GcTab) (key : TValue) (w : IsChained values t)
    (new : IsNew values t key) (n f p : ℕ) (cells : ℕ → Node)
    (m : IsMoved values t key n f p cells) where
  abbrev moved : GcTab
  moved = record t { freetop = f; node = cells }

  -- Where the nodes went.
  abbrev to : ℕ → ℕ
  to i = if i == n then f else i

  not_f : (i : ℕ) → tvisnil (t.node i).key ≡ false → i == f ≡ false
  not_f i h = ne→eqb i f (apart_keys values t w i f h m.no_key)

  key_kept : (i : ℕ) → i == n ≡ false → i == f ≡ false → (moved.node i).key ≡ (t.node i).key
  key_kept i off off' = elim (Bool-cases (i == p)) [
    | inl at ↦ let same = eqb→eq i p at in rw same (ap (λ v. v.key) m.at_p)
    | inr off'' ↦ ap (λ v. v.key) (m.at_other i off off' off'')
  ]

  val_kept : (i : ℕ) → i == n ≡ false → i == f ≡ false → (moved.node i).val ≡ (t.node i).val
  val_kept i off off' = elim (Bool-cases (i == p)) [
    | inl at ↦ let same = eqb→eq i p at in rw same (ap (λ v. v.val) m.at_p)
    | inr off'' ↦ ap (λ v. v.val) (m.at_other i off off' off'')
  ]

  key_n : (moved.node n).key ≡ canonical key
  key_n = ap (λ v. v.key) m.at_n

  some_key_n : tvisnil (moved.node n).key ≡ false
  some_key_n = ap tvisnil key_n ∙ canonical-tvisnil values t key w new

  from_moved : (i : ℕ) → tvisnil (t.node i).key ≡ false → ComesFrom values t moved key to n (to i) i
  from_moved i h = elim (Bool-cases (i == n)) [
    | inl at ↦
        let here_n = eqb→eq i n at in
        let went : to i ≡ f = rw at refl in
        record {
          moved = refl;
          apart = λ e. true≢false (sym (rw (sym went ∙ e) (eqb_self n)) ∙ m.f≢n);
          same_key = rw (went, here_n) (ap (λ v. v.key) m.at_f);
          same_val = rw (went, here_n) (ap (λ v. v.val) m.at_f);
        }
    | inr off ↦
        let stays : to i ≡ i = rw off refl in
        record {
          moved = refl;
          apart = λ e. true≢false (sym (rw (sym stays ∙ e) (eqb_self n)) ∙ off);
          same_key = rw stays (key_kept i off (not_f i h));
          same_val = rw stays (val_kept i off (not_f i h));
        }
  ]

  moved_origin :
      (j : ℕ)
      → tvisnil (moved.node j).key ≡ false
      → (j ≡ n) ⊎ ((i : ℕ) × ComesFrom values t moved key to n j i)
  moved_origin j h = elim (Bool-cases (j == n)) [
    | inl at ↦ inl (eqb→eq j n at)
    | inr off ↦ elim (Bool-cases (j == f)) [
      | inl at ↦
          let from : j ≡ to n = rw (eqb_self n) (eqb→eq j f at) in
          inr (
            n,
            subst (λ k. ComesFrom values t moved key to n k n) (sym from) (from_moved n m.some_n),
          )
      | inr off' ↦
          let from : j ≡ to j = rw off refl in
          let old = sym (ap tvisnil (key_kept j off off')) ∙ h in
          inr (j, subst (λ k. ComesFrom values t moved key to n k j) (sym from) (from_moved j old))
    ]
  ]

  -- Each link is there between the nodes' new places.
  moved_link : (i x : ℕ) → (t.node i).next ≡ some x → (moved.node (to i)).next ≡ some (to x)
  moved_link i x e = elim (Bool-cases (x == n)) [
    | inl at ↦
        let is_p : i ≡ p =
          w.one i p n (e ∙ ap (λ k. let o : Option ℕ = some k in o) (eqb→eq x n at)) m.link_p in
        let stays : to i ≡ p = rw (is_p, m.p≢n) refl in rw (stays, at) (ap (λ v. v.next) m.at_p)
    | inr off ↦ elim (Bool-cases (i == n)) [
      | inl is_n ↦
          let went : to i ≡ f = rw is_n refl in
          rw (went, off)
            (ap (λ v. v.next) m.at_f ∙ sym (ap (λ k. (t.node k).next) (eqb→eq i n is_n)) ∙ e)
      | inr not_n ↦
          let stays : to i ≡ i = rw not_n refl in
          let not_p = ne→eqb i p (λ is_p.
            let end : some x ≡ some n = sym e ∙ ap (λ k. (t.node k).next) is_p ∙ m.link_p in
            true≢false (sym (eqb_self n) ∙ rw (let same : x ≡ n = cc in same) at off)) in
          rw (stays, off)
            (ap (λ v. v.next) (m.at_other i not_n (not_f i (linked_key values t w i x e)) not_p)
              ∙ e)
    ]
  ]

  pub moved-Grown : Grown values t moved key
  moved-Grown = record {
    to = to;
    slot = n;
    same_mask = refl;
    slot_key = key_n;
    slot_reach = rw m.at_home here;
    slot_home =
        let hash : hashkey values t.hmask (canonical key) ≡ n =
          canonical-hashkey values t key w new t.hmask ∙ m.at_home in
        rw m.at_home (some_key_n, ap (hashkey values t.hmask) key_n ∙ hash);
    origin = moved_origin;
    kept = λ i h. inl (from_moved i h);
    links = λ i x e. step (to x) (moved_link i x e) here;
    main_fixed = λ i h. rw (m.no_main i h) refl;
  }

  -- Each link of the new table is one of these.
  moved_back :
      (i x : ℕ)
      → (moved.node i).next ≡ some x
      → (i' x' : ℕ) × ((t.node i').next ≡ some x') × (i ≡ to i') × (x ≡ to x')
  moved_back i x e = elim (Bool-cases (i == n)) [
    | inl at ↦
        let nothing : (moved.node i).next ≡ none = rw (eqb→eq i n at) (ap (λ v. v.next) m.at_n) in
        cc
    | inr off ↦ elim (Bool-cases (i == f)) [
      | inl at ↦
          let is_f = eqb→eq i f at in
          let link : (t.node n).next ≡ some x =
            sym (ap (λ v. v.next) m.at_f) ∙ sym (ap (λ k. (moved.node k).next) is_f) ∙ e in
          (n, x, link, rw (eqb_self n) is_f, rw (lower_not_n n x link) refl)
      | inr off' ↦ elim (Bool-cases (i == p)) [
        | inl at ↦
            let is_p = eqb→eq i p at in
            let link : some f ≡ some x =
              sym (ap (λ v. v.next) m.at_p) ∙ sym (ap (λ k. (moved.node k).next) is_p) ∙ e in
            let same : x ≡ f = cc in (p, n, m.link_p, rw m.p≢n is_p, rw (eqb_self n) same)
        | inr off'' ↦
            let link : (t.node i).next ≡ some x =
              sym (ap (λ v. v.next) (m.at_other i off off' off'')) ∙ e in
            (i, x, link, rw off refl, rw (not_p_not_n i x link off'') refl)
      ]
    ]
  ]
    where
      lower_not_n : (i x : ℕ) → (t.node n).next ≡ some x → x == n ≡ false
      lower_not_n i x link =
          ne→eqb x n
            (λ at. let falls = w.falls n x link in let same = ap w.rank at in absurd (omega arith))

      not_p_not_n : (i x : ℕ) → (t.node i).next ≡ some x → i == p ≡ false → x == n ≡ false
      not_p_not_n i x link off = ne→eqb x n (λ at.
          let is_p : i ≡ p =
            w.one i p n (link ∙ ap (λ k. let o : Option ℕ = some k in o) at) m.link_p in
          true≢false (sym (rw is_p (eqb_self p)) ∙ off))

  -- The rank goes with the node.
  unfoldable rank_at : ℕ → ℕ
  rank_at j = if j == f then w.rank n else (if j == n then 0 else w.rank j)

  rank_at-to : (i : ℕ) → i == f ≡ false → rank_at (to i) ≡ w.rank i
  unfolding rank_at
  rank_at-to i off = elim (Bool-cases (i == n)) [
    | inl at ↦ rw at (rw (eqb_self f) (ap w.rank (sym (eqb→eq i n at))))
    | inr off' ↦ rw off' (rw (off, off') refl)
  ]

  rank_at_low : (j : ℕ) → rank_at j + f ≤ t.hmask + 1
  unfolding rank_at
  rank_at_low j = let low_j = w.low j in let below = m.below in let low_n = w.low n in ground arith

  rank_at-Falls : Falls moved.node rank_at
  rank_at-Falls i x e =
      let (i', x', link, at_i, at_x) = moved_back i x e in
      let old = w.falls i' x' link in
      let rank_i : rank_at i ≡ w.rank i' =
        ap rank_at at_i ∙ rank_at-to i' (not_f i' (linked_key values t w i' x' link)) in
      let rank_x : rank_at x ≡ w.rank x' =
        ap rank_at at_x ∙ rank_at-to x' (not_f x' (w.used i' x' link)) in
      omega arith

  to_injective : (x y : ℕ) → x == f ≡ false → y == f ≡ false → to x ≡ to y → x ≡ y
  to_injective x y off off' e = ground arith

  moved_one : (i j x : ℕ) → (moved.node i).next ≡ some x → (moved.node j).next ≡ some x → i ≡ j
  moved_one i j x e e' =
      let (i', x', link, at_i, at_x) = moved_back i x e in
      let (j', y', link', at_j, at_y) = moved_back j x e' in
      let same =
        to_injective x' y' (not_f x' (w.used i' x' link)) (not_f y' (w.used j' y' link'))
          (sym at_x ∙ at_y) in
      let link_y : (t.node j').next ≡ some x' = rw same link' in
      at_i ∙ ap to (w.one i' j' x' link link_y) ∙ sym at_j

  moved_used : (i x : ℕ) → (moved.node i).next ≡ some x → tvisnil (moved.node x).key ≡ false
  moved_used i x e =
      let (i', x', link, at_i, at_x) = moved_back i x e in
      let old = w.used i' x' link in rw at_x (ap tvisnil (from_moved x' old).same_key ∙ old)

  some_f : tvisnil (moved.node f).key ≡ false
  some_f = ap (λ v. tvisnil v.key) m.at_f ∙ m.some_n

  -- A node without a key has none in the old table.
  moved_unused :
      (i : ℕ)
      → tvisnil (moved.node i).key ≡ true
      → ((moved.node i).val ≡ nil) × ((moved.node i).next ≡ none)
  moved_unused i e =
      let off = ne→eqb i n (λ at. true≢false (sym e ∙ rw at some_key_n)) in
      let off' = ne→eqb i f (λ at. true≢false (sym e ∙ rw at some_f)) in
      let old_key = sym (ap tvisnil (key_kept i off off')) ∙ e in
      let off'' =
        ne→eqb i p (λ at. true≢false (sym old_key ∙ rw at (linked_key values t w p n m.link_p))) in
      let old = w.unused i old_key in
      let same = m.at_other i off off' off'' in
      (ap (λ v. v.val) same ∙ old.0, ap (λ v. v.next) same ∙ old.1)

  moved_within : (i : ℕ) → tvisnil (moved.node i).key ≡ false → i ≤ t.hmask
  moved_within i e = elim (Bool-cases (i == n)) [
    | inl at ↦ rw (eqb→eq i n at) (w.within n m.some_n)
    | inr off ↦ elim (Bool-cases (i == f)) [
      | inl at ↦ let same = eqb→eq i f at in omega (arith, w.top, m.below)
      | inr off' ↦ w.within i (sym (ap tvisnil (key_kept i off off')) ∙ e)
    ]
  ]

  pub moved-IsLinked : IsLinked values t moved key
  moved-IsLinked = record {
    rank = rank_at;
    lowered = omega (arith, m.below);
    top = omega (arith, w.top, m.below);
    low = rank_at_low;
    falls = rank_at-Falls;
    one = moved_one;
    used = moved_used;
    unused = moved_unused;
    within = moved_within;
  }

  pub moved_slot : moved-Grown.slot ≡ n
  unfolding moved-Grown
  moved_slot = refl
