-- ===== src/Tab/Wellformed.antt =====
-- What holds of the hash part of a table between the operations.
use luavela.Base.{ℕ, ◌+◌, ◌≤◌, ◌≡◌, refl, sym, ap, ◌∙◌, subst, arith, ◌%◌, ◌^◌, ◌/◌, ◌*◌}
use luavela.Base.{true, false, Bool-cases, inl, inr, none, some}
use luavela.Base.{◌==◌, eqb→eq}
use luavela.Strhash.Totals.{and-le}
use luavela.Tab.{
  Values, TValue, nil, bool, num, str, other, GcTab, tvisnil, uj_obj_equal, key_hash, hashkey,
  find_key, canonical,
}
use luavela.Tab.Chain.{Chain, Falls, find-Chain, find_sound}

pub equal-sym :
    (values : Values) (a b : TValue)
    → uj_obj_equal values a b ≡ true
    → uj_obj_equal values b a ≡ true
unfolding uj_obj_equal
equal-sym values nil nil e = refl
equal-sym values (bool a) (bool b) e = ground arith
equal-sym values (num a) (num b) e = values.num_eq_sym a b e
equal-sym values (str a) (str b) e = ground arith
equal-sym values (other t a) (other u b) e = ground arith
equal-sym values _ _ e = cc

pub equal_trans :
    (values : Values) (a b c : TValue)
    → uj_obj_equal values a b ≡ true
    → uj_obj_equal values b c ≡ true
    → uj_obj_equal values a c ≡ true
unfolding uj_obj_equal
equal_trans values nil nil c e f = f
equal_trans values (bool a) (bool b) (bool c) e f = ground arith
equal_trans values (num a) (num b) (num c) e f = values.num_eq_trans a b c e f
equal_trans values (str a) (str b) (str c) e f = ground arith
equal_trans values (other t a) (other u b) (other v c) e f = ground arith
equal_trans values _ _ _ e f = cc

-- Equal keys have the same hash: it leaves the sign of a number out.
pub key_hash-equal :
    (values : Values) (a b : TValue)
    → uj_obj_equal values a b ≡ true
    → key_hash values a ≡ key_hash values b
unfolding uj_obj_equal key_hash
key_hash-equal values nil nil e = refl
key_hash-equal values (bool true) (bool true) e = refl
key_hash-equal values (bool false) (bool false) e = refl
key_hash-equal values (num a) (num b) e =
    let bits = values.num_eq_bits a b e in
    let lo : a % 2 ^ 32 ≡ b % 2 ^ 32 = omega arith in
    let hi : a / 2 ^ 32 * 2 % 2 ^ 32 ≡ b / 2 ^ 32 * 2 % 2 ^ 32 = omega arith in rw (lo, hi) refl
key_hash-equal values (str a) (str b) e = ap values.string_hash (eqb→eq a b e)
key_hash-equal values (other t a) (other u b) e = let same : a ≡ b = ground arith in rw same refl
key_hash-equal values _ _ e = cc

pub hashkey-equal :
    (values : Values) (hmask : ℕ) (a b : TValue)
    → uj_obj_equal values a b ≡ true
    → hashkey values hmask a ≡ hashkey values hmask b
unfolding hashkey
hashkey-equal values hmask a b e = rw (key_hash-equal values a b e) refl

pub hashkey-le : (values : Values) (hmask : ℕ) (key : TValue) → hashkey values hmask key ≤ hmask
unfolding hashkey
hashkey-le values hmask key = and-le (key_hash values key) hmask

-- A key that is equal to itself, which NaN is not, is equal to its canonical form.
pub equal-canonical :
    (values : Values) (key : TValue)
    → uj_obj_equal values key key ≡ true
    → uj_obj_equal values key (canonical key) ≡ true
unfolding uj_obj_equal
equal-canonical values nil e = refl
equal-canonical values (bool b) e = e
equal-canonical values (num n) e = elim (Bool-cases (n == 2 ^ 63)) [
  | inl zero_ ↦
      rw (zero_, eqb→eq n (2 ^ 63) zero_) (values.num_eq_sym 0 (2 ^ 63) values.num_eq_zero)
  | inr not_zero ↦ rw not_zero e
]
equal-canonical values (str s) e = e
equal-canonical values (other t p) e = e

pub equal-tvisnil :
    (values : Values) (a b : TValue) → uj_obj_equal values a b ≡ true → tvisnil a ≡ tvisnil b
unfolding uj_obj_equal
equal-tvisnil values nil nil e = refl
equal-tvisnil values (bool a) (bool b) e = refl
equal-tvisnil values (num a) (num b) e = refl
equal-tvisnil values (str a) (str b) e = refl
equal-tvisnil values (other t a) (other u b) e = refl
equal-tvisnil values _ _ e = cc

module _ (values : Values) where
  -- Every key is on the chain of its main position, in which a key of this main position stands;
  -- chains end, do not merge, and get longer only when the free pointer gets lower.
  pub record IsChained (t : GcTab) : Type 0 where
    pub rank : ℕ → ℕ
    pub top : t.freetop ≤ t.hmask + 1
    -- A table of one node is the shared one, which has no free node.
    pub shared : t.hmask ≡ 0 → t.freetop ≡ 0
    pub low : (i : ℕ) → rank i + t.freetop ≤ t.hmask + 1
    pub falls : Falls t.node rank
    pub one : (i j x : ℕ) → (t.node i).next ≡ some x → (t.node j).next ≡ some x → i ≡ j
    pub used : (i x : ℕ) → (t.node i).next ≡ some x → tvisnil (t.node x).key ≡ false
    pub unused :
        (i : ℕ) → tvisnil (t.node i).key ≡ true → ((t.node i).val ≡ nil) × ((t.node i).next ≡ none)
    pub within : (i : ℕ) → tvisnil (t.node i).key ≡ false → i ≤ t.hmask
    pub reach :
        (i : ℕ)
        → tvisnil (t.node i).key ≡ false
        → Chain t.node i (hashkey values t.hmask (t.node i).key)
    pub home :
        (i : ℕ)
        → tvisnil (t.node i).key ≡ false
        → (tvisnil (t.node (hashkey values t.hmask (t.node i).key)).key ≡ false)
          × (hashkey values t.hmask (t.node (hashkey values t.hmask (t.node i).key)).key
              ≡ hashkey values t.hmask (t.node i).key)
    pub distinct :
        (i j : ℕ)
        → tvisnil (t.node i).key ≡ false
        → uj_obj_equal values (t.node i).key (t.node j).key ≡ true
        → i ≡ j

  -- A key that is in a node is found there.
  pub find_key_complete :
      (t : GcTab) (key : TValue) (j : ℕ)
      → IsChained t
      → tvisnil key ≡ false
      → uj_obj_equal values (t.node j).key key ≡ true
      → find_key values t key ≡ some j
  unfolding find_key
  find_key_complete t key j w some_ same =
      let not_nil : tvisnil (t.node j).key ≡ false = equal-tvisnil values _ _ same ∙ some_ in
      let at = hashkey-equal values t.hmask _ _ same in
      find-Chain (λ k. uj_obj_equal values k key) t.node w.rank j w.falls same
        (λ i e.
          sym (w.distinct j i not_nil (equal_trans values _ _ _ same (equal-sym values _ _ e))))
        (t.hmask + 2) (subst (λ m. Chain t.node j m) at (w.reach j not_nil))
        (omega (arith, w.low (hashkey values t.hmask key)))

  pub find_key_sound :
      (t : GcTab) (key : TValue) (j : ℕ)
      → find_key values t key ≡ some j
      → uj_obj_equal values (t.node j).key key ≡ true
  unfolding find_key
  find_key_sound t key j e =
      find_sound (λ k. uj_obj_equal values k key) t.node (t.hmask + 2) (hashkey values t.hmask key)
        j e

  -- What is not found is in no node.
  pub find_key-none :
      (t : GcTab) (key : TValue) (j : ℕ)
      → IsChained t
      → tvisnil key ≡ false
      → find_key values t key ≡ none
      → uj_obj_equal values (t.node j).key key ≡ false
  find_key-none t key j w some_ e = elim (Bool-cases (uj_obj_equal values (t.node j).key key)) [
    | inr differs ↦ differs
    | inl same ↦ let found = find_key_complete t key j w some_ same in cc
  ]
