-- ===== src/Upval/Find.antt =====
-- `uj_upval_find`: one open upvalue per slot.
use luavela.Base.{ℕ, ◌<◌, ◌≤◌, ◌≡◌, ◌≢◌, refl, sym, ap, ◌∙◌, arith, ◌⊎◌, inl, inr}
use luavela.Base.{
  true, false, Bool-cases, List, [], ◌∷◌, leb, leb→le, leb→lt, ◌==◌, eqb→eq, if◌then◌else◌, All,
}
use luavela.Base.{Option, none, some}
use luavela.Upval.{upval_new_open, Upval, Found, Lists, isdead, flipwhite, find_from, uj_upval_find}

-- The slots go down from one element to the next.
abbrev pub IsSorted : List Upval → Type 0
IsSorted [] = Unit
IsSorted (uv ∷ rest) = All (λ u. u.slot < uv.slot) rest × IsSorted rest

-- The upvalue of each slot, by `id`.
abbrev pub at_slot : ℕ → List Upval → Option ℕ
at_slot slot [] = none
at_slot slot (uv ∷ rest) =
    let later = at_slot slot rest in if uv.slot == slot then some uv.id else later

above_none : (slot : ℕ) (l : List Upval) → All (λ u. u.slot < slot) l → at_slot slot l ≡ none
above_none slot [] h = refl
above_none slot (uv ∷ rest) h = ground (arith, above_none slot rest h.1)

pub All-below :
    (m n : ℕ) (l : List Upval) → m ≤ n → All (λ u. u.slot < m) l → All (λ u. u.slot < n) l
All-below m n [] le h = tt
All-below m n (uv ∷ rest) le h = (omega (arith, h.0), All-below m n rest le h.1)

-- What `uj_upval_find` promises of a list: it stays sorted, the upvalue is the one of the slot,
-- the one that was there if there was one, and the other slots keep theirs.
pub record FindsOne (slot new : ℕ) (before : List Upval) (f : Found) : Type 0 where
  pub sorted : IsSorted f.openupval
  pub points : f.uv.slot ≡ slot
  pub here : at_slot slot f.openupval ≡ some f.uv.id
  pub others : (s : ℕ) → s ≢ slot → at_slot s f.openupval ≡ at_slot s before
  pub shared :
      ((f.made ≡ false) × (at_slot slot before ≡ some f.uv.id))
      ⊎ ((f.made ≡ true) × (at_slot slot before ≡ none) × (f.uv.id ≡ new))
  pub bounded :
      (m : ℕ) → slot < m → All (λ u. u.slot < m) before → All (λ u. u.slot < m) f.openupval

made_lem :
    (slot : ℕ) (fresh : Upval) (l : List Upval)
    → fresh.slot ≡ slot
    → IsSorted l
    → All (λ u. u.slot < slot) l
    → FindsOne slot fresh.id l record { uv = fresh; made = true; openupval = fresh ∷ l }
made_lem slot fresh l e sorted above = record {
  sorted = (All-below slot fresh.slot l (omega (arith, e)) above, sorted);
  points = e;
  here = ground (arith, e);
  others = λ s far. ground (arith, e, far);
  shared = inr (refl, above_none slot l above, refl);
  bounded = λ m lt all. (omega (arith, e, lt), all);
}

reused_lem :
    (slot new : ℕ) (uv uv' : Upval) (rest : List Upval)
    → uv'.slot ≡ uv.slot
    → uv'.id ≡ uv.id
    → uv.slot ≡ slot
    → IsSorted (uv ∷ rest)
    → FindsOne slot new (uv ∷ rest) record { uv = uv'; made = false; openupval = uv' ∷ rest }
reused_lem slot new uv uv' rest e e' same sorted = record {
  sorted = (All-below uv.slot uv'.slot rest (omega (arith, e)) sorted.0, sorted.1);
  points = e ∙ same;
  here = ground (arith, e, same);
  others = λ s far. ground (arith, e, same, far);
  shared = inl (refl, ground (arith, same, e'));
  bounded = λ m lt all. (omega (arith, e, same, lt), all.1);
}

skipped_lem :
    (slot new : ℕ) (uv : Upval) (rest : List Upval) (f : Found)
    → slot < uv.slot
    → IsSorted (uv ∷ rest)
    → FindsOne slot new rest f
    → FindsOne slot new (uv ∷ rest) (record f { openupval = uv ∷ f.openupval })
skipped_lem slot new uv rest f lt sorted g =
    let far : uv.slot == slot ≡ false = ground arith in
    record {
      sorted = (g.bounded uv.slot lt sorted.0, g.sorted);
      points = g.points;
      here = rw far g.here;
      others = λ s other. ap (λ o. if uv.slot == s then some uv.id else o) (g.others s other);
      shared = rw far g.shared;
      bounded = λ m lt' all. (all.0, g.bounded m lt' all.1);
    }

found_lem :
    (currentwhite slot : ℕ) (fresh : Upval) (l : List Upval)
    → fresh.slot ≡ slot
    → IsSorted l
    → FindsOne slot fresh.id l (find_from currentwhite slot fresh l)
unfolding find_from
found_lem currentwhite slot fresh [] e sorted = made_lem slot fresh [] e sorted tt
found_lem currentwhite slot fresh (uv ∷ rest) e sorted = elim (Bool-cases (leb slot uv.slot)) [
  | inr above ↦
      let lt = leb→lt slot uv.slot above in
      rw above (
        made_lem slot fresh (uv ∷ rest) e sorted
          (lt, All-below uv.slot slot rest (omega arith) sorted.0))
  | inl below ↦ elim (Bool-cases (uv.slot == slot)) [
    | inl same ↦ elim (Bool-cases (isdead currentwhite uv)) [
      | inl dead ↦
          rw (below, same, dead)
            (reused_lem slot fresh.id uv (flipwhite uv) rest refl refl (eqb→eq _ _ same) sorted)
      | inr alive ↦
          rw (below, same, alive)
            (reused_lem slot fresh.id uv uv rest refl refl (eqb→eq _ _ same) sorted)
    ]
    | inr other ↦
        let le = leb→le slot uv.slot below in
        let lt : slot < uv.slot = ground arith in
        rw (below, other)
          (skipped_lem slot fresh.id uv rest _ lt sorted
            (found_lem currentwhite slot fresh rest e sorted.1))
  ]
]

some-inj : (a b : ℕ) → some a ≡ some b → a ≡ b
some-inj a b h = cc

some≢none : (a : ℕ) → some a ≢ none
some≢none a h = cc

-- On a sorted list of open upvalues `uj_upval_find` answers the upvalue of the slot: the one that
-- is in the list if there is one, so that closures share it, and else the new one, which then is
-- put before the others of `uvhead`. The list stays sorted, the other slots keep their upvalues,
-- and the next call for this slot answers the same upvalue.
pub uj_upval_find-FindsOne :
    (currentwhite id slot : ℕ) (l : Lists)
    → IsSorted l.openupval
    → let r = uj_upval_find currentwhite id slot l in
      IsSorted r.1.openupval
      × (r.0.slot ≡ slot)
      × (((at_slot slot l.openupval ≡ some r.0.id) × (r.1.uvhead ≡ l.uvhead))
          ⊎ ((at_slot slot l.openupval ≡ none) × (r.0.id ≡ id) × (r.1.uvhead ≡ id ∷ l.uvhead)))
      × ((s : ℕ) → s ≢ slot → at_slot s r.1.openupval ≡ at_slot s l.openupval)
      × ((id' : ℕ) → (uj_upval_find currentwhite id' slot r.1).0.id ≡ r.0.id)
unfolding uj_upval_find upval_new_open
uj_upval_find-FindsOne currentwhite id slot l sorted =
    let first =
      found_lem currentwhite slot (upval_new_open currentwhite id slot) l.openupval refl sorted in
    (
      first.sorted,
      first.points,
      elim first.shared [
        | inl (old, there) ↦ inl (there, rw old refl)
        | inr (new, absent, is) ↦ inr (absent, is, rw new (ap (λ i. i ∷ l.uvhead) is))
      ],
      first.others,
      λ id'.
          let second =
            found_lem currentwhite slot (upval_new_open currentwhite id' slot) _ refl
              first.sorted in
          elim second.shared [
            | inl (_, there) ↦ some-inj _ _ (sym there ∙ first.here)
            | inr (_, absent, _) ↦ absurd (some≢none _ (sym first.here ∙ absent))
          ],
    )
