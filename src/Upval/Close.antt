-- ===== src/Upval/Close.antt =====
-- `uj_upval_close`: which upvalues are closed, with which values, and their colours.
use luavela.Base.{ℕ, ◌<◌, ◌≡◌, refl, sym, ap, ◌∙◌, arith, ◌⊎◌, inl, inr}
use luavela.Base.{
  Bool, true, false, not, ◌&&◌, ◌||◌, Bool-cases, List, [], ◌∷◌, leb, leb→lt, lt→leb, ◌==◌,
  if◌then◌else◌, All,
}
use luavela.Base.{bit_and, bit_or}
use luavela.Base.Bits.{all_below, all_below_sound}
use luavela.Upval.{Upval, Closed, Closing, isdead, isgray, gray2black, makewhite, lj_gc_closeuv}
use luavela.Upval.{
  uj_upval_free, close_from, uj_upval_close, upval_unlink, gcs_propagate, gcs_atomic,
}
use luavela.Upval.Find.{IsSorted, All-below}

-- The open upvalues below a level.
abbrev pub below_level : ℕ → List Upval → List Upval
below_level level [] = []
below_level level (uv ∷ rest) =
    let later = below_level level rest in if leb level uv.slot then later else uv ∷ later

-- The upvalues from a level on that pass a test, put before others, the last one first.
abbrev pub collect {ℓ} :
    {A : Type ℓ} → (Upval → Bool) → (Upval → A) → ℕ → List Upval → List A → List A
collect test f level [] acc = acc
collect test f level (uv ∷ rest) acc =
    collect test f level rest (if leb level uv.slot && test uv then f uv ∷ acc else acc)

below-All : (level : ℕ) (l : List Upval) → All (λ u. u.slot < level) l → below_level level l ≡ l
below-All level [] h = refl
below-All level (uv ∷ rest) h = rw (lt→leb level uv.slot h.0, below-All level rest h.1) refl

collect_none {ℓ} :
    {A : Type ℓ} (test : Upval → Bool) (f : Upval → A) (level : ℕ) (l : List Upval) (acc : List A)
    → All (λ u. u.slot < level) l
    → collect test f level l acc ≡ acc
collect_none test f level [] acc h = refl
collect_none test f level (uv ∷ rest) acc h =
    rw (lt→leb level uv.slot h.0) (collect_none test f level rest acc h.1)

black_table : all_below (λ m. not (bit_and (bit_or m 4) 7 == 0)) 256 ≡ true
unfolding all_below
black_table = refl

white_table :
    all_below
      (λ m.
        not (bit_and (bit_or (bit_and m 0xf8) 1) 7 == 0)
        && not (bit_and (bit_or (bit_and m 0xf8) 2) 7 == 0))
      256
    ≡ true
unfolding all_below
white_table = refl

not_lem : (b : Bool) → not b ≡ true → b ≡ false
not_lem b h = ground arith

both_lem : (a b : Bool) → a && b ≡ true → (a ≡ true) × (b ≡ true)
both_lem a b h = ground arith

blackened : (uv : Upval) → uv.marked < 256 → isgray (gray2black uv) ≡ false
blackened uv small = not_lem _ (all_below_sound _ 256 uv.marked black_table small)

whitened :
    (uv : Upval) (currentwhite : ℕ)
    → uv.marked < 256
    → (currentwhite ≡ 1) ⊎ (currentwhite ≡ 2)
    → isgray (makewhite currentwhite uv) ≡ false
whitened uv w small (inl e) =
    rw e (not_lem _ (both_lem _ _ (all_below_sound _ 256 uv.marked white_table small)).0)
whitened uv w small (inr e) =
    rw e (not_lem _ (both_lem _ _ (all_below_sound _ 256 uv.marked white_table small)).1)

module _ (V : Type 0) (tviswhite : V → Bool) (stack : ℕ → V) (currentwhite gc_state : ℕ) where
  -- A closed upvalue as its own name and value.
  abbrev pub values : List (Closed V) → List (ℕ × V)
  values [] = []
  values (c ∷ cs) = (c.uv.id, c.tv) ∷ values cs

  abbrev pub alive : Upval → Bool
  alive uv = not (isdead currentwhite uv)

  -- What closing from `level` makes of `l` and `before`.
  pub record Closes (level : ℕ) (l : List Upval) (before after : Closing V) : Type 0 where
    pub stay : after.openupval ≡ below_level level l
    pub kept :
        values after.root
        ≡ collect alive (λ uv. (uv.id, stack uv.slot)) level l (values before.root)
    pub given_back : after.freed ≡ collect (isdead currentwhite) (λ uv. uv.id) level l before.freed

  closeuv_values :
      (uv : Upval) (c : Closing V)
      → let c' = lj_gc_closeuv V tviswhite stack currentwhite gc_state uv c in
        (values c'.root ≡ (uv.id, stack uv.slot) ∷ values c.root) × (c'.freed ≡ c.freed)
  unfolding lj_gc_closeuv
  closeuv_values uv c = elim (Bool-cases (isgray uv)) [
    | inr e ↦ (rw e refl, refl)
    | inl e ↦ elim (Bool-cases (gc_state == gcs_propagate || gc_state == gcs_atomic)) [
      | inl m ↦ (rw (e, m) refl, refl)
      | inr m ↦ (rw (e, m) refl, refl)
    ]
  ]

  close_from_lem :
      (level : ℕ) (l : List Upval) (c : Closing V)
      → IsSorted l
      → Closes level l c (close_from V tviswhite stack currentwhite gc_state level l c)
  unfolding close_from uj_upval_free
  close_from_lem level [] c sorted = record { stay = refl; kept = refl; given_back = refl }
  close_from_lem level (uv ∷ rest) c sorted =
      let dead = uj_upval_free V tviswhite stack currentwhite gc_state uv c in
      let unlinked : Closing V = record c { uvhead = upval_unlink uv.id c.uvhead } in
      let closed = lj_gc_closeuv V tviswhite stack currentwhite gc_state uv unlinked in
      elim (Bool-cases (leb level uv.slot)) [
        | inr under ↦
            let lt = leb→lt level uv.slot under in
            let others = All-below uv.slot level rest (omega arith) sorted.0 in
            rw under record {
              stay = rw under (ap (λ t. uv ∷ t) (sym (below-All level rest others)));
              kept =
                  rw under
                    (sym (collect_none alive (λ u. (u.id, stack u.slot)) level rest _ others));
              given_back =
                  rw under
                    (sym (collect_none (isdead currentwhite) (λ u. u.id) level rest _ others));
            }
        | inl over ↦ elim (Bool-cases (isdead currentwhite uv)) [
          | inl gone ↦
              let ih = close_from_lem level rest dead sorted.1 in
              rw (over, gone)
                record {
                  stay = rw over ih.stay;
                  kept = rw (over, gone) ih.kept;
                  given_back = rw (over, gone) ih.given_back;
                }
          | inr lives ↦
              let ih = close_from_lem level rest closed sorted.1 in
              let (root, freed) = closeuv_values uv unlinked in
              rw (over, lives)
                record {
                  stay = rw over ih.stay;
                  kept =
                      rw (over, lives)
                        (ih.kept ∙ ap (collect alive (λ u. (u.id, stack u.slot)) level rest) root);
                  given_back =
                      rw (over, lives)
                        (ih.given_back
                          ∙ ap (collect (isdead currentwhite) (λ u. u.id) level rest) freed);
                }
        ]
      ]

  -- A closed upvalue is never gray.
  abbrev pub NoneGray : List (Closed V) → Type 0
  NoneGray cs = All (λ c. isgray c.uv ≡ false) cs

  closeuv-NoneGray :
      (uv : Upval) (c : Closing V)
      → uv.marked < 256
      → (currentwhite ≡ 1) ⊎ (currentwhite ≡ 2)
      → NoneGray c.root
      → NoneGray (lj_gc_closeuv V tviswhite stack currentwhite gc_state uv c).root
  unfolding lj_gc_closeuv
  closeuv-NoneGray uv c small white h = elim (Bool-cases (isgray uv)) [
    | inr e ↦ rw e (e, h)
    | inl e ↦ elim (Bool-cases (gc_state == gcs_propagate || gc_state == gcs_atomic)) [
      | inl m ↦ rw (e, m) (blackened uv small, h)
      | inr m ↦ rw (e, m) (whitened uv currentwhite small white, h)
    ]
  ]

  close_from-NoneGray :
      (level : ℕ) (l : List Upval) (c : Closing V)
      → All (λ u. u.marked < 256) l
      → (currentwhite ≡ 1) ⊎ (currentwhite ≡ 2)
      → NoneGray c.root
      → NoneGray (close_from V tviswhite stack currentwhite gc_state level l c).root
  unfolding close_from uj_upval_free
  close_from-NoneGray level [] c small white h = h
  close_from-NoneGray level (uv ∷ rest) c small white h =
      let unlinked : Closing V = record c { uvhead = upval_unlink uv.id c.uvhead } in
      let closed = lj_gc_closeuv V tviswhite stack currentwhite gc_state uv unlinked in
      elim (Bool-cases (leb level uv.slot)) [
        | inr under ↦ rw under h
        | inl over ↦ elim (Bool-cases (isdead currentwhite uv)) [
          | inl gone ↦ rw (over, gone) (close_from-NoneGray level rest _ small.1 white h)
          | inr lives ↦
              rw (over, lives)
                (close_from-NoneGray level rest closed small.1 white
                  (closeuv-NoneGray uv unlinked small.0 white h))
        ]
      ]

  -- `uj_upval_close` on a sorted list leaves open exactly the upvalues below the level, in their
  -- order. Of the others it frees the dead ones, and closes each of the rest, from the topmost slot
  -- down, with the value that its slot of the stack has.
  pub uj_upval_close-Closes :
      (level : ℕ) (c : Closing V)
      → IsSorted c.openupval
      → Closes level c.openupval c (uj_upval_close V tviswhite stack currentwhite gc_state level c)
  unfolding uj_upval_close
  uj_upval_close-Closes level c sorted = close_from_lem level c.openupval c sorted

  -- Where no closed upvalue is gray, none is after `uj_upval_close`, in every state of the
  -- collector: those that it closes while gray turn black during marking and white otherwise.
  pub uj_upval_close-NoneGray :
      (level : ℕ) (c : Closing V)
      → All (λ u. u.marked < 256) c.openupval
      → (currentwhite ≡ 1) ⊎ (currentwhite ≡ 2)
      → NoneGray c.root
      → NoneGray (uj_upval_close V tviswhite stack currentwhite gc_state level c).root
  unfolding uj_upval_close
  uj_upval_close-NoneGray level c small white h =
      close_from-NoneGray level c.openupval c small white h
