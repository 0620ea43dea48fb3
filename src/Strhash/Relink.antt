-- ===== src/Strhash/Relink.antt =====
-- Moving the sealed strings from the regular table to the sealed one.
use luavela.Base.{ℕ, zero, suc, ◌+◌, ◌-◌, ◌≤◌, ◌≡◌, refl, sym, ap, ◌∙◌, subst, arith}
use luavela.Base.{Bool, true, false, not, Bool-cases, inl, inr, List, [], ◌∷◌}
use luavela.Base.{length, get_or}
use luavela.Strhash.{GcStr, StrHash, GcState, Relinked, uj_obj_is_sealed, uj_strhash_add}
use luavela.Strhash.{strhash_relink_bucket, relink_all, uj_strhash_relink, any_in, any_in_table}
use luavela.Strhash.{strhash_check_sealed}
use luavela.Strhash.Totals.{one_if, passing, total}
use luavela.Strhash.Resize.{ChainAt, IsPlaced, IsValid, uj_strhash_add-IsValid}

module _ (hashf : List ℕ → ℕ) (marks : ℕ → ℕ) (state : GcState) where
  abbrev sealed_in : GcStr → Bool
  sealed_in = uj_obj_is_sealed marks

  abbrev unsealed_in : GcStr → Bool
  unsealed_in o = not (sealed_in o)

  -- What relinking one chain does.
  record Moves (mask i : ℕ) (c : List GcStr) (sealed : StrHash) (r : Relinked) : Type 0 where
    valid : IsValid hashf r.sealed
    kept : ChainAt hashf mask i r.kept
    totals :
        (p : GcStr → Bool)
        → passing p r.kept + total p r.sealed.hash ≡ passing p c + total p sealed.hash
    evicted : r.evicted + passing (λ _. true) r.kept ≡ passing (λ _. true) c
    pure : passing sealed_in r.kept ≡ 0
    target : total unsealed_in r.sealed.hash ≡ total unsealed_in sealed.hash

  relink_bucket-Moves :
      (mask i : ℕ) (c : List GcStr) (sealed : StrHash)
      → ChainAt hashf mask i c
      → IsValid hashf sealed
      → Moves mask i c sealed (strhash_relink_bucket marks state c sealed)
  unfolding strhash_relink_bucket passing
  relink_bucket-Moves mask i [] sealed at v = record {
    valid = v;
    kept = tt;
    totals = λ p. refl;
    evicted = refl;
    pure = refl;
    target = refl;
  }
  relink_bucket-Moves mask i (o ∷ next) sealed at v =
      let (valid, totals, _) = uj_strhash_add-IsValid hashf state o sealed v at.0.1 in
      let moved = relink_bucket-Moves mask i next (uj_strhash_add state o sealed) at.1 valid in
      let passed = relink_bucket-Moves mask i next sealed at.1 v in
      elim (Bool-cases (sealed_in o)) [
        | inl evict ↦ rw evict (record {
          valid = moved.valid;
          kept = moved.kept;
          totals = λ p. omega (arith, moved.totals p, totals p);
          evicted = omega (arith, moved.evicted);
          pure = moved.pure;
          target = omega (arith, moved.target, totals unsealed_in, ap (λ b. one_if (not b)) evict);
        })
        | inr stays ↦ rw stays (record {
          valid = passed.valid;
          kept = (at.0, passed.kept);
          totals = λ p. omega (arith, passed.totals p);
          evicted = omega (arith, passed.evicted);
          pure = omega (arith, passed.pure, ap one_if stays);
          target = passed.target;
        })
      ]

  -- What relinking the chains from index `from` on does; `left` is the count before.
  record MovesAll (mask from : ℕ) (hash : List (List GcStr)) (left : ℕ) (sealed : StrHash)
      (r : List (List GcStr) × ℕ × StrHash) : Type 0 where
    valid : IsValid hashf r.2
    width : length r.0 ≡ length hash
    placed : (i : ℕ) → ChainAt hashf mask (from + i) (get_or r.0 i [])
    totals :
        (p : GcStr → Bool) → total p r.0 + total p r.2.hash ≡ total p hash + total p sealed.hash
    counted : r.1 + total (λ _. true) hash ≡ left + total (λ _. true) r.0
    pure : total sealed_in r.0 ≡ 0
    target : total unsealed_in r.2.hash ≡ total unsealed_in sealed.hash

  place :
      (mask from i : ℕ) (d : List GcStr) (ds : List (List GcStr))
      → ChainAt hashf mask from d
      → ((j : ℕ) → ChainAt hashf mask (suc from + j) (get_or ds j []))
      → ChainAt hashf mask (from + i) (get_or (d ∷ ds) i [])
  place mask from zero d ds here later =
      let e : from + 0 ≡ from = omega arith in subst (λ n. ChainAt hashf mask n d) (sym e) here
  place mask from (suc i) d ds here later =
      let e : from + suc i ≡ suc from + i = omega arith in
      subst (λ n. ChainAt hashf mask n (get_or ds i [])) (sym e) (later i)

  place_rest :
      (mask from : ℕ) (d : List GcStr) (ds : List (List GcStr))
      → ((j : ℕ) → ChainAt hashf mask (from + j) (get_or (d ∷ ds) j []))
      → (j : ℕ) → ChainAt hashf mask (suc from + j) (get_or ds j [])
  place_rest mask from d ds at j =
      let e : from + suc j ≡ suc from + j = omega arith in
      subst (λ n. ChainAt hashf mask n (get_or ds j [])) e (at (suc j))

  relink_all-MovesAll :
      (mask from : ℕ) (hash : List (List GcStr)) (left : ℕ) (sealed : StrHash)
      → ((i : ℕ) → ChainAt hashf mask (from + i) (get_or hash i []))
      → total (λ _. true) hash ≤ left
      → IsValid hashf sealed
      → MovesAll mask from hash left sealed (relink_all marks state hash left sealed)
  unfolding relink_all total
  relink_all-MovesAll mask from [] left sealed at enough v = record {
    valid = v;
    width = refl;
    placed = λ i. tt;
    totals = λ p. refl;
    counted = omega arith;
    pure = refl;
    target = refl;
  }
  relink_all-MovesAll mask from (c ∷ hash) left sealed at enough v =
      let here : from + 0 ≡ from = omega arith in
      let one = relink_bucket-Moves mask from c sealed (rw here at (at 0)) v in
      let r = strhash_relink_bucket marks state c sealed in
      let rest =
        relink_all-MovesAll mask (suc from) hash (left - r.evicted) r.sealed
          (place_rest mask from c hash at) (omega (arith, one.evicted)) one.valid in
      record {
        valid = rest.valid;
        width = ap suc rest.width;
        placed = λ i. place mask from i r.kept _ one.kept rest.placed;
        totals = λ p. omega (arith, one.totals p, rest.totals p);
        counted = omega (arith, one.evicted, rest.counted);
        pure = omega (arith, one.pure, rest.pure);
        target = rest.target ∙ one.target;
      }

  from_zero :
      (mask : ℕ) (hash : List (List GcStr))
      → IsPlaced hashf mask hash
      → (i : ℕ) → ChainAt hashf mask (0 + i) (get_or hash i [])
  from_zero mask hash placed i = let e : 0 + i ≡ i = omega arith in rw e (placed i)

  any_in-passing : (p : GcStr → Bool) (c : List GcStr) → passing p c ≡ 0 → any_in p c ≡ false
  unfolding any_in passing
  any_in-passing p [] h = refl
  any_in-passing p (s ∷ c) h = ground (arith, any_in-passing p c)

  any_in_table-total :
      (p : GcStr → Bool) (hash : List (List GcStr)) → total p hash ≡ 0 → any_in_table p hash ≡ false
  unfolding any_in_table total
  any_in_table-total p [] h = refl
  any_in_table-total p (c ∷ hash) h =
      rw (any_in-passing p c (omega arith)) (any_in_table-total p hash (omega arith))

  -- If the sealed table holds sealed strings only, relinking leaves two valid tables that hold
  -- the same strings together as before, and that pass the debug build's check.
  pub uj_strhash_relink_lem :
      (h sealed : StrHash)
      → IsValid hashf h
      → IsValid hashf sealed
      → total unsealed_in sealed.hash ≡ 0
      → let r = uj_strhash_relink marks state h sealed in
        IsValid hashf r.0
        × IsValid hashf r.1
        × ((p : GcStr → Bool)
            → total p r.0.hash + total p r.1.hash ≡ total p h.hash + total p sealed.hash)
        × (strhash_check_sealed marks r.0 r.1 ≡ 0)
  unfolding uj_strhash_relink strhash_check_sealed
  uj_strhash_relink_lem h sealed v vs only =
      let start = from_zero h.mask h.hash v.placed in
      let all =
        relink_all-MovesAll h.mask 0 h.hash h.count sealed start (omega (arith, v.counted)) vs in
      (
        record {
          bits = v.bits;
          small = v.small;
          large = v.large;
          size = v.size;
          width = all.width ∙ v.width;
          placed = λ i. let e : 0 + i ≡ i = omega arith in rw e at (all.placed i);
          counted = omega (arith, all.counted, v.counted);
        },
        all.valid,
        all.totals,
        rw (
          any_in_table-total sealed_in _ all.pure,
          any_in_table-total unsealed_in _ (all.target ∙ only),
        ),
      )
