-- ===== src/Strhash/Resize.antt =====
-- The table's invariant, and that adding, growing and shrinking keep it and lose no string.
use luavela.Base.{
  ℕ, zero, suc, ◌+◌, ◌-◌, ◌*◌, ◌/◌, ◌%◌, ◌^◌, ◌≤◌, ◌<◌, ◌≡◌, refl, sym, ap, ◌∙◌, subst, arith,
}
use luavela.Base.{Bool, true, false, ◌||◌, Bool-cases, inl, inr, List, [], ◌∷◌}
use luavela.Base.{ltb, leb, le→leb, lt→leb, length, get_or, set, replicate, take, All}
use luavela.Base.{length-set, length-replicate}
use native.Mathlib.Decide.{ℕ_discrete, dec_le}
use native.Mathlib.Nat.{pow-suc, pow-le-pow_right}
use native.Mathlib.Numerals.{towards_suc}
use luavela.Base.{take_all}
use luavela.Strhash.{GcStr, StrHash, GcState, sweepstring, other_state, lj_max_strtab}
use luavela.Strhash.{lj_min_strtab, strhash_index, push, rehash_chain, rehash_all, strhash_resize}
use luavela.Strhash.{uj_strhash_shrink, uj_strhash_add, uj_strhash_init}
use luavela.Strhash.Totals.{
  one_if, passing, total, total-push, total-replicate, total-take-suc, and-le,
}

-- Every string of the chain has index `i` under the mask, and the hash of its payload.
abbrev pub ChainAt : (List ℕ → ℕ) → ℕ → ℕ → List GcStr → Type 0
ChainAt hashf mask i c = All (λ s. (strhash_index s.hash mask ≡ i) × (s.hash ≡ hashf s.payload)) c

abbrev pub IsPlaced : (List ℕ → ℕ) → ℕ → List (List GcStr) → Type 0
IsPlaced hashf mask hash = (i : ℕ) → ChainAt hashf mask i (get_or hash i [])

-- The table has a power of two of chains, from LJ_MIN_STRTAB to LJ_MAX_STRTAB / 2, each string
-- is in the chain of its hash, and `count` counts them.
pub record IsValid (hashf : List ℕ → ℕ) (h : StrHash) : Type 0 where
  pub bits : ℕ
  pub small : bits ≤ 25
  pub large : 8 ≤ bits
  pub size : h.mask + 1 ≡ 2 ^ bits
  pub width : length h.hash ≡ h.mask + 1
  pub placed : IsPlaced hashf h.mask h.hash
  pub counted : total (λ _. true) h.hash ≡ h.count

get_or-set :
    {A : Type 0} (xs : List A) (i j : ℕ) (v d : A) (P : A → Type 0)
    → (i ≡ j → P v)
    → P (get_or xs j d)
    → P (get_or (set xs i v) j d)
get_or-set [] i j v d P new old = old
get_or-set (x ∷ xs) zero zero v d P new old = new refl
get_or-set (x ∷ xs) zero (suc j) v d P new old = old
get_or-set (x ∷ xs) (suc i) zero v d P new old = old
get_or-set (x ∷ xs) (suc i) (suc j) v d P new old =
    get_or-set xs i j v d P (λ e. new (ap suc e)) old

get_or-replicate : {A : Type 0} (n i : ℕ) (a : A) → get_or (replicate n a) i a ≡ a
get_or-replicate zero i a = refl
get_or-replicate (suc n) zero a = refl
get_or-replicate (suc n) (suc i) a = get_or-replicate n i a

power_bound : (b : ℕ) → b ≤ 25 → 2 ^ b ≤ 2 ^ 25
power_bound b h = pow-le-pow_right (omega arith) h

two_pow_suc : (b : ℕ) → 2 ^ (b + 1) ≡ 2 * 2 ^ b
two_pow_suc b = simp towards_suc (omega (arith, pow-suc 2 b))

module _ (hashf : List ℕ → ℕ) where
  -- A string with the hash of its payload goes into its own chain.
  pub push-IsPlaced :
      (mask : ℕ) (s : GcStr) (hash : List (List GcStr))
      → s.hash ≡ hashf s.payload
      → IsPlaced hashf mask hash
      → IsPlaced hashf mask (push s (strhash_index s.hash mask) hash)
  push-IsPlaced mask s hash hs placed j =
      let i = strhash_index s.hash mask in
      get_or-set hash i j (s ∷ get_or hash i []) [] (ChainAt hashf mask j)
        (λ e. ((e, hs), subst (λ n. ChainAt hashf mask n (get_or hash i [])) e (placed i)))
        (placed j)

  rehash_chain_lem :
      (newmask mask i : ℕ) (c : List GcStr) (newhash : List (List GcStr))
      → ChainAt hashf mask i c
      → length newhash ≡ newmask + 1
      → IsPlaced hashf newmask newhash
      → (length (rehash_chain newmask c newhash) ≡ newmask + 1)
        × IsPlaced hashf newmask (rehash_chain newmask c newhash)
        × ((p : GcStr → Bool)
            → total p (rehash_chain newmask c newhash) ≡ total p newhash + passing p c)
  unfolding rehash_chain passing
  rehash_chain_lem newmask mask i [] newhash at wide placed = (wide, placed, λ p. omega arith)
  rehash_chain_lem newmask mask i (s ∷ c) newhash at wide placed =
      let j = strhash_index s.hash newmask in
      let fits : j < length newhash =
        unfold strhash_index in omega (arith, and-le s.hash newmask) in
      let (wide', placed', totals) =
        rehash_chain_lem newmask mask i c (push s j newhash) at.1 (length-set newhash j _ ∙ wide)
          (push-IsPlaced newmask s newhash at.0.1 placed) in
      (wide', placed', λ p. omega (arith, totals p, total-push p s j newhash fits))

  rehash_all_lem :
      (newmask mask i : ℕ) (hash newhash : List (List GcStr))
      → IsPlaced hashf mask hash
      → length newhash ≡ newmask + 1
      → IsPlaced hashf newmask newhash
      → (length (rehash_all newmask i hash newhash) ≡ newmask + 1)
        × IsPlaced hashf newmask (rehash_all newmask i hash newhash)
        × ((p : GcStr → Bool)
            → total p (rehash_all newmask i hash newhash) ≡ total p newhash + total p (take i hash))
  unfolding rehash_all
  rehash_all_lem newmask mask zero hash newhash old wide placed =
      (wide, placed, λ p. unfold total in omega arith)
  rehash_all_lem newmask mask (suc i) hash newhash old wide placed =
      let (wide', placed', one) =
        rehash_chain_lem newmask mask i (get_or hash i []) newhash (old i) wide placed in
      let (wide'', placed'', rest) =
        rehash_all_lem newmask mask i hash (rehash_chain newmask (get_or hash i []) newhash) old
          wide' placed' in
      (wide'', placed'', λ p. omega (arith, one p, rest p, total-take-suc p i hash))

  empty-IsPlaced : (mask n : ℕ) → IsPlaced hashf mask (replicate n [])
  empty-IsPlaced mask n i = rw get_or-replicate tt

  -- The new chains, filled from the first `i` old ones.
  rebuild_lem :
      (newmask mask i : ℕ) (hash : List (List GcStr))
      → IsPlaced hashf mask hash
      → (length (rehash_all newmask i hash (replicate (newmask + 1) [])) ≡ newmask + 1)
        × IsPlaced hashf newmask (rehash_all newmask i hash (replicate (newmask + 1) []))
        × ((p : GcStr → Bool)
            → total p (rehash_all newmask i hash (replicate (newmask + 1) []))
              ≡ total p (take i hash))
  rebuild_lem newmask mask i hash old =
      let fresh : List (List GcStr) = replicate (newmask + 1) [] in
      let (wide, placed, totals) =
        rehash_all_lem newmask mask i hash fresh old (length-replicate (newmask + 1) [])
          (empty-IsPlaced newmask (newmask + 1)) in
      (wide, placed, λ p. omega (arith, totals p, total-replicate p (newmask + 1)))

  -- The same strings, in a valid table.
  pub record Keeps (h t : StrHash) : Type 0 where
    pub valid : IsValid hashf t
    pub count : t.count ≡ h.count
    pub totals : (p : GcStr → Bool) → total p t.hash ≡ total p h.hash

  pub resize-Keeps :
      (state : GcState) (newmask bits : ℕ) (h : StrHash)
      → IsValid hashf h
      → newmask + 1 ≡ 2 ^ bits
      → 8 ≤ bits
      → bits ≤ 26
      → Keeps h (strhash_resize state newmask h)
  unfolding strhash_resize
  resize-Keeps sweepstring newmask bits h v size large small = record {
    valid = v;
    count = refl;
    totals = λ p. refl;
  }
  resize-Keeps other_state newmask bits h v size large small = elim (ℕ_discrete bits 26) [
    | yes top ↦
        let huge : leb (lj_max_strtab - 1) newmask ≡ true =
          le→leb _ _ (omega (arith, rw top at size)) in
        rw huge (record { valid = v; count = refl; totals = λ p. refl })
    | no lower ↦
        let bound = power_bound bits (omega arith) in
        let old_bound = power_bound v.bits v.small in
        let room : leb (lj_max_strtab - 1) newmask ≡ false = lt→leb _ _ (omega arith) in
        let rounds : (h.mask + 1) % 2 ^ 64 ≡ length h.hash = omega (arith, v.width, v.size) in
        let (wide, placed, totals) = rebuild_lem newmask h.mask (length h.hash) h.hash v.placed in
        let same : (p : GcStr → Bool) → _ = λ p. totals p ∙ ap (total p) (take_all h.hash) in
        rw (room, rounds)
          (record {
            valid = record {
              bits = bits;
              small = omega arith;
              large = large;
              size = size;
              width = wide;
              placed = placed;
              counted = same (λ _. true) ∙ v.counted;
            };
            count = refl;
            totals = same;
          })
  ]

  -- Adding a string counts it once and keeps the others, also where the table grows, and
  -- whatever the collector is doing.
  pub uj_strhash_add-IsValid :
      (state : GcState) (s : GcStr) (h : StrHash)
      → IsValid hashf h
      → s.hash ≡ hashf s.payload
      → IsValid hashf (uj_strhash_add state s h)
        × ((p : GcStr → Bool)
            → total p (uj_strhash_add state s h).hash ≡ total p h.hash + one_if (p s))
        × ((uj_strhash_add state s h).count ≡ h.count + 1)
  unfolding uj_strhash_add
  uj_strhash_add-IsValid state s h v hs =
      let j = strhash_index s.hash h.mask in
      let fits : j < length h.hash =
        unfold strhash_index in omega (arith, v.width, and-le s.hash h.mask) in
      let added : StrHash = record h { hash = push s j h.hash; count = h.count + 1 } in
      let valid : IsValid hashf added = record {
        bits = v.bits;
        small = v.small;
        large = v.large;
        size = v.size;
        width = length-set h.hash j _ ∙ v.width;
        placed = push-IsPlaced h.mask s h.hash hs v.placed;
        counted = omega (arith, total-push (λ _. true) s j h.hash fits, v.counted);
      } in
      let grown =
        resize-Keeps state (h.mask * 2 + 1) (v.bits + 1) added valid
          (omega (arith, v.size, two_pow_suc v.bits)) (omega (arith, v.large))
          (omega (arith, v.small)) in
      elim (Bool-cases (ltb h.mask h.count)) [
        | inl full ↦
            rw full (grown.valid, λ p. grown.totals p ∙ total-push p s j h.hash fits, grown.count)
        | inr room ↦ rw room (valid, λ p. total-push p s j h.hash fits, refl)
      ]

  -- Shrinking, whether it is refused or done, keeps the table valid and loses no string.
  pub uj_strhash_shrink-Keeps :
      (state : GcState) (h : StrHash) → IsValid hashf h → Keeps h (uj_strhash_shrink state h).0
  unfolding uj_strhash_shrink
  uj_strhash_shrink-Keeps state h v =
      elim (Bool-cases (ltb (h.mask / 2 ^ 2) h.count || leb h.mask (lj_min_strtab * 2 - 1))) [
        | inl refused ↦ rw refused (record { valid = v; count = refl; totals = λ p. refl })
        | inr done ↦
            let big : 511 < h.mask = ground arith in
            let more : 9 ≤ v.bits = more_bits v.bits (omega (arith, v.size)) in
            let back : v.bits - 1 + 1 ≡ v.bits = omega arith in
            let halved : 2 ^ v.bits ≡ 2 * 2 ^ (v.bits - 1) =
              rw back at (two_pow_suc (v.bits - 1)) in
            rw done (
              resize-Keeps state (h.mask / 2) (v.bits - 1) h v (omega (arith, v.size)) (omega arith)
                (omega (arith, v.small)))
      ]
    where
      more_bits : (b : ℕ) → 512 < 2 ^ b → 9 ≤ b
      more_bits b h = elim (dec_le 9 b) [
        | yes le ↦ le
        | no few ↦
            absurd
              (omega (arith, pow-le-pow_right {n = 2} (omega arith) {i = b} {j = 9} (omega arith)))
      ]

  -- A structure whose mask is ~0 becomes an empty valid table, unless strings are being swept.
  pub uj_strhash_init-IsValid :
      (h : StrHash)
      → h.mask ≡ 2 ^ 64 - 1
      → h.count ≡ 0
      → IsValid hashf (uj_strhash_init other_state h)
        × ((p : GcStr → Bool) → total p (uj_strhash_init other_state h).hash ≡ 0)
  unfolding uj_strhash_init strhash_resize rehash_all
  uj_strhash_init-IsValid h uninitialised none_counted =
      let rounds : (h.mask + 1) % 2 ^ 64 ≡ 0 = omega arith in
      rw rounds (
        record {
          bits = 8;
          small = omega arith;
          large = omega arith;
          size = refl;
          width = length-replicate {A = List GcStr} 256 [];
          placed = empty-IsPlaced 255 256;
          counted = total-replicate (λ _. true) 256 ∙ sym none_counted;
        },
        λ p. total-replicate p 256,
      )
