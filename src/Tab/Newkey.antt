-- ===== src/Tab/Newkey.antt =====
-- lj_tab_newkey of src/lj_tab.c: all ways to insert a key.
use luavela.Base.{ℕ, ◌+◌, ◌<◌, ◌≡◌, refl, sym, ◌∙◌, subst, arith}
use luavela.Base.{
  Bool, true, false, not, ◌||◌, Bool-cases, inl, inr, ◌⊎◌, none, some, Option-cases, true≢false,
}
use luavela.Base.{◌==◌, eqb→eq, eqb_self, if_false}
use luavela.Tab.{Values, TValue, GcTab, tvisnil, hashkey, free_node}
use luavela.Tab.{node_slot, Setting, place, rehash, lj_tab_newkey, use_free, place_key}
use luavela.Tab.Chain.{predecessor-Chain}
use luavela.Tab.Wellformed.{IsChained}
use luavela.Tab.Fresh.{IsNew}
use luavela.Tab.Grown.{Grown, IsLinked}
use luavela.Tab.Place.{placed, placed-Grown, placed-IsLinked, placed_slot}
use luavela.Tab.Link.{linked, linked-Grown, linked-IsLinked, linked_slot}
use luavela.Tab.Move.{moved, cells-IsMoved}
use luavela.Tab.Moved.{moved-Grown, moved-IsLinked, moved_slot}
use luavela.Tab.Free.{free_node_sound, valued_key}

-- The result is a place in a table that has grown by the key.
pub record IsInserted (values : Values) (t : GcTab) (key : TValue) (s : Setting) : Type 0 where
  pub table : GcTab
  pub grown : Grown values t table key
  pub links : IsLinked values t table key
  pub placed_at : s ≡ place (node_slot grown.slot) table
  pub same_array : table.array ≡ t.array
  pub same_asize : table.asize ≡ t.asize
  pub still_mutable : table.immutable ≡ t.immutable

module _ (values : Values) (t : GcTab) (key : TValue) (w : IsChained values t)
    (new : IsNew values t key) where
  abbrev home : ℕ
  home = hashkey values t.hmask key

  place_free : tvisnil (t.node home).val ≡ true → IsInserted values t key (place_key t home key)
  place_free free = record {
    table = placed values t key w new free;
    grown = placed-Grown values t key w new free;
    links = placed-IsLinked values t key w new free;
    placed_at = rw (placed_slot values t key w new free) refl;
    same_array = refl;
    same_asize = refl;
    still_mutable = refl;
  }

  use_free_cases :
      (f : ℕ)
      → tvisnil (t.node home).key ≡ false
      → f < t.freetop
      → tvisnil (t.node f).key ≡ true
      → IsInserted values t key (use_free values t key home f)
  unfolding use_free
  use_free_cases f some_home below no_key =
      elim (Bool-cases (hashkey values t.hmask (t.node home).key == home)) [
        | inl own ↦ rw own (
            let own_home = eqb→eq _ home own in
            record {
              table = linked values t key w new home f refl own_home some_home below no_key;
              grown = linked-Grown values t key w new home f refl own_home some_home below no_key;
              links =
                  linked-IsLinked values t key w new home f refl own_home some_home below no_key;
              placed_at =
                  rw (linked_slot values t key w new home f refl own_home some_home below no_key)
                    refl;
              same_array = refl;
              same_asize = refl;
              still_mutable = refl;
            })
        | inr away ↦
            let chain = w.reach home some_home in
            let (p, found, link) =
              predecessor-Chain t.node w.rank home w.falls (t.hmask + 2) chain
                (λ e. true≢false (sym (rw e (eqb_self home)) ∙ away))
                (omega (arith, w.low (hashkey values t.hmask (t.node home).key))) in
            let cells : GcTab =
              moved values t key w new home f p refl away some_home below no_key link in
            let went =
              cells-IsMoved values t key w new home f p refl away some_home below no_key link in
            rw (away, found)
              (record {
                table = cells;
                grown = moved-Grown values t key w new home f p cells.node went;
                links = moved-IsLinked values t key w new home f p cells.node went;
                placed_at = rw (moved_slot values t key w new home f p cells.node went) refl;
                same_array = refl;
                same_asize = refl;
                still_mutable = refl;
              })
      ]

  unfoldable busy : Bool
  busy = not (tvisnil (t.node home).val) || t.hmask == 0

  newkey_home :
      t.immutable ≡ false → busy ≡ false → lj_tab_newkey values t key ≡ place_key t home key
  unfolding lj_tab_newkey busy
  newkey_home mutable free = rw (mutable, free) refl

  newkey_full :
      t.immutable ≡ false
      → busy ≡ true
      → free_node t.node t.freetop ≡ none
      → lj_tab_newkey values t key ≡ rehash
  unfolding lj_tab_newkey busy
  newkey_full mutable taken full = rw (mutable, taken, full) refl

  newkey_busy :
      (f : ℕ)
      → t.immutable ≡ false
      → busy ≡ true
      → free_node t.node t.freetop ≡ some f
      → lj_tab_newkey values t key ≡ use_free values t key home f
  unfolding lj_tab_newkey busy
  newkey_busy f mutable taken found = if_false t.immutable _ _ mutable ∙ rw (taken, found) refl

  home_key : (f : ℕ) → f < t.freetop → busy ≡ true → tvisnil (t.node home).key ≡ false
  unfolding busy
  home_key f below taken = elim (Bool-cases (tvisnil (t.node home).val)) [
    | inr valued ↦ valued_key values t w home valued
    | inl empty ↦
        let single : t.hmask ≡ 0 = ground arith in
        let none_free = w.shared single in absurd (omega arith)
  ]

  home_free : busy ≡ false → tvisnil (t.node home).val ≡ true
  unfolding busy
  home_free free = ground arith

  -- Either a key is inserted, or all nodes below the free pointer have keys.
  pub newkey-cases :
      t.immutable ≡ false
      → IsInserted values t key (lj_tab_newkey values t key)
        ⊎ ((lj_tab_newkey values t key ≡ rehash) × (free_node t.node t.freetop ≡ none))
  newkey-cases mutable = elim (Bool-cases busy) [
    | inr free ↦ inl (
        subst (IsInserted values t key) (sym (newkey_home mutable free))
          (place_free (home_free free)))
    | inl taken ↦ elim (Option-cases (free_node t.node t.freetop)) [
      | inl full ↦ inr (newkey_full mutable taken full, full)
      | inr (f, found) ↦
          let (below, no_key) = free_node_sound t.node t.freetop f found in
          inl (
            subst (IsInserted values t key) (sym (newkey_busy f mutable taken found))
              (use_free_cases f (home_key f below taken) below no_key))
    ]
  ]
