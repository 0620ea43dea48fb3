-- ===== src/Tests/Closures.antt =====
-- Two open upvalues at the slots 9 and 5 of a stack, the second one gray. A value is a number, and
-- is white if it is odd.
use luavela.Base.{ℕ, ◌*◌, ◌%◌, ◌≡◌, ◌≢◌, ◌⊎◌, refl, some, none, Bool, [], ◌∷◌, arith, ◌==◌}
use luavela.Upval.{Upval, Lists, Closing, uj_upval_find, find_from, upval_new_open, uj_upval_close}
use luavela.Upval.{close_from, lj_gc_closeuv, upval_unlink, uj_upval_free}
use luavela.Upval.Find.{IsSorted, at_slot, uj_upval_find-FindsOne}
use luavela.Upval.Close.{Closes, uj_upval_close-Closes}

abbrev upper : Upval
upper = record { id = 1; slot = 9; marked = 1 }

abbrev lower : Upval
lower = record { id = 2; slot = 5; marked = 0 }

abbrev two_open : Lists
two_open = record { openupval = upper ∷ lower ∷ []; uvhead = 2 ∷ 1 ∷ [] }

abbrev to_close : Closing ℕ
to_close = record {
  openupval = upper ∷ lower ∷ [];
  uvhead = 2 ∷ 1 ∷ [];
  root = [];
  freed = [];
  barriers = [];
}

abbrev is_odd : ℕ → Bool
is_odd v = v % 2 == 1

abbrev tenfold : ℕ → ℕ
tenfold slot = slot * 10

program : Unit {0}
unfolding uj_upval_find find_from upval_new_open uj_upval_close close_from lj_gc_closeuv
    upval_unlink uj_upval_free
program = tt

between : (uj_upval_find 1 3 7 two_open).1.uvhead ≡ 3 ∷ 2 ∷ 1 ∷ []
unfolding program
between = refl

closed_upper : (uj_upval_close ℕ is_odd tenfold 1 1 7 to_close).openupval ≡ lower ∷ []
unfolding program
closed_upper = refl

uj_upval_find-FindsOne_example :
    let r = uj_upval_find 1 3 5 two_open in
    IsSorted r.1.openupval
    × (r.0.slot ≡ 5)
    × (((at_slot 5 two_open.openupval ≡ some r.0.id) × (r.1.uvhead ≡ two_open.uvhead))
        ⊎ ((at_slot 5 two_open.openupval ≡ none)
            × (r.0.id ≡ 3)
            × (r.1.uvhead ≡ 3 ∷ two_open.uvhead)))
    × ((s : ℕ) → s ≢ 5 → at_slot s r.1.openupval ≡ at_slot s two_open.openupval)
    × ((id' : ℕ) → (uj_upval_find 1 id' 5 r.1).0.id ≡ r.0.id)
uj_upval_find-FindsOne_example = uj_upval_find-FindsOne 1 3 5 two_open ((omega arith, tt), (tt, tt))

uj_upval_close-Closes_example :
    Closes ℕ is_odd tenfold 1 1 5 to_close.openupval to_close
      (uj_upval_close ℕ is_odd tenfold 1 1 5 to_close)
uj_upval_close-Closes_example =
    uj_upval_close-Closes ℕ is_odd tenfold 1 1 5 to_close ((omega arith, tt), (tt, tt))
