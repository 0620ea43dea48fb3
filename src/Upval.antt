-- ===== src/Upval.antt =====
-- src/uj_upval.c, with lj_gc_closeuv of src/lj_gc.c: open upvalues, which point to slots of a
-- stack, and their closing. An upvalue is known by `id`; the list of open upvalues and the
-- collector's lists are the lists of their elements.
pub mod Find
pub mod Close
use luavela.Base.{
  ℕ, zero, suc, ◌+◌, ◌-◌, ◌%◌, ◌^◌, ◌<◌, ◌≤◌, ◌≡◌, Bool, true, false, not, ◌||◌, ◌&&◌, bit_and,
  bit_or, bit_xor,
}
use luavela.Base.{Option, none, some, List, [], ◌∷◌, ◌++◌, leb, ◌==◌, if◌then◌else◌}

abbrev pub lj_gc_whites : ℕ
lj_gc_whites = 0x03

abbrev pub lj_gc_black : ℕ
lj_gc_black = 0x04

abbrev pub lj_gc_colors : ℕ
lj_gc_colors = 0x07

-- `slot` is where an open upvalue points, `marked` holds the collector's bits.
pub record Upval : Type 0 where
  pub id : ℕ
  pub slot : ℕ
  pub marked : ℕ

abbrev pub isdead : ℕ → Upval → Bool
isdead currentwhite uv =
    not (bit_and (bit_and uv.marked (bit_xor currentwhite lj_gc_whites)) lj_gc_whites == 0)

abbrev pub flipwhite : Upval → Upval
flipwhite uv = record uv { marked = bit_xor uv.marked lj_gc_whites }

-- Neither white nor black.
abbrev pub isgray : Upval → Bool
isgray uv = bit_and uv.marked (lj_gc_whites + lj_gc_black) == 0

abbrev pub gray2black : Upval → Upval
gray2black uv = record uv { marked = bit_or uv.marked lj_gc_black }

abbrev pub makewhite : ℕ → Upval → Upval
makewhite currentwhite uv = record uv {
  marked = bit_or (bit_and uv.marked (0xff - lj_gc_colors)) (bit_and currentwhite lj_gc_whites);
}

-- The upvalue that is made for a slot which has none.
unfoldable pub upval_new_open : ℕ → ℕ → ℕ → Upval
upval_new_open currentwhite id slot = record {
  id = id;
  slot = slot;
  marked = bit_and currentwhite lj_gc_whites % 2 ^ 8;
}

-- What the loop of `uj_upval_find` finds or makes, and the list with it.
pub record Found : Type 0 where
  pub uv : Upval
  pub made : Bool
  pub openupval : List Upval

-- The loop over the list from `iter` on; `fresh` is the upvalue that is made where none is found.
unfoldable pub find_from : ℕ → ℕ → Upval → List Upval → Found
find_from currentwhite slot fresh [] = record { uv = fresh; made = true; openupval = fresh ∷ [] }
find_from currentwhite slot fresh (uv ∷ rest) =
    let later = find_from currentwhite slot fresh rest in
    let uv' = if isdead currentwhite uv then flipwhite uv else uv in
    if not (leb slot uv.slot)
    then record { uv = fresh; made = true; openupval = fresh ∷ uv ∷ rest }
    else if not (uv.slot == slot)
    then record later { openupval = uv ∷ later.openupval }
    else record { uv = uv'; made = false; openupval = uv' ∷ rest }

-- The thread's list, from the topmost slot down, and the list of all open upvalues at `uvhead`.
pub record Lists : Type 0 where
  pub openupval : List Upval
  pub uvhead : List ℕ

-- `id` is that of the memory which an allocation would return.
unfoldable pub uj_upval_find : ℕ → ℕ → ℕ → Lists → Upval × Lists
uj_upval_find currentwhite id slot l =
    let f = find_from currentwhite slot (upval_new_open currentwhite id slot) l.openupval in
    (
      f.uv,
      record { openupval = f.openupval; uvhead = if f.made then f.uv.id ∷ l.uvhead else l.uvhead },
    )

unfoldable pub upval_unlink : ℕ → List ℕ → List ℕ
upval_unlink id [] = []
upval_unlink id (uv ∷ uvs) = let later = upval_unlink id uvs in if uv == id then uvs else uv ∷ later

abbrev pub gcs_propagate : ℕ
gcs_propagate = 1

abbrev pub gcs_atomic : ℕ
gcs_atomic = 2

-- A closed upvalue with its own value.
pub record Closed (V : Type 0) : Type 0 where
  pub uv : Upval
  pub tv : V

-- What closing changes: `root` and `uvhead` are lists of the collector, `freed` holds the memory
-- that is given back, `barriers` the values for which lj_gc_barrierf is called.
pub record Closing (V : Type 0) : Type 0 where
  pub openupval : List Upval
  pub uvhead : List ℕ
  pub root : List (Closed V)
  pub freed : List ℕ
  pub barriers : List (ℕ × V)

module _ (V : Type 0) (tviswhite : V → Bool) (stack : ℕ → V) (currentwhite gc_state : ℕ) where
  unfoldable pub lj_gc_closeuv : Upval → Closing V → Closing V
  lj_gc_closeuv uv c =
      let tv = stack uv.slot in
      let marking = gc_state == gcs_propagate || gc_state == gcs_atomic in
      let uv' =
        if not (isgray uv)
        then uv
        else if marking
        then gray2black uv
        else makewhite currentwhite uv in
      let called = (uv.id, tv) ∷ c.barriers in
      record c {
        root = record { uv = uv'; tv = tv } ∷ c.root;
        barriers = if isgray uv && (marking && tviswhite tv) then called else c.barriers;
      }

  unfoldable pub uj_upval_free : Upval → Closing V → Closing V
  uj_upval_free uv c = record c { uvhead = upval_unlink uv.id c.uvhead; freed = uv.id ∷ c.freed }

  -- The loop of `uj_upval_close` over the open upvalues.
  unfoldable pub close_from : ℕ → List Upval → Closing V → Closing V
  close_from level [] c = record c { openupval = [] }
  close_from level (uv ∷ rest) c =
      let dead = uj_upval_free uv c in
      let unlinked = record c { uvhead = upval_unlink uv.id c.uvhead } in
      let alive = lj_gc_closeuv uv unlinked in
      let next = close_from level rest (if isdead currentwhite uv then dead else alive) in
      if leb level uv.slot then next else record c { openupval = uv ∷ rest }

  unfoldable pub uj_upval_close : ℕ → Closing V → Closing V
  uj_upval_close level c = close_from level c.openupval c
