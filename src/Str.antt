-- ===== src/Str.antt =====
-- src/uj_str.c: string objects, which are unique for their text. The hash of a text is a
-- parameter; an object is told apart by its `id`, and memory is always granted.
pub mod Intern
pub mod Pointers
pub mod Alive
pub mod Compare
pub mod Words
pub mod Dictionary
pub mod Edges
use luavela.Base.{ℕ, zero, suc, ◌+◌, ◌-◌, ◌%◌, ◌^◌, bit_and, bit_or, bit_xor}
use luavela.Base.{Bool, true, false, not, ◌&&◌, ◌||◌, Option, none, some, List, [], ◌∷◌, ◌++◌}
use luavela.Base.{length, take, drop, get_or, leb, ◌==◌, if◌then◌else◌}
use luavela.Chars.{lj_char_isa, lj_char_punct, lj_char_space, lj_char_flipcase}
use luavela.Cstr.{uj_cstr_fromint}
use luavela.Strhash.{GcStr, StrHash, GcState, uj_strhash_find, uj_strhash_add}

abbrev pub specials : List ℕ
specials = b'^' ∷ b'$' ∷ b'*' ∷ b'+' ∷ b'?' ∷ b'.' ∷ b'(' ∷ b'[' ∷ b'%' ∷ b'-' ∷ []

-- `strchr`, which also finds the final 0.
unfoldable pub strchr : List ℕ → ℕ → Bool
strchr [] c = c == 0
strchr (d ∷ s) c = d == c || strchr s c

unfoldable pub uj_str_has_pattern_specials : List ℕ → Bool
uj_str_has_pattern_specials [] = false
uj_str_has_pattern_specials (c ∷ p) =
    let later = uj_str_has_pattern_specials p in
    if not (lj_char_isa c lj_char_punct == 0) && strchr specials c then true else later

abbrev pub lj_max_str : ℕ
lj_max_str = 0x7fffff00

abbrev pub lj_gc_whites : ℕ
lj_gc_whites = 0x03

abbrev pub lj_gc_fixed : ℕ
lj_gc_fixed = 0x20

abbrev pub uj_gco_immutable : ℕ
uj_gco_immutable = 0x40

-- What string objects need of a global_State. `marked` gives the marks of each object, and
-- `next_id` is the identity of the next object that is allocated.
pub record GlobalState : Type 0 where
  pub strhash : StrHash
  pub strhash_sealed : StrHash
  pub strempty : GcStr
  pub strhash_hit : ℕ
  pub strhash_miss : ℕ
  pub currentwhite : ℕ
  pub state : GcState
  pub marked : ℕ → ℕ
  pub next_id : ℕ

abbrev pub set_mark : (ℕ → ℕ) → ℕ → ℕ → ℕ → ℕ
set_mark marked id m i = if i == id then m else marked i

abbrev pub otherwhite : GlobalState → ℕ
otherwhite g = bit_xor g.currentwhite lj_gc_whites

abbrev pub curwhite : GlobalState → ℕ
curwhite g = bit_and g.currentwhite lj_gc_whites

unfoldable pub isdead : GlobalState → GcStr → Bool
isdead g o = not (bit_and (bit_and (g.marked o.id) (otherwhite g)) lj_gc_whites == 0)

unfoldable pub flipwhite : GlobalState → GcStr → GlobalState
flipwhite g o = record g { marked = set_mark g.marked o.id (bit_xor (g.marked o.id) lj_gc_whites) }

-- `newwhite` and `uj_obj_immutable_set_mark`.
unfoldable pub mark_new : GlobalState → GcStr → GlobalState
mark_new g s = record g { marked = set_mark g.marked s.id (bit_or (curwhite g) uj_gco_immutable) }

abbrev pub or_find : Option GcStr → Option GcStr → Option GcStr
or_find none later = later
or_find (some s) later = some s

-- What `uj_str_new` does for a string that is there already, and for a new one.
unfoldable pub hit : GlobalState → GcStr → GcStr × GlobalState
hit g s =
    let counted : GlobalState = record g { strhash_hit = (g.strhash_hit + 1) % 2 ^ 64 } in
    (s, if isdead counted s then flipwhite counted s else counted)

unfoldable pub miss : GlobalState → List ℕ → ℕ → GcStr × GlobalState
miss g str hash =
    let s : GcStr = record { id = g.next_id; hash = hash; payload = str } in
    let counted : GlobalState = record g {
      strhash_miss = (g.strhash_miss + 1) % 2 ^ 64;
      next_id = g.next_id + 1;
    } in
    let marked_ = mark_new counted s in
    (s, record marked_ { strhash = uj_strhash_add marked_.state s marked_.strhash })

abbrev pub hit_or_miss : GlobalState → List ℕ → ℕ → Option GcStr → GcStr × GlobalState
hit_or_miss g str hash none = miss g str hash
hit_or_miss g str hash (some s) = hit g s

-- The loop of `str_flip_case`. A byte from 128 on is negative as a char, below every letter.
unfoldable pub flip_bytes : ℕ → ℕ → List ℕ → List ℕ
flip_bytes low hi [] = []
flip_bytes low hi (c ∷ src) =
    (if leb low c && leb c hi then lj_char_flipcase c else c) ∷ flip_bytes low hi src

abbrev pub is_space : ℕ → Bool
is_space c = not (lj_char_isa c lj_char_space == 0)

-- The first loop of `uj_str_trim`, on the text from `left` on.
unfoldable pub skip_left : ℕ → List ℕ → ℕ
skip_left left [] = left
skip_left left (c ∷ s) = let later = skip_left (left + 1) s in if is_space c then later else left

-- The second loop, which ends before 0 in a text with another character than a space.
unfoldable pub skip_right : List ℕ → ℕ → ℕ
skip_right s zero = 0
skip_right s (suc right) =
    let earlier = skip_right s right in
    if is_space (get_or s (suc right) 0) then earlier else suc right

-- `src->marked & LJ_GC_FIXED` is read when the copy is there already.
abbrev pub fix_copy : GcStr → Option (GcStr × GlobalState) → Option (GcStr × GlobalState)
fix_copy src none = none
fix_copy src (some (dst, g)) =
    let fixed : GlobalState = record g {
      marked = set_mark g.marked dst.id (bit_or (g.marked dst.id) lj_gc_fixed);
    } in
    some (dst, if not (bit_and (g.marked src.id) lj_gc_fixed == 0) then fixed else g)

module _ (hashf : List ℕ → ℕ) where
  -- Behind the two tests of the length.
  unfoldable pub intern : GlobalState → List ℕ → GcStr × GlobalState
  intern g str =
      let hash = hashf str in
      hit_or_miss g str hash
        (or_find (uj_strhash_find g.strhash str hash) (uj_strhash_find g.strhash_sealed str hash))

  -- No result where the string is too long, which throws.
  unfoldable pub uj_str_new : GlobalState → List ℕ → Option (GcStr × GlobalState)
  uj_str_new g str =
      if leb lj_max_str (length str)
      then none
      else if length str == 0
      then some (g.strempty, g)
      else some (intern g str)

  unfoldable pub uj_str_copy : GlobalState → GcStr → Option (GcStr × GlobalState)
  uj_str_copy g src = fix_copy src (uj_str_new g src.payload)

  unfoldable pub uj_str_fromint : GlobalState → ℕ → Option (GcStr × GlobalState)
  uj_str_fromint g k = uj_str_new g (uj_cstr_fromint k)

  unfoldable pub str_flip_case : GlobalState → GcStr → ℕ → ℕ → Option (GcStr × GlobalState)
  str_flip_case g s low hi = uj_str_new g (flip_bytes low hi s.payload)

  unfoldable pub uj_str_lower : GlobalState → GcStr → Option (GcStr × GlobalState)
  uj_str_lower g s = str_flip_case g s b'A' b'Z'

  unfoldable pub uj_str_upper : GlobalState → GcStr → Option (GcStr × GlobalState)
  uj_str_upper g s = str_flip_case g s b'a' b'z'

  unfoldable pub uj_str_trim : GlobalState → GcStr → Option (GcStr × GlobalState)
  uj_str_trim g str =
      let left = skip_left 0 str.payload in
      let right = skip_right str.payload (length str.payload - 1) in
      if length str.payload == 0
      then some (g.strempty, g)
      else if left == length str.payload
      then some (g.strempty, g)
      else uj_str_new g (take (right - left + 1) (drop left str.payload))
