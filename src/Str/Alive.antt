-- ===== src/Str/Alive.antt =====
-- A string that is handed out is not dead for the collector.
use luavela.Base.{ℕ, ◌+◌, ◌%◌, ◌^◌, ◌≤◌, ◌<◌, ◌≡◌, refl, sym, ◌∙◌, subst, arith}
use mathlib.Core.Option.{some-injective, some-ne-none}
use luavela.Base.{true, false, ◌||◌, Bool-cases, inl, inr, Option, none, some, bit_and, bit_xor}
use luavela.Base.{List, ◌==◌, leb, length}
use luavela.Strhash.{GcStr}
use luavela.Base.{◌⊎◌}
use luavela.Base.Bits.{all_below, all_below_sound}
use luavela.Str.{
  GlobalState, uj_str_new, lj_max_str, isdead, flipwhite, set_mark, hit, miss, hit_or_miss, intern,
  mark_new,
}
use luavela.Str.Pointers.{too_long, eqb_self}

-- The current white is one of the two, and the strings of a collection cycle are dead with the
-- other.
abbrev pub IsWhite : ℕ → Type 0
IsWhite w = (w ≡ 0x21) ⊎ (w ≡ 0x22)

flips_first :
    all_below
      (λ m. bit_and (bit_and (bit_xor m 3) 0x22) 3 == 0 || bit_and (bit_and m 0x22) 3 == 0)
      256
    ≡ true
unfolding all_below
flips_first = refl

flips_second :
    all_below
      (λ m. bit_and (bit_and (bit_xor m 3) 0x21) 3 == 0 || bit_and (bit_and m 0x21) 3 == 0)
      256
    ≡ true
unfolding all_below
flips_second = refl

set_mark_same : (marked : ℕ → ℕ) (i m : ℕ) → set_mark marked i m i ≡ m
set_mark_same marked i m = rw (eqb_self i) refl

flipwhite_alive :
    (g : GlobalState) (s : GcStr)
    → IsWhite g.currentwhite
    → g.marked s.id < 256
    → isdead g s ≡ true
    → isdead (flipwhite g s) s ≡ false
unfolding isdead flipwhite
flipwhite_alive g s (inl w) octet dead =
    let flips = all_below_sound _ 256 (g.marked s.id) flips_first octet in
    let dead' = rw w at dead in
    rw (w, set_mark_same g.marked s.id (bit_xor (g.marked s.id) 3)) (ground arith)
flipwhite_alive g s (inr w) octet dead =
    let flips = all_below_sound _ 256 (g.marked s.id) flips_second octet in
    let dead' = rw w at dead in
    rw (w, set_mark_same g.marked s.id (bit_xor (g.marked s.id) 3)) (ground arith)

hit_alive :
    (g : GlobalState) (s : GcStr)
    → IsWhite g.currentwhite
    → g.marked s.id < 256
    → isdead (hit g s).1 s ≡ false
unfolding hit
hit_alive g s w octet =
    let counted : GlobalState = record g { strhash_hit = (g.strhash_hit + 1) % 2 ^ 64 } in
    elim (Bool-cases (isdead counted s)) [
      | inl dead ↦ rw dead (flipwhite_alive counted s w octet dead)
      | inr alive ↦ rw alive alive
    ]

miss_alive :
    (g : GlobalState) (str : List ℕ) (hash : ℕ)
    → IsWhite g.currentwhite
    → isdead (miss g str hash).1 (miss g str hash).0 ≡ false
unfolding miss mark_new isdead
miss_alive g str hash (inl w) = rw (w, set_mark_same g.marked g.next_id 0x41) refl
miss_alive g str hash (inr w) = rw (w, set_mark_same g.marked g.next_id 0x42) refl

hit_or_miss_alive :
    (g : GlobalState) (str : List ℕ) (hash : ℕ) (o : Option GcStr)
    → IsWhite g.currentwhite
    → ((i : ℕ) → g.marked i < 256)
    → isdead (hit_or_miss g str hash o).1 (hit_or_miss g str hash o).0 ≡ false
unfolding hit
hit_or_miss_alive g str hash none w octets = miss_alive g str hash w
hit_or_miss_alive g str hash (some s) w octets = hit_alive g s w (octets s.id)

-- The string that `uj_str_new` gives for a text that is not empty is not dead, also if it was
-- waiting to be swept.
pub uj_str_new-isdead :
    (hashf : List ℕ → ℕ) (g g' : GlobalState) (str : List ℕ) (s : GcStr)
    → IsWhite g.currentwhite
    → ((i : ℕ) → g.marked i < 256)
    → 1 ≤ length str
    → uj_str_new hashf g str ≡ some (s, g')
    → isdead g' s ≡ false
unfolding uj_str_new intern
uj_str_new-isdead hashf g g' str s w octets long e =
    elim (Bool-cases (leb lj_max_str (length str))) [
      | inl too ↦ absurd (some-ne-none (s, g') (sym e ∙ too_long hashf str g too))
      | inr short ↦
          let more : length str == 0 ≡ false = ground arith in
          let same = some-injective (intern hashf g str) (s, g') (rw (short, more) at e) in
          subst (λ r. isdead r.1 r.0 ≡ false) same (hit_or_miss_alive g str (hashf str) _ w octets)
    ]
