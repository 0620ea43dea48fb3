-- ===== src/Strhash.antt =====
-- src/uj_strhash.c: the table of interned strings. A chain, linked through `nextgc` in the
-- source, is a list, and the table is the list of its chains. The marks of the objects are a
-- function of their identity. Memory is always granted.
pub mod Totals
pub mod Resize
pub mod Lookup
pub mod Relink
use luavela.Base.{ℕ, zero, suc, ◌+◌, ◌-◌, ◌*◌, ◌/◌, ◌%◌, ◌^◌, ◌≤◌, ◌<◌, bit_and}
use luavela.Base.{Bool, true, false, not, ◌&&◌, ◌||◌, Option, none, some, List, [], ◌∷◌, ◌++◌}
use luavela.Base.{ltb, leb, ◌==◌, if◌then◌else◌, length, get_or, set, replicate}

-- A GCstr: `id` tells the objects apart, and `len` is the length of the payload.
pub record GcStr : Type 0 where
  pub id : ℕ
  pub hash : ℕ
  pub payload : List ℕ

pub record StrHash : Type 0 where
  pub hash : List (List GcStr)
  pub mask : ℕ
  pub count : ℕ

-- The states of the collector that the table asks for: whether strings are being swept.
pub data GcState : Type 0 where
  sweepstring other_state : GcState

abbrev pub lj_min_strtab : ℕ
lj_min_strtab = 256

abbrev pub lj_max_strtab : ℕ
lj_max_strtab = 2 ^ 26

abbrev pub uj_gco_sealed : ℕ
uj_gco_sealed = 0x80

abbrev pub uj_obj_is_sealed : (ℕ → ℕ) → GcStr → Bool
uj_obj_is_sealed marks o = not (bit_and (marks o.id) uj_gco_sealed == 0)

unfoldable pub strhash_index : ℕ → ℕ → ℕ
strhash_index hash mask = bit_and hash mask

-- `p->gch.nextgc = newhash[j]; newhash[j] = p;`
abbrev pub push : GcStr → ℕ → List (List GcStr) → List (List GcStr)
push p j hash = set hash j (p ∷ get_or hash j [])

-- The inner loop of `strhash_resize`: one chain of the old table.
unfoldable pub rehash_chain : ℕ → List GcStr → List (List GcStr) → List (List GcStr)
rehash_chain newmask [] newhash = newhash
rehash_chain newmask (p ∷ next) newhash =
    rehash_chain newmask next (push p (strhash_index p.hash newmask) newhash)

-- The outer loop, for the chains from `i - 1` down to 0.
unfoldable pub rehash_all : ℕ → ℕ → List (List GcStr) → List (List GcStr) → List (List GcStr)
rehash_all newmask zero hash newhash = newhash
rehash_all newmask (suc i) hash newhash =
    rehash_all newmask i hash (rehash_chain newmask (get_or hash i []) newhash)

-- `i` starts at `mask` and ends behind 0: from ~0 there is no round.
unfoldable pub strhash_resize : GcState → ℕ → StrHash → StrHash
strhash_resize sweepstring newmask h = h
strhash_resize other_state newmask h = if leb (lj_max_strtab - 1) newmask then h else record {
  hash = rehash_all newmask ((h.mask + 1) % 2 ^ 64) h.hash (replicate (newmask + 1) []);
  mask = newmask;
  count = h.count;
}

unfoldable pub uj_strhash_shrink : GcState → StrHash → StrHash × ℕ
uj_strhash_shrink state h =
    if ltb (h.mask / 2 ^ 2) h.count || leb h.mask (lj_min_strtab * 2 - 1)
    then (h, 0)
    else (strhash_resize state (h.mask / 2) h, 1)

unfoldable pub bytes_eq : List ℕ → List ℕ → Bool
bytes_eq [] [] = true
bytes_eq (x ∷ xs) (y ∷ ys) = x == y && bytes_eq xs ys
bytes_eq _ _ = false

-- `sx->len == len && memcmp(str, strdata(sx), len) == 0`
abbrev pub has_payload : List ℕ → GcStr → Bool
has_payload str sx = length sx.payload == length str && bytes_eq str sx.payload

unfoldable pub strhash_find_in_bucket : List GcStr → List ℕ → Option GcStr
strhash_find_in_bucket [] str = none
strhash_find_in_bucket (sx ∷ o) str =
    if has_payload str sx then some sx else strhash_find_in_bucket o str

unfoldable pub uj_strhash_find : StrHash → List ℕ → ℕ → Option GcStr
uj_strhash_find h str hash =
    strhash_find_in_bucket (get_or h.hash (strhash_index hash h.mask) []) str

unfoldable pub uj_strhash_add : GcState → GcStr → StrHash → StrHash
uj_strhash_add state s h =
    let added : StrHash = record h {
      hash = push s (strhash_index s.hash h.mask) h.hash;
      count = h.count + 1;
    } in
    if ltb h.mask h.count then strhash_resize state (h.mask * 2 + 1) added else added

-- `strhash_relink_bucket`: the chain that stays, how many were evicted, and the sealed table.
pub record Relinked : Type 0 where
  pub kept : List GcStr
  pub evicted : ℕ
  pub sealed : StrHash

unfoldable pub strhash_relink_bucket : (ℕ → ℕ) → GcState → List GcStr → StrHash → Relinked
strhash_relink_bucket marks state [] sealed = record { kept = []; evicted = 0; sealed = sealed }
strhash_relink_bucket marks state (o ∷ next) sealed =
    let target = if uj_obj_is_sealed marks o then uj_strhash_add state o sealed else sealed in
    let rest = strhash_relink_bucket marks state next target in
    if uj_obj_is_sealed marks o
    then record rest { evicted = rest.evicted + 1 }
    else record rest { kept = o ∷ rest.kept }

-- The loop of `uj_strhash_relink` over the chains.
unfoldable pub relink_all :
    (ℕ → ℕ) → GcState → List (List GcStr) → ℕ → StrHash → List (List GcStr) × ℕ × StrHash
relink_all marks state [] count sealed = ([], count, sealed)
relink_all marks state (bucket ∷ rest) count sealed =
    let one = strhash_relink_bucket marks state bucket sealed in
    let (buckets, count', sealed') = relink_all marks state rest (count - one.evicted) one.sealed in
    (one.kept ∷ buckets, count', sealed')

unfoldable pub uj_strhash_relink : (ℕ → ℕ) → GcState → StrHash → StrHash → StrHash × StrHash
uj_strhash_relink marks state h sealed =
    let (buckets, count, sealed') = relink_all marks state h.hash h.count sealed in
    (record h { hash = buckets; count = count }, sealed')

-- The debug build's check: 1 if a sealed string is in the regular table or the other way round.
unfoldable pub any_in : (GcStr → Bool) → List GcStr → Bool
any_in test [] = false
any_in test (o ∷ next) = test o || any_in test next

unfoldable pub any_in_table : (GcStr → Bool) → List (List GcStr) → Bool
any_in_table test [] = false
any_in_table test (o ∷ rest) = any_in test o || any_in_table test rest

unfoldable pub strhash_check_sealed : (ℕ → ℕ) → StrHash → StrHash → ℕ
strhash_check_sealed marks h sealed =
    if any_in_table (uj_obj_is_sealed marks) h.hash
    then 1
    else if any_in_table (λ o. not (uj_obj_is_sealed marks o)) sealed.hash
    then 1
    else 0

unfoldable pub uj_strhash_init : GcState → StrHash → StrHash
uj_strhash_init state h = strhash_resize state (lj_min_strtab - 1) h
