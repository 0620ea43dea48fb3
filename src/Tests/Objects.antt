-- ===== src/Tests/Objects.antt =====
-- String objects at concrete texts; the hash of a text is its length.
use luavela.Base.{
  ℕ, ◌-◌, ◌^◌, ◌≤◌, ◌≡◌, refl, Bool, true, false, some, inl, List, [], ◌∷◌, length, ◌==◌, arith,
}
use luavela.Chars.{lj_char_isa}
use luavela.Strhash.{
  GcStr, StrHash, other_state, uj_strhash_init, uj_strhash_add, uj_strhash_find, bytes_eq,
}
use luavela.Strhash.{
  strhash_resize, rehash_all, rehash_chain, strhash_index, strhash_find_in_bucket,
}
use luavela.Strhash.Totals.{one_if}
use luavela.Strhash.Resize.{uj_strhash_init-IsValid}
use luavela.Str.{
  GlobalState, uj_str_new, intern, hit, miss, mark_new, isdead, flipwhite, uj_str_trim, skip_left,
  skip_right,
}
use luavela.Str.Alive.{uj_str_new-isdead}
use luavela.Str.Compare.{
  uj_str_cmp, cmp_words, words_differ, read_word, lj_bswap, byte_at, sign, dictionary,
}
use luavela.Str.Dictionary.{uj_str_cmp-dictionary}
use luavela.Str.Intern.{population, unborn, IsInterned, Interns, uj_str_new-Interns}
use luavela.Str.Pointers.{uj_str_new-bytes_eq}

abbrev by_length : List ℕ → ℕ
by_length = length

abbrev raw : StrHash
raw = record { hash = []; mask = 2 ^ 64 - 1; count = 0 }

abbrev table : StrHash
table = uj_strhash_init other_state raw

abbrev start : GlobalState
start = record {
  strhash = table;
  strhash_sealed = table;
  strempty = record { id = 0; hash = 0; payload = [] };
  strhash_hit = 0;
  strhash_miss = 0;
  currentwhite = 0x21;
  state = other_state;
  marked = λ _. 0;
  next_id = 1;
}

start-population : (p : GcStr → Bool) → population start p ≡ one_if (p start.strempty)
start-population p = omega (arith, (uj_strhash_init-IsValid by_length raw refl refl).1 p)

one_if_le : (b : Bool) → one_if b ≤ 1
one_if_le true = omega arith
one_if_le false = omega arith

start-IsInterned : IsInterned by_length start
start-IsInterned = record {
  regular = (uj_strhash_init-IsValid by_length raw refl refl).0;
  sealed = (uj_strhash_init-IsValid by_length raw refl refl).0;
  empty = refl;
  payloads = λ str. omega (arith, start-population _, one_if_le _);
  ids = λ n. omega (arith, start-population _, one_if_le _);
  born = start-population (unborn start.next_id);
}

abbrev lua : List ℕ
lua = b'l' ∷ b'u' ∷ b'a' ∷ []

abbrev end_ : List ℕ
end_ = b'e' ∷ b'n' ∷ b'd' ∷ []

uj_str_new-Interns_example :
    (r : GcStr × GlobalState) × (uj_str_new by_length start lua ≡ some r)
    × Interns by_length start lua r
uj_str_new-Interns_example = uj_str_new-Interns by_length start lua start-IsInterned (omega arith)

abbrev with_lua : GcStr × GlobalState
with_lua = intern by_length start lua

abbrev with_end : GcStr × GlobalState
with_end = intern by_length with_lua.1 end_

lua_made : uj_str_new by_length start lua ≡ some with_lua
unfolding uj_str_new
lua_made = refl

end_made : uj_str_new by_length with_lua.1 end_ ≡ some with_end
unfolding uj_str_new
end_made = refl

uj_str_new-bytes_eq_example : with_lua.0.id == with_end.0.id ≡ bytes_eq lua end_
uj_str_new-bytes_eq_example =
    uj_str_new-bytes_eq by_length start with_lua.1 with_end.1 lua end_ with_lua.0 with_end.0
      start-IsInterned lua_made end_made

uj_str_new-isdead_example : isdead with_lua.1 with_lua.0 ≡ false
uj_str_new-isdead_example =
    uj_str_new-isdead by_length start with_lua.1 lua with_lua.0 (inl refl) (λ i. omega arith)
      (omega arith) lua_made

program : Unit {0}
unfolding uj_strhash_init strhash_resize rehash_all rehash_chain uj_strhash_add uj_strhash_find
    strhash_index strhash_find_in_bucket bytes_eq intern hit miss mark_new isdead flipwhite
program = tt

-- The second time, the same object is found and counted.
lua_again :
    ((intern by_length with_end.1 lua).0.id ≡ 1)
    × ((intern by_length with_end.1 lua).1.strhash_hit ≡ 1)
unfolding program
lua_again = (refl, refl)

-- " Ab\t"
abbrev padded : GcStr
padded = record { id = 9; hash = 4; payload = b' ' ∷ b'A' ∷ b'b' ∷ 9 ∷ [] }

trimmed_text : uj_str_trim by_length start padded ≡ uj_str_new by_length start (b'A' ∷ b'b' ∷ [])
unfolding uj_str_trim skip_left skip_right lj_char_isa
trimmed_text = refl

abbrev other_memory : ℕ → ℕ
other_memory _ = 255

abbrev lua_jit : List ℕ
lua_jit = b'l' ∷ b'u' ∷ b'a' ∷ b'j' ∷ b'i' ∷ b't' ∷ []

lua_first : uj_str_cmp lua other_memory lua_jit (λ _. 0) ≡ 2 ^ 32 - 3
unfolding uj_str_cmp cmp_words words_differ read_word lj_bswap byte_at
lua_first = refl

uj_str_cmp-dictionary_example :
    sign (uj_str_cmp lua other_memory lua_jit (λ _. 0)) ≡ dictionary lua lua_jit
uj_str_cmp-dictionary_example =
    uj_str_cmp-dictionary other_memory (λ _. 0) (λ i. omega arith) (λ i. omega arith) lua lua_jit
      (omega arith) (omega arith) (omega arith) (omega arith)
