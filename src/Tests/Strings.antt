-- ===== src/Tests/Strings.antt =====
-- The string table at concrete strings; the hash of a text is its length.
use luavela.Base.{
  ℕ, zero, suc, ◌+◌, ◌-◌, ◌^◌, ◌≡◌, refl, Bool, none, some, List, [], ◌∷◌, length, arith,
}
use luavela.Strhash.{GcStr, StrHash, other_state, uj_strhash_init}
use luavela.Strhash.{uj_strhash_add, uj_strhash_find, uj_strhash_relink}
use luavela.Strhash.{strhash_resize, rehash_all}
use luavela.Strhash.{strhash_index, strhash_find_in_bucket, bytes_eq, rehash_chain}
use luavela.Strhash.Totals.{one_if, total}
use luavela.Strhash.Resize.{IsValid, uj_strhash_init-IsValid, uj_strhash_add-IsValid}
use luavela.Strhash.Resize.{resize-Keeps}
use luavela.Strhash.Lookup.{Answers, uj_strhash_find-Answers, find-add}

abbrev by_length : List ℕ → ℕ
by_length = length

abbrev raw : StrHash
raw = record { hash = []; mask = 2 ^ 64 - 1; count = 0 }

abbrev fresh : StrHash
fresh = uj_strhash_init other_state raw

abbrev lua : GcStr
lua = record { id = 1; hash = 3; payload = b'l' ∷ b'u' ∷ b'a' ∷ [] }

abbrev end_ : GcStr
end_ = record { id = 2; hash = 3; payload = b'e' ∷ b'n' ∷ b'd' ∷ [] }

empty_table : IsValid by_length fresh × ((p : GcStr → Bool) → total p fresh.hash ≡ 0)
empty_table = uj_strhash_init-IsValid by_length raw refl refl

fresh-IsValid : IsValid by_length fresh
fresh-IsValid = empty_table.0

abbrev one_string : StrHash
one_string = uj_strhash_add other_state lua fresh

uj_strhash_add-IsValid_example :
    IsValid by_length one_string
    × ((p : GcStr → Bool) → total p one_string.hash ≡ total p fresh.hash + one_if (p lua))
    × (one_string.count ≡ fresh.count + 1)
uj_strhash_add-IsValid_example =
    uj_strhash_add-IsValid by_length other_state lua fresh fresh-IsValid refl

one_string-IsValid : IsValid by_length one_string
one_string-IsValid = uj_strhash_add-IsValid_example.0

abbrev two_strings : StrHash
two_strings = uj_strhash_add other_state end_ one_string

program : Unit {0}
unfolding uj_strhash_init strhash_resize rehash_all rehash_chain uj_strhash_add uj_strhash_find
    strhash_index strhash_find_in_bucket bytes_eq
program = tt

-- Another text of the same length, and so in the same chain, is not found.
end_absent : uj_strhash_find one_string end_.payload 3 ≡ none
unfolding program
end_absent = refl

find-add_example : uj_strhash_find two_strings end_.payload 3 ≡ some end_
find-add_example = find-add by_length other_state one_string end_ one_string-IsValid refl end_absent

uj_strhash_find-Answers_example :
    Answers lua.payload (λ p. total p one_string.hash) (uj_strhash_find one_string lua.payload 3)
uj_strhash_find-Answers_example =
    uj_strhash_find-Answers by_length one_string lua.payload one_string-IsValid

abbrev wide : StrHash
wide = strhash_resize other_state 1023 one_string

wide-IsValid : IsValid by_length wide
wide-IsValid =
    (resize-Keeps by_length other_state 1023 10 one_string one_string-IsValid refl (omega arith)
      (omega arith)).valid

-- The first string is sealed.
abbrev marks : ℕ → ℕ
marks zero = 0
marks (suc zero) = 0x80
marks _ = 0

abbrev relinked : StrHash × StrHash
relinked = uj_strhash_relink marks other_state two_strings fresh

two_strings-IsValid : IsValid by_length two_strings
two_strings-IsValid =
    (uj_strhash_add-IsValid by_length other_state end_ one_string one_string-IsValid refl).0
