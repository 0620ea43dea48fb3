-- ===== src/Cstr.antt =====
-- src/uj_cstr.c: printing 32-bit integers and searching text. A text is the list of its
-- characters; a printer returns the characters that it wrote.
pub mod Decimal
pub mod Turns
pub mod Find
use luavela.Base.{ℕ, zero, suc, ◌+◌, ◌-◌, ◌/◌, ◌%◌, ◌^◌, ◌≤◌, Bool, true, false, ◌&&◌, not}
use luavela.Base.{
  Option, none, some, List, [], ◌∷◌, ◌++◌, ltb, leb, ◌==◌, if◌then◌else◌, length, drop,
}

-- The four entries of `cstr_print_four_digits`: from a label on.
abbrev pub dig1 : ℕ → List ℕ
dig1 u = (b'0' + u) ∷ []

abbrev pub dig2 : ℕ → List ℕ
dig2 u = (b'0' + u / 10) ∷ dig1 (u % 10)

abbrev pub dig3 : ℕ → List ℕ
dig3 u = (b'0' + u / 100) ∷ dig2 (u % 100)

abbrev pub dig4 : ℕ → List ℕ
dig4 u = (b'0' + u / 1000) ∷ dig3 (u % 1000)

unfoldable pub cstr_print_four_digits : ℕ → Bool → List ℕ
cstr_print_four_digits u padded =
    if not padded && ltb u 10
    then dig1 u
    else if not padded && ltb u 100
    then dig2 u
    else if not padded && ltb u 1000
    then dig3 u
    else dig4 u

unfoldable pub cstr_print_two_digits : ℕ → List ℕ
cstr_print_two_digits u = if leb 10 u then dig2 u else dig1 u

-- `u = -k` on the bit pattern of a negative int32_t.
abbrev pub negated : ℕ → ℕ
negated k = (2 ^ 32 - k) % 2 ^ 32

-- What follows the sign.
unfoldable pub print_unsigned : ℕ → List ℕ
print_unsigned u =
    let med = u / 10000 in
    let lo = u % 10000 in
    if ltb u 10000
    then cstr_print_four_digits u false
    else if ltb med 10000
    then cstr_print_four_digits med false ++ cstr_print_four_digits lo true
    else cstr_print_two_digits (med / 10000)
      ++ (cstr_print_four_digits (med % 10000) true ++ cstr_print_four_digits lo true)

-- `k` is the bit pattern of an int32_t.
unfoldable pub uj_cstr_fromint : ℕ → List ℕ
uj_cstr_fromint k = if ltb k (2 ^ 31) then print_unsigned k else b'-' ∷ print_unsigned (negated k)

-- `memchr`: the position of the first `c` among the first `n` characters.
unfoldable pub memchr : ℕ → List ℕ → ℕ → Option ℕ
memchr c text zero = none
memchr c [] (suc n) = none
memchr c (x ∷ text) (suc n) =
    let later = memchr c text n in
    if x == c then some 0 else elim later [ none ↦ none | some i ↦ some (1 + i) ]

-- `memcmp(text, needle, needlelen) == 0`, false past the end of the text.
unfoldable pub starts_with : List ℕ → List ℕ → Bool
starts_with [] text = true
starts_with (c ∷ needle) [] = false
starts_with (c ∷ needle) (x ∷ text) = c == x && starts_with needle text

-- The loop of `uj_cstr_find`, which turns at most `haystacklen` times. `off` is how far
-- `haystack` has moved; the result is an offset into the original text.
unfoldable pub find_loop : ℕ → ℕ → List ℕ → ℕ → List ℕ → ℕ → Option ℕ
find_loop zero c needle off haystack haystacklen = none
find_loop (suc turns) c needle off haystack haystacklen = elim (memchr c haystack haystacklen) [
  | none ↦ none
  | some p ↦
      let more =
        find_loop turns c needle (off + suc p) (drop (suc p) haystack) (haystacklen - suc p) in
      if starts_with needle (drop (suc p) haystack) then some (off + p) else more
]

-- The rest of `uj_cstr_find`, where the needle is not too long.
unfoldable pub find_fitting : List ℕ → List ℕ → Option ℕ
find_fitting haystack [] = some 0
find_fitting haystack (c ∷ rest) =
    let tries = length haystack - length rest in find_loop tries c rest 0 haystack tries

-- `haystacklen` and `needlelen` are the lengths of the two texts.
unfoldable pub uj_cstr_find : List ℕ → List ℕ → Option ℕ
uj_cstr_find haystack needle =
    if ltb (length haystack) (length needle) then none else find_fitting haystack needle
