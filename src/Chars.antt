-- ===== src/Chars.antt =====
-- src/utils/lj_char.c and lj_char.h: the classes of characters, by a table.
pub mod Ascii
use luavela.Base.{ℕ, ◌+◌, ◌-◌, Bool, not, ◌&&◌, bit_and, bit_xor, List, [], ◌∷◌, leb, ◌==◌}
use luavela.Base.{if◌then◌else◌, get_or}

abbrev pub lj_char_cntrl : ℕ
lj_char_cntrl = 0x01

abbrev pub lj_char_space : ℕ
lj_char_space = 0x02

abbrev pub lj_char_punct : ℕ
lj_char_punct = 0x04

abbrev pub lj_char_digit : ℕ
lj_char_digit = 0x08

abbrev pub lj_char_xdigit : ℕ
lj_char_xdigit = 0x10

abbrev pub lj_char_upper : ℕ
lj_char_upper = 0x20

abbrev pub lj_char_lower : ℕ
lj_char_lower = 0x40

abbrev pub lj_char_ident : ℕ
lj_char_ident = 0x80

abbrev pub lj_char_alpha : ℕ
lj_char_alpha = lj_char_lower + lj_char_upper

abbrev pub lj_char_alnum : ℕ
lj_char_alnum = lj_char_alpha + lj_char_digit

abbrev pub lj_char_graph : ℕ
lj_char_graph = lj_char_alnum + lj_char_punct

-- The entry of -1 stands first.
unfoldable pub lj_char_bits : List ℕ
lj_char_bits =
    0 ∷ 1 ∷ 1 ∷ 1 ∷ 1 ∷ 1 ∷ 1 ∷ 1 ∷ 1 ∷ 1 ∷ 3 ∷ 3 ∷ 3 ∷ 3 ∷ 3 ∷ 1 ∷ 1 ∷ 1 ∷ 1 ∷ 1 ∷ 1 ∷ 1 ∷ 1 ∷ 1
    ∷ 1 ∷ 1 ∷ 1 ∷ 1 ∷ 1 ∷ 1 ∷ 1 ∷ 1 ∷ 1 ∷ 2 ∷ 4 ∷ 4 ∷ 4 ∷ 4 ∷ 4 ∷ 4 ∷ 4 ∷ 4 ∷ 4 ∷ 4 ∷ 4 ∷ 4 ∷ 4 ∷ 4
    ∷ 4 ∷ 152 ∷ 152 ∷ 152 ∷ 152 ∷ 152 ∷ 152 ∷ 152 ∷ 152 ∷ 152 ∷ 152 ∷ 4 ∷ 4 ∷ 4 ∷ 4 ∷ 4 ∷ 4 ∷ 4
    ∷ 176 ∷ 176 ∷ 176 ∷ 176 ∷ 176 ∷ 176 ∷ 160 ∷ 160 ∷ 160 ∷ 160 ∷ 160 ∷ 160 ∷ 160 ∷ 160 ∷ 160 ∷ 160
    ∷ 160 ∷ 160 ∷ 160 ∷ 160 ∷ 160 ∷ 160 ∷ 160 ∷ 160 ∷ 160 ∷ 160 ∷ 4 ∷ 4 ∷ 4 ∷ 4 ∷ 132 ∷ 4 ∷ 208
    ∷ 208 ∷ 208 ∷ 208 ∷ 208 ∷ 208 ∷ 192 ∷ 192 ∷ 192 ∷ 192 ∷ 192 ∷ 192 ∷ 192 ∷ 192 ∷ 192 ∷ 192 ∷ 192
    ∷ 192 ∷ 192 ∷ 192 ∷ 192 ∷ 192 ∷ 192 ∷ 192 ∷ 192 ∷ 192 ∷ 4 ∷ 4 ∷ 4 ∷ 4 ∷ 1 ∷ 128 ∷ 128 ∷ 128
    ∷ 128 ∷ 128 ∷ 128 ∷ 128 ∷ 128 ∷ 128 ∷ 128 ∷ 128 ∷ 128 ∷ 128 ∷ 128 ∷ 128 ∷ 128 ∷ 128 ∷ 128 ∷ 128
    ∷ 128 ∷ 128 ∷ 128 ∷ 128 ∷ 128 ∷ 128 ∷ 128 ∷ 128 ∷ 128 ∷ 128 ∷ 128 ∷ 128 ∷ 128 ∷ 128 ∷ 128 ∷ 128
    ∷ 128 ∷ 128 ∷ 128 ∷ 128 ∷ 128 ∷ 128 ∷ 128 ∷ 128 ∷ 128 ∷ 128 ∷ 128 ∷ 128 ∷ 128 ∷ 128 ∷ 128 ∷ 128
    ∷ 128 ∷ 128 ∷ 128 ∷ 128 ∷ 128 ∷ 128 ∷ 128 ∷ 128 ∷ 128 ∷ 128 ∷ 128 ∷ 128 ∷ 128 ∷ 128 ∷ 128 ∷ 128
    ∷ 128 ∷ 128 ∷ 128 ∷ 128 ∷ 128 ∷ 128 ∷ 128 ∷ 128 ∷ 128 ∷ 128 ∷ 128 ∷ 128 ∷ 128 ∷ 128 ∷ 128 ∷ 128
    ∷ 128 ∷ 128 ∷ 128 ∷ 128 ∷ 128 ∷ 128 ∷ 128 ∷ 128 ∷ 128 ∷ 128 ∷ 128 ∷ 128 ∷ 128 ∷ 128 ∷ 128 ∷ 128
    ∷ 128 ∷ 128 ∷ 128 ∷ 128 ∷ 128 ∷ 128 ∷ 128 ∷ 128 ∷ 128 ∷ 128 ∷ 128 ∷ 128 ∷ 128 ∷ 128 ∷ 128 ∷ 128
    ∷ 128 ∷ 128 ∷ 128 ∷ 128 ∷ 128 ∷ 128 ∷ 128 ∷ 128 ∷ 128 ∷ 128 ∷ 128 ∷ 128 ∷ 128 ∷ []

-- `(lj_char_bits+1)[c] & t`, for a character.
unfoldable pub lj_char_isa : ℕ → ℕ → ℕ
unfolding lj_char_bits
lj_char_isa c t = bit_and (get_or lj_char_bits (c + 1) 0) t

abbrev pub case_bit : ℕ
case_bit = 0x20

unfoldable pub lj_char_tolower : ℕ → ℕ
lj_char_tolower c = if leb b'A' c && leb c b'Z' then c + case_bit else c

unfoldable pub lj_char_toupper : ℕ → ℕ
lj_char_toupper c = if leb b'a' c && leb c b'z' then c - case_bit else c

unfoldable pub lj_char_casecmp : ℕ → ℕ → Bool
unfolding lj_char_tolower
lj_char_casecmp c sample = lj_char_tolower c == sample

unfoldable pub lj_char_flipcase : ℕ → ℕ
lj_char_flipcase c = bit_xor c case_bit
