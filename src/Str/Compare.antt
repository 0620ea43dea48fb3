-- ===== src/Str/Compare.antt =====
-- uj_str_cmp: the order of texts, found by words of four bytes. A pointer into a text is the
-- rest of the text from there on; `beyond` is what the memory holds behind the final 0.
use luavela.Base.{ℕ, zero, suc, ◌+◌, ◌-◌, ◌*◌, ◌/◌, ◌%◌, ◌^◌}
use luavela.Base.{◌||◌}
use luavela.Base.{List, [], ◌∷◌, ◌==◌, ltb, leb, if◌then◌else◌, length, drop}

unfoldable pub byte_at : List ℕ → (ℕ → ℕ) → ℕ → ℕ
byte_at [] beyond zero = 0
byte_at [] beyond (suc i) = beyond i
byte_at (c ∷ s) beyond zero = c
byte_at (c ∷ s) beyond (suc i) = byte_at s beyond i

-- `*(const uint32_t *)p`
unfoldable pub read_word : List ℕ → (ℕ → ℕ) → ℕ
read_word s beyond =
    byte_at s beyond 0
    + byte_at s beyond 1 * 2 ^ 8
    + byte_at s beyond 2 * 2 ^ 16
    + byte_at s beyond 3 * 2 ^ 24

unfoldable pub lj_bswap : ℕ → ℕ
lj_bswap x =
    x % 2 ^ 8 * 2 ^ 24 + x / 2 ^ 8 % 2 ^ 8 * 2 ^ 16 + x / 2 ^ 16 % 2 ^ 8 * 2 ^ 8 + x / 2 ^ 24

-- Two words that differ, with `i` less than `n`; results are bit patterns of an int32_t, and
-- `diff` is the one for words that do not differ in the text.
unfoldable pub words_differ : ℕ → ℕ → ℕ → ℕ → ℕ → ℕ
words_differ i n va vb diff =
    let left = (i + 2 ^ 64 - n) % 2 ^ 64 in
    let near = leb (2 ^ 32 - 3) (left % 2 ^ 32) || ltb (left % 2 ^ 32) (2 ^ 31) in
    let shift = (32 + left * 2 ^ 3 % 2 ^ 64) % 2 ^ 64 in
    let wa = if near then lj_bswap va / 2 ^ shift else lj_bswap va in
    let wb = if near then lj_bswap vb / 2 ^ shift else lj_bswap vb in
    if wa == wb then diff else if ltb wa wb then 2 ^ 32 - 1 else 1

-- The loop, which turns at most `turns` times.
unfoldable pub cmp_words : ℕ → ℕ → ℕ → List ℕ → (ℕ → ℕ) → List ℕ → (ℕ → ℕ) → ℕ → ℕ
cmp_words zero i n a beyond_a b beyond_b diff = diff
cmp_words (suc turns) i n a beyond_a b beyond_b diff =
    let va = read_word a beyond_a in
    let vb = read_word b beyond_b in
    let more = cmp_words turns (i + 4) n (drop 4 a) beyond_a (drop 4 b) beyond_b diff in
    if ltb i n then (if va == vb then more else words_differ i n va vb diff) else diff

unfoldable pub uj_str_cmp : List ℕ → (ℕ → ℕ) → List ℕ → (ℕ → ℕ) → ℕ
uj_str_cmp a beyond_a b beyond_b =
    let n = if ltb (length b) (length a) then length b else length a in
    cmp_words n 0 n a beyond_a b beyond_b ((length a + 2 ^ 64 - length b) % 2 ^ 64 % 2 ^ 32)

pub data Order : Type 0 where
  less same greater : Order

abbrev pub order : ℕ → ℕ → Order
order x y = if x == y then same else if ltb x y then less else greater

-- The order of a dictionary.
abbrev pub or_then : Order → Order → Order
or_then less later = less
or_then same later = later
or_then greater later = greater

unfoldable pub dictionary : List ℕ → List ℕ → Order
dictionary [] [] = same
dictionary [] (y ∷ ys) = less
dictionary (x ∷ xs) [] = greater
dictionary (x ∷ xs) (y ∷ ys) = or_then (order x y) (dictionary xs ys)

-- What an int32_t says of two texts.
abbrev pub sign : ℕ → Order
sign r = if r == 0 then same else if ltb r (2 ^ 31) then greater else less
