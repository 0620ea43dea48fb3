-- ===== src/Chars/Ascii.antt =====
-- The classes are those of ASCII.
use luavela.Base.{ℕ, ◌<◌, ◌≡◌, refl, Bool, true, false, not, ◌&&◌, ◌||◌, leb, ◌==◌, arith}
use luavela.Base.Bits.{all_below, all_below_sound}
use luavela.Chars.{lj_char_isa, lj_char_cntrl, lj_char_space, lj_char_punct, lj_char_digit}
use luavela.Chars.{lj_char_xdigit, lj_char_upper, lj_char_lower, lj_char_ident, lj_char_alpha}
use luavela.Chars.{lj_char_alnum, lj_char_graph}

abbrev pub between : ℕ → ℕ → ℕ → Bool
between lo hi c = leb lo c && leb c hi

abbrev pub is_digit : ℕ → Bool
is_digit c = between b'0' b'9' c

abbrev pub is_upper : ℕ → Bool
is_upper c = between b'A' b'Z' c

abbrev pub is_lower : ℕ → Bool
is_lower c = between b'a' b'z' c

abbrev pub is_alnum : ℕ → Bool
is_alnum c = is_digit c || is_upper c || is_lower c

-- `c` is of a class of `t`.
abbrev pub is : ℕ → ℕ → Bool
is c t = not (lj_char_isa c t == 0)

infix 20 ◌=b◌
abbrev ◌=b◌ : Bool → Bool → Bool
true =b b = b
false =b b = not b

=b→eq : (a b : Bool) → a =b b ≡ true → a ≡ b
=b→eq a b h = ground arith

cntrl_table : all_below (λ c. is c lj_char_cntrl =b (leb c 31 || c == 127)) 256 ≡ true
unfolding all_below lj_char_isa
cntrl_table = refl

space_table : all_below (λ c. is c lj_char_space =b (c == b' ' || between 9 13 c)) 256 ≡ true
unfolding all_below lj_char_isa
space_table = refl

punct_table :
    all_below (λ c. is c lj_char_punct =b (between 33 126 c && not (is_alnum c))) 256 ≡ true
unfolding all_below lj_char_isa
punct_table = refl

digit_table : all_below (λ c. is c lj_char_digit =b is_digit c) 256 ≡ true
unfolding all_below lj_char_isa
digit_table = refl

xdigit_table :
    all_below
      (λ c. is c lj_char_xdigit =b (is_digit c || between b'a' b'f' c || between b'A' b'F' c))
      256
    ≡ true
unfolding all_below lj_char_isa
xdigit_table = refl

upper_table : all_below (λ c. is c lj_char_upper =b is_upper c) 256 ≡ true
unfolding all_below lj_char_isa
upper_table = refl

lower_table : all_below (λ c. is c lj_char_lower =b is_lower c) 256 ≡ true
unfolding all_below lj_char_isa
lower_table = refl

ident_table :
    all_below (λ c. is c lj_char_ident =b (is_alnum c || c == b'_' || leb 128 c)) 256 ≡ true
unfolding all_below lj_char_isa
ident_table = refl

alpha_table : all_below (λ c. is c lj_char_alpha =b (is_upper c || is_lower c)) 256 ≡ true
unfolding all_below lj_char_isa
alpha_table = refl

alnum_table : all_below (λ c. is c lj_char_alnum =b is_alnum c) 256 ≡ true
unfolding all_below lj_char_isa
alnum_table = refl

graph_table : all_below (λ c. is c lj_char_graph =b between 33 126 c) 256 ≡ true
unfolding all_below lj_char_isa
graph_table = refl

-- For a byte, each class of the table is the one of ASCII; identifiers have the bytes from 128
-- on too, and a character that prints, other than the space, is punctuation if it is no letter
-- and no digit.
pub lj_char_isa_lem :
    (c : ℕ)
    → c < 256
    → (is c lj_char_cntrl ≡ (leb c 31 || c == 127))
      × (is c lj_char_space ≡ (c == b' ' || between 9 13 c))
      × (is c lj_char_punct ≡ (between 33 126 c && not (is_alnum c)))
      × (is c lj_char_digit ≡ is_digit c)
      × (is c lj_char_xdigit ≡ (is_digit c || between b'a' b'f' c || between b'A' b'F' c))
      × (is c lj_char_upper ≡ is_upper c)
      × (is c lj_char_lower ≡ is_lower c)
      × (is c lj_char_ident ≡ (is_alnum c || c == b'_' || leb 128 c))
      × (is c lj_char_alpha ≡ (is_upper c || is_lower c))
      × (is c lj_char_alnum ≡ is_alnum c)
      × (is c lj_char_graph ≡ between 33 126 c)
lj_char_isa_lem c h = (
  =b→eq _ _ (all_below_sound _ 256 c cntrl_table h),
  =b→eq _ _ (all_below_sound _ 256 c space_table h),
  =b→eq _ _ (all_below_sound _ 256 c punct_table h),
  =b→eq _ _ (all_below_sound _ 256 c digit_table h),
  =b→eq _ _ (all_below_sound _ 256 c xdigit_table h),
  =b→eq _ _ (all_below_sound _ 256 c upper_table h),
  =b→eq _ _ (all_below_sound _ 256 c lower_table h),
  =b→eq _ _ (all_below_sound _ 256 c ident_table h),
  =b→eq _ _ (all_below_sound _ 256 c alpha_table h),
  =b→eq _ _ (all_below_sound _ 256 c alnum_table h),
  =b→eq _ _ (all_below_sound _ 256 c graph_table h),
)
