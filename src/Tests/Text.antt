-- ===== src/Tests/Text.antt =====
-- Numbers printed and text searched, at concrete arguments.
use luavela.Base.{ℕ, ◌^◌, ◌-◌, ◌≡◌, refl, some, none, List, [], ◌∷◌, ltb, if◌then◌else◌, arith}
use luavela.Cstr.{uj_cstr_fromint, uj_cstr_find, find_fitting, find_loop, memchr, starts_with}
use luavela.Cstr.{print_unsigned, cstr_print_four_digits, cstr_print_two_digits}
use luavela.Cstr.Decimal.{IsDecimal, uj_cstr_fromint-IsDecimal}
use luavela.Cstr.Find.{IsFirst, uj_cstr_find-IsFirst}

abbrev minus_twelve : ℕ
minus_twelve = 2 ^ 32 - 12

minus_twelve_text : uj_cstr_fromint minus_twelve ≡ b'-' ∷ b'1' ∷ b'2' ∷ []
unfolding uj_cstr_fromint print_unsigned cstr_print_four_digits
minus_twelve_text = refl

million_text :
    uj_cstr_fromint 1234567890
    ≡ b'1' ∷ b'2' ∷ b'3' ∷ b'4' ∷ b'5' ∷ b'6' ∷ b'7' ∷ b'8' ∷ b'9' ∷ b'0' ∷ []
unfolding uj_cstr_fromint print_unsigned cstr_print_four_digits cstr_print_two_digits
million_text = refl

uj_cstr_fromint-IsDecimal_example :
    (ds : List ℕ) × (uj_cstr_fromint minus_twelve
      ≡ (if ltb minus_twelve (2 ^ 31) then ds else b'-' ∷ ds))
    × IsDecimal (if ltb minus_twelve (2 ^ 31) then minus_twelve else 2 ^ 32 - minus_twelve) ds
uj_cstr_fromint-IsDecimal_example = uj_cstr_fromint-IsDecimal minus_twelve (omega arith)

abbrev banana : List ℕ
banana = b'b' ∷ b'a' ∷ b'n' ∷ b'a' ∷ b'n' ∷ b'a' ∷ []

nana_at_two : uj_cstr_find banana (b'n' ∷ b'a' ∷ []) ≡ some 2
unfolding uj_cstr_find find_fitting find_loop memchr starts_with
nana_at_two = refl

nothing_after_the_end : uj_cstr_find banana (b'a' ∷ b'n' ∷ b'n' ∷ []) ≡ none
unfolding uj_cstr_find find_fitting find_loop memchr starts_with
nothing_after_the_end = refl

uj_cstr_find-IsFirst_example :
    IsFirst banana (b'n' ∷ b'a' ∷ []) (uj_cstr_find banana (b'n' ∷ b'a' ∷ []))
uj_cstr_find-IsFirst_example = uj_cstr_find-IsFirst banana (b'n' ∷ b'a' ∷ [])
