-- ===== src/Tests/Patterns.antt =====
-- The pattern matcher at concrete arguments.
use luavela.Base.{
  ◌≤◌, ◌+◌, ℕ, ◌^◌, ◌-◌, ◌≡◌, refl, true, false, List, [], ◌∷◌, length, leb, not, ◌&&◌, ◌||◌, ◌==◌,
  arith,
}
use luavela.Chars.{
  lj_char_isa, lj_char_cntrl, lj_char_space, lj_char_punct, lj_char_digit, lj_char_casecmp,
  lj_char_tolower,
}
use luavela.Chars.{lj_char_xdigit, lj_char_upper, lj_char_lower, lj_char_ident, lj_char_alpha}
use luavela.Chars.{lj_char_alnum, lj_char_graph}
use luavela.Chars.Ascii.{is, between, is_digit, is_upper, is_lower, is_alnum, lj_char_isa_lem}
use luavela.Match.{ok, throw, MatchState, strpatm}
use luavela.Match.Bounds.{Ends, Good, IsValid}
use luavela.Match.Bounds.Steps.{do_match-Good}
use luavela.Match.Engine.{
  do_match, match_init, match_step, match_item, match_quantified, max_expand, min_expand,
}
use luavela.Match.Engine.{
  count_single, expand_down, expand_up, start_capture, end_capture, capture_to_close,
  close_and_match, match_capture, check_capture, read_capture,
}
use luavela.Match.Single.{
  singlematch, classend, matchbracketclass, bracket_loop, bracket_end, match_class,
}
use luavela.Match.Find.{
  text, int, str_find_aux, find_pattern, find_plain, search, push_captures, push_from,
  push_onecapture, start_offset,
}
use luavela.Match.Fixed.{find_pattern-find_plain}
use luavela.Match.Gmatch.{gmatch_loop, string_gmatch_aux, iterate, all_matches, all_matches-Ends}
use luavela.Match.Gsub.{by_string, string_gsub, gsub_loop, replaced, moved, add_value, add_s}
use luavela.Match.Replace.{Counted, string_gsub-Counted, whole_match, string_gsub_whole}
use luavela.Match.Search.{Answers, str_find_aux-Answers}
use luavela.Str.{uj_str_has_pattern_specials, strchr}
use luavela.Cstr.{uj_cstr_find, find_fitting, find_loop, memchr, starts_with}

abbrev key_value : List ℕ
key_value = b' ' ∷ b'k' ∷ b'=' ∷ b'4' ∷ b'2' ∷ []

-- "(%a)=(%d+)"
abbrev assignment : List ℕ
assignment = b'(' ∷ b'%' ∷ b'a' ∷ b')' ∷ b'=' ∷ b'(' ∷ b'%' ∷ b'd' ∷ b'+' ∷ b')' ∷ []

program : Unit {0}
unfolding str_find_aux find_pattern find_plain search push_captures push_from push_onecapture
    start_offset do_match match_init match_step match_item match_quantified max_expand min_expand
    count_single expand_down expand_up start_capture end_capture capture_to_close close_and_match
    match_capture check_capture read_capture singlematch classend matchbracketclass bracket_loop
    bracket_end match_class lj_char_isa uj_str_has_pattern_specials strchr uj_cstr_find find_fitting
    find_loop memchr starts_with
program = tt

assignment_found :
    str_find_aux true key_value assignment 1 false
    ≡ ok (int 2 ∷ int 5 ∷ text (b'k' ∷ []) ∷ text (b'4' ∷ b'2' ∷ []) ∷ [])
unfolding program
assignment_found = refl

assignment_captures :
    str_find_aux false key_value assignment 1 false
    ≡ ok (text (b'k' ∷ []) ∷ text (b'4' ∷ b'2' ∷ []) ∷ [])
unfolding program
assignment_captures = refl

last_equals : str_find_aux true key_value (b'=' ∷ []) (2 ^ 32 - 3) false ≡ ok (int 3 ∷ int 3 ∷ [])
unfolding program
last_equals = refl

open_bracket : str_find_aux true key_value (b'[' ∷ b'a' ∷ []) 1 false ≡ throw strpatm
unfolding program
open_bracket = refl

-- The shortest repetition, "=.-2".
shortest :
    str_find_aux true key_value (b'=' ∷ b'.' ∷ b'-' ∷ b'2' ∷ []) 1 false ≡ ok (int 3 ∷ int 5 ∷ [])
unfolding program
shortest = refl

str_find_aux-Answers_example :
    Ends (Answers true (length key_value)) (str_find_aux true key_value assignment 1 false)
str_find_aux-Answers_example = str_find_aux-Answers true key_value assignment 1 false (omega arith)

abbrev at_key : MatchState
at_key = record { src = key_value; depth = 0; capture = [] }

at_key-IsValid : IsValid at_key 1
at_key-IsValid = record { inside = omega arith; captured = tt; few = omega arith }

do_match-Good_example : Ends (Good at_key 1) (do_match at_key 1 assignment)
do_match-Good_example = do_match-Good at_key 1 assignment at_key-IsValid

abbrev equals_four : List ℕ
equals_four = b'=' ∷ b'4' ∷ []

equals_four_unspecial : uj_str_has_pattern_specials equals_four ≡ false
unfolding uj_str_has_pattern_specials lj_char_isa strchr
equals_four_unspecial = refl

find_pattern-find_plain_example :
    find_pattern true key_value equals_four 1 ≡ ok (find_plain key_value equals_four 1)
find_pattern-find_plain_example =
    find_pattern-find_plain key_value equals_four 1 (omega arith) (omega arith)
      equals_four_unspecial (omega arith)

lj_char_isa_lem_example :
    (is b'_' lj_char_cntrl ≡ (leb b'_' 31 || b'_' == 127))
    × (is b'_' lj_char_space ≡ (b'_' == b' ' || between 9 13 b'_'))
    × (is b'_' lj_char_punct ≡ (between 33 126 b'_' && not (is_alnum b'_')))
    × (is b'_' lj_char_digit ≡ is_digit b'_')
    × (is b'_' lj_char_xdigit ≡ (is_digit b'_' || between b'a' b'f' b'_' || between b'A' b'F' b'_'))
    × (is b'_' lj_char_upper ≡ is_upper b'_')
    × (is b'_' lj_char_lower ≡ is_lower b'_')
    × (is b'_' lj_char_ident ≡ (is_alnum b'_' || b'_' == b'_' || leb 128 b'_'))
    × (is b'_' lj_char_alpha ≡ (is_upper b'_' || is_lower b'_'))
    × (is b'_' lj_char_alnum ≡ is_alnum b'_')
    × (is b'_' lj_char_graph ≡ between 33 126 b'_')
lj_char_isa_lem_example = lj_char_isa_lem b'_' (omega arith)

same_letter : lj_char_casecmp b'Q' b'q' ≡ true
unfolding lj_char_casecmp lj_char_tolower lj_char_isa
same_letter = refl

-- gsub(" k=42", "%d", "<%0>")
abbrev marked : List ℕ
marked = b'<' ∷ b'%' ∷ b'0' ∷ b'>' ∷ []

abbrev digit : List ℕ
digit = b'%' ∷ b'd' ∷ []

digits_marked :
    string_gsub (by_string marked) key_value digit 99
    ≡ ok (b' ' ∷ b'k' ∷ b'=' ∷ b'<' ∷ b'4' ∷ b'>' ∷ b'<' ∷ b'2' ∷ b'>' ∷ [], 2)
unfolding program string_gsub gsub_loop replaced moved add_value add_s
digits_marked = refl

-- A replacement that ends in `%` adds the 0 behind it.
percent_at_end : string_gsub (by_string (b'%' ∷ [])) (b'4' ∷ []) digit 99 ≡ ok (0 ∷ [], 1)
unfolding program string_gsub gsub_loop replaced moved add_value add_s
percent_at_end = refl

string_gsub-Counted_example :
    Ends (Counted key_value 99) (string_gsub (by_string marked) key_value digit 99)
string_gsub-Counted_example = string_gsub-Counted (by_string marked) key_value digit 99

string_gsub_whole_example :
    Ends
      (λ r. (r.0 ≡ key_value) × Counted key_value 99 r)
      (string_gsub (by_string whole_match) key_value digit 99)
string_gsub_whole_example = string_gsub_whole key_value digit 99

-- An empty match moves the iterator on by one: "%d*" in "4a".
empty_matches :
    all_matches (b'4' ∷ b'a' ∷ []) (b'%' ∷ b'd' ∷ b'*' ∷ [])
    ≡ ok ((text (b'4' ∷ []) ∷ []) ∷ (text [] ∷ []) ∷ (text [] ∷ []) ∷ [])
unfolding program all_matches iterate string_gmatch_aux gmatch_loop
empty_matches = refl

all_matches-Ends_example :
    Ends (λ vss. length vss ≤ length key_value + 1) (all_matches key_value digit)
all_matches-Ends_example = all_matches-Ends key_value digit (omega arith)
