-- ===== src/Match/Single.antt =====
-- One item of a pattern and one character.
use luavela.Base.{ℕ, ◌-◌, Bool, true, false, not, ◌&&◌, List, [], ◌∷◌, bit_and}
use luavela.Base.{leb, ◌==◌, if◌then◌else◌, length, take, get_or}
use luavela.Chars.{lj_char_isa, lj_char_cntrl, lj_char_space, lj_char_punct, lj_char_digit}
use luavela.Chars.{lj_char_xdigit, lj_char_upper, lj_char_lower, lj_char_alpha, lj_char_alnum}
use luavela.Chars.{lj_char_graph}
use luavela.Match.{Outcome, ok, throw, strpate, strpatm, peek, next}

abbrev pub l_esc : ℕ
l_esc = b'%'

-- The loop of `classend`, at the first character that it reads.
unfoldable pub bracket_end : List ℕ → Outcome (List ℕ)
bracket_end [] = throw strpatm
bracket_end (c ∷ []) = throw strpatm
bracket_end (c ∷ d ∷ p) =
    let skip = if peek p == b']' then ok (next p) else bracket_end p in
    let stay = if d == b']' then ok p else bracket_end (d ∷ p) in
    if c == 0 then throw strpatm else if c == l_esc && not (d == 0) then skip else stay

unfoldable pub classend : List ℕ → Outcome (List ℕ)
classend p =
    let q = next p in
    if peek p == l_esc
    then (if peek q == 0 then throw strpate else ok (next q))
    else if peek p == b'['
    then bracket_end (if peek q == b'^' then next q else q)
    else ok q

abbrev pub match_class_map : List ℕ
match_class_map =
    0 ∷ lj_char_alpha ∷ 0 ∷ lj_char_cntrl ∷ lj_char_digit ∷ 0 ∷ 0 ∷ lj_char_graph ∷ 0 ∷ 0 ∷ 0 ∷ 0
    ∷ lj_char_lower ∷ 0 ∷ 0 ∷ 0 ∷ lj_char_punct ∷ 0 ∷ 0 ∷ lj_char_space ∷ 0 ∷ lj_char_upper ∷ 0
    ∷ lj_char_alnum ∷ lj_char_xdigit ∷ 0 ∷ 0 ∷ 0 ∷ 0 ∷ 0 ∷ 0 ∷ 0 ∷ []

unfoldable pub match_class : ℕ → ℕ → Bool
match_class c cl =
    let t = get_or match_class_map (bit_and cl 0x1f) 0 in
    let isa = not (lj_char_isa c t == 0) in
    if not (bit_and cl 0xc0 == 0x40)
    then cl == c
    else if not (t == 0)
    then (if not (bit_and cl 0x20 == 0) then isa else not isa)
    else if cl == b'z'
    then c == 0
    else if cl == b'Z'
    then not (c == 0)
    else cl == c

-- The loop of `matchbracketclass`, over the characters up to `ec`, where a `]` stands.
unfoldable pub bracket_loop : ℕ → Bool → List ℕ → Bool
bracket_loop c sig [] = not sig
bracket_loop c sig (x ∷ []) =
    if x == l_esc
    then (if match_class c b']' then sig else not sig)
    else (if x == c then sig else not sig)
bracket_loop c sig (x ∷ y ∷ []) =
    let later = bracket_loop c sig (y ∷ []) in
    if x == l_esc then (if match_class c y then sig else not sig) else if x == c then sig else later
bracket_loop c sig (x ∷ y ∷ z ∷ p) =
    let behind_escape = bracket_loop c sig (z ∷ p) in
    let behind_range = bracket_loop c sig p in
    let later = bracket_loop c sig (y ∷ z ∷ p) in
    if x == l_esc
    then (if match_class c y then sig else behind_escape)
    else if y == b'-'
    then (if leb x c && leb c z then sig else behind_range)
    else if x == c
    then sig
    else later

-- `p` points to the `[`, and `ep` behind the `]`.
unfoldable pub matchbracketclass : ℕ → List ℕ → List ℕ → Bool
matchbracketclass c p ep =
    let chars = take (length p - length ep - 2) (next p) in
    if peek chars == b'^' then bracket_loop c false (next chars) else bracket_loop c true chars

unfoldable pub singlematch : ℕ → List ℕ → List ℕ → Bool
singlematch c p ep =
    if peek p == b'.'
    then true
    else if peek p == l_esc
    then match_class c (peek (next p))
    else if peek p == b'['
    then matchbracketclass c p ep
    else peek p == c
