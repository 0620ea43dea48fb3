-- ===== src/Match/Find.antt =====
-- string.find and string.match: the search from each offset, and what is pushed on the stack.
use luavela.Base.{
  ℕ, zero, suc, ◌+◌, ◌-◌, ◌%◌, ◌^◌, Bool, true, false, not, ◌&&◌, ◌||◌, Option, none, some,
}
use luavela.Base.{List, [], ◌∷◌, ltb, leb, ◌==◌, if◌then◌else◌, length, take, drop, get_or}
use luavela.Cstr.{uj_cstr_find}
use luavela.Str.{uj_str_has_pattern_specials}
use luavela.Match.{Outcome, ok, throw, ◌>>=◌, peek, next, unfinished, position, closed}
use luavela.Match.{MatchState, strcapi, strcapu}
use luavela.Match.Engine.{do_match}

-- What is pushed: integers are bit patterns of 32 bits, offsets in the subject are not reduced.
pub data Pushed : Type 0 where
  nil : Pushed
  text : List ℕ → Pushed
  int : ℕ → Pushed

-- `lua_pushlstring(s, e - s)`.
abbrev pub substring : List ℕ → ℕ → ℕ → Pushed
substring src s n = text (take n (drop s src))

-- `whole` is the `s` and `e` of the source: absent where they are NULL.
unfoldable pub push_onecapture : MatchState → ℕ → ℕ × ℕ → Outcome Pushed
push_onecapture ms i (s, e) =
    let c = get_or ms.capture i (record { init = 0; len = unfinished }) in
    if leb (length ms.capture) i
    then (if i == 0 then ok (substring ms.src s (e - s)) else throw strcapi)
    else elim c.len [
      | unfinished ↦ throw strcapu
      | position ↦ ok (int (c.init + 1))
      | closed l ↦ ok (substring ms.src c.init l)
    ]

-- The loop of `push_captures`, with `left` captures to push.
unfoldable pub push_from : MatchState → ℕ → ℕ → ℕ × ℕ → Outcome (List Pushed)
push_from ms zero i whole = ok []
push_from ms (suc left) i whole =
    push_onecapture ms i whole >>= λ v. push_from ms left (i + 1) whole >>= λ vs. ok (v ∷ vs)

unfoldable pub push_captures : MatchState → Option (ℕ × ℕ) → Outcome (List Pushed)
push_captures ms none = push_from ms (length ms.capture) 0 (0, 0)
push_captures ms (some whole) =
    push_from ms (if length ms.capture == 0 then 1 else length ms.capture) 0 whole

abbrev pub found : Bool → ℕ → ℕ → MatchState → Outcome (List Pushed)
found find s q ms =
    if find
    then (push_captures ms none >>= λ vs. ok (int (s + 1) ∷ int q ∷ vs))
    else push_captures ms (some (s, q))

-- What follows a try at the offset `s`; `retry` is what the loop does if it failed.
abbrev pub after_try :
    Bool → ℕ → Outcome (List Pushed) → Option ℕ × MatchState → Outcome (List Pushed)
after_try find s retry (none, ms) = retry
after_try find s retry (some q, ms) = found find s q ms

-- The loop of `str_find_aux`, at the offset `s` with `left` characters behind it.
unfoldable pub search : Bool → Bool → List ℕ → ℕ → ℕ → List ℕ → Outcome (List Pushed)
search find anchor src zero s p =
    do_match (record { src = src; depth = 0; capture = [] }) s p
    >>= after_try find s (ok (nil ∷ []))
search find anchor src (suc left) s p =
    do_match (record { src = src; depth = 0; capture = [] }) s p >>= λ r.
    after_try find s
      (elim anchor [ true ↦ ok (nil ∷ []) | false ↦ search find anchor src left (s + 1) p ]) r

-- `init` is the bit pattern of an int32_t; the offset that the search starts from.
unfoldable pub start_offset : ℕ → ℕ → ℕ
start_offset init len =
    let moved = if ltb init (2 ^ 31) then init + 2 ^ 32 - 1 else init + len in
    let i = moved % 2 ^ 32 in
    let from = if ltb i (2 ^ 31) then i else 0 in if ltb len from then len else from

-- What is pushed for a fixed string of `n` characters, found or not behind `init`.
abbrev pub plain_answer : ℕ → ℕ → Option ℕ → List Pushed
plain_answer init n none = nil ∷ []
plain_answer init n (some q) = int ((init + q + 1) % 2 ^ 32) ∷ int ((init + q + n) % 2 ^ 32) ∷ []

unfoldable pub find_plain : List ℕ → List ℕ → ℕ → List Pushed
find_plain s p init = plain_answer init (length p) (uj_cstr_find (drop init s) p)

unfoldable pub find_pattern : Bool → List ℕ → List ℕ → ℕ → Outcome (List Pushed)
find_pattern find s p init =
    if peek p == b'^'
    then search find true s (length s - init) init (next p)
    else search find false s (length s - init) init p

unfoldable pub str_find_aux : Bool → List ℕ → List ℕ → ℕ → Bool → Outcome (List Pushed)
str_find_aux find s p init plain =
    let start = start_offset init (length s) in
    if find && (plain || not (uj_str_has_pattern_specials p))
    then ok (find_plain s p start)
    else find_pattern find s p start
