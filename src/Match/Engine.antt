-- ===== src/Match/Engine.antt =====
-- The recursion of `match` over a pattern.
use luavela.Base.{ℕ, zero, suc, ◌+◌, ◌-◌, Bool, true, false, not, ◌&&◌, ◌||◌, Option, none, some}
use luavela.Base.{
  List, [], ◌∷◌, ◌++◌, ltb, leb, ◌==◌, if◌then◌else◌, length, take, drop, get_or, set,
}
use luavela.Chars.{lj_char_isa, lj_char_digit}
use luavela.Cstr.{starts_with}
use luavela.Match.{
  Outcome, ok, throw, out_of_fuel, ◌>>=◌, peek, next, Capture, unfinished, position, closed,
}
use luavela.Match.{CapLen, MatchState, Result}
use luavela.Match.{strcapi, strpatc, strpatu, strcapn, strpatx, strpatb}
use luavela.Match.Single.{l_esc, classend, matchbracketclass, singlematch}

abbrev pub lua_maxcaptures : ℕ
lua_maxcaptures = 32

abbrev pub lj_max_xlevel : ℕ
lj_max_xlevel = 200

-- What is read where there is no capture.
abbrev pub no_capture : Capture
no_capture = record { init = 0; len = unfinished }

abbrev pub is_unfinished : Capture → Bool
is_unfinished c = elim c.len [ unfinished ↦ true | position ↦ false | closed n ↦ false ]

-- The entry of the capture `l`, an index from '1' on; the index itself is that less '1'.
unfoldable pub check_capture : List Capture → ℕ → Outcome Capture
check_capture capture l =
    let c = get_or capture (l - b'1') no_capture in
    if ltb l b'1' || leb (length capture) (l - b'1') || is_unfinished c then throw strcapi else ok c

-- The greatest unfinished index below `level`.
unfoldable pub capture_to_close : List Capture → ℕ → Outcome ℕ
capture_to_close capture zero = throw strpatc
capture_to_close capture (suc level) =
    let lower = capture_to_close capture level in
    if is_unfinished (get_or capture level no_capture) then ok level else lower

-- The loop of `matchbalance`: `i` is the offset of the first character.
unfoldable pub balance_loop : ℕ → ℕ → ℕ → ℕ → List ℕ → Option ℕ
balance_loop b e cont i [] = none
balance_loop b e cont i (x ∷ xs) =
    let closing = balance_loop b e (cont - 1) (i + 1) xs in
    let opening = balance_loop b e (cont + 1) (i + 1) xs in
    let other = balance_loop b e cont (i + 1) xs in
    if x == e
    then (if cont == 1 then some (i + 1) else closing)
    else if x == b
    then opening
    else other

unfoldable pub matchbalance : List ℕ → ℕ → List ℕ → Outcome (Option ℕ)
matchbalance src s p =
    if peek p == 0 || peek (next p) == 0
    then throw strpatu
    else if not (get_or src s 0 == peek p)
    then ok none
    else ok (balance_loop (peek p) (peek (next p)) 1 (s + 1) (drop (s + 1) src))

-- `call` is the function `match`, and `init` the code from the label `init` on.
abbrev pub Matcher : Type 0
Matcher = MatchState → ℕ → List ℕ → Result

-- The first loop of `max_expand`.
unfoldable pub count_single : List ℕ → List ℕ → List ℕ → ℕ
count_single p ep [] = 0
count_single p ep (x ∷ xs) =
    let more = suc (count_single p ep xs) in if singlematch x p ep then more else 0

-- What is done after a match that may have failed.
abbrev pub or_else : Option ℕ × MatchState → (MatchState → Result) → Result
or_else (some e, ms) retry = ok (some e, ms)
or_else (none, ms) retry = retry ms

-- The second loop of `max_expand`, down from `i` repetitions.
unfoldable pub expand_down : Matcher → List ℕ → ℕ → ℕ → MatchState → Result
expand_down call q s zero ms = call ms s q
expand_down call q s (suc i) ms = call ms (s + suc i) q >>= λ r. or_else r (expand_down call q s i)

unfoldable pub max_expand : Matcher → MatchState → ℕ → List ℕ → List ℕ → Result
max_expand call ms s p ep = expand_down call (next ep) s (count_single p ep (drop s ms.src)) ms

-- The loop of `min_expand`; `xs` is the subject from `s` on.
unfoldable pub expand_up : Matcher → List ℕ → List ℕ → ℕ → List ℕ → MatchState → Result
expand_up call p ep s [] ms = call ms s (next ep)
expand_up call p ep s (x ∷ xs) ms = call ms s (next ep) >>= λ r. or_else r (λ ms'.
    elim (singlematch x p ep) [
      | true ↦ expand_up call p ep (s + 1) xs ms'
      | false ↦ ok (none, ms')
    ])

unfoldable pub min_expand : Matcher → MatchState → ℕ → List ℕ → List ℕ → Result
min_expand call ms s p ep = expand_up call p ep s (drop s ms.src) ms

-- `ms->level--`.
abbrev pub undo_capture : MatchState → MatchState
undo_capture ms = record ms { capture = take (length ms.capture - 1) ms.capture }

unfoldable pub start_capture : Matcher → MatchState → ℕ → List ℕ → CapLen → Result
start_capture call ms s p what =
    let opened : MatchState = record ms {
      capture = ms.capture ++ record { init = s; len = what } ∷ [];
    } in
    if leb lua_maxcaptures (length ms.capture)
    then throw strcapn
    else (call opened s p >>= λ r. or_else r (λ ms'. ok (none, undo_capture ms')))

abbrev pub set_len : ℕ → CapLen → List Capture → List Capture
set_len l len capture = set capture l (record (get_or capture l no_capture) { len = len })

-- What `end_capture` does with the capture `l`.
unfoldable pub close_and_match : Matcher → MatchState → ℕ → List ℕ → ℕ → Result
close_and_match call ms s p l =
    let init = (get_or ms.capture l no_capture).init in
    let shut : MatchState = record ms { capture = set_len l (closed (s - init)) ms.capture } in
    call shut s p >>= λ r.
    or_else r (λ ms'. ok (none, record ms' { capture = set_len l unfinished ms'.capture }))

unfoldable pub end_capture : Matcher → MatchState → ℕ → List ℕ → Result
end_capture call ms s p =
    capture_to_close ms.capture (length ms.capture) >>= close_and_match call ms s p

-- The length of a position capture is a size_t above every length of a text.
unfoldable pub read_capture : MatchState → ℕ → Capture → Outcome (Option ℕ)
read_capture ms s c = elim c.len [
  | unfinished ↦ throw strcapi
  | position ↦ ok none
  | closed len ↦
      if leb len (length ms.src - s) && starts_with (take len (drop c.init ms.src)) (drop s ms.src)
      then ok (some (s + len))
      else ok none
]

unfoldable pub match_capture : MatchState → ℕ → ℕ → Outcome (Option ℕ)
match_capture ms s l = check_capture ms.capture l >>= read_capture ms s

-- The `switch` on the suffix of an item.
unfoldable pub match_quantified : Matcher → Matcher → MatchState → ℕ → List ℕ → List ℕ → Result
match_quantified call init ms s p ep =
    let m = ltb s (length ms.src) && singlematch (get_or ms.src s 0) p ep in
    if peek ep == b'?'
    then (if m
        then (call ms (s + 1) (next ep) >>= λ r. or_else r (λ ms'. init ms' s (next ep)))
        else init ms s (next ep))
    else if peek ep == b'*'
    then max_expand call ms s p ep
    else if peek ep == b'+'
    then (if m then max_expand call ms (s + 1) p ep else ok (none, ms))
    else if peek ep == b'-'
    then min_expand call ms s p ep
    else if m
    then init ms (s + 1) ep
    else ok (none, ms)

-- The label `dflt`: a pattern item, and the suffix behind it.
unfoldable pub match_item : Matcher → Matcher → Matcher
match_item call init ms s p = classend p >>= match_quantified call init ms s p

-- `s = ...; if (s == NULL) break; p = q; goto init`.
abbrev pub go_on : Matcher → MatchState → List ℕ → Option ℕ → Result
go_on init ms q none = ok (none, ms)
go_on init ms q (some s) = init ms s q

-- The test of `%f` for the set between `p` and `ep`.
unfoldable pub at_frontier : MatchState → ℕ → List ℕ → List ℕ → Bool
at_frontier ms s p ep =
    let previous = if s == 0 then 0 else get_or ms.src (s - 1) 0 in
    not (matchbracketclass previous p ep || not (matchbracketclass (get_or ms.src s 0) p ep))

-- `%f`, with `p` behind it.
unfoldable pub frontier : Matcher → Matcher
frontier init ms s p =
    if not (peek p == b'[')
    then throw strpatb
    else (classend p >>= λ ep. go_on init ms ep (if at_frontier ms s p ep then some s else none))

-- The `switch` behind the label `init`.
unfoldable pub match_step : Matcher → Matcher → Matcher
match_step call init ms s p =
    let d = peek (next p) in
    if peek p == b'('
    then (if d == b')'
        then start_capture call ms s (next (next p)) position
        else start_capture call ms s (next p) unfinished)
    else if peek p == b')'
    then end_capture call ms s (next p)
    else if peek p == l_esc && d == b'b'
    then (matchbalance ms.src s (next (next p)) >>= go_on init ms (drop 4 p))
    else if peek p == l_esc && d == b'f'
    then frontier init ms s (next (next p))
    else if peek p == l_esc && not (lj_char_isa d lj_char_digit == 0)
    then (match_capture ms s d >>= go_on init ms (next (next p)))
    else if peek p == 0
    then ok (some s, ms)
    else if peek p == b'$' && d == 0
    then ok (if s == length ms.src then some s else none, ms)
    else match_item call init ms s p

-- The entry and the exit of `match`.
abbrev pub with_depth : Matcher → Matcher
with_depth init ms s p =
    let deeper : MatchState = record ms { depth = ms.depth + 1 } in
    if ltb lj_max_xlevel (ms.depth + 1)
    then throw strpatx
    else (init deeper s p >>= λ r. ok (r.0, record (r.1) { depth = r.1.depth - 1 }))

-- The code from `init` on. Each round of it takes a shorter pattern, for which fuel is given.
unfoldable pub match_init : ℕ → Matcher
match_init zero ms s p = out_of_fuel
match_init (suc fuel) ms s p = match_step (with_depth (match_init fuel)) (match_init fuel) ms s p

unfoldable pub do_match : Matcher
do_match ms s p = with_depth (match_init (length p + 1)) ms s p
