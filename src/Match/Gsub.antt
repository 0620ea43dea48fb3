-- ===== src/Match/Gsub.antt =====
-- string.gsub: the matches of a pattern, one behind the other, are replaced.
use luavela.Base.{ℕ, zero, suc, ◌+◌, ◌-◌, ◌%◌, ◌^◌, Bool, true, false, not, Option, none, some}
use luavela.Base.{List, [], ◌∷◌, ◌++◌, ltb, ◌==◌, if◌then◌else◌, length, take, drop, get_or}
use luavela.Chars.{lj_char_isa, lj_char_digit}
use luavela.Cstr.{uj_cstr_fromint}
use luavela.Match.{Outcome, ok, throw, out_of_fuel, ◌>>=◌, peek, next, MatchState, strgsrv}
use luavela.Match.Single.{l_esc}
use luavela.Match.Engine.{do_match}
use luavela.Match.Find.{Pushed, nil, text, int, push_onecapture, push_captures}

-- What a function or a table gives for a match: nil or false, a string or a number as its text,
-- or another value.
pub data Given : Type 0 where
  keep refuse : Given
  give : List ℕ → Given

-- The third argument. A function or a table is what it gives for the match with the number `n`.
pub data Replacement : Type 0 where
  by_string : List ℕ → Replacement
  by_function : (ℕ → List Pushed → Given) → Replacement
  by_table : (ℕ → Pushed → Given) → Replacement

-- `lua_tolstring`, for what a capture pushes.
abbrev pub pushed_text : Pushed → List ℕ
pushed_text nil = []
pushed_text (text t) = t
pushed_text (int n) = uj_cstr_fromint (n % 2 ^ 32)

-- What is added to the buffer; a `%` at the end reads the final 0.
unfoldable pub add_s : MatchState → ℕ → ℕ → List ℕ → Outcome (List ℕ)
add_s ms s e [] = ok []
add_s ms s e (c ∷ []) = if c == l_esc then ok (0 ∷ []) else ok (c ∷ [])
add_s ms s e (c ∷ d ∷ news) =
    let plain = add_s ms s e (d ∷ news) in
    let behind = add_s ms s e news in
    if not (c == l_esc)
    then (plain >>= λ t. ok (c ∷ t))
    else if lj_char_isa d lj_char_digit == 0
    then (behind >>= λ t. ok (d ∷ t))
    else if d == b'0'
    then (behind >>= λ t. ok (take (e - s) (drop s ms.src) ++ t))
    else (push_onecapture ms (d - b'1') (s, e) >>= λ v. behind >>= λ t. ok (pushed_text v ++ t))

-- The end of `add_value`.
abbrev pub add_given : MatchState → ℕ → ℕ → Given → Outcome (List ℕ)
add_given ms s e keep = ok (take (e - s) (drop s ms.src))
add_given ms s e refuse = throw strgsrv
add_given ms s e (give t) = ok t

unfoldable pub add_value : Replacement → ℕ → MatchState → ℕ → ℕ → Outcome (List ℕ)
add_value (by_string news) n ms s e = add_s ms s e news
add_value (by_function f) n ms s e =
    push_captures ms (some (s, e)) >>= λ args. add_given ms s e (f n args)
add_value (by_table t) n ms s e = push_onecapture ms 0 (s, e) >>= λ key. add_given ms s e (t n key)

-- The buffer and the number of matches, after one try.
unfoldable pub replaced :
    Replacement → ℕ → List ℕ → ℕ → Option ℕ × MatchState → Outcome (List ℕ × ℕ)
replaced repl s b n (none, ms) = ok (b, n)
replaced repl s b n (some e, ms) = add_value repl n ms s e >>= λ t. ok (b ++ t, n + 1)

-- Where the next try starts, with the buffer; none where the loop ends.
unfoldable pub moved : List ℕ → ℕ → Option ℕ → List ℕ → Option (ℕ × List ℕ)
moved src s none b = if ltb s (length src) then some (s + 1, b ++ get_or src s 0 ∷ []) else none
moved src s (some e) b =
    if ltb s e
    then some (e, b)
    else if ltb s (length src)
    then some (s + 1, b ++ get_or src s 0 ∷ [])
    else none

-- What is left of the subject is added behind the loop.
abbrev pub finish : List ℕ → ℕ → List ℕ × ℕ → Outcome (List ℕ × ℕ)
finish src s (b, n) = ok (b ++ drop s src, n)

abbrev pub next_try :
    Bool
    → List ℕ
    → ℕ
    → (ℕ → List ℕ → Outcome (List ℕ × ℕ))
    → List ℕ
    → ℕ
    → Option (ℕ × List ℕ)
    → Outcome (List ℕ × ℕ)
next_try anchor src s again b n none = finish src s (b, n)
next_try true src s again b n (some (s', b')) = finish src s' (b', n)
next_try false src s again b n (some (s', b')) = again s' b'

module _ (repl : Replacement) (anchor : Bool) (src p : List ℕ) (max_s : ℕ) where
  -- The loop; each turn but the last starts further behind in the subject.
  unfoldable pub gsub_loop : ℕ → ℕ → List ℕ → ℕ → Outcome (List ℕ × ℕ)
  gsub_loop zero s b n = out_of_fuel
  gsub_loop (suc fuel) s b n =
      if ltb n max_s
      then (do_match (record { src = src; depth = 0; capture = [] }) s p >>= λ r.
          replaced repl s b n r >>= λ q.
          next_try anchor src s (λ s' b'. gsub_loop fuel s' b' q.1) q.0 q.1 (moved src s r.0 q.0))
      else finish src s (b, n)

-- `max_s` is the bit pattern of an int32_t.
unfoldable pub string_gsub : Replacement → List ℕ → List ℕ → ℕ → Outcome (List ℕ × ℕ)
string_gsub repl src p max_s =
    let limit = if ltb max_s (2 ^ 31) then max_s else 0 in
    if peek p == b'^'
    then gsub_loop repl true src (next p) limit (length src + 1) 0 [] 0
    else gsub_loop repl false src p limit (length src + 1) 0 [] 0
