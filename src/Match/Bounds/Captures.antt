-- ===== src/Match/Bounds/Captures.antt =====
-- Opening and closing of captures.
use luavela.Base.{ℕ, zero, suc, ◌-◌, ◌≤◌, ◌<◌, ◌≡◌, refl, sym, ap, ◌∙◌, true, Bool-cases, inl, inr}
use luavela.Base.{
  Option, none, some, List, [], ◌∷◌, ◌++◌, length, take, get_or, set, All, All-append, leb, leb→lt,
  arith,
}
use luavela.Base.{length-append, length-set}
use luavela.Match.{ok, MatchState, Capture, CapLen, unfinished, position, closed}
use luavela.Match.Engine.{
  Matcher, or_else, start_capture, end_capture, close_and_match, capture_to_close, is_unfinished,
  set_len, no_capture, undo_capture, lua_maxcaptures,
}
use luavela.Match.Bounds.{Ends, Ends-bind, Ends-weaken, IsValid, Good, Contract, cap_end}

take-append_last :
    (cs : List Capture) (c : Capture) → take (length (cs ++ c ∷ []) - 1) (cs ++ c ∷ []) ≡ cs
take-append_last [] c = refl
take-append_last (d ∷ cs) c =
    let e : length (d ∷ cs ++ c ∷ []) - 1 ≡ suc (length (cs ++ c ∷ []) - 1) =
      omega (arith, length-append cs (c ∷ [])) in
    rw e (ap (λ t. d ∷ t) (take-append_last cs c))

set-set : (cs : List Capture) (l : ℕ) (v w : Capture) → set (set cs l v) l w ≡ set cs l w
set-set [] l v w = refl
set-set (c ∷ cs) zero v w = refl
set-set (c ∷ cs) (suc l) v w = ap (λ t. c ∷ t) (set-set cs l v w)

set-get_or : (cs : List Capture) (l : ℕ) (d : Capture) → set cs l (get_or cs l d) ≡ cs
set-get_or [] l d = refl
set-get_or (c ∷ cs) zero d = refl
set-get_or (c ∷ cs) (suc l) d = ap (λ t. c ∷ t) (set-get_or cs l d)

All-set :
    (P : Capture → Type 0) (cs : List Capture) (l : ℕ) (v : Capture)
    → P v
    → All P cs
    → All P (set cs l v)
All-set P [] l v pv h = tt
All-set P (c ∷ cs) zero v pv h = (pv, h.1)
All-set P (c ∷ cs) (suc l) v pv h = (h.0, All-set P cs l v pv h.1)

All-get_or :
    (P : Capture → Type 0) (cs : List Capture) (l : ℕ) (d : Capture)
    → l < length cs
    → All P cs
    → P (get_or cs l d)
All-get_or P [] l d lt h = absurd (omega arith)
All-get_or P (c ∷ cs) zero d lt h = h.0
All-get_or P (c ∷ cs) (suc l) d lt h = All-get_or P cs l d (omega arith) h.1

get_or-set :
    (cs : List Capture) (l : ℕ) (v d : Capture) → l < length cs → get_or (set cs l v) l d ≡ v
get_or-set [] l v d h = absurd (omega arith)
get_or-set (c ∷ cs) zero v d h = refl
get_or-set (c ∷ cs) (suc l) v d h = get_or-set cs l v d (omega arith)

-- The capture to close is one of the captures, and unfinished.
abbrev IsOpen : List Capture → ℕ → ℕ → Type 0
IsOpen cs n l = (l < n) × (is_unfinished (get_or cs l no_capture) ≡ true)

capture_to_close-Ends : (cs : List Capture) (n : ℕ) → Ends (IsOpen cs n) (capture_to_close cs n)
unfolding capture_to_close
capture_to_close-Ends cs zero = tt
capture_to_close-Ends cs (suc n) = elim (Bool-cases (is_unfinished (get_or cs n no_capture))) [
  | inl here ↦ rw here (omega arith, here)
  | inr lower ↦ rw lower (
      Ends-weaken (IsOpen cs n) (IsOpen cs (suc n)) _ (λ l h. (omega (arith, h.0), h.1))
        (capture_to_close-Ends cs n))
]

unfinished_len : (c : Capture) → is_unfinished c ≡ true → c.len ≡ unfinished
unfinished_len c h = go c.init c.len h
  where
    go :
        (init : ℕ) (len : CapLen)
        → is_unfinished (record { init = init; len = len }) ≡ true
        → len ≡ unfinished
    go init unfinished e = refl
    go init position e = cc
    go init (closed n) e = cc

open_end : (c : Capture) (s : ℕ) → is_unfinished c ≡ true → cap_end c ≤ s → c.init ≤ s
open_end c s o h = rw (unfinished_len c o) at h

module _ (k : ℕ) (call : Matcher) (contract : Contract k call) where
  pub start_capture-Good :
      (ms : MatchState) (s : ℕ) (p : List ℕ) (what : CapLen)
      → IsValid ms s
      → length p < k
      → cap_end (record { init = s; len = what }) ≤ s
      → Ends (Good ms s) (start_capture call ms s p what)
  unfolding start_capture
  start_capture-Good ms s p what v h what_ok =
      let c : Capture = record { init = s; len = what } in
      let opened : MatchState = record ms { capture = ms.capture ++ c ∷ [] } in
      elim (Bool-cases (leb lua_maxcaptures (length ms.capture))) [
        | inl full ↦ rw full tt
        | inr room ↦
            let below = leb→lt _ _ room in
            let v' : IsValid opened s = record {
              inside = v.inside;
              captured =
                  All-append (λ d. cap_end d ≤ s) ms.capture (c ∷ []) v.captured (what_ok, tt);
              few = omega (arith, length-append ms.capture (c ∷ []));
            } in
            rw room (
              Ends-bind (Good opened s) (Good ms s) (call opened s p) _ (contract opened s p v' h)
                (λ r good. undone r good))
      ]
    where
      undone :
          (r : Option ℕ × MatchState)
          → Good (record ms { capture = ms.capture ++ record { init = s; len = what } ∷ [] }) s r
          → Ends (Good ms s) (or_else r (λ ms'. ok (none, undo_capture ms')))
      undone (some e, ms') g = g
      undone (none, ms') g =
          ap undo_capture g
          ∙ ap (λ cs. let m : MatchState = record ms { capture = cs } in m)
              (take-append_last ms.capture (record { init = s; len = what }))

  closed_back :
      (ms : MatchState) (l : ℕ) (n : CapLen)
      → l < length ms.capture
      → is_unfinished (get_or ms.capture l no_capture) ≡ true
      → set_len l unfinished (set_len l n ms.capture) ≡ ms.capture
  closed_back ms l n lt open_ =
      let c = get_or ms.capture l no_capture in
      rw (get_or-set ms.capture l (record c { len = n }) no_capture lt) (
        set-set ms.capture l _ _
        ∙ (ap (λ len. set ms.capture l (record c { len = len })) (sym (unfinished_len c open_))
            ∙ set-get_or ms.capture l no_capture))

  reopened :
      (ms : MatchState) (s l : ℕ) (n : CapLen)
      → l < length ms.capture
      → is_unfinished (get_or ms.capture l no_capture) ≡ true
      → (r : Option ℕ × MatchState) → Good (record ms { capture = set_len l n ms.capture }) s r
      → Ends
          (Good ms s)
          (or_else r (λ ms'. ok (none, record ms' { capture = set_len l unfinished ms'.capture })))
  reopened ms s l n lt open_ (some e, ms') g = g
  reopened ms s l n lt open_ (none, ms') g =
      ap (λ m. let m' : MatchState = record m { capture = set_len l unfinished m.capture } in m') g
      ∙ ap (λ cs. let m : MatchState = record ms { capture = cs } in m)
          (closed_back ms l n lt open_)

  shut_lem :
      (ms : MatchState) (s : ℕ) (p : List ℕ) (l : ℕ)
      → IsValid ms s
      → length p < k
      → IsOpen ms.capture (length ms.capture) l
      → Ends (Good ms s) (close_and_match call ms s p l)
  unfolding close_and_match
  shut_lem ms s p l v h (lt, open_) =
      let c = get_or ms.capture l no_capture in
      let shut : MatchState = record ms { capture = set_len l (closed (s - c.init)) ms.capture } in
      let begins : c.init ≤ s =
        open_end c s open_
          (All-get_or (λ d. cap_end d ≤ s) ms.capture l no_capture lt v.captured) in
      let v' : IsValid shut s = record {
        inside = v.inside;
        captured = All-set (λ d. cap_end d ≤ s) ms.capture l _ (omega (arith, begins)) v.captured;
        few = omega (arith, length-set ms.capture l _, v.few);
      } in
      Ends-bind (Good shut s) (Good ms s) (call shut s p) _ (contract shut s p v' h)
        (λ r good. reopened ms s l (closed (s - c.init)) lt open_ r good)

  pub end_capture-Good :
      (ms : MatchState) (s : ℕ) (p : List ℕ)
      → IsValid ms s
      → length p < k
      → Ends (Good ms s) (end_capture call ms s p)
  unfolding end_capture
  end_capture-Good ms s p v h =
      Ends-bind (IsOpen ms.capture (length ms.capture)) (Good ms s) _ _
        (capture_to_close-Ends ms.capture (length ms.capture)) (λ l o. shut_lem ms s p l v h o)
