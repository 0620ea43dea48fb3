-- ===== src/Match/Bounds.antt =====
-- What every match keeps to: it ends, inside the subject, and one that fails leaves no trace.
pub mod Items
pub mod Loops
pub mod Captures
pub mod Steps
use luavela.Base.{
  ℕ, ◌+◌, ◌≤◌, ◌<◌, ◌≡◌, refl, Option, none, some, List, [], ◌∷◌, length, All, arith,
}
use luavela.Match.{Outcome, ok, throw, out_of_fuel, ◌>>=◌, Capture, unfinished, position, closed}
use luavela.Match.{MatchState, Result}
use luavela.Match.Engine.{Matcher, lua_maxcaptures}

-- A result of which `P` holds, or an error that the source throws.
abbrev pub Ends {ℓ} : {A : Type ℓ} → (A → Type 0) → Outcome A → Type 0
Ends P (ok a) = P a
Ends P (throw e) = Unit
Ends P out_of_fuel = ⊥

pub Ends-bind {ℓ κ} :
    {A : Type ℓ} {B : Type κ} (P : A → Type 0) (Q : B → Type 0) (m : Outcome A) (f : A → Outcome B)
    → Ends P m
    → ((a : A) → P a → Ends Q (f a))
    → Ends Q (m >>= f)
Ends-bind P Q (ok a) f h k = k a h
Ends-bind P Q (throw e) f h k = tt
Ends-bind P Q out_of_fuel f h k = absurd h

pub Ends-weaken {ℓ} :
    {A : Type ℓ} (P Q : A → Type 0) (m : Outcome A) → ((a : A) → P a → Q a) → Ends P m → Ends Q m
Ends-weaken P Q (ok a) k h = k a h
Ends-weaken P Q (throw e) k h = tt
Ends-weaken P Q out_of_fuel k h = h

-- Where a capture ends, as far as it is known.
abbrev pub cap_end : Capture → ℕ
cap_end c = elim c.len [ unfinished ↦ c.init | position ↦ c.init | closed n ↦ c.init + n ]

-- `s` and the captures lie in the subject, and no capture reaches past `s`.
pub record IsValid (ms : MatchState) (s : ℕ) : Type 0 where
  pub inside : s ≤ length ms.src
  pub captured : All (λ c. cap_end c ≤ s) ms.capture
  pub few : length ms.capture ≤ lua_maxcaptures

-- What a match from `s` on gives: it fails and leaves the state as it was, or it ends at or
-- behind `s` in a valid state of the same subject and depth.
abbrev pub Good : MatchState → ℕ → Option ℕ × MatchState → Type 0
Good ms s (none, ms') = ms' ≡ ms
Good ms s (some e, ms') = (s ≤ e) × IsValid ms' e × (ms'.src ≡ ms.src) × (ms'.depth ≡ ms.depth)

-- For patterns of less than `k` characters, `call` ends well.
abbrev pub Contract : ℕ → Matcher → Type 0
Contract k call =
    (ms : MatchState) (s : ℕ) (q : List ℕ)
    → IsValid ms s
    → length q < k
    → Ends (Good ms s) (call ms s q)

All-le :
    (m n : ℕ) (cs : List Capture)
    → m ≤ n
    → All (λ c. cap_end c ≤ m) cs
    → All (λ c. cap_end c ≤ n) cs
All-le m n [] le h = tt
All-le m n (c ∷ cs) le h = (omega (arith, h.0), All-le m n cs le h.1)

pub later-IsValid :
    (ms : MatchState) (s t : ℕ) → s ≤ t → t ≤ length ms.src → IsValid ms s → IsValid ms t
later-IsValid ms s t le within v = record {
  inside = within;
  captured = All-le s t ms.capture le v.captured;
  few = v.few;
}

pub earlier-Good :
    (ms : MatchState) (s t : ℕ) (r : Option ℕ × MatchState) → s ≤ t → Good ms t r → Good ms s r
earlier-Good ms s t (none, ms') le h = h
earlier-Good ms s t (some e, ms') le h = (omega (arith, h.0), h.1, h.2, h.3)
