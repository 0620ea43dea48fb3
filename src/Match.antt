-- ===== src/Match.antt =====
-- src/lib/string.c, from match_class_map to string_gsub: the pattern matcher of string.find,
-- string.match, string.gmatch and string.gsub. A pointer into the pattern is the rest of the
-- pattern from there on, and a pattern reads as 0 past its end; a pointer into the subject is its
-- offset.
pub mod Single
pub mod Engine
pub mod Find
pub mod Bounds
pub mod Search
pub mod Literal
pub mod Fixed
pub mod Gmatch
pub mod Gsub
pub mod Turns
pub mod Replace
use luavela.Base.{ℕ, Option, List, [], ◌∷◌}

-- The errors that the matcher throws.
pub data MatchError : Type 0 where
  strcapi strpatc strpate strpatm strpatu strcapn strpatx strpatb strcapu strgsrv : MatchError

-- `out_of_fuel` belongs to the model only.
pub data Outcome {ℓ} (A : Type ℓ) : Type ℓ where
  ok : A → Outcome A
  throw : MatchError → Outcome A
  out_of_fuel : Outcome A

infixl 5 ◌>>=◌
abbrev pub ◌>>=◌ {ℓ κ} : {A : Type ℓ} {B : Type κ} → Outcome A → (A → Outcome B) → Outcome B
ok a >>= f = f a
throw e >>= f = throw e
out_of_fuel >>= f = out_of_fuel

-- The character that a pointer into a text points to.
abbrev pub peek : List ℕ → ℕ
peek [] = 0
peek (c ∷ p) = c

abbrev pub next : List ℕ → List ℕ
next [] = []
next (c ∷ p) = p

-- The length of a capture: CAP_UNFINISHED, CAP_POSITION, or a number.
pub data CapLen : Type 0 where
  unfinished position : CapLen
  closed : ℕ → CapLen

pub record Capture : Type 0 where
  pub init : ℕ
  pub len : CapLen

-- `capture` holds the entries below `level`; the others of the array are never read.
pub record MatchState : Type 0 where
  pub src : List ℕ
  pub depth : ℕ
  pub capture : List Capture

-- The result of a match: NULL, or where it ends, with the state.
abbrev pub Result : Type 0
Result = Outcome (Option ℕ × MatchState)
