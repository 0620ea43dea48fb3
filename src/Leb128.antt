-- ===== src/Leb128.antt =====
-- src/utils/leb128.c: the writers and readers of ULEB128 and LEB128 numbers.
-- A buffer is the list of its octets. A writer returns what it wrote, and the count that the
-- code returns is its length. An int64_t is its bit pattern, a number below 2 ^ 64.
pub mod Unsigned
pub mod Signed
use luavela.Base.{ℕ, zero, suc, ◌+◌, ◌-◌, ◌*◌, ◌/◌, ◌%◌, ◌^◌, ◌≤◌, ◌<◌, bit_and, bit_or}
use luavela.Base.{Bool, true, false, ◌&&◌, List, [], ◌∷◌, ◌++◌, arith}
use luavela.Base.{ltb, leb, ◌==◌, if◌then◌else◌, length}
use luavela.Base.Order.{Smaller, ends}
use mathlib.Core.Logic.{dite}
use mathlib.Core.WellFounded.{Acc}
use native.Mathlib.Decide.{dec_le}

abbrev pub link_bit : ℕ
link_bit = 0x80

abbrev pub min_twobyte_value : ℕ
min_twobyte_value = 0x80

abbrev pub payload_mask : ℕ
payload_mask = 0x7f

abbrev pub shift_step : ℕ
shift_step = 7

abbrev pub leb_sign_bit : ℕ
leb_sign_bit = 0x40

abbrev pub IsU64 : ℕ → Type 0
IsU64 v = v < 2 ^ 64

-- `(uint8_t)((value & PAYLOAD_MASK) | LINK_BIT)`
abbrev pub linked_octet : ℕ → ℕ
linked_octet value = bit_or (bit_and value payload_mask) link_bit % 2 ^ 8

abbrev pub same : ℕ → ℕ
same v = v

pub shift_shrinks : (v : ℕ) → min_twobyte_value ≤ v → v / 2 ^ shift_step < v
shift_shrinks v h = omega arith

abbrev pub leb128_u64_maxsize : ℕ
leb128_u64_maxsize = 10

-- The loop of `write_uleb128`; `out` is `buffer[0 .. i)`.
unfoldable pub write_uleb128_loop : List ℕ → (value : ℕ) → Acc (Smaller same) value → List ℕ
write_uleb128_loop out value (Acc.intro _ smaller) =
    dite (dec_le min_twobyte_value value)
      (λ more.
        write_uleb128_loop (out ++ linked_octet value ∷ []) (value / 2 ^ shift_step)
          (smaller _ (shift_shrinks value more)))
      (λ _. out ++ (value % 2 ^ 8) ∷ [])

unfoldable pub write_uleb128 : ℕ → List ℕ
unfolding write_uleb128_loop ends dec_le
write_uleb128 value = write_uleb128_loop [] value (ends same value)

-- `value >> 7` on an int64_t: the vacated bits are copies of the sign.
abbrev pub sar7 : ℕ → ℕ
sar7 value =
    if ltb value (2 ^ 63)
    then value / 2 ^ shift_step
    else value / 2 ^ shift_step + (2 ^ 64 - 2 ^ 57)

-- `(uint64_t)(value + 0x40)`, the sum taken modulo 2 ^ 64.
abbrev pub biased : ℕ → ℕ
biased value = (value + 0x40) % 2 ^ 64

-- How far a pattern is from 0 or from -1, whichever has its sign: the loop's measure. The last
-- case is no pattern.
abbrev pub magnitude : ℕ → ℕ
magnitude value =
    if ltb value (2 ^ 63) then value else if ltb value (2 ^ 64) then 2 ^ 64 - 1 - value else value

pub sar7_shrinks : (v : ℕ) → min_twobyte_value ≤ biased v → magnitude (sar7 v) < magnitude v
sar7_shrinks v h = ground arith

unfoldable pub write_leb128_loop : List ℕ → (value : ℕ) → Acc (Smaller magnitude) value → List ℕ
write_leb128_loop out value (Acc.intro _ smaller) =
    dite (dec_le min_twobyte_value (biased value))
      (λ more.
        write_leb128_loop (out ++ linked_octet value ∷ []) (sar7 value)
          (smaller _ (sar7_shrinks value more)))
      (λ _. out ++ (bit_and value payload_mask % 2 ^ 8) ∷ [])

unfoldable pub write_leb128 : ℕ → List ℕ
unfolding write_leb128_loop ends dec_le
write_leb128 value = write_leb128_loop [] value (ends magnitude value)

-- What a reader does: it stores a value and returns the count of octets read; it returns 0
-- and stores nothing; it reads behind the end of the buffer; or it shifts by more than the
-- width of the operand, which C leaves undefined.
pub data Read : Type 0 where
  ok : ℕ → ℕ → Read
  refused overrun undefined : Read

-- `((uint64_t)(octet & PAYLOAD_MASK)) << shift`, for a shift below 64.
abbrev pub payload : ℕ → ℕ → ℕ
payload octet shift = bit_and octet payload_mask * 2 ^ shift % 2 ^ 64

-- The loop of `_read_uleb128`: the octets from `buffer[i]` on, then `i`, `value`, `shift`.
unfoldable pub read_uleb128_loop : Bool → ℕ → List ℕ → ℕ → ℕ → ℕ → Read
read_uleb128_loop guarded n [] i value shift = if guarded && ltb n (i + 1) then refused else overrun
read_uleb128_loop guarded n (octet ∷ rest) i value shift =
    let value' = bit_or value (payload octet shift) in
    let more = read_uleb128_loop guarded n rest (i + 1) value' (shift + shift_step) in
    if guarded && ltb n (i + 1)
    then refused
    else if leb 64 shift
    then undefined
    else if bit_and octet link_bit == 0
    then ok value' (i + 1)
    else more

unfoldable pub read_uleb128_mode : List ℕ → Bool → ℕ → Read
read_uleb128_mode buffer guarded n = read_uleb128_loop guarded n buffer 0 0 0

unfoldable pub read_uleb128 : List ℕ → Read
unfolding read_uleb128_mode
read_uleb128 buffer = read_uleb128_mode buffer false 0

unfoldable pub read_uleb128_n : List ℕ → ℕ → Read
unfolding read_uleb128_mode
read_uleb128_n buffer n = read_uleb128_mode buffer true n

-- `-(1 << shift)` converted to int64_t: the 1 is an int, so the shift must be below 32.
abbrev pub sign_fill : ℕ → ℕ
sign_fill shift = 2 ^ 64 - 2 ^ shift

-- What follows the loop of `_read_leb128`: the sign extension, and the result.
unfoldable pub sign_extend : ℕ → ℕ → ℕ → ℕ → Read
sign_extend octet shift value i =
    if ltb 0 (bit_and octet leb_sign_bit) && ltb shift 64
    then (if ltb shift 32 then ok (bit_or value (sign_fill shift)) i else undefined)
    else ok value i

unfoldable pub read_leb128_loop : Bool → ℕ → List ℕ → ℕ → ℕ → ℕ → Read
read_leb128_loop guarded n [] i value shift = if guarded && ltb n (i + 1) then refused else overrun
read_leb128_loop guarded n (octet ∷ rest) i value shift =
    let value' = bit_or value (payload octet shift) in
    let more = read_leb128_loop guarded n rest (i + 1) value' (shift + shift_step) in
    if guarded && ltb n (i + 1)
    then refused
    else if leb 64 shift
    then undefined
    else if bit_and octet link_bit == 0
    then sign_extend octet (shift + shift_step) value' (i + 1)
    else more

unfoldable pub read_leb128_mode : List ℕ → Bool → ℕ → Read
read_leb128_mode buffer guarded n = read_leb128_loop guarded n buffer 0 0 0

unfoldable pub read_leb128 : List ℕ → Read
unfolding read_leb128_mode
read_leb128 buffer = read_leb128_mode buffer false 0

unfoldable pub read_leb128_n : List ℕ → ℕ → Read
unfolding read_leb128_mode
read_leb128_n buffer n = read_leb128_mode buffer true n
