-- ===== src/Leb128/Signed/Octets.antt =====
-- LEB128: the signed reader on one octet, and the sign extension behind the last one.
use luavela.Base.{ℕ, ◌+◌, ◌-◌, ◌*◌, ◌/◌, ◌%◌, ◌^◌, ◌≤◌, ◌<◌}
use luavela.Base.{◌≡◌, refl, ap, List, [], ◌∷◌, arith}
use luavela.Base.{true, false, leb, length, if◌then◌else◌, ◌==◌, eqb→eq, leb→le}
use luavela.Base.{bit_or}
use luavela.Base.Bits.{all_below, all_below_sound, sign_bit, top_bit, bit_or_low}
use luavela.Leb128.{IsU64, sar7, biased, sign_fill}
use luavela.Leb128.{sign_extend}
use luavela.Leb128.{ok, undefined, payload, read_leb128_loop}
use luavela.Leb128.Unsigned.{group_bound, add_octet, two_pow_add_seven}

-- Reading with a guard that the buffer never reaches is reading without one.
pub guard-unguarded :
    (n m : ℕ) (buffer : List ℕ) (i value shift : ℕ)
    → i + length buffer < n
    → read_leb128_loop true n buffer i value shift ≡ read_leb128_loop false m buffer i value shift
unfolding read_leb128_loop
guard-unguarded n m [] i value shift h = ground arith
guard-unguarded n m (b ∷ rest) i value shift h = ground (
  arith,
  guard-unguarded n m rest (i + 1) (bit_or value (payload b shift)) (shift + 7) (omega arith),
)

pub read_inner :
    (n g acc s i : ℕ) (rest : List ℕ)
    → i < n
    → g < 128
    → s < 64
    → read_leb128_loop true n ((g + 128) ∷ rest) i acc s
      ≡ read_leb128_loop true n rest (i + 1) (bit_or acc (payload (g + 128) s)) (s + 7)
unfolding read_leb128_loop
read_inner n g acc s i rest hi hg hs = ground (arith, top_bit (g + 128))

pub read_last :
    (n g acc s i : ℕ) (rest : List ℕ)
    → i < n
    → g < 128
    → s < 64
    → read_leb128_loop true n (g ∷ rest) i acc s
      ≡ sign_extend g (s + 7) (bit_or acc (payload g s)) (i + 1)
unfolding read_leb128_loop
read_last n g acc s i rest hi hg hs = ground (arith, top_bit g)

pub add_group :
    (w acc s : ℕ)
    → acc < 2 ^ s
    → IsU64 (w % 128 * 2 ^ s)
    → (bit_or acc (payload (w % 128) s) ≡ acc + w % 128 * 2 ^ s)
      × (bit_or acc (payload (w % 128 + 128) s) ≡ acc + w % 128 * 2 ^ s)
add_group w acc s ha fits =
    let low : w % 128 % 128 ≡ w % 128 = omega arith in
    let high : (w % 128 + 128) % 128 ≡ w % 128 = omega arith in
    (
      rw low at (add_octet (w % 128) acc s (omega arith) ha (rw low fits)),
      rw high at (add_octet (w % 128 + 128) acc s (omega arith) ha (rw high fits)),
    )

power_table : all_below (λ s. leb (2 ^ s) (2 ^ 21)) 22 ≡ true
unfolding all_below
power_table = refl

fill_table : all_below (λ s. sign_fill s == (2 ^ (64 - s) - 1) * 2 ^ s) 32 ≡ true
unfolding all_below
fill_table = refl

-- `value |= -(1 << shift)` for a value below the sign.
bit_or-sign_fill : (s r : ℕ) → s < 32 → r < 2 ^ s → bit_or r (sign_fill s) ≡ r + sign_fill s
bit_or-sign_fill s r hs hr =
    let fill = eqb→eq _ _ (all_below_sound _ 32 s fill_table hs) in rw fill (bit_or_low s _ r hr)

-- What an arithmetic shift leaves of a negative pattern, in numbers counted down from 2 ^ 64.
pub split_neg :
    (w x s : ℕ) → w + x ≡ 2 ^ 64 → x * 2 ^ s + w % 128 * 2 ^ s ≡ (x + 127) / 128 * 2 ^ (s + 7)
split_neg w x s h =
    let groups : x + w % 128 ≡ (x + 127) / 128 * 128 = omega arith in
    omega (
      arith,
      ap (λ (t : ℕ). t * 2 ^ s) groups,
      ap (λ (t : ℕ). (x + 127) / 128 * t) (two_pow_add_seven s),
    )

pub sar7_neg :
    (w x : ℕ)
    → w + x ≡ 2 ^ 64
    → 1 ≤ x
    → x ≤ 2 ^ 63
    → (sar7 w + (x + 127) / 128 ≡ 2 ^ 64)
      × (1 ≤ (x + 127) / 128)
      × (biased w ≡ w + 64 - (if leb x 64 then 2 ^ 64 else 0))
sar7_neg w x h lo hi = ground arith

pub small_payload : (w s : ℕ) → s ≤ 21 → IsU64 (w % 128 * 2 ^ s)
small_payload w s h =
    let table = leb→le _ _ (all_below_sound _ 22 s power_table (omega arith)) in
    omega (arith, group_bound w s, two_pow_add_seven s, table)

-- The last octet of a negative number.
pub last_neg :
    (w x acc s i : ℕ)
    → w + x ≡ 2 ^ 64
    → 1 ≤ x
    → x ≤ 64
    → s ≤ 21
    → acc < 2 ^ s
    → sign_extend (w % 128) (s + 7) (acc + w % 128 * 2 ^ s) i ≡ ok (acc + 2 ^ 64 - x * 2 ^ s) i
unfolding sign_extend
last_neg w x acc s i h lo hi hs ha =
    let one : (x + 127) / 128 ≡ 1 = omega arith in
    let split = rw one at (split_neg w x s h) in
    let table = leb→le _ _ (all_below_sound _ 22 s power_table (omega arith)) in
    let sum : acc + w % 128 * 2 ^ s + sign_fill (s + 7) ≡ acc + 2 ^ 64 - x * 2 ^ s =
      omega (arith, two_pow_add_seven s) in
    let below : acc + w % 128 * 2 ^ s < 2 ^ (s + 7) = omega (arith, group_bound w s) in
    let filled = bit_or-sign_fill (s + 7) (acc + w % 128 * 2 ^ s) (omega arith) below in
    ground (arith, sign_bit (w % 128))

pub last_far :
    (w x v s i : ℕ)
    → w + x ≡ 2 ^ 64
    → 1 ≤ x
    → x ≤ 64
    → 25 ≤ s
    → s + 7 < 64
    → sign_extend (w % 128) (s + 7) v i ≡ undefined
unfolding sign_extend
last_far w x v s i h lo hi hs ht = ground (arith, sign_bit (w % 128))
