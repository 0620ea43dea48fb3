-- ===== src/Leb128/Unsigned.antt =====
-- ULEB128: what the writer writes, and that the readers read it back.
use luavela.Base.{ℕ, zero, suc, ◌+◌, ◌*◌, ◌/◌, ◌%◌, ◌^◌, ◌≤◌, ◌<◌}
use luavela.Base.{◌≡◌, ap, List, [], ◌∷◌, ◌++◌, append_assoc, arith}
use luavela.Base.{true, false, ltb, leb, length, length-append, All, if◌then◌else◌}
use luavela.Base.{bit_or}
use luavela.Base.Bits.{low_bits, top_bit, set_top_bit, bit_or_low, bit_and_mask}
use luavela.Base.Order.{Smaller, ends}
use mathlib.Core.WellFounded.{Acc}
use native.Mathlib.Nat.{div-add-mod}
use native.Mathlib.Numerals.{towards_suc}
use luavela.Leb128.{IsU64, same, linked_octet, write_uleb128_loop, write_uleb128}
use native.Mathlib.Decide.{dec_lt}
use mathlib.Core.Logic.{◌≢◌}
use luavela.Leb128.{ok, refused, overrun, payload, read_uleb128_loop, read_uleb128, read_uleb128_n}

-- The groups of seven bits, lowest first, of a number below 128 ^ (k + 1).
unfoldable pub groups : ℕ → ℕ → List ℕ
groups zero v = v ∷ []
groups (suc k) v =
    let more = (v % 128 + 128) ∷ groups k (v / 128) in if ltb v 128 then v ∷ [] else more

pub linked_octet_lem : (v : ℕ) → linked_octet v ≡ v % 128 + 128
linked_octet_lem v = rw (bit_and_mask 7 v) (rw (set_top_bit (v % 128) (omega arith)) (omega arith))

write_uleb128_loop-groups :
    (k : ℕ) (out : List ℕ) (v : ℕ) (w : Acc (Smaller same) v)
    → v < 128 ^ suc k
    → write_uleb128_loop out v w ≡ out ++ groups k v
unfolding write_uleb128_loop groups
write_uleb128_loop-groups zero out v (Acc.intro _ smaller) h = ground arith
write_uleb128_loop-groups (suc k) out v (Acc.intro _ smaller) h =
    let head : List ℕ = (v % 128 + 128) ∷ [] in
    grind (
      arith,
      linked_octet_lem v,
      λ (w : Acc (Smaller same) (v / 128)).
          write_uleb128_loop-groups k (out ++ head) (v / 128) w (omega arith),
      append_assoc out head (groups k (v / 128)),
    )

-- On a uint64_t the writer writes the groups of seven bits.
pub write_uleb128-groups : (v : ℕ) → IsU64 v → write_uleb128 v ≡ groups 9 v
unfolding write_uleb128
write_uleb128-groups v h = write_uleb128_loop-groups 9 [] v (ends same v) (omega arith)

groups_shape :
    (k v : ℕ)
    → v < 128 ^ suc k
    → All (λ b. b < 256) (groups k v) × (1 ≤ length (groups k v)) × (length (groups k v) ≤ k + 1)
unfolding groups
groups_shape zero v h = omega arith
groups_shape (suc k) v h = ground (arith, groups_shape k (v / 128) (omega arith))

-- The writer writes 1 to LEB128_U64_MAXSIZE = 10 octets, whatever uint64_t it is given.
pub write_uleb128_shape :
    (v : ℕ)
    → IsU64 v
    → All (λ b. b < 256) (write_uleb128 v)
      × (1 ≤ length (write_uleb128 v))
      × (length (write_uleb128 v) ≤ 10)
write_uleb128_shape v h = rw (write_uleb128-groups v h) (groups_shape 9 v (omega arith))

payload_lem : (b s : ℕ) → b < 256 → IsU64 (b % 128 * 2 ^ s) → payload b s ≡ b % 128 * 2 ^ s
payload_lem b s h fits = rw (low_bits b h) (omega arith)

pub two_pow_add_seven : (s : ℕ) → 2 ^ (s + 7) ≡ 128 * 2 ^ s
two_pow_add_seven s = simp towards_suc (omega arith)

pub split_group :
    (value at : ℕ) → value * 2 ^ at ≡ value % 128 * 2 ^ at + value / 128 * 2 ^ (at + 7)
split_group value at = omega (
  arith,
  two_pow_add_seven at,
  ap (λ (scale : ℕ). value / 128 * scale) (two_pow_add_seven at),
  ap (λ (sum : ℕ). sum * 2 ^ at) (div-add-mod value 128),
)

pub group_bound : (w s : ℕ) → w % 128 * 2 ^ s + 2 ^ s ≤ 2 ^ (s + 7)
group_bound w s = rw (two_pow_add_seven s) (grind arith)

-- One octet put under the octets that were read before it.
pub add_octet :
    (b acc s : ℕ)
    → b < 256
    → acc < 2 ^ s
    → IsU64 (b % 128 * 2 ^ s)
    → bit_or acc (payload b s) ≡ acc + b % 128 * 2 ^ s
add_octet b acc s hb ha fits = rw (payload_lem b s hb fits) (bit_or_low s (b % 128) acc ha)

-- With fewer octets than `n` in the buffer the guard never stops the reader.
guard-unguarded :
    (n m : ℕ) (buffer : List ℕ) (i value shift : ℕ)
    → i + length buffer < n
    → read_uleb128_loop true n buffer i value shift ≡ read_uleb128_loop false m buffer i value shift
unfolding read_uleb128_loop
guard-unguarded n m [] i value shift h = ground arith
guard-unguarded n m (b ∷ rest) i value shift h = ground (
  arith,
  guard-unguarded n m rest (i + 1) (bit_or value (payload b shift)) (shift + 7) (omega arith),
)

read_last :
    (n w acc s i : ℕ) (rest : List ℕ)
    → i < n
    → w < 128
    → s < 64
    → acc < 2 ^ s
    → IsU64 (w * 2 ^ s)
    → read_uleb128_loop true n (w ∷ rest) i acc s ≡ ok (acc + w * 2 ^ s) (i + 1)
unfolding read_uleb128_loop
read_last n w acc s i rest hi hw hs ha fits =
    let low : w % 128 ≡ w = omega arith in
    ground (arith, top_bit w, rw low at (add_octet w acc s (omega arith) ha (rw low fits)))

read_inner :
    (n g acc s i : ℕ) (rest : List ℕ)
    → i < n
    → g < 128
    → s < 64
    → acc < 2 ^ s
    → IsU64 (g * 2 ^ s)
    → read_uleb128_loop true n ((g + 128) ∷ rest) i acc s
      ≡ read_uleb128_loop true n rest (i + 1) (acc + g * 2 ^ s) (s + 7)
unfolding read_uleb128_loop
read_inner n g acc s i rest hi hg hs ha fits =
    let low : (g + 128) % 128 ≡ g = omega arith in
    ground (
      arith,
      top_bit (g + 128),
      rw low at (add_octet (g + 128) acc s (omega arith) ha (rw low fits)),
    )

-- `w` is what is still to be read, and it counts from bit `s` on.
read-groups :
    (k n w acc s i : ℕ) (rest : List ℕ)
    → w < 128 ^ suc k
    → i + length (groups k w) ≤ n
    → s + 7 * k < 64
    → acc < 2 ^ s
    → IsU64 (acc + w * 2 ^ s)
    → read_uleb128_loop true n (groups k w ++ rest) i acc s
      ≡ ok (acc + w * 2 ^ s) (i + length (groups k w))
unfolding groups
read-groups zero n w acc s i rest hw hn hs ha fits =
    read_last n w acc s i rest (omega arith) (omega arith) (omega arith) ha (omega arith)
read-groups (suc k) n w acc s i rest hw hn hs ha fits = ground (
  arith,
  read_last n w acc s i rest,
  split_group w s,
  group_bound w s,
  read_inner n (w % 128) acc s i (groups k (w / 128) ++ rest),
  read-groups k n (w / 128) (acc + w % 128 * 2 ^ s) (s + 7) (i + 1) rest (omega arith),
)

read-groups_refused :
    (k n w acc s i : ℕ) (rest : List ℕ)
    → w < 128 ^ suc k
    → i ≤ n
    → n < i + length (groups k w)
    → s + 7 * k < 64
    → acc < 2 ^ s
    → IsU64 (acc + w * 2 ^ s)
    → read_uleb128_loop true n (groups k w ++ rest) i acc s ≡ refused
unfolding groups
read-groups_refused zero n w acc s i rest hw hi hn hs ha fits =
    unfold read_uleb128_loop in ground arith
read-groups_refused (suc k) n w acc s i rest hw hi hn hs ha fits = elim (dec_lt i n) [
  | no stop ↦ unfold read_uleb128_loop in ground arith
  | yes go ↦ ground (
    arith,
    split_group w s,
    group_bound w s,
    read_inner n (w % 128) acc s i (groups k (w / 128) ++ rest),
    read-groups_refused k n (w / 128) (acc + w % 128 * 2 ^ s) (s + 7) (i + 1) rest (omega arith),
  )
]

-- `read_uleb128_n` on what `write_uleb128` wrote, whatever follows it: with room for the whole
-- encoding it stores the value and returns the encoding's length, and with less it returns 0
-- and stores nothing.
pub read_uleb128_n-write_uleb128 :
    (v n : ℕ) (rest : List ℕ)
    → IsU64 v
    → read_uleb128_n (write_uleb128 v ++ rest) n
      ≡ (if leb (length (write_uleb128 v)) n then ok v (length (write_uleb128 v)) else refused)
unfolding read_uleb128_n
read_uleb128_n-write_uleb128 v n rest h =
    rw (write_uleb128-groups v h)
      (ground (arith, read-groups 9 n v 0 0 0 rest, read-groups_refused 9 n v 0 0 0 rest))

-- `read_uleb128` reads back every uint64_t that `write_uleb128` wrote, and its count is the
-- writer's, whatever octets follow.
pub read_uleb128-write_uleb128 :
    (v : ℕ) (rest : List ℕ)
    → IsU64 v
    → read_uleb128 (write_uleb128 v ++ rest) ≡ ok v (length (write_uleb128 v))
unfolding read_uleb128 read_uleb128_n
read_uleb128-write_uleb128 v rest h =
    let all = write_uleb128 v ++ rest in
    ground (
      arith,
      guard-unguarded (length all + 1) 0 all 0 0 0 (omega arith),
      read_uleb128_n-write_uleb128 v (length all + 1) rest h,
      length-append (write_uleb128 v) rest,
    )

read_uleb128_loop_safe :
    (n : ℕ) (buffer : List ℕ) (i value shift : ℕ)
    → n ≤ i + length buffer
    → read_uleb128_loop true n buffer i value shift ≢ overrun
unfolding read_uleb128_loop
read_uleb128_loop_safe n [] i value shift h = ground arith
read_uleb128_loop_safe n (b ∷ rest) i value shift h = ground (
  arith,
  read_uleb128_loop_safe n rest (i + 1) (bit_or value (payload b shift)) (shift + 7) (omega arith),
)

-- The guarded reader never reads behind a buffer of `n` octets or more, whatever it holds.
pub read_uleb128_n_safe :
    (buffer : List ℕ) (n : ℕ) → n ≤ length buffer → read_uleb128_n buffer n ≢ overrun
unfolding read_uleb128_n
read_uleb128_n_safe buffer n h = read_uleb128_loop_safe n buffer 0 0 0 (omega arith)
