-- ===== src/Leb128/Signed.antt =====
-- LEB128: where the signed reader reads back what the writer wrote, and where its sign
-- extension shifts an int too far.
pub mod Groups
mod Octets
use luavela.Base.{ℕ, zero, suc, ◌+◌, ◌-◌, ◌*◌, ◌/◌, ◌%◌, ◌^◌, ◌≤◌, ◌<◌}
use luavela.Base.{◌≡◌, refl, sym, ap, ◌∙◌, ◌⊎◌, inl, inr, List, [], ◌∷◌, ◌++◌, append_assoc, arith}
use luavela.Base.{
  Bool, true, false, ltb, leb, length, length-append, All, if◌then◌else◌, ◌==◌, eqb→eq, leb→le,
}
use luavela.Base.{bit_and, bit_or}
use luavela.Base.Bits.{all_below, all_below_sound, sign_bit, top_bit, bit_or_low, bit_and_mask}
use luavela.Base.Order.{Smaller, ends}
use mathlib.Core.WellFounded.{Acc}
use native.Mathlib.Decide.{dec_le}
use native.Mathlib.Nat.{one-le-pow}
use luavela.Leb128.{IsU64, sar7, biased, magnitude, sign_fill, linked_octet}
use luavela.Leb128.{write_leb128_loop, write_leb128, sign_extend}
use luavela.Leb128.{ok, undefined, payload, read_leb128_loop, read_leb128, read_leb128_n}
use luavela.Leb128.Unsigned.{
  linked_octet_lem, split_group, group_bound, add_octet, two_pow_add_seven,
}
use Groups.{signed_groups, write_leb128-groups}
use Octets.{guard-unguarded, read_inner, read_last, add_group, split_neg, sar7_neg, small_payload}
use Octets.{last_neg, last_far}

-- Non-negative numbers: the last octet has no sign bit.
read-groups_pos :
    (k n w acc s i : ℕ) (rest : List ℕ)
    → w < 64 * 128 ^ k
    → w < 2 ^ 63
    → i + length (signed_groups k w) ≤ n
    → s + 7 * k < 64
    → acc < 2 ^ s
    → IsU64 (acc + w * 2 ^ s)
    → read_leb128_loop true n (signed_groups k w ++ rest) i acc s
      ≡ ok (acc + w * 2 ^ s) (i + length (signed_groups k w))
unfolding signed_groups sign_extend
read-groups_pos zero n w acc s i rest hw hp hn hs ha fits =
    ground (arith, read_last n (w % 128) acc s i rest, add_group w acc s, sign_bit (w % 128))
read-groups_pos (suc k) n w acc s i rest hw hp hn hs ha fits = ground (
  arith,
  read_last n (w % 128) acc s i rest,
  add_group w acc s,
  sign_bit (w % 128),
  split_group w s,
  group_bound w s,
  read_inner n (w % 128) acc s i (signed_groups k (w / 128) ++ rest),
  read-groups_pos k n (w / 128) (acc + w % 128 * 2 ^ s) (s + 7) (i + 1) rest (omega arith),
)

-- Negative numbers of up to four groups: the sign extension shifts by at most 28.
read-groups_neg :
    (k n w x acc s i : ℕ) (rest : List ℕ)
    → w + x ≡ 2 ^ 64
    → 1 ≤ x
    → x ≤ 2 ^ 63
    → x ≤ 64 * 128 ^ k
    → i + length (signed_groups k w) ≤ n
    → s + 7 * k ≤ 21
    → acc < 2 ^ s
    → read_leb128_loop true n (signed_groups k w ++ rest) i acc s
      ≡ ok (acc + 2 ^ 64 - x * 2 ^ s) (i + length (signed_groups k w))
unfolding signed_groups
read-groups_neg zero n w x acc s i rest h lo top hi hn hs ha = ground (
  arith,
  read_last n (w % 128) acc s i rest,
  add_group w acc s,
  small_payload w s,
  last_neg w x acc s (i + 1),
)
read-groups_neg (suc k) n w x acc s i rest h lo top hi hn hs ha =
    let next = sar7_neg w x h lo top in
    let sum = add_group w acc s ha (small_payload w s (omega arith)) in
    let ih =
      read-groups_neg k n (sar7 w) ((x + 127) / 128) (acc + w % 128 * 2 ^ s) (s + 7) (i + 1) rest
        next.0 next.1 (omega arith) (omega arith) in
    elim (dec_le x 64) [
      | yes small ↦
          ground (arith, next, read_last n (w % 128) acc s i rest, sum, last_neg w x acc s (i + 1))
      | no big ↦ ground (
        arith,
        next,
        sum,
        split_neg w x s h,
        group_bound w s,
        read_inner n (w % 128) acc s i (signed_groups k (sar7 w) ++ rest),
        ih,
      )
    ]

no_groups_left : (j x : ℕ) → 64 * 128 ^ j < 128 * x → x ≤ 64 → j ≡ 0
no_groups_left zero x far hi = refl
no_groups_left (suc j) x far hi = absurd (omega (arith, one-le-pow j 128))

fewer_groups :
    (j x : ℕ) → 64 * 128 ^ j < 128 * x → 1 ≤ x → 64 * 128 ^ (j - 1) < 128 * ((x + 127) / 128)
fewer_groups zero x far lo = omega arith
fewer_groups (suc j) x far lo = let back : suc j - 1 ≡ j = omega arith in rw back (omega arith)

-- Negative numbers with at least `j` more groups before the last one, which is then read at a
-- shift of 25 or more.
read-groups_far :
    (k j n w x acc s i : ℕ) (rest : List ℕ)
    → w + x ≡ 2 ^ 64
    → 1 ≤ x
    → x ≤ 2 ^ 63
    → x ≤ 64 * 128 ^ k
    → 64 * 128 ^ j < 128 * x
    → i + length (signed_groups k w) ≤ n
    → 25 ≤ s + 7 * j
    → s + 7 * k + 7 < 64
    → read_leb128_loop true n (signed_groups k w ++ rest) i acc s ≡ undefined
unfolding signed_groups
read-groups_far zero j n w x acc s i rest h lo top hi far hn hs ht = ground (
  arith,
  no_groups_left j x far,
  read_last n (w % 128) acc s i rest,
  last_far w x (bit_or acc (payload (w % 128) s)) s (i + 1),
)
read-groups_far (suc k) j n w x acc s i rest h lo top hi far hn hs ht =
    let next = sar7_neg w x h lo top in
    let acc' = bit_or acc (payload (w % 128 + 128) s) in
    let ih =
      read-groups_far k (j - 1) n (sar7 w) ((x + 127) / 128) acc' (s + 7) (i + 1) rest next.0 next.1
        (omega arith) (omega arith) (fewer_groups j x far lo) in
    elim (dec_le x 64) [
      | yes small ↦ ground (
        arith,
        next,
        no_groups_left j x far small,
        read_last n (w % 128) acc s i rest,
        last_far w x (bit_or acc (payload (w % 128) s)) s (i + 1),
      )
      | no big ↦
          ground
            (arith, next, read_inner n (w % 128) acc s i (signed_groups k (sar7 w) ++ rest), ih)
    ]

-- `read_leb128_n` reads back a number that is not negative, or is at least -2 ^ 27, from what
-- `write_leb128` wrote, whatever follows, if all of it may be read.
read_leb128_n-write_leb128 :
    (v n : ℕ) (rest : List ℕ)
    → IsU64 v
    → (v < 2 ^ 63) ⊎ (2 ^ 64 ≤ v + 2 ^ 27)
    → length (write_leb128 v) ≤ n
    → read_leb128_n (write_leb128 v ++ rest) n ≡ ok v (length (write_leb128 v))
unfolding read_leb128_n
read_leb128_n-write_leb128 v n rest h (inl p) hn =
    let e = write_leb128-groups 9 v h (ground arith) in
    ground (arith, read-groups_pos 9 n v 0 0 0 rest)
read_leb128_n-write_leb128 v n rest h (inr q) hn =
    let e = write_leb128-groups 3 v h (ground arith) in
    ground (arith, read-groups_neg 3 n v (2 ^ 64 - v) 0 0 0 rest)

-- `read_leb128` reads back what `write_leb128` wrote, whatever follows, for every int64_t that
-- is not negative or is at least -2 ^ 27 (its pattern is then within 2 ^ 27 of 2 ^ 64).
pub read_leb128-write_leb128 :
    (v : ℕ) (rest : List ℕ)
    → IsU64 v
    → (v < 2 ^ 63) ⊎ (2 ^ 64 ≤ v + 2 ^ 27)
    → read_leb128 (write_leb128 v ++ rest) ≡ ok v (length (write_leb128 v))
unfolding read_leb128 read_leb128_n
read_leb128-write_leb128 v rest h c =
    let all = write_leb128 v ++ rest in
    ground (
      arith,
      guard-unguarded (length all + 1) 0 all 0 0 0 (omega arith),
      read_leb128_n-write_leb128 v (length all + 1) rest h c,
      length-append (write_leb128 v) rest,
    )

-- For the negative numbers from -2 ^ 62 up to -2 ^ 27 - 1 the reader meets what `write_leb128`
-- wrote with an undefined shift: `1 << shift` shifts an int by 32 or more.
pub read_leb128_undefined :
    (v : ℕ) (rest : List ℕ)
    → 2 ^ 64 ≤ v + 2 ^ 62
    → v + 2 ^ 27 < 2 ^ 64
    → read_leb128 (write_leb128 v ++ rest) ≡ undefined
unfolding read_leb128
read_leb128_undefined v rest lo hi =
    let all = write_leb128 v ++ rest in
    let e = write_leb128-groups 8 v (omega arith) (ground arith) in
    ground (
      arith,
      guard-unguarded (length all + 1) 0 all 0 0 0 (omega arith),
      read-groups_far 8 4 (length all + 1) v (2 ^ 64 - v) 0 0 0 rest,
      length-append (write_leb128 v) rest,
    )
