-- ===== src/Leb128/Signed/Groups.antt =====
-- LEB128: the octets that `write_leb128` writes for a two's complement pattern.
use luavela.Base.{ℕ, zero, suc, ◌+◌, ◌*◌, ◌%◌, ◌^◌, ◌≤◌, ◌<◌}
use luavela.Base.{◌≡◌, List, [], ◌∷◌, ◌++◌, append_assoc, arith}
use luavela.Base.{ltb, length, All, if◌then◌else◌}
use luavela.Base.{bit_and}
use luavela.Base.Bits.{bit_and_mask}
use luavela.Base.Order.{Smaller, ends}
use mathlib.Core.WellFounded.{Acc}
use luavela.Leb128.{IsU64, sar7, biased, magnitude}
use luavela.Leb128.{write_leb128_loop, write_leb128}
use luavela.Leb128.Unsigned.{linked_octet_lem}

-- The groups of seven bits, lowest first, of a pattern whose magnitude is below 64 * 128 ^ k.
unfoldable pub signed_groups : ℕ → ℕ → List ℕ
signed_groups zero v = (v % 128) ∷ []
signed_groups (suc k) v =
    let more = (v % 128 + 128) ∷ signed_groups k (sar7 v) in
    if ltb (biased v) 128 then (v % 128) ∷ [] else more

last_group_lem : (v : ℕ) → bit_and v 0x7f % 256 ≡ v % 128
last_group_lem v = rw (bit_and_mask 7 v) (omega arith)

sar7_bounds :
    (k v : ℕ)
    → IsU64 v
    → magnitude v < 64 * 128 ^ suc k
    → IsU64 (sar7 v) × (magnitude (sar7 v) < 64 * 128 ^ k)
sar7_bounds k v h m = ground arith

write_leb128_loop-groups :
    (k : ℕ) (out : List ℕ) (v : ℕ) (w : Acc (Smaller magnitude) v)
    → IsU64 v
    → magnitude v < 64 * 128 ^ k
    → write_leb128_loop out v w ≡ out ++ signed_groups k v
unfolding write_leb128_loop signed_groups
write_leb128_loop-groups zero out v (Acc.intro _ smaller) h m = ground (arith, last_group_lem v)
write_leb128_loop-groups (suc k) out v (Acc.intro _ smaller) h m =
    let head : List ℕ = (v % 128 + 128) ∷ [] in
    let next = sar7_bounds k v h m in
    grind (
      arith,
      linked_octet_lem v,
      last_group_lem v,
      λ (w : Acc (Smaller magnitude) (sar7 v)).
          write_leb128_loop-groups k (out ++ head) (sar7 v) w next.0 next.1,
      append_assoc out head (signed_groups k (sar7 v)),
    )

pub write_leb128-groups :
    (k v : ℕ) → IsU64 v → magnitude v < 64 * 128 ^ k → write_leb128 v ≡ signed_groups k v
unfolding write_leb128
write_leb128-groups k v h m = write_leb128_loop-groups k [] v (ends magnitude v) h m

signed_groups_shape :
    (k v : ℕ)
    → All (λ b. b < 256) (signed_groups k v)
      × (1 ≤ length (signed_groups k v))
      × (length (signed_groups k v) ≤ k + 1)
unfolding signed_groups
signed_groups_shape zero v = omega arith
signed_groups_shape (suc k) v = ground (arith, signed_groups_shape k (sar7 v))

-- The signed writer writes 1 to 10 octets, whatever int64_t it is given.
pub write_leb128_shape :
    (v : ℕ)
    → IsU64 v
    → All (λ b. b < 256) (write_leb128 v)
      × (1 ≤ length (write_leb128 v))
      × (length (write_leb128 v) ≤ 10)
write_leb128_shape v h = rw (write_leb128-groups 9 v h (ground arith)) (signed_groups_shape 9 v)
