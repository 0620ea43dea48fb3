-- ===== src/UjpWrite/Header.antt =====
-- The fields of a frame's header byte.
use luavela.Base.{ℕ, ◌+◌, ◌*◌, ◌%◌, ◌^◌, ◌<◌, bit_or}
use luavela.Base.{◌≡◌, refl, arith}
use luavela.Base.Bits.{bit_or_low, all_below, all_below_sound}
use luavela.Base.{true, ltb, ◌==◌, eqb→eq, if◌then◌else◌}
use luavela.UjpWrite.Frames.{frame_explicit_symbol}
use luavela.UjpWrite.Frames.{write_set_frame_type, write_set_frame_flag}

symbol_table : all_below (λ x. bit_or x 4 == (if ltb (x % 8) 4 then x + 4 else x)) 64 ≡ true
unfolding all_below
symbol_table = refl

-- A header byte keeps the position in its two low bits, the mark of an explicit symbol in the
-- third, and the type of the frame in the next three.
pub header_fields :
    (position type : ℕ)
    → position < 4
    → type < 8
    → (write_set_frame_type position type ≡ position + 8 * type)
      × (write_set_frame_flag (write_set_frame_type position type) frame_explicit_symbol
          ≡ position + 4 + 8 * type)
unfolding write_set_frame_type write_set_frame_flag
header_fields position type hp ht =
    let typed : bit_or position (type * 2 ^ 3) ≡ position + type * 8 =
      bit_or_low 3 type position (omega arith) in
    let marked =
      eqb→eq _ _ (all_below_sound _ 64 (position + 8 * type) symbol_table (omega arith)) in
    let sum : bit_or position (type * 2 ^ 3) % 2 ^ 8 ≡ position + 8 * type = omega arith in
    (sum, rw sum (ground (arith, marked)))
