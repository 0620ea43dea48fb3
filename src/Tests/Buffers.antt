-- ===== src/Tests/Buffers.antt =====
-- The string buffer at concrete texts; unset memory holds the byte 170.
use luavela.Base.{◌≡◌, refl, some, [], ◌∷◌, arith, replicate}
use luavela.Leb128.{write_uleb128}
use luavela.Cstr.{uj_cstr_fromint}
use luavela.Sbuf.{Sbuf, uj_sbuf_init, uj_sbuf_reserve, uj_sbuf_shrink_tmp, uj_sbuf_push_char}
use luavela.Sbuf.{
  uj_sbuf_push_int, uj_sbuf_push_uleb128, uj_sbuf_push_block, sbuf_fit, sbuf_realloc,
}
use luavela.Sbuf.{double_up}
use luavela.Sbuf.Growth.{IsValid, Reserved, uj_sbuf_reserve_lem}
use luavela.Sbuf.Pushes.{Pushed, pushes-append}

empty-IsValid : IsValid uj_sbuf_init
unfolding uj_sbuf_init
empty-IsValid = record { fits = omega arith; memory = refl; small = omega arith }

abbrev two_bytes : Sbuf
two_bytes = record { sz = 2; cap = 4; buf = b'o' ∷ b'k' ∷ 170 ∷ 170 ∷ [] }

two_bytes-IsValid : IsValid two_bytes
two_bytes-IsValid = record { fits = omega arith; memory = refl; small = omega arith }

program : Unit {0}
unfolding uj_sbuf_init uj_sbuf_reserve uj_sbuf_push_char uj_sbuf_push_block sbuf_fit sbuf_realloc
    double_up uj_sbuf_shrink_tmp
program = tt

-- The first push makes room for 32 bytes.
first_push :
    uj_sbuf_push_char 170 uj_sbuf_init b'a'
    ≡ some record { sz = 1; cap = 32; buf = b'a' ∷ replicate 31 170 }
unfolding program
first_push = refl

uj_sbuf_reserve_example : Reserved two_bytes 40 (uj_sbuf_reserve 170 two_bytes 40)
uj_sbuf_reserve_example = uj_sbuf_reserve_lem 170 two_bytes 40 two_bytes-IsValid

pushes-append_example :
    Pushed two_bytes 1 (b'!' ∷ []) (uj_sbuf_push_char 170 two_bytes b'!')
    × Pushed two_bytes 11 (uj_cstr_fromint 12) (uj_sbuf_push_int 170 two_bytes 12)
    × Pushed two_bytes 10 (write_uleb128 300) (uj_sbuf_push_uleb128 170 two_bytes 300)
    × Pushed two_bytes 2 (1 ∷ 2 ∷ []) (uj_sbuf_push_block 170 two_bytes (1 ∷ 2 ∷ []))
pushes-append_example =
    pushes-append 170 two_bytes b'!' 12 300 (1 ∷ 2 ∷ []) two_bytes-IsValid (omega arith)
      (omega arith) (omega arith)
