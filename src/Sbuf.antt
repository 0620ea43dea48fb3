-- ===== src/Sbuf.antt =====
-- src/uj_sbuf.c and src/uj_sbuf.h: the string buffer that grows. `buf` is the memory of `cap`
-- bytes, of which the first `sz` are in use. A push returns no buffer where the source throws the
-- error UJ_ERR_SBUFOV.
pub mod Growth
pub mod Pushes
use luavela.Base.{
  ℕ, zero, suc, ◌+◌, ◌-◌, ◌*◌, ◌/◌, ◌%◌, ◌^◌, ◌<◌, ◌≤◌, ◌≡◌, Bool, true, false, ◌||◌,
}
use luavela.Base.{
  Option, none, some, List, [], ◌∷◌, ◌++◌, ltb, leb, if◌then◌else◌, length, take, drop, replicate,
}
use luavela.Leb128.{write_uleb128, leb128_u64_maxsize}
use luavela.Cstr.{uj_cstr_fromint}

pub record Sbuf : Type 0 where
  pub sz : ℕ
  pub cap : ℕ
  pub buf : List ℕ

abbrev pub lj_min_sbuf : ℕ
lj_min_sbuf = 32

abbrev pub lj_max_sbuf : ℕ
lj_max_sbuf = 0x7fffff00

abbrev pub uj_cstr_intbuf : ℕ
uj_cstr_intbuf = 1 + 10

unfoldable pub uj_sbuf_init : Sbuf
uj_sbuf_init = record { sz = 0; cap = 0; buf = [] }

unfoldable pub uj_sbuf_reset : Sbuf → Sbuf
uj_sbuf_reset sb = record sb { sz = 0 }

-- `while (cap < n) cap *= 2`, at most `turns` times.
unfoldable pub double_up : ℕ → ℕ → ℕ → ℕ
double_up zero cap n = cap
double_up (suc turns) cap n =
    let rest = double_up turns (cap * 2 % 2 ^ 64) n in if ltb cap n then rest else cap

-- Bytes written at `at`; past the end of the memory they would make it longer.
abbrev pub store : ℕ → List ℕ → List ℕ → List ℕ
store at bytes buf = take at buf ++ (bytes ++ drop (at + length bytes) buf)

-- The bytes of a push, written at the end of what is in use.
abbrev pub push_bytes : List ℕ → Sbuf → Sbuf
push_bytes bytes sb = record sb { sz = sb.sz + length bytes; buf = store sb.sz bytes sb.buf }

abbrev pub put_fitted : List ℕ → Option Sbuf → Option Sbuf
put_fitted bytes none = none
put_fitted bytes (some fitted) = some (push_bytes bytes fitted)

-- Each byte that realloc adds has the value `unset`.
module _ (unset : ℕ) where
  unfoldable pub sbuf_realloc : Sbuf → ℕ → Sbuf
  sbuf_realloc sb n = record sb { cap = n; buf = take n sb.buf ++ replicate (n - sb.cap) unset }

  unfoldable pub uj_sbuf_shrink_tmp : Sbuf → Sbuf
  uj_sbuf_shrink_tmp sb =
      let new_capacity = sb.cap / 2 in
      if ltb new_capacity sb.sz
      then sb
      else if ltb new_capacity lj_min_sbuf
      then sb
      else sbuf_realloc sb new_capacity

  unfoldable pub uj_sbuf_reserve : Sbuf → ℕ → Option Sbuf
  uj_sbuf_reserve sb n =
      let cap = if ltb sb.cap lj_min_sbuf then lj_min_sbuf else sb.cap in
      if leb n sb.cap
      then some sb
      else if ltb lj_max_sbuf n
      then none
      else some (sbuf_realloc sb (double_up 32 cap n))

  unfoldable pub sbuf_fit : Sbuf → ℕ → Option Sbuf
  sbuf_fit sb add = uj_sbuf_reserve sb ((sb.sz + add) % 2 ^ 64)

  abbrev pub fit_and_put : ℕ → List ℕ → Sbuf → Option Sbuf
  fit_and_put add bytes sb = put_fitted bytes (sbuf_fit sb add)

  unfoldable pub uj_sbuf_push_char : Sbuf → ℕ → Option Sbuf
  uj_sbuf_push_char sb c = fit_and_put 1 (c ∷ []) sb

  unfoldable pub uj_sbuf_push_int : Sbuf → ℕ → Option Sbuf
  uj_sbuf_push_int sb n = fit_and_put uj_cstr_intbuf (uj_cstr_fromint n) sb

  unfoldable pub uj_sbuf_push_uleb128 : Sbuf → ℕ → Option Sbuf
  uj_sbuf_push_uleb128 sb value = fit_and_put leb128_u64_maxsize (write_uleb128 value) sb

  unfoldable pub uj_sbuf_push_block : Sbuf → List ℕ → Option Sbuf
  uj_sbuf_push_block sb src = fit_and_put (length src) src sb
