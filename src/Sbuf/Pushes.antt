-- ===== src/Sbuf/Pushes.antt =====
-- Every push appends its bytes.
use luavela.Base.{ℕ, suc, ◌+◌, ◌%◌, ◌^◌, ◌<◌, ◌≤◌, ◌≡◌, refl, sym, ap, ◌∙◌, subst, arith, max}
use luavela.Base.{Bool-cases, inl, inr, Option, none, some}
use luavela.Base.{
  List, [], ◌∷◌, ◌++◌, length, take, drop, length-append, length-take, length-drop, ltb, ltb→lt,
  ltb→le,
}
use luavela.Leb128.{write_uleb128, IsU64}
use luavela.Leb128.Unsigned.{write_uleb128_shape}
use luavela.Cstr.{uj_cstr_fromint}
use luavela.Cstr.Decimal.{uj_cstr_fromint-IsDecimal}
use luavela.Sbuf.{Sbuf, put_fitted, store, sbuf_fit, fit_and_put, lj_max_sbuf}
use luavela.Sbuf.{uj_sbuf_push_char, uj_sbuf_push_int, uj_sbuf_push_uleb128, uj_sbuf_push_block}
use luavela.Sbuf.Growth.{IsValid, text, reserve_cases}

take-length_append : (xs ys : List ℕ) (k : ℕ) → take (length xs + k) (xs ++ ys) ≡ xs ++ take k ys
take-length_append [] ys k = let e : 0 + k ≡ k = omega arith in rw e refl
take-length_append (x ∷ xs) ys k =
    let e : suc (length xs) + k ≡ suc (length xs + k) = omega arith in
    rw (e, take-length_append xs ys k) refl

take-length_self : (xs ys : List ℕ) → take (length xs) (xs ++ ys) ≡ xs
take-length_self [] ys = refl
take-length_self (x ∷ xs) ys = ap (λ t. x ∷ t) (take-length_self xs ys)

-- A store inside the memory: its length stays, and the bytes stand behind those in use.
store_lem :
    (at : ℕ) (bytes buf : List ℕ)
    → at + length bytes ≤ length buf
    → (length (store at bytes buf) ≡ length buf)
      × (take (at + length bytes) (store at bytes buf) ≡ take at buf ++ bytes)
store_lem at bytes buf h =
    let front : length (take at buf) ≡ at = omega (arith, length-take at buf) in
    (
      length-append (take at buf) _
          ∙ omega (
            arith,
            length-append bytes (drop (at + length bytes) buf),
            length-drop (at + length bytes) buf,
          ),
      subst (λ n. take (n + length bytes) (store at bytes buf) ≡ take at buf ++ bytes) front
          (take-length_append (take at buf) _ (length bytes)
            ∙ ap (λ t. take at buf ++ t) (take-length_self bytes _)),
    )

-- What a push of `bytes` answers when it asks for `add` bytes.
abbrev pub Pushed : Sbuf → ℕ → List ℕ → Option Sbuf → Type 0
Pushed sb add bytes none = (sb.cap < sb.sz + add) × (lj_max_sbuf < sb.sz + add)
Pushed sb add bytes (some sb') =
    IsValid sb' × (text sb' ≡ text sb ++ bytes) × (sb.sz + add ≤ max sb.cap lj_max_sbuf)

push_lem :
    (unset : ℕ) (sb : Sbuf) (add : ℕ) (bytes : List ℕ)
    → IsValid sb
    → length bytes ≤ add
    → add < 2 ^ 63
    → Pushed sb add bytes (fit_and_put unset add bytes sb)
unfolding sbuf_fit
push_lem unset sb add bytes v room small =
    let n = (sb.sz + add) % 2 ^ 64 in
    let e : n ≡ sb.sz + add = omega (arith, v.fits, v.small) in
    let (refused, granted) = reserve_cases unset sb n v in
    elim (Bool-cases (ltb (max sb.cap lj_max_sbuf) n)) [
      | inl over ↦
          let above = ltb→lt _ n over in
          subst (λ r. Pushed sb add bytes (put_fitted bytes r))
            (sym (refused (omega arith) (omega arith)))
            (omega (arith, e, above), omega (arith, e, above))
      | inr below ↦
          let (sb', answer, v', wide, same, sz, _) = granted (ltb→le _ n below) in
          let inside : sb'.sz + length bytes ≤ length sb'.buf =
            omega (arith, v'.memory, sz, e, wide, room) in
          let (long, put) = store_lem sb'.sz bytes sb'.buf inside in
          subst (λ r. Pushed sb add bytes (put_fitted bytes r)) (sym answer)
            (
              record {
                fits = omega (arith, v'.memory, inside);
                memory = long ∙ v'.memory;
                small = v'.small;
              },
              put ∙ ap (λ t. t ++ bytes) same,
              omega (arith, ltb→le _ n below),
            )
    ]

fromint_short : (n : ℕ) → n < 2 ^ 32 → length (uj_cstr_fromint n) ≤ 11
fromint_short n h =
    let (ds, printed, d) = uj_cstr_fromint-IsDecimal n h in
    rw printed (elim (Bool-cases (ltb n (2 ^ 31))) [
      | inl e ↦ rw e (omega (arith, d.ten_digits))
      | inr e ↦ rw e (omega (arith, d.ten_digits))
    ])

-- Each push on a valid buffer appends exactly its bytes and keeps the buffer valid, so that no
-- byte is written outside its memory. It throws only where the space that
-- it asks for is more than the capacity and more than the greatest size: 1 byte for a character,
-- 11 for an int32_t, 10 for a ULEB128 number, and the length of a block.
pub pushes-append :
    (unset : ℕ) (sb : Sbuf) (c n value : ℕ) (src : List ℕ)
    → IsValid sb
    → n < 2 ^ 32
    → IsU64 value
    → length src < 2 ^ 63
    → Pushed sb 1 (c ∷ []) (uj_sbuf_push_char unset sb c)
      × Pushed sb 11 (uj_cstr_fromint n) (uj_sbuf_push_int unset sb n)
      × Pushed sb 10 (write_uleb128 value) (uj_sbuf_push_uleb128 unset sb value)
      × Pushed sb (length src) src (uj_sbuf_push_block unset sb src)
unfolding uj_sbuf_push_char uj_sbuf_push_int uj_sbuf_push_uleb128 uj_sbuf_push_block
pushes-append unset sb c n value src v hn hv hs = (
  push_lem unset sb 1 (c ∷ []) v (omega arith) (omega arith),
  push_lem unset sb 11 (uj_cstr_fromint n) v (fromint_short n hn) (omega arith),
  push_lem unset sb 10 (write_uleb128 value) v (write_uleb128_shape value hv).2 (omega arith),
  push_lem unset sb (length src) src v (omega arith) hs,
)
