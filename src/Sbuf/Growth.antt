-- ===== src/Sbuf/Growth.antt =====
-- Growing and shrinking keep the text of the buffer.
use native.Mathlib.Nat.{pow-succ'}
use luavela.Base.{
  ℕ, zero, suc, ◌-◌, ◌*◌, ◌/◌, ◌%◌, ◌^◌, ◌<◌, ◌≤◌, ◌≡◌, refl, sym, ap, ◌∙◌, subst, arith,
}
use luavela.Base.{Bool-cases, inl, inr, ◌⊎◌, none, some, max}
use luavela.Base.{
  List, [], ◌∷◌, ◌++◌, ltb, leb, ltb→lt, ltb→le, lt→ltb, leb→le, leb→lt, le→ltb, lt→leb,
  if◌then◌else◌, length, take, replicate,
}
use luavela.Base.{length-append, length-take, length-replicate}
use luavela.Base.{Option, none, some}
use luavela.Sbuf.{
  Sbuf, double_up, sbuf_realloc, uj_sbuf_shrink_tmp, uj_sbuf_reserve, lj_min_sbuf, lj_max_sbuf,
}

-- The memory is as long as `cap`, what is in use fits, and doubling cannot overflow.
pub record IsValid (sb : Sbuf) : Type 0 where
  pub fits : sb.sz ≤ sb.cap
  pub memory : length sb.buf ≡ sb.cap
  pub small : sb.cap ≤ 2 ^ 32

-- What the buffer holds.
abbrev pub text : Sbuf → List ℕ
text sb = take sb.sz sb.buf

take-take : (k n : ℕ) (xs : List ℕ) → k ≤ n → take k (take n xs) ≡ take k xs
take-take zero n xs h = refl
take-take (suc k) zero xs h = absurd (omega arith)
take-take (suc k) (suc n) [] h = refl
take-take (suc k) (suc n) (x ∷ xs) h = ap (λ t. x ∷ t) (take-take k n xs (omega arith))

pub take-append_within : (k : ℕ) (xs ys : List ℕ) → k ≤ length xs → take k (xs ++ ys) ≡ take k xs
take-append_within zero xs ys h = refl
take-append_within (suc k) [] ys h = absurd (omega arith)
take-append_within (suc k) (x ∷ xs) ys h =
    ap (λ t. x ∷ t) (take-append_within k xs ys (omega arith))

assoc_lem : (cap m : ℕ) → cap * (2 * m) ≡ cap * 2 * m
assoc_lem cap m = ground arith

double_up_lem :
    (turns cap n : ℕ)
    → n ≤ cap * 2 ^ turns
    → n ≤ 2 ^ 31
    → let r = double_up turns cap n in (n ≤ r) × (cap ≤ r) × ((r ≡ cap) ⊎ (r < 2 * n))
unfolding double_up
double_up_lem zero cap n enough small = (omega arith, omega arith, inl refl)
double_up_lem (suc turns) cap n enough small = elim (Bool-cases (ltb cap n)) [
  | inr done ↦ rw done (ltb→le cap n done, omega arith, inl refl)
  | inl more ↦
      let below = ltb→lt cap n more in
      let e : cap * 2 % 2 ^ 64 ≡ cap * 2 = omega arith in
      let more_turns : cap * 2 ^ suc turns ≡ cap * 2 * 2 ^ turns =
        ap (λ m. cap * m) (pow-succ' 2 turns) ∙ assoc_lem cap (2 ^ turns) in
      let ih = double_up_lem turns (cap * 2) n (subst (λ m. n ≤ m) more_turns enough) small in
      rw (more, e) (ih.0, omega (arith, ih.1), inr (omega (arith, ih.2)))
]

realloc_lem :
    (unset : ℕ) (sb : Sbuf) (n : ℕ)
    → IsValid sb
    → sb.sz ≤ n
    → n ≤ 2 ^ 32
    → let sb' = sbuf_realloc unset sb n in
      IsValid sb' × (text sb' ≡ text sb) × (sb'.sz ≡ sb.sz) × (sb'.cap ≡ n)
unfolding sbuf_realloc
realloc_lem unset sb n v h small = (
  record {
    fits = h;
    memory =
        length-append (take n sb.buf) (replicate (n - sb.cap) unset)
        ∙ omega (arith, length-take n sb.buf, length-replicate (n - sb.cap) unset, v.memory);
    small = small;
  },
  take-append_within sb.sz (take n sb.buf) _ (omega (arith, length-take n sb.buf, v.memory, v.fits))
      ∙ take-take sb.sz n sb.buf h,
  refl,
  refl,
)

pub reserve_cases :
    (unset : ℕ) (sb : Sbuf) (n : ℕ)
    → IsValid sb
    → (sb.cap < n → lj_max_sbuf < n → uj_sbuf_reserve unset sb n ≡ none)
      × (n ≤ max sb.cap lj_max_sbuf
          → (sb' : Sbuf) × (uj_sbuf_reserve unset sb n ≡ some sb')
            × IsValid sb'
            × (n ≤ sb'.cap)
            × (text sb' ≡ text sb)
            × (sb'.sz ≡ sb.sz)
            × (sb'.cap ≤ max sb.cap (max lj_min_sbuf (2 * n))))
unfolding uj_sbuf_reserve
reserve_cases unset sb n v = (
  λ big over. rw (lt→leb n sb.cap big, lt→ltb lj_max_sbuf n over) refl,
  λ h. elim (Bool-cases (leb n sb.cap)) [
    | inl here ↦ (sb, rw here refl, v, leb→le n sb.cap here, refl, refl, omega arith)
    | inr grow ↦
        let first = if ltb sb.cap 32 then 32 else sb.cap in
        let start : (32 ≤ first) × (sb.cap ≤ first) × (first ≤ max sb.cap 32) = ground arith in
        let more : sb.cap < n = leb→lt n sb.cap grow in
        let (reached, above, bounded) = double_up_lem 32 first n (omega arith) (omega arith) in
        let r = double_up 32 first n in
        let size : r ≤ max sb.cap (max 32 (2 * n)) = elim bounded [
          | inl e ↦ omega (arith, e, start)
          | inr e ↦ omega (arith, e)
        ] in
        let (v', same, sz, cap) =
          realloc_lem unset sb r v (omega (arith, v.fits)) (omega (arith, v.small)) in
        (
          sbuf_realloc unset sb r,
          rw (grow, le→ltb lj_max_sbuf n (omega arith)) refl,
          v',
          omega arith,
          same,
          sz,
          omega arith,
        )
  ],
)

-- What `uj_sbuf_reserve` answers: nothing where it throws.
abbrev pub Reserved : Sbuf → ℕ → Option Sbuf → Type 0
Reserved sb n none = (sb.cap < n) × (lj_max_sbuf < n)
Reserved sb n (some sb') =
    IsValid sb'
    × (n ≤ sb'.cap)
    × (text sb' ≡ text sb)
    × (sb'.cap ≤ max sb.cap (max lj_min_sbuf (2 * n)))

-- `uj_sbuf_reserve` on a valid buffer: it throws only if it must grow past the greatest size;
-- otherwise the buffer has the capacity asked for, with the same text, and a new capacity is at
-- most the larger of 32 bytes and twice what was asked for.
pub uj_sbuf_reserve_lem :
    (unset : ℕ) (sb : Sbuf) (n : ℕ) → IsValid sb → Reserved sb n (uj_sbuf_reserve unset sb n)
uj_sbuf_reserve_lem unset sb n v =
    let (refused_, granted) = reserve_cases unset sb n v in
    elim (Bool-cases (ltb (max sb.cap lj_max_sbuf) n)) [
      | inl over ↦
          let above = ltb→lt _ n over in
          subst (Reserved sb n) (sym (refused_ (omega arith) (omega arith)))
            (omega (arith, above), omega (arith, above))
      | inr below ↦
          let (sb', answer, v', wide, same, sz, bounded) = granted (ltb→le _ n below) in
          subst (Reserved sb n) (sym answer) (v', wide, same, bounded)
    ]

-- `uj_sbuf_shrink_tmp` keeps the text and the validity of the buffer; its capacity stays or is
-- halved, and then is at least 32 bytes.
pub uj_sbuf_shrink_tmp_lem :
    (unset : ℕ) (sb : Sbuf)
    → IsValid sb
    → let sb' = uj_sbuf_shrink_tmp unset sb in
      IsValid sb'
      × (text sb' ≡ text sb)
      × ((sb'.cap ≡ sb.cap) ⊎ ((sb'.cap ≡ sb.cap / 2) × (lj_min_sbuf ≤ sb'.cap)))
unfolding uj_sbuf_shrink_tmp
uj_sbuf_shrink_tmp_lem unset sb v =
    let half = sb.cap / 2 in
    elim (Bool-cases (ltb half sb.sz)) [
      | inl e ↦ rw e (v, refl, inl refl)
      | inr e ↦ elim (Bool-cases (ltb half lj_min_sbuf)) [
        | inl e' ↦ rw (e, e') (v, refl, inl refl)
        | inr e' ↦
            let r = realloc_lem unset sb half v (ltb→le half sb.sz e) (omega (arith, v.small)) in
            rw (e, e') (r.0, r.1, inr (r.3, subst (λ c. 32 ≤ c) (sym r.3) (ltb→le half 32 e')))
      ]
    ]
