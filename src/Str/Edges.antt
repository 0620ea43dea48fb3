-- ===== src/Str/Edges.antt =====
-- The case of a text, and the spaces around it.
use luavela.Base.{ℕ, zero, suc, ◌+◌, ◌-◌, ◌≤◌, ◌<◌, ◌≡◌, refl, sym, ◌∙◌, subst, arith}
use luavela.Base.{true, false, ◌&&◌, Bool-cases, inl, inr, ◌⊎◌, some}
use luavela.Base.{
  List, [], ◌∷◌, ◌==◌, leb, if◌then◌else◌, length, drop, take, get_or, All, eqb→eq, length-drop,
  length-take, true≢false,
}
use luavela.Base.Bits.{all_below, all_below_sound}
use luavela.Chars.{lj_char_flipcase, lj_char_tolower, lj_char_toupper}
use luavela.Strhash.{GcStr}
use luavela.Str.{
  GlobalState, flip_bytes, str_flip_case, uj_str_lower, uj_str_upper, uj_str_new, uj_str_trim,
  skip_left, skip_right, is_space,
}

abbrev pub map_bytes : (ℕ → ℕ) → List ℕ → List ℕ
map_bytes f [] = []
map_bytes f (c ∷ s) = f c ∷ map_bytes f s

lower_table :
    all_below
      (λ c. (if leb b'A' c && leb c b'Z' then lj_char_flipcase c else c) == lj_char_tolower c)
      256
    ≡ true
unfolding all_below lj_char_flipcase lj_char_tolower
lower_table = refl

upper_table :
    all_below
      (λ c. (if leb b'a' c && leb c b'z' then lj_char_flipcase c else c) == lj_char_toupper c)
      256
    ≡ true
unfolding all_below lj_char_flipcase lj_char_toupper
upper_table = refl

flip-lower :
    (s : List ℕ) → All (λ c. c < 256) s → flip_bytes b'A' b'Z' s ≡ map_bytes lj_char_tolower s
unfolding flip_bytes
flip-lower [] o = refl
flip-lower (c ∷ s) o =
    rw (eqb→eq _ _ (all_below_sound _ 256 c lower_table o.0), flip-lower s o.1) refl

flip-upper :
    (s : List ℕ) → All (λ c. c < 256) s → flip_bytes b'a' b'z' s ≡ map_bytes lj_char_toupper s
unfolding flip_bytes
flip-upper [] o = refl
flip-upper (c ∷ s) o =
    rw (eqb→eq _ _ (all_below_sound _ 256 c upper_table o.0), flip-upper s o.1) refl

-- For a text of bytes, `uj_str_lower` and `uj_str_upper` give the string of the letters that
-- `lj_char_tolower` and `lj_char_toupper` give one by one.
pub str_flip_case_lem :
    (hashf : List ℕ → ℕ) (g : GlobalState) (s : GcStr)
    → All (λ c. c < 256) s.payload
    → (uj_str_lower hashf g s ≡ uj_str_new hashf g (map_bytes lj_char_tolower s.payload))
      × (uj_str_upper hashf g s ≡ uj_str_new hashf g (map_bytes lj_char_toupper s.payload))
unfolding uj_str_lower uj_str_upper str_flip_case
str_flip_case_lem hashf g s o = (rw (flip-lower s.payload o) refl, rw (flip-upper s.payload o) refl)

-- `t` is the part of `s` from `from` on that starts and ends with no space, with nothing but
-- spaces around it.
pub record IsTrimmed (s t : List ℕ) : Type 0 where
  pub from : ℕ
  pub part : t ≡ take (length t) (drop from s)
  pub within : from + length t ≤ length s
  pub before : (i : ℕ) → i < from → is_space (get_or s i 0) ≡ true
  pub behind : (i : ℕ) → from + length t ≤ i → i < length s → is_space (get_or s i 0) ≡ true
  pub ends :
      (t ≡ [])
      ⊎ ((is_space (get_or s from 0) ≡ false)
          × (is_space (get_or s (from + length t - 1) 0) ≡ false))

space_before :
    (c : ℕ) (s : List ℕ) (n : ℕ)
    → is_space c ≡ true
    → ((i : ℕ) → i < n → is_space (get_or s i 0) ≡ true)
    → (i : ℕ) → i < suc n
    → is_space (get_or (c ∷ s) i 0) ≡ true
space_before c s n here later zero h = here
space_before c s n here later (suc i) h = later i (omega arith)

space_at_end :
    (s : List ℕ) (right k : ℕ)
    → is_space (get_or s (suc right) 0) ≡ true
    → ((i : ℕ) → k < i → i ≤ right → is_space (get_or s i 0) ≡ true)
    → (i : ℕ) → k < i
    → i ≤ suc right
    → is_space (get_or s i 0) ≡ true
space_at_end s right k here earlier i above h = elim (Bool-cases (i == suc right)) [
  | inl last ↦ subst (λ n. is_space (get_or s n 0) ≡ true) (sym (eqb→eq i (suc right) last)) here
  | inr other ↦ earlier i above (ground arith)
]

-- How many characters at the beginning are spaces.
skip_left_lem :
    (left : ℕ) (s : List ℕ)
    → (n : ℕ) × (skip_left left s ≡ left + n)
      × (n ≤ length s)
      × ((i : ℕ) → i < n → is_space (get_or s i 0) ≡ true)
      × ((n ≡ length s) ⊎ (is_space (get_or s n 0) ≡ false))
unfolding skip_left
skip_left_lem left [] = (0, omega arith, omega arith, λ i h. absurd (omega arith), inl refl)
skip_left_lem left (c ∷ s) =
    let (n, e, le, spaces, end) = skip_left_lem (left + 1) s in
    elim (Bool-cases (is_space c)) [
      | inl space ↦ rw space (
        suc n,
        omega (arith, e),
        omega arith,
        space_before c s n space spaces,
        elim end [ inl all ↦ inl (omega arith) | inr black ↦ inr black ],
      )
      | inr other ↦ rw other (0, omega arith, omega arith, λ i h. absurd (omega arith), inr other)
    ]

skip_right_lem :
    (s : List ℕ) (right stop : ℕ)
    → stop ≤ right
    → is_space (get_or s stop 0) ≡ false
    → (stop ≤ skip_right s right)
      × (skip_right s right ≤ right)
      × (is_space (get_or s (skip_right s right) 0) ≡ false)
      × ((i : ℕ) → skip_right s right < i → i ≤ right → is_space (get_or s i 0) ≡ true)
unfolding skip_right
skip_right_lem s zero stop h black =
    let e : stop ≡ 0 = omega arith in
    (
      omega arith,
      omega arith,
      subst (λ n. is_space (get_or s n 0) ≡ false) e black,
      λ i a b. absurd (omega arith),
    )
skip_right_lem s (suc right) stop h black = elim (Bool-cases (is_space (get_or s (suc right) 0))) [
  | inr other ↦ rw other (h, omega arith, other, λ i a b. absurd (omega arith))
  | inl space ↦ elim (Bool-cases (stop == suc right)) [
    | inl last ↦
        let e = eqb→eq stop (suc right) last in
        absurd (true≢false (sym space ∙ subst (λ n. is_space (get_or s n 0) ≡ false) e black))
    | inr other ↦
        let (above, below, end, spaces) = skip_right_lem s right stop (ground arith) black in
        rw space (above, omega arith, end, space_at_end s right _ space spaces)
  ]
]

nothing_left :
    (s : List ℕ) (from : ℕ)
    → from ≡ length s
    → ((i : ℕ) → i < from → is_space (get_or s i 0) ≡ true)
    → IsTrimmed s []
nothing_left s from e spaces = record {
  from = from;
  part = refl;
  within = omega arith;
  before = spaces;
  behind = λ i above h. absurd (omega arith);
  ends = inl refl;
}

take-IsTrimmed :
    (s : List ℕ) (left right : ℕ)
    → left ≤ right
    → right < length s
    → ((i : ℕ) → i < left → is_space (get_or s i 0) ≡ true)
    → ((i : ℕ) → right < i → i ≤ length s - 1 → is_space (get_or s i 0) ≡ true)
    → is_space (get_or s left 0) ≡ false
    → is_space (get_or s right 0) ≡ false
    → IsTrimmed s (take (right - left + 1) (drop left s))
take-IsTrimmed s left right le lt before behind first last =
    let n : length (take (right - left + 1) (drop left s)) ≡ right - left + 1 =
      omega (arith, length-take (right - left + 1) (drop left s), length-drop left s) in
    let end : left + length (take (right - left + 1) (drop left s)) - 1 ≡ right = omega arith in
    record {
      from = left;
      part = rw n refl;
      within = omega arith;
      before = before;
      behind = λ i above h. behind i (omega arith) (omega arith);
      ends = inr (first, rw end last);
    }

trim_new : (hashf : List ℕ → ℕ) (g : GlobalState) → uj_str_new hashf g [] ≡ some (g.strempty, g)
unfolding uj_str_new
trim_new hashf g = refl

-- `uj_str_trim` gives the string of the text without the spaces at its beginning and its end,
-- which is the empty one if there are only spaces.
pub uj_str_trim-IsTrimmed :
    (hashf : List ℕ → ℕ) (g : GlobalState) (str : GcStr)
    → (t : List ℕ) × (uj_str_trim hashf g str ≡ uj_str_new hashf g t) × IsTrimmed str.payload t
unfolding uj_str_trim
uj_str_trim-IsTrimmed hashf g str =
    let s = str.payload in
    let (n, e, le, spaces, end) = skip_left_lem 0 s in
    let at_n : skip_left 0 s ≡ n = omega arith in
    elim (Bool-cases (length s == 0)) [
      | inl none_at_all ↦ (
        [],
        rw none_at_all (sym (trim_new hashf g)),
        nothing_left s 0 (ground arith) (λ i h. absurd (omega arith)),
      )
      | inr some_ ↦ elim (Bool-cases (n == length s)) [
        | inl only_spaces ↦ (
          [],
          rw (some_, at_n, only_spaces) (sym (trim_new hashf g)),
          nothing_left s n (eqb→eq n (length s) only_spaces) spaces,
        )
        | inr more ↦
            let black : is_space (get_or s n 0) ≡ false = elim end [
              | inl all ↦ absurd (ground arith)
              | inr b ↦ b
            ] in
            let (above, below, last, behind) =
              skip_right_lem s (length s - 1) n (ground arith) black in
            let right = skip_right s (length s - 1) in
            (
              take (right - n + 1) (drop n s),
              rw (some_, at_n, more) refl,
              take-IsTrimmed s n right above (ground arith) spaces behind black last,
            )
      ]
    ]
