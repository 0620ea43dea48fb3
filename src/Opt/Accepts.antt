-- ===== src/Opt/Accepts.antt =====
-- Which options are accepted.
use luavela.Base.{
  true≢false, ℕ, ◌≡◌, refl, sym, ap, ◌∙◌, ◌⊎◌, inl, inr, Bool, true, false, ◌&&◌, Bool-cases,
  eqb→eq, arith,
}
use luavela.Base.{List, [], ◌∷◌, ◌++◌, ◌==◌, length, drop}
use luavela.Opt.{LuaeOptions, OptParseStatus, opt_parse_ok, opt_parse_error, no_message, Message}
use luavela.Opt.{luae_hashf_murmur, luae_hashf_city, hashf_murmur, hashf_city, itern_on, itern_off}
use luavela.Opt.{
  ext_option_switch, opt_setters, opt_is_prefixed, strcmp_equal, opt_set_hashf, opt_set_itern,
}
use luavela.Opt.{dispatch, cli_opt_parse_kv, hashf_prefix, itern_prefix, report}

-- The options that there are.
pub data Setting : Type 0 where
  murmur : Setting
  city : Setting
  on : Setting
  off : Setting

abbrev pub text : Setting → List ℕ
text murmur = hashf_murmur
text city = hashf_city
text on = itern_on
text off = itern_off

abbrev pub apply : Setting → LuaeOptions → LuaeOptions
apply murmur opt = record opt { hashftype = luae_hashf_murmur }
apply city opt = record opt { hashftype = luae_hashf_city }
apply on opt = record opt { disableitern = false }
apply off opt = record opt { disableitern = true }

and_then : (a b : Bool) → a ≡ true → a && b ≡ true → b ≡ true
and_then a b e h = ground arith

and_first : (a b : Bool) → a ≡ false → a && b ≡ false
and_first a b e = ground arith

strcmp_equal_sound : (s t : List ℕ) → strcmp_equal s t ≡ true → s ≡ t
unfolding strcmp_equal
strcmp_equal_sound [] [] h = refl
strcmp_equal_sound [] (d ∷ t) h = cc
strcmp_equal_sound (c ∷ s) [] h = cc
strcmp_equal_sound (c ∷ s) (d ∷ t) h = elim (Bool-cases (c == d)) [
  | inl e ↦
      let same = eqb→eq c d e in
      let rest = strcmp_equal_sound s t (and_then _ _ e h) in rw (same, rest) refl
  | inr e ↦ absurd (true≢false (sym h ∙ and_first _ _ e))
]

-- An error leaves the options as they were.
abbrev Refused : LuaeOptions → OptParseStatus × LuaeOptions × Message → Type 0
Refused opt r = (r.0 ≡ opt_parse_error) × (r.1 ≡ opt)

hashf_lem :
    (kv : List ℕ) (opt : LuaeOptions)
    → ((v : Setting) × (kv ≡ text v)) ⊎ Refused opt (report kv opt (opt_set_hashf kv opt))
unfolding opt_set_hashf
hashf_lem kv opt = elim (Bool-cases (strcmp_equal kv hashf_murmur)) [
  | inl e ↦ inl (murmur, strcmp_equal_sound kv hashf_murmur e)
  | inr e ↦ elim (Bool-cases (strcmp_equal kv hashf_city)) [
    | inl e' ↦ inl (city, strcmp_equal_sound kv hashf_city e')
    | inr e' ↦ inr (rw (e, e') (refl, refl))
  ]
]

itern_lem :
    (kv : List ℕ) (opt : LuaeOptions)
    → ((v : Setting) × (kv ≡ text v)) ⊎ Refused opt (report kv opt (opt_set_itern kv opt))
unfolding opt_set_itern
itern_lem kv opt = elim (Bool-cases (strcmp_equal kv itern_on)) [
  | inl e ↦ inl (on, strcmp_equal_sound kv itern_on e)
  | inr e ↦ elim (Bool-cases (strcmp_equal kv itern_off)) [
    | inl e' ↦ inl (off, strcmp_equal_sound kv itern_off e')
    | inr e' ↦ inr (rw (e, e') (refl, refl))
  ]
]

dispatch_lem :
    (kv : List ℕ) (opt : LuaeOptions)
    → ((v : Setting) × (kv ≡ text v)) ⊎ Refused opt (dispatch opt_setters kv opt)
unfolding dispatch
dispatch_lem kv opt = elim (Bool-cases (opt_is_prefixed kv hashf_prefix)) [
  | inl e ↦ rw e (hashf_lem kv opt)
  | inr e ↦ elim (Bool-cases (opt_is_prefixed kv itern_prefix)) [
    | inl e' ↦ rw (e, e') (itern_lem kv opt)
    | inr e' ↦ inr (rw (e, e') (refl, refl))
  ]
]

prefixed_lem :
    (s prefix : List ℕ) → opt_is_prefixed s prefix ≡ true → s ≡ prefix ++ drop (length prefix) s
unfolding opt_is_prefixed
prefixed_lem s [] h = refl
prefixed_lem [] (p ∷ prefix) h = cc
prefixed_lem (c ∷ s) (p ∷ prefix) h = elim (Bool-cases (p == c)) [
  | inl e ↦
      let same = eqb→eq p c e in
      let rest = prefixed_lem s prefix (and_then _ _ e h) in
      ap (λ x. x ∷ s) (sym same) ∙ ap (λ t. p ∷ t) rest
  | inr e ↦ absurd (true≢false (sym h ∙ and_first _ _ e))
]

settings_lem :
    (v : Setting) (opt : LuaeOptions)
    → (cli_opt_parse_kv (text v) opt ≡ (opt_parse_ok, apply v opt, no_message))
      × (cli_opt_parse_kv (ext_option_switch ++ text v) opt
          ≡ (opt_parse_ok, apply v opt, no_message))
unfolding cli_opt_parse_kv dispatch opt_is_prefixed opt_set_hashf opt_set_itern strcmp_equal
settings_lem murmur opt = (refl, refl)
settings_lem city opt = (refl, refl)
settings_lem on opt = (refl, refl)
settings_lem off opt = (refl, refl)

others_lem :
    (kv : List ℕ) (opt : LuaeOptions)
    → ((v : Setting) × ((kv ≡ text v) ⊎ (kv ≡ ext_option_switch ++ text v)))
      ⊎ Refused opt (cli_opt_parse_kv kv opt)
unfolding cli_opt_parse_kv
others_lem kv opt = elim (Bool-cases (length kv == 0)) [
  | inl e ↦ inr (rw e (refl, refl))
  | inr e ↦ elim (Bool-cases (opt_is_prefixed kv ext_option_switch)) [
    | inl x ↦ elim (dispatch_lem (drop 2 kv) opt) [
      | inl (v, is) ↦
          inl (v, inr (prefixed_lem kv ext_option_switch x ∙ ap (λ t. ext_option_switch ++ t) is))
      | inr refusal ↦ inr (rw (e, x) refusal)
    ]
    | inr x ↦ elim (dispatch_lem kv opt) [
      | inl (v, is) ↦ inl (v, inl is)
      | inr refusal ↦ inr (rw (e, x) refusal)
    ]
  ]
]

-- The accepted options are hashf=murmur, hashf=city, itern=on and itern=off, each with or without
-- -X before it. Each sets its field, and prints no message; any other text is an error, and
-- leaves the options as they were.
pub cli_opt_parse_kv_accepts :
    ((v : Setting) (opt : LuaeOptions)
      → (cli_opt_parse_kv (text v) opt ≡ (opt_parse_ok, apply v opt, no_message))
        × (cli_opt_parse_kv (ext_option_switch ++ text v) opt
            ≡ (opt_parse_ok, apply v opt, no_message)))
    × ((kv : List ℕ) (opt : LuaeOptions)
        → ((v : Setting) × ((kv ≡ text v) ⊎ (kv ≡ ext_option_switch ++ text v)))
          ⊎ Refused opt (cli_opt_parse_kv kv opt))
cli_opt_parse_kv_accepts = (settings_lem, others_lem)
